-- ===== src/Worker/Uploads/Routes.antt =====
-- Rules for the two guards that the publisher's routes share.
use utm_curs_i_orar.Prelude.{
  ℕ, ◌≡◌, refl, sym, subst, false, Option, none, some, ◌∷◌, inl, inr, Option-cases, not,
}
use utm_curs_i_orar.Text.{Text, codes}
use utm_curs_i_orar.Worker.Types.{PendingDescriptor}
use utm_curs_i_orar.Worker.Keys.{pending_descriptor_key}
use utm_curs_i_orar.Worker.Bucket.{Proc, Object, ◌>>=◌}
use utm_curs_i_orar.Worker.Bucket.Rules.{Action, got, History, Ensures, at_done, at_get, at_if}
use utm_curs_i_orar.Worker.Platform.{Platform, Env}
use utm_curs_i_orar.Worker.Instants.{is_snapshot_id, snapshot_work_expired}
use utm_curs_i_orar.Worker.Descriptors.{descriptor_file_error, own_descriptor, read_descriptor}
use utm_curs_i_orar.Worker.Auth.{
  authorize_publisher, authorized, unauthorized, misconfigured, PublisherAuthResult, Credential,
}
use utm_curs_i_orar.Worker.Requests.{Request, Response, failure}
use utm_curs_i_orar.Worker.Uploads.{as_publisher, open_descriptor, with_open_descriptor}

module _ {P : History → Action → Type 0} {Q : History → Response → Type 0}
    (failures : (h : History) (status : ℕ) (code : Text) → Q h (failure status code)) where
  pub at_publisher :
      (p : Platform) (env : Env) (request : Request) (route : Proc Response) (h : History)
      → ((c : Credential)
          → authorize_publisher p env (request.header (codes "authorization")) ≡ authorized c
          → Ensures P Q h route)
      → Ensures P Q h (as_publisher p env request route)
  unfolding as_publisher
  at_publisher p env request route h e =
      by_result (authorize_publisher p env (request.header (codes "authorization"))) refl
    where
      by_result :
          (r : PublisherAuthResult)
          → authorize_publisher p env (request.header (codes "authorization")) ≡ r
          → Ensures P Q h (as_publisher p env request route)
      by_result (authorized c) eq = rw (eq, as_publisher) (e c eq)
      by_result unauthorized eq = rw (eq, as_publisher) (at_done (failures h _ _))
      by_result misconfigured eq = rw (eq, as_publisher) (at_done (failures h _ _))

  module _ (p : Platform) (now : ℕ) (snapshot_id : Text) (route : PendingDescriptor → Proc Response)
      (h : History) where
    opened :
        (o : Option Object)
        → ((object : Object) (d : PendingDescriptor)
            → o ≡ some object
            → own_descriptor snapshot_id (some object) ≡ some d
            → descriptor_file_error p d ≡ none
            → Ensures P Q h (route d))
        → Ensures P Q h (open_descriptor p route (own_descriptor snapshot_id o))
    unfolding open_descriptor
    opened none e = at_done (failures h _ _)
    opened (some o) e = elim (Option-cases (own_descriptor snapshot_id (some o))) [
      | inl foreign ↦ rw foreign (at_done (failures h _ _))
      | inr (d, own) ↦ rw own (elim (Option-cases (descriptor_file_error p d)) [
        | inr (x, bad) ↦ rw (bad, open_descriptor) (at_done (failures h _ _))
        | inl sound ↦ rw (sound, open_descriptor) (e o d refl own sound)
      ])
    ]

  pub at_open_descriptor :
      (p : Platform) (now : ℕ) (snapshot_id : Text) (route : PendingDescriptor → Proc Response)
      (h : History)
      → ((object : Object) (d : PendingDescriptor)
          → snapshot_work_expired snapshot_id now ≡ false
          → own_descriptor snapshot_id (some object) ≡ some d
          → descriptor_file_error p d ≡ none
          → Ensures P Q (got (pending_descriptor_key snapshot_id) (some object) ∷ h) (route d))
      → Ensures P Q h (with_open_descriptor p now snapshot_id route)
  unfolding with_open_descriptor ◌>>=◌ read_descriptor
  at_open_descriptor p now snapshot_id route h e =
      at_if (not (is_snapshot_id snapshot_id)) (λ bad. at_done (failures h _ _))
        (λ good.
          at_if (snapshot_work_expired snapshot_id now) (λ expired. at_done (failures h _ _))
            (λ in_time. at_get (λ o. opened p now snapshot_id route _ o (λ object d there own sound.
              subst (λ x. Ensures P Q (got (pending_descriptor_key snapshot_id) x ∷ h) (route d))
                (sym there) (e object d in_time own sound)))))
