-- ===== src/Worker/Maintenance/Sweeping/Live.antt =====
-- What the walk over the manifests protects.
use utm_curs_i_orar.Prelude.{
  ℕ, zero, suc, ◌≡◌, refl, sym, ap, Option, none, some, List, [], ◌∷◌, ◌++◌, ◌⊎◌, inl, inr,
  Bool-cases, Option-cases, if◌then◌else◌, arith, append_assoc, append-nil, ◌∙◌,
}
use utm_curs_i_orar.Text.{Text, text_eq}
use utm_curs_i_orar.Worker.Types.{SnapshotManifest}
use utm_curs_i_orar.Worker.Keys.{current_key, snapshot_manifest_key}
use utm_curs_i_orar.Worker.Bucket.{Proc, done, Object}
use utm_curs_i_orar.Worker.Bucket.Rules.{
  got, History, Ensures, at_done, at_get, Ensures-mono, Ensures-since, Happened,
}
use utm_curs_i_orar.Worker.Documents.{as_manifest}
use utm_curs_i_orar.Worker.Platform.{Platform}
use utm_curs_i_orar.Worker.Maintenance.{
  Link, broken_link, root, behind, behind_of, link_of, protect,
}
use utm_curs_i_orar.Worker.Maintenance.Sweeping.{deletions, IsChain, Sweeps}

module _ (p : Platform) (now : ℕ) where
  module _ (first : Option Object) where
    abbrev pub Ready : History → Type 0
    Ready h = Happened (got current_key first) h × (deletions h ≡ 0)

    abbrev pub Guards : ℕ → Text → List Text → History → Option (List Text) → Type 0
    Guards n id ids h none = Unit
    Guards n id ids h (some ids') =
        Ready h × (rest : List Text) × (ids' ≡ ids ++ rest) × IsChain h n id rest

    behind_of-root :
        (ids : List Text) (previous : Option Text) → behind_of ids previous ≡ root → previous ≡ none
    unfolding behind_of
    behind_of-root ids none e = refl
    behind_of-root ids (some previous) e = ground arith

    behind_of-behind :
        (ids : List Text) (previous : Option Text) (id : Text)
        → behind_of ids previous ≡ behind id
        → previous ≡ some id
    unfolding behind_of
    behind_of-behind ids none id e = cc
    behind_of-behind ids (some previous) id e = ground arith

    -- The manifest behind a link that is not broken.
    link_of_lem :
        (id : Text) (ids : List Text) (o : Option Object) (link : Link)
        → link_of id ids o ≡ link
        → (link ≡ broken_link)
          ⊎ ((x : Object) × (m : SnapshotManifest) × (o ≡ some x)
              × (as_manifest x.body ≡ some m)
              × (behind_of ids m.previous_snapshot_id ≡ link))
    unfolding link_of
    link_of_lem id ids none link e = inl (sym e)
    link_of_lem id ids (some o) link e = elim (Option-cases (as_manifest o.body)) [
      | inl bad ↦ inl (sym (rw (bad, link_of) at e))
      | inr (m, is) ↦
          let e' : (if text_eq m.snapshot_id id
                then behind_of ids m.previous_snapshot_id
                else broken_link)
              ≡ link =
            rw (is, link_of) at e in
          elim (Bool-cases (text_eq m.snapshot_id id)) [
            | inl own ↦ inr (o, m, refl, is, rw own at e')
            | inr foreign ↦ inl (sym (rw foreign at e'))
          ]
    ]

    extended :
        (n : ℕ) (id previous : Text) (ids : List Text) (h : History) (r : Option (List Text))
        (x : Object) (m : SnapshotManifest)
        → as_manifest x.body ≡ some m
        → m.previous_snapshot_id ≡ some previous
        → Guards n previous (ids ++ previous ∷ []) h r
          × Happened (got (snapshot_manifest_key id) (some x)) h
        → Guards (suc n) id ids h r
    extended n id previous ids h none x m is at y = tt
    extended n id previous ids h (some ids') x m is at ((ready, rest, e, chain), there) = (
      ready,
      previous ∷ rest,
      e ∙ append_assoc ids (previous ∷ []) rest,
      (x, m, there, is, at, chain),
    )

    by_link :
        (n : ℕ) (h : History) (id : Text) (ids : List Text) (o : Option Object) (link : Link)
        → Ready h
        → link_of id ids o ≡ link
        → ((previous : Text)
            → Ensures
                (Sweeps p now)
                (Guards n previous (ids ++ previous ∷ []))
                (got (snapshot_manifest_key id) o ∷ h)
                (protect n previous (ids ++ previous ∷ [])))
        → Ensures
            (Sweeps p now)
            (Guards (suc n) id ids)
            (got (snapshot_manifest_key id) o ∷ h)
            (elim link as (λ _. Proc (Option (List Text))) [
              | broken_link ↦ done none
              | root ↦ done (some ids)
              | behind previous ↦ protect n previous (ids ++ previous ∷ [])
            ])
    by_link n h id ids o broken_link ready e further = at_done tt
    by_link n h id ids o root (there, none_deleted) e further = elim (link_of_lem id ids o root e) [
      | inl broken ↦ absurd (cc)
      | inr (x, m, there', is, last) ↦ at_done (
        (inr there, none_deleted),
        [],
        sym (append-nil ids),
        (x, m, inl (ap (got (snapshot_manifest_key id)) there'), is, behind_of-root ids _ last),
      )
    ]
    by_link n h id ids o (behind previous) ready e further =
        elim (link_of_lem id ids o (behind previous) e) [
          | inl broken ↦ absurd (cc)
          | inr (x, m, there', is, at) ↦
              Ensures-mono (λ h' a y. y.0)
                (λ h' r y.
                  extended n id previous ids h' r x m is (behind_of-behind ids _ previous at) y)
                (Ensures-since (Happened (got (snapshot_manifest_key id) (some x)))
                  (λ e' h' y. inr y) _ _ (inl (ap (got (snapshot_manifest_key id)) there'))
                  (further previous))
        ]

    pub protect-Guards :
        (n : ℕ) (h : History) (id : Text) (ids : List Text)
        → Ready h
        → Ensures (Sweeps p now) (Guards n id ids) h (protect n id ids)
    unfolding protect
    protect-Guards zero h id ids ready = at_done (ready, [], sym (append-nil ids), tt)
    protect-Guards (suc n) h id ids (there, none_deleted) = at_get (λ o.
        by_link n h id ids o (link_of id ids o) (there, none_deleted) refl
          (λ previous.
            protect-Guards n (got (snapshot_manifest_key id) o ∷ h) previous (ids ++ previous ∷ [])
              (inr there, none_deleted)))
