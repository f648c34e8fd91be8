-- ===== src/Worker/Opening/Resuming.antt =====
-- What opening a publication may write and answer, and what a resumed attempt answers.
use utm_curs_i_orar.Prelude.{
  ◌≡◌, refl, true, ◌&&◌, Option, none, some, List, [], ◌∷◌, ◌⊎◌, inl, inr, Option-cases, All,
  and_true,
}
use utm_curs_i_orar.Text.{Text, text_eq}
use utm_curs_i_orar.Text.Laws.{text_eq_iff}
use utm_curs_i_orar.Worker.Types.{
  PendingDescriptor, OperationRecord, OpenPublicationResult, created, resumed, refused, operation,
  descriptor, bytes, Body, PublicationPlan, needed,
}
use utm_curs_i_orar.Worker.Keys.{operation_key, snapshot_page_api_key, pending_descriptor_key}
use utm_curs_i_orar.Worker.Bucket.{done, Object, if_absent, Meta, ◌>>=◌}
use utm_curs_i_orar.Worker.Bucket.Rules.{
  Action, putting, streaming, deleting, sending, got, wrote, History, Ensures, at_done, at_get,
  at_if, at_bind, Ensures-mono, Ensures-since, Happened,
}
use utm_curs_i_orar.Worker.Platform.{Platform, Env}
use utm_curs_i_orar.Worker.Descriptors.{
  descriptor_file_error, plan_from, own_descriptor, read_descriptor, own_operation, stored_file_ids,
  stored_from,
}
use utm_curs_i_orar.Worker.Instants.{snapshot_id_instant}
use utm_curs_i_orar.Worker.Opening.Plans.{
  IsPlanOf, window-IsExpiry, IsStatus, Settles, map-Entries, stored_from-Settles,
}
use utm_curs_i_orar.Worker.Opening.{resume_with, resume_operation}
use utm_curs_i_orar.Worker.Opening.Publication.{OpenPublicationInput, new_id, new_operation}

module _ (p : Platform) (env : Env) (input : OpenPublicationInput) where
  abbrev pub id : Text
  id = new_id p env input

  -- The bucket created an object at the key.
  abbrev pub IsCreated : History → Text → Body → Type 0
  IsCreated h k b = (m : Meta) × (o : Object) × Happened (wrote k b if_absent m (some o)) h

  abbrev pub HasRecord : History → Type 0
  HasRecord h =
      IsCreated h (operation_key input.operation_id) (operation (new_operation p env input))

  abbrev pub HasPage : History → Type 0
  HasPage h = IsCreated h (snapshot_page_api_key id) (bytes input.page_bytes)

  -- No record of this operation was found.
  abbrev pub IsNew : History → Type 0
  IsNew h =
      (o : Option Object) × Happened (got (operation_key input.operation_id) o) h
      × (own_operation input.operation_id o ≡ none)

  -- The record, then the page, then a descriptor without errors.
  abbrev pub Writes : History → Text → Body → Type 0
  Writes h k b =
      ((k ≡ operation_key input.operation_id)
        × (b ≡ operation (new_operation p env input))
        × IsNew h)
      ⊎ ((k ≡ snapshot_page_api_key id) × (b ≡ bytes input.page_bytes) × HasRecord h)
      ⊎ ((d : PendingDescriptor) × (k ≡ pending_descriptor_key id)
          × (b ≡ descriptor d)
          × (d.snapshot_id ≡ id)
          × (d.operation_id ≡ input.operation_id)
          × (descriptor_file_error p d ≡ none)
          × HasRecord h
          × HasPage h)

  abbrev pub Opens : History → Action → Type 0
  Opens h (putting k b w m) = (w ≡ if_absent) × Writes h k b
  Opens h (streaming k w m) = ⊥
  Opens h (deleting ks) = ⊥
  Opens h (sending j) = ⊥

  -- The plan of the snapshot that this operation was recorded with, under the same payload: of its
  -- own sound descriptor, which is of the same operation and payload too, with each file as stored
  -- when its completion marker was read and as needed when there was none.
  abbrev pub IsResumed : History → PublicationPlan → Type 0
  IsResumed h plan =
      (o x : Object) × (r : OperationRecord) × (d : PendingDescriptor) × Happened
        (got (operation_key input.operation_id) (some o)) h
      × (own_operation input.operation_id (some o) ≡ some r)
      × (text_eq r.page_api_sha256 input.page_api_sha256 ≡ true)
      × Happened (got (pending_descriptor_key r.snapshot_id) (some x)) h
      × (own_descriptor r.snapshot_id (some x) ≡ some d)
      × (descriptor_file_error p d ≡ none)
      × (d.operation_id ≡ r.operation_id)
      × (d.page_api_sha256 ≡ r.page_api_sha256)
      × IsPlanOf p (IsStatus d.snapshot_id h) d plan

  abbrev pub Answers : History → OpenPublicationResult → Type 0
  Answers h (created plan) =
      (d : PendingDescriptor) × HasRecord h
      × HasPage h
      × IsCreated h (pending_descriptor_key id) (descriptor d)
      × (d.snapshot_id ≡ id)
      × (d.operation_id ≡ input.operation_id)
      × IsPlanOf p (λ t status. status ≡ needed) d plan
  Answers h (resumed plan) = IsResumed h plan
  Answers h (refused status code) = Unit

  planned-IsPlanOf :
      (d : PendingDescriptor) (ids : List Text) (h : History)
      → All (Settles d.snapshot_id ids h) d.files
      → IsPlanOf p (IsStatus d.snapshot_id h) d (plan_from p input.now d ids)
  unfolding plan_from
  planned-IsPlanOf d ids h settled = record {
    of_snapshot = refl;
    of_operation = refl;
    of_page = refl;
    of_instant = refl;
    of_window = window-IsExpiry p input.now (snapshot_id_instant d.snapshot_id);
    entries =
        map-Entries d.snapshot_id (IsStatus d.snapshot_id h) (Settles d.snapshot_id ids h) _
          (λ file k. record {
            same_id = refl;
            same_filename = refl;
            same_source_url = refl;
            uploads_to = refl;
            has_status = k;
          })
          d.files settled;
  }

  module _ (r : OperationRecord) (o : Object)
      (own : own_operation input.operation_id (some o) ≡ some r)
      (same : text_eq r.page_api_sha256 input.page_api_sha256 ≡ true) where
    abbrev IsRead : Object → History → Type 0
    IsRead x h =
        Happened (got (operation_key input.operation_id) (some o)) h
        × Happened (got (pending_descriptor_key r.snapshot_id) (some x)) h

    with-Opens :
        (h : History) (x : Object) (d : PendingDescriptor)
        → IsRead x h
        → own_descriptor r.snapshot_id (some x) ≡ some d
        → Ensures Opens Answers h (resume_with p input.now r (some d))
    unfolding resume_with stored_file_ids
    with-Opens h x d (recorded, described) owned =
        at_if (text_eq d.operation_id r.operation_id && text_eq d.page_api_sha256 r.page_api_sha256)
          (λ agrees.
            let (same_operation, same_page) = and_true agrees in
            elim (Option-cases (descriptor_file_error p d)) [
              | inr (e, bad) ↦ rw (bad, resume_with) (at_done tt)
              | inl sound ↦
                  rw (sound, resume_with)
                    (at_bind (λ ids. done (resumed (plan_from p input.now d ids)))
                      (Ensures-mono (λ h' a y. y.0)
                        (λ h' ids y. at_done (
                          o,
                          x,
                          r,
                          d,
                          y.1.0,
                          own,
                          same,
                          y.1.1,
                          owned,
                          sound,
                          (text_eq_iff d.operation_id r.operation_id).0 same_operation,
                          (text_eq_iff d.page_api_sha256 r.page_api_sha256).0 same_page,
                          planned-IsPlanOf d ids h' y.0,
                        ))
                        (Ensures-since (IsRead x) (λ e h' y. (inr y.0, inr y.1)) h
                          (stored_from d.snapshot_id d.files []) (recorded, described)
                          (stored_from-Settles d.snapshot_id Opens d.files h))))
            ])
          (λ foreign. at_done tt)

    found-Opens :
        (h : History) (x : Option Object)
        → Happened (got (operation_key input.operation_id) (some o)) h
        → Ensures Opens Answers
            (got (pending_descriptor_key r.snapshot_id) x ∷ h)
            (resume_with p input.now r (own_descriptor r.snapshot_id x))
    unfolding resume_with
    found-Opens h none there = at_done tt
    found-Opens h (some x) there = elim (Option-cases (own_descriptor r.snapshot_id (some x))) [
      | inl foreign ↦ rw (foreign, resume_with) (at_done tt)
      | inr (d, owned) ↦ rw owned (with-Opens _ x d (inr there, inl refl) owned)
    ]

  pub resume-Opens :
      (h : History) (r : OperationRecord) (o : Object)
      → own_operation input.operation_id (some o) ≡ some r
      → Happened (got (operation_key input.operation_id) (some o)) h
      → Ensures Opens Answers h (resume_operation p input.now r input.page_api_sha256)
  unfolding resume_operation read_descriptor ◌>>=◌
  resume-Opens h r o own there =
      at_if (text_eq r.page_api_sha256 input.page_api_sha256)
        (λ same. at_get (λ x. found-Opens r o own same h x there)) (λ other. at_done tt)
