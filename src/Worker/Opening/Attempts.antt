-- ===== src/Worker/Opening/Attempts.antt =====
-- The three writes of a new publication.
use utm_curs_i_orar.Prelude.{
  ℕ, ◌≡◌, refl, not, Option, none, some, List, [], ◌∷◌, inl, inr, Option-cases, leb, All,
}
use utm_curs_i_orar.Text.{Text, codes}
use utm_curs_i_orar.Worker.Types.{
  PendingFile, PendingDescriptor, needed, OpenPublicationResult, refused, ParsedCurrentPointer,
}
use utm_curs_i_orar.Worker.Keys.{current_key, operation_key, snapshot_manifest_key}
use utm_curs_i_orar.Worker.Bucket.{Proc, done, Object, ◌>>=◌}
use utm_curs_i_orar.Worker.Bucket.Rules.{
  Event, got, History, Ensures, at_done, at_get, at_put, at_list, at_if, at_bind, Ensures-mono,
  Ensures-since,
}
use utm_curs_i_orar.Worker.Checked.{Checked, fine, fault}
use utm_curs_i_orar.Worker.Platform.{Platform, Env}
use utm_curs_i_orar.Worker.Policy.{extract_official_pdf_urls, canonical_page_id, contains}
use utm_curs_i_orar.Worker.Pointer.{PointerError, parse_current_pointer}
use utm_curs_i_orar.Worker.Descriptors.{
  plan_snapshot_files, descriptor_file_error, plan_from, own_operation, read_operation,
}
use utm_curs_i_orar.Worker.Descriptors.Planning.{plan_snapshot_files-IsSound}
use utm_curs_i_orar.Worker.Opening.{
  PageApiDocument, TemporalVerdict, acceptable, stale_page, future_page, read_page_api_document,
  resolve_page_api_url, count_open_publications, count_unclosed, max_open_publications,
  generate_snapshot_id, resume_operation, is_uuid_v4, is_sha256_hex,
}
use utm_curs_i_orar.Worker.Opening.Publication.{
  OpenPublicationInput, Opening, load_previous_manifest, load_baseline, new_id, new_descriptor,
  write_publication, plan_capped, plan_publication, baseline_of, judge_page, opening_of,
  against_current, check_catalogue, open_new, open_publication, id_is,
}
use utm_curs_i_orar.Worker.Instants.{snapshot_id_instant}
use utm_curs_i_orar.Worker.Opening.Plans.{IsPlanOf, window-IsExpiry, map-Entries}
use utm_curs_i_orar.Worker.Opening.Resuming.{IsNew, Opens, Answers, resume-Opens}

module _ (p : Platform) (env : Env) (input : OpenPublicationInput) where
  IsNew-grows : (e : Event) (h : History) → IsNew p env input h → IsNew p env input (e ∷ h)
  IsNew-grows e h (o, there, own) = (o, inr there, own)

  -- After the record was lost to a concurrent attempt.
  raced-Opens :
      (h : History) (x : Option Object)
      → Ensures
          (Opens p env input)
          (Answers p env input)
          (got (operation_key input.operation_id) x ∷ h)
          (elim (own_operation input.operation_id x) as (λ _. Proc OpenPublicationResult) [
            | none ↦ done (refused 409 (codes "operation_state_corrupt"))
            | some r ↦ resume_operation p input.now r input.page_api_sha256
          ])
  raced-Opens h none = at_done tt
  raced-Opens h (some x) = elim (Option-cases (own_operation input.operation_id (some x))) [
    | inl foreign ↦ rw foreign (at_done tt)
    | inr (r, own) ↦ rw own (resume-Opens p env input _ r x own (inl refl))
  ]

  none_stored :
      (P : PendingFile → Type 0)
      → ((file : PendingFile) → P file)
      → (files : List PendingFile) → All P files
  none_stored P f [] = tt
  none_stored P f (file ∷ files) = (f file, none_stored P f files)

  new-IsPlanOf :
      (opening : Opening) (files : List PendingFile)
      → IsPlanOf p
          (λ t status. status ≡ needed)
          (new_descriptor p env input opening files)
          (plan_from p input.now (new_descriptor p env input opening files) [])
  unfolding plan_from contains
  new-IsPlanOf opening files =
      let d : PendingDescriptor = new_descriptor p env input opening files in
      record {
        of_snapshot = refl;
        of_operation = refl;
        of_page = refl;
        of_instant = refl;
        of_window = window-IsExpiry p input.now (snapshot_id_instant d.snapshot_id);
        entries =
            map-Entries d.snapshot_id (λ t status. status ≡ needed) (λ file. Unit) _
              (λ file k. record {
                same_id = refl;
                same_filename = refl;
                same_source_url = refl;
                uploads_to = refl;
                has_status = refl;
              })
              d.files (none_stored (λ file. Unit) (λ file. tt) d.files);
      }

  write-Opens :
      (h : History) (opening : Opening) (files : List PendingFile)
      → IsNew p env input h
      → descriptor_file_error p (new_descriptor p env input opening files) ≡ none
      → Ensures
          (Opens p env input)
          (Answers p env input)
          h
          (write_publication p env input opening files)
  unfolding write_publication read_operation ◌>>=◌ new_descriptor
  write-Opens h opening files fresh sound =
      at_put (refl, inl (refl, refl, fresh))
        (elim [
          | none ↦ at_get (λ x. raced-Opens _ x)
          | some made ↦
              at_put (refl, inr (inl (refl, refl, ([], made, inl refl))))
                (elim [
                  | none ↦ at_done tt
                  | some page ↦
                      at_put
                        (
                          refl,
                          inr (
                              inr (
                                new_descriptor p env input opening files,
                                refl,
                                refl,
                                refl,
                                refl,
                                sound,
                                ([], made, inr (inl refl)),
                                (_, page, inl refl),
                              )),
                        )
                        (elim [
                          | none ↦ at_done tt
                          | some described ↦ at_done (
                            new_descriptor p env input opening files,
                            ([], made, inr (inr (inl refl))),
                            (_, page, inr (inl refl)),
                            ([], described, inl refl),
                            refl,
                            refl,
                            new-IsPlanOf opening files,
                          )
                        ])
                ])
        ])

  count-Opens :
      (ids : List Text) (n : ℕ) (h : History)
      → Ensures (Opens p env input) (λ h' m. Unit) h (count_unclosed ids n)
  unfolding count_unclosed ◌>>=◌
  count-Opens [] n h = at_done tt
  count-Opens (i ∷ ids) n h = at_get (λ o. count-Opens ids _ (got (snapshot_manifest_key i) o ∷ h))

  capped-Opens :
      (h : History) (opening : Opening) (u : Text) (us : List Text) (n : ℕ)
      → opening.pdf_urls ≡ u ∷ us
      → IsNew p env input h
      → Ensures (Opens p env input) (Answers p env input) h (plan_capped p env input opening n)
  unfolding plan_capped generate_snapshot_id new_descriptor
  capped-Opens h opening u us n some_urls fresh =
      at_if (leb max_open_publications n) (λ many. at_done tt)
        (λ few. elim (Option-cases (plan_snapshot_files p (new_id p env input) opening.pdf_urls)) [
          | inl bad ↦ rw (bad, plan_capped) (at_done tt)
          | inr (files, planned) ↦
              rw (planned, plan_capped)
                (write-Opens h opening files fresh
                  (plan_snapshot_files-IsSound p (new_id p env input) u us files
                    (new_descriptor p env input opening files) (rw some_urls at planned) refl
                    refl).0)
        ])

  plan-Opens :
      (h : History) (opening : Opening) (u : Text) (us : List Text)
      → opening.pdf_urls ≡ u ∷ us
      → IsNew p env input h
      → Ensures (Opens p env input) (Answers p env input) h (plan_publication p env input opening)
  unfolding plan_publication count_open_publications ◌>>=◌
  plan-Opens h opening u us some_urls (o, there, own) = at_list (λ today. at_list (λ yesterday.
      at_bind (plan_capped p env input opening) (
        Ensures-mono (λ h' a y. y.0) (λ h' n y. capped-Opens h' opening u us n some_urls y.1)
          (Ensures-since (IsNew p env input) IsNew-grows _ _ (o, inr (inr there), own)
            (count-Opens _ 0 _)))))

  manifest-Opens :
      (h : History) (pointer : ParsedCurrentPointer)
      → Ensures (Opens p env input) (λ h' m. Unit) h (load_previous_manifest pointer)
  unfolding load_previous_manifest ◌>>=◌
  manifest-Opens h pointer = at_get (λ o. at_done tt)

  judged-Opens :
      (h : History) (opening : Opening) (u : Text) (us : List Text) (verdict : TemporalVerdict)
      → opening.pdf_urls ≡ u ∷ us
      → IsNew p env input h
      → Ensures
          (Opens p env input)
          (Answers p env input)
          h
          (elim verdict as (λ _. Proc OpenPublicationResult) [
            | acceptable ↦ plan_publication p env input opening
            | stale_page ↦ done (refused 409 (codes "stale_page"))
            | future_page ↦ done (refused 400 (codes "future_page"))
          ])
  judged-Opens h opening u us acceptable some_urls fresh = plan-Opens h opening u us some_urls fresh
  judged-Opens h opening u us stale_page some_urls fresh = at_done tt
  judged-Opens h opening u us future_page some_urls fresh = at_done tt

  baseline-Opens :
      (h : History) (opening : Opening)
      → Ensures (Opens p env input) (λ h' b. Unit) h (load_baseline opening)
  unfolding load_baseline
  baseline-Opens h opening = elim (Option-cases opening.previous) [
    | inl e ↦ rw (e, load_baseline) (at_done tt)
    | inr (pointer, e) ↦
        rw (e, load_baseline)
          (at_bind (λ m. done (baseline_of opening pointer m))
            (Ensures-mono (λ h' a y. y) (λ h' m y. at_done tt) (manifest-Opens h pointer)))
  ]

  judge-Opens :
      (h : History) (opening : Opening) (u : Text) (us : List Text)
      → opening.pdf_urls ≡ u ∷ us
      → IsNew p env input h
      → Ensures (Opens p env input) (Answers p env input) h (judge_page p env input opening)
  unfolding judge_page
  judge-Opens h opening u us some_urls fresh = at_bind _ (
      Ensures-mono (λ h' a y. y.0) (λ h' b y. judged-Opens h' opening u us _ some_urls y.1)
        (Ensures-since (IsNew p env input) IsNew-grows h (load_baseline opening) fresh
          (baseline-Opens h opening)))

  current-Opens :
      (h : History) (url : Text) (document : PageApiDocument) (u : Text) (us : List Text)
      → IsNew p env input h
      → Ensures
          (Opens p env input)
          (Answers p env input)
          h
          (against_current p env input url document (u ∷ us))
  unfolding against_current opening_of ◌>>=◌
  current-Opens h url document u us fresh = at_get (elim [
    | none ↦
        judge-Opens _ (opening_of p env input url document (u ∷ us) none none) u us refl
          (IsNew-grows _ h fresh)
    | some o ↦ by_parse o (parse_current_pointer p.json_parse (p.text_of o.body))
  ])
    where
      by_parse :
          (o : Object) (parsed : Checked PointerError ParsedCurrentPointer)
          → Ensures
              (Opens p env input)
              (Answers p env input)
              (got current_key (some o) ∷ h)
              (elim parsed as (λ _. Proc OpenPublicationResult) [
                | fault _ ↦ done (refused 503 (codes "broker_state_unreadable"))
                | fine pointer ↦
                    judge_page p env input
                      (opening_of p env input url document (u ∷ us) (some o.etag) (some pointer))
              ])
      by_parse o (fault e) = at_done tt
      by_parse o (fine pointer) =
          judge-Opens _ (opening_of p env input url document (u ∷ us) (some o.etag) (some pointer))
            u us refl (IsNew-grows _ h fresh)

  catalogue-Opens :
      (h : History) (url : Text) (document : PageApiDocument)
      → IsNew p env input h
      → Ensures
          (Opens p env input)
          (Answers p env input)
          h
          (check_catalogue p env input url document)
  unfolding check_catalogue
  catalogue-Opens h url document fresh =
      at_if (id_is document.page_id canonical_page_id)
        (λ own. by_urls (extract_official_pdf_urls p document.rendered_html)) (λ other. at_done tt)
    where
      by_urls :
          (urls : List Text)
          → Ensures
              (Opens p env input)
              (Answers p env input)
              h
              (elim urls as (λ _. Proc OpenPublicationResult) [
                | [] ↦ done (refused 400 (codes "no_official_pdfs"))
                | u ∷ us ↦ against_current p env input url document (u ∷ us)
              ])
      by_urls [] = at_done tt
      by_urls (u ∷ us) = current-Opens h url document u us fresh

  new-Opens :
      (h : History)
      → IsNew p env input h
      → Ensures (Opens p env input) (Answers p env input) h (open_new p env input)
  unfolding open_new
  new-Opens h fresh = elim (Option-cases (resolve_page_api_url env.fcim_page_api_url)) [
    | inl bad ↦ rw (bad, open_new) (at_done tt)
    | inr (url, e) ↦
        elim (Option-cases (read_page_api_document (p.json_parse (p.decode input.page_bytes)))) [
          | inl bad ↦ rw (e, bad, open_new) (at_done tt)
          | inr (document, e') ↦ rw (e, e', open_new) (catalogue-Opens h url document fresh)
        ]
  ]

  existing-Opens :
      (x : Option Object)
      → Ensures
          (Opens p env input)
          (Answers p env input)
          (got (operation_key input.operation_id) x ∷ [])
          (elim (own_operation input.operation_id x) as (λ _. Proc OpenPublicationResult) [
            | some r ↦ resume_operation p input.now r input.page_api_sha256
            | none ↦ open_new p env input
          ])
  existing-Opens none =
      new-Opens (got (operation_key input.operation_id) none ∷ []) (none, inl refl, refl)
  existing-Opens (some x) = elim (Option-cases (own_operation input.operation_id (some x))) [
    | inl e ↦
        rw e
          (new-Opens (got (operation_key input.operation_id) (some x) ∷ []) (some x, inl refl, e))
    | inr (r, own) ↦ rw own (resume-Opens p env input _ r x own (inl refl))
  ]

  -- Whatever the bucket answers, opening a publication makes only create-only writes, under the
  -- operation's key and its new snapshot's. It writes the operation's record only after it has
  -- found none of this operation; the page, with exactly the bytes received, only after that record
  -- was created; and the descriptor, which is of this snapshot and operation and passes the check
  -- of every later stage, only after the page was created too. It reports a new publication only
  -- when all three were created, with a plan of that descriptor, entry by entry, in which every file
  -- is needed. It reports a resumed one only when it read the record of this operation and payload
  -- hash and, under the snapshot it names, a sound descriptor of the same operation and payload;
  -- and then with a plan of that descriptor, entry by entry, in which a file is stored only when its
  -- completion marker was read and needed only when none was there.
  pub open_publication-Ensures :
      Ensures (Opens p env input) (Answers p env input) [] (open_publication p env input)
  unfolding open_publication read_operation ◌>>=◌
  open_publication-Ensures =
      at_if (not (is_uuid_v4 input.operation_id)) (λ bad. at_done tt)
        (λ good.
          at_if (not (is_sha256_hex input.page_api_sha256)) (λ bad. at_done tt)
            (λ sound. at_get (λ x. existing-Opens x)))
