-- ===== src/Publisher/Publish/Anchored.antt =====
-- A baseline describes the snapshot that the broker was last seen to serve, and so does every
-- record of the last run that is written (tools/md-publisher/src/baseline.ts).
use utm_curs_i_orar.Prelude.{
  ◌≡◌, refl, sym, ◌∙◌, ap, subst, true, ◌⊎◌, Option, none, some, ◌∷◌, inl, and_true,
}
use utm_curs_i_orar.Text.{Text, text_eq}
use utm_curs_i_orar.Text.Laws.{text_eq_iff}
use utm_curs_i_orar.Worker.Types.{Json}
use utm_curs_i_orar.Worker.Platform.{Platform}
use utm_curs_i_orar.Worker.Policy.{canonical_page_api_url, is_official_timetable_pdf_url}
use utm_curs_i_orar.Publisher.Calls.{
  Call, get, json, upload, read_file, write_file, remove, clock, new_operation_id, Act, done, ◌>>=◌,
  Outcome, returned, raised, JsonResponse, last_run_file, operation_file, page_file, run_dir,
  cache_dir, cache_path, run_temp_path,
}
use utm_curs_i_orar.Publisher.Calls.Rules.{
  History, Ensures, at_done, at_fail, at_ask, at_if, at_bind, at_settled, HasRefused, at_caught,
  Continues, Ensures-mono, Ensures-since, Anything,
}
use utm_curs_i_orar.Publisher.Types.{
  PublisherConfig, LastRunState, CurrentPointerView, FreshnessBaseline, ResolvedBaseline,
}
use utm_curs_i_orar.Publisher.Broker.{lift}
use utm_curs_i_orar.Publisher.Broker.Client.{
  answered, exchange, get_request, current_path, current_answer, read_current_pointer,
}
use utm_curs_i_orar.Publisher.Broker.Serving.{latest, Serves, Serves-Elsewhere, current_asked}
use utm_curs_i_orar.Publisher.Records.{last_run_json, last_run_text}
use utm_curs_i_orar.Publisher.Store.{read_last_run, write_last_run}
use utm_curs_i_orar.Publisher.Baseline.{
  baseline_from_cache, last_run_from, is_anchored, broker_snapshot_baseline, derived_for,
  against_cache, resolve_at, resolve_baseline, CacheRefresh, invalidate, record_derived, refresh_at,
  refresh, or_invalidate, refresh_cache_from_broker,
}
use utm_curs_i_orar.Publisher.Publish.Quiet.{Quiet, Quiet-Elsewhere}
use utm_curs_i_orar.Publisher.Publish.Deriving.{IsDerived, IsDerived-Quiet}

anchored_id :
    (last : LastRunState) (id : Text)
    → is_anchored last id ≡ true
    → (baseline_from_cache last).broker_snapshot_id ≡ id
unfolding is_anchored baseline_from_cache
anchored_id last id e =
    let named : text_eq last.broker_snapshot_id id ≡ true = (and_true (and_true e).0).1 in
    (text_eq_iff last.broker_snapshot_id id).0 named

module _ (p : Platform) (stringify : Json → Text) (config : PublisherConfig) where
  -- Official requests, and records of the last run for the snapshot that is served.
  abbrev pub Records : History → Call → Type 0
  Records h (get url etag modified) =
      (url ≡ canonical_page_api_url) ⊎ (is_official_timetable_pdf_url p url ≡ true)
  Records h (write_file last_run_file contents) =
      (s : LastRunState) × (contents ≡ stringify (last_run_json s))
      × Serves p config h s.broker_snapshot_id
  Records h (write_file operation_file contents) = Unit
  Records h (write_file page_file contents) = Unit
  Records h (write_file run_dir contents) = Unit
  Records h (write_file cache_dir contents) = Unit
  Records h (write_file (cache_path u) contents) = Unit
  Records h (write_file (run_temp_path i) contents) = Unit
  Records h (json r) = Unit
  Records h (upload u) = Unit
  Records h (read_file path) = Unit
  Records h (remove path) = Unit
  Records h clock = Unit
  Records h new_operation_id = Unit

  pub Quiet-Records : (h : History) (c : Call) → Quiet p config h c → Records h c
  Quiet-Records h (get url etag modified) q = q
  Quiet-Records h (write_file last_run_file contents) q = absurd q
  Quiet-Records h (write_file operation_file contents) q = tt
  Quiet-Records h (write_file page_file contents) q = tt
  Quiet-Records h (write_file run_dir contents) q = tt
  Quiet-Records h (write_file cache_dir contents) q = tt
  Quiet-Records h (write_file (cache_path u) contents) q = tt
  Quiet-Records h (write_file (run_temp_path i) contents) q = tt
  Quiet-Records h (json r) q = tt
  Quiet-Records h (upload u) q = tt
  Quiet-Records h (read_file path) q = tt
  Quiet-Records h (remove path) q = tt
  Quiet-Records h clock q = tt
  Quiet-Records h new_operation_id q = tt

  -- A quiet part keeps what the broker was seen to serve.
  pub at_quietly :
      {A : Type 0} {Q : History → Outcome A → Type 0} (id : Text) (h : History) (m : Act A)
      → Serves p config h id
      → Ensures (Quiet p config) Q h m
      → Ensures Records (λ h' o. Q h' o × Serves p config h' id) h m
  at_quietly id h m serves e =
      Ensures-mono (λ h' c x. Quiet-Records h' c x.0) (λ h' o x. x)
        (Ensures-since (λ h'. Serves p config h' id)
          (λ h' c a q k. Serves-Elsewhere p config h' c a id (Quiet-Elsewhere p config h' c q) k) h
          m serves e)

  abbrev pub ReadsPointer : History → Outcome (Option CurrentPointerView) → Type 0
  ReadsPointer h (returned none) = Unit
  ReadsPointer h (returned (some v)) = Serves p config h v.snapshot_id
  ReadsPointer h (raised e) = Unit

  pointer_lift :
      (h : History) (r : JsonResponse) (o : Outcome (Option CurrentPointerView))
      → latest p config h ≡ some (some r)
      → current_answer p config r ≡ o
      → Ensures Records ReadsPointer h (lift o)
  pointer_lift h r (returned none) last e = at_done tt
  pointer_lift h r (returned (some v)) last e = at_done (r, v, last, e, refl)
  pointer_lift h r (raised f) last e = at_fail tt

  just_asked :
      (h : History) (a : Option JsonResponse)
      → latest p config ((json (get_request p config (current_path p config)), a) ∷ h) ≡ some a
  unfolding latest
  just_asked h a = rw (current_asked p config) refl

  pub read_current-Ensures :
      (h : History) → Ensures Records ReadsPointer h (read_current_pointer p config)
  unfolding read_current_pointer exchange answered ◌>>=◌
  read_current-Ensures h = at_ask tt (elim [
    | none ↦ at_fail tt
    | some r ↦ pointer_lift _ r (current_answer p config r) (just_asked h (some r)) refl
  ])

  -- A baseline is that of the snapshot that is served.
  abbrev pub IsResolved : History → ResolvedBaseline → Type 0
  IsResolved h r =
      (b : FreshnessBaseline)
      → r.baseline ≡ some b
      → Serves p config h b.broker_snapshot_id × (r.current_snapshot_id ≡ some b.broker_snapshot_id)

  abbrev pub Resolves : History → Outcome ResolvedBaseline → Type 0
  Resolves h (returned r) = IsResolved h r
  Resolves h (raised e) = Unit

  IsResolved-at :
      (h : History) (id : Text) (c : FreshnessBaseline)
      → Serves p config h id
      → c.broker_snapshot_id ≡ id
      → IsResolved h (record { baseline = some c; current_snapshot_id = some id })
  IsResolved-at h id c serves e b is =
      let same : c ≡ b = cc in
      let named : id ≡ b.broker_snapshot_id = sym e ∙ ap (λ x. x.broker_snapshot_id) same in
      (subst (λ i. Serves p config h i) named serves, ap some named)

  derived-Resolves :
      (id : Text) (h : History) (o : Outcome (Option FreshnessBaseline))
      → IsDerived p config id h o × Serves p config h id
      → Continues Records Resolves
          (λ derived. done (record { baseline = derived; current_snapshot_id = some id }))
          h
          o
  derived-Resolves id h (raised e) x = tt
  derived-Resolves id h (returned none) x = at_done (λ b e. cc)
  derived-Resolves id h (returned (some c)) (e, serves) = at_done (IsResolved-at h id c serves e)

  derived_for-Ensures :
      (id : Text) (h : History)
      → Serves p config h id
      → Ensures Records Resolves h (derived_for p config id)
  unfolding derived_for
  derived_for-Ensures id h serves =
      at_bind (λ derived. done (record { baseline = derived; current_snapshot_id = some id }))
        (Ensures-mono (λ h' c x. x) (derived-Resolves id)
          (at_quietly id h (broker_snapshot_baseline p config id) serves
            (IsDerived-Quiet p config id h)))

  against-Ensures :
      (id : Text) (last : Option LastRunState) (h : History)
      → Serves p config h id
      → Ensures Records Resolves h (against_cache p config id last)
  unfolding against_cache
  against-Ensures id none h serves = derived_for-Ensures id h serves
  against-Ensures id (some last) h serves =
      at_if (is_anchored last id)
        (λ anchored.
          at_done
            (IsResolved-at h id (baseline_from_cache last) serves (anchored_id last id anchored)))
        (λ other. derived_for-Ensures id h serves)

  resolve_next :
      (h : History) (o : Outcome (Option CurrentPointerView))
      → ReadsPointer h o
      → Continues Records Resolves (resolve_at p config) h o
  unfolding resolve_at read_last_run ◌>>=◌
  resolve_next h (raised e) x = tt
  resolve_next h (returned none) x = at_done (λ b e. cc)
  resolve_next h (returned (some v)) serves = at_ask tt (λ t.
      against-Ensures v.snapshot_id (last_run_text p t) _
        (Serves-Elsewhere p config h (read_file last_run_file) t v.snapshot_id tt serves))

  pub resolve_baseline-Ensures :
      (h : History) → Ensures Records Resolves h (resolve_baseline p config)
  unfolding resolve_baseline
  resolve_baseline-Ensures h =
      at_bind (resolve_at p config)
        (Ensures-mono (λ h' c x. x) resolve_next (read_current-Ensures h))

  -- A part that throws only when the file system refused a write or a removal.
  abbrev pub Returns : {A : Type 0} → History → Outcome A → Type 0
  Returns h (returned a) = Unit
  Returns h (raised e) = HasRefused h

  invalidate-Ensures : (id : Option Text) (h : History) → Ensures Records Returns h (invalidate id)
  unfolding invalidate ◌>>=◌
  invalidate-Ensures id h = at_ask tt (λ u. at_settled _ u (λ bad. inl bad) (λ ok. at_done tt))

  weaken :
      {A : Type 0} {h : History} {m : Act A}
      → Ensures Records Returns h m
      → Ensures Records Anything h m
  weaken e = Ensures-mono (λ h' c x. x) (λ h' o x. tt) e

  record_next :
      (outcome at id : Text) (h : History) (o : Outcome (Option FreshnessBaseline))
      → IsDerived p config id h o × Serves p config h id
      → Continues Records Anything (record_derived p stringify config outcome at id) h o
  unfolding record_derived write_last_run last_run_from ◌>>=◌
  record_next outcome at id h (raised e) x = tt
  record_next outcome at id h (returned none) x = weaken (invalidate-Ensures (some id) h)
  record_next outcome at id h (returned (some b)) (same, serves) =
      at_ask (last_run_from b outcome at, refl, subst (λ i. Serves p config h i) (sym same) serves)
        (λ u. at_settled _ u (λ bad. tt) (λ ok. at_done tt))

  refresh_next :
      (outcome at : Text) (h : History) (o : Outcome (Option CurrentPointerView))
      → ReadsPointer h o
      → Continues Records Anything (refresh_at p stringify config outcome at) h o
  unfolding refresh_at
  refresh_next outcome at h (raised e) x = tt
  refresh_next outcome at h (returned none) x = weaken (invalidate-Ensures none h)
  refresh_next outcome at h (returned (some v)) serves =
      at_bind (record_derived p stringify config outcome at v.snapshot_id) (
        Ensures-mono (λ h' c x. x) (record_next outcome at v.snapshot_id)
          (at_quietly v.snapshot_id h (broker_snapshot_baseline p config v.snapshot_id) serves
            (IsDerived-Quiet p config v.snapshot_id h)))

  or_invalidate-Ensures :
      (h : History) (o : Outcome CacheRefresh) → Ensures Records Returns h (or_invalidate o)
  unfolding or_invalidate
  or_invalidate-Ensures h (returned r) = at_done tt
  or_invalidate-Ensures h (raised e) = invalidate-Ensures none h

  -- After an attempt the record is rebuilt from what the broker serves, or dropped; it throws only
  -- when the file system refuses.
  pub refresh_cache-Ensures :
      (outcome at : Text) (h : History)
      → Ensures Records Returns h (refresh_cache_from_broker p stringify config outcome at)
  unfolding refresh_cache_from_broker refresh
  refresh_cache-Ensures outcome at h = at_bind or_invalidate (
      at_caught (
        Ensures-mono (λ h' c x. x) (λ h' o x. or_invalidate-Ensures h' o)
          (at_bind (refresh_at p stringify config outcome at)
            (Ensures-mono (λ h' c x. x) (refresh_next outcome at) (read_current-Ensures h)))))
