-- ===== src/Publisher/Detect/Unchanged.antt =====
-- What change detection has seen when it finds nothing changed
-- (`detectChange` of tools/md-publisher/src/publish.ts).
use utm_curs_i_orar.Prelude.{
  ◌≡◌, refl, sym, ◌∙◌, true, false, ◌||◌, Option, none, some, List, inl, inr, Option-cases, All,
  ◌==◌, length, subst, ◌⊎◌,
}
use utm_curs_i_orar.Text.{Text, text_eq}
use utm_curs_i_orar.Text.Laws.{text_eq_iff}
use utm_curs_i_orar.Worker.Policy.{canonical_page_api_url}
use utm_curs_i_orar.Worker.Platform.{Platform}
use utm_curs_i_orar.Publisher.Calls.{get, HttpResponse, done, ◌>>=◌, Outcome, returned, raised}
use utm_curs_i_orar.Publisher.Calls.Rules.{
  History, Ensures, at_done, at_fail, at_if, at_bind, Ensures-mono, Ensures-since, Continues,
  Anything, Happened,
}
use utm_curs_i_orar.Publisher.Types.{FreshnessBaseline}
use utm_curs_i_orar.Publisher.Broker.{lift}
use utm_curs_i_orar.Publisher.Upstream.{PageApiResult, read_within, max_page_api_bytes, non_empty}
use utm_curs_i_orar.Publisher.Upstream.Fetching.{Probes}
use utm_curs_i_orar.Publisher.Upstream.Paging.{IsPageBody, Paged, Pages, fetch_page_api-Ensures}
use utm_curs_i_orar.Publisher.Detect.{
  DetectionOutcome, Seen, nothing_seen, scoped, has_page_changed, current_urls, check_pdfs,
  full_page, unconditional_page, page_in_full, changed_with, unchanged_with, conclude, compare,
  detect_change,
}
use utm_curs_i_orar.Publisher.Detect.Checking.{
  or_false, not-false, ChecksRest, check_pdfs-Ensures, IsSamePdf,
}

module _ (p : Platform) where
  -- The canonical page, asked for with the baseline's own validators, was answered 304, or was read
  -- whole and has the recorded digest.
  abbrev pub IsSamePage : History → FreshnessBaseline → Type 0
  IsSamePage h b =
      (r : HttpResponse) × Happened
        (
          get canonical_page_api_url (non_empty (scoped (some b) (λ c. c.page_etag)))
              (non_empty (scoped (some b) (λ c. c.page_last_modified))),
          some r,
        )
        h
      × ((r.status ≡ 304)
          ⊎ ((bytes : Text) × (r.status ≡ 200)
              × (read_within max_page_api_bytes r.body ≡ returned bytes)
              × (p.sha256_hex bytes ≡ b.page_api_sha256)))

  same_page :
      (b : FreshnessBaseline) (page : PageApiResult) (h : History)
      → Paged
          (scoped (some b) (λ c. c.page_etag))
          (scoped (some b) (λ c. c.page_last_modified))
          h
          page
      → has_page_changed p b page ≡ false
      → IsSamePage h b
  unfolding has_page_changed
  same_page b page h (r, there, read) same = elim (Option-cases page.bytes) [
    | inl e ↦ (r, there, inl (subst (IsPageBody r) e read))
    | inr (bytes, e) ↦
        let digest : text_eq (p.sha256_hex bytes) b.page_api_sha256 ≡ true =
          not-false p _ (rw (e, has_page_changed) at same) in
        let (ok, whole) = subst (IsPageBody r) e read in
        (
          r,
          there,
          inr (bytes, ok, whole, (text_eq_iff (p.sha256_hex bytes) b.page_api_sha256).0 digest),
        )
  ]

  -- A baseline with PDFs, of which the page and every PDF is the same at the source.
  abbrev pub IsUnchanged : Option FreshnessBaseline → History → Type 0
  IsUnchanged none h = ⊥
  IsUnchanged (some b) h =
      ((length b.pdfs == 0) ≡ false) × IsSamePage h b × All (IsSamePdf p h) b.pdfs

  abbrev pub Detects : Option FreshnessBaseline → History → Outcome DetectionOutcome → Type 0
  Detects baseline h (returned d) = d.changed ≡ false → IsUnchanged baseline h
  Detects baseline h (raised e) = Unit

  changed_next :
      (baseline : Option FreshnessBaseline) (s : Seen) (h : History)
      (o : Outcome (Text × PageApiResult))
      → Continues (Probes p) (Detects baseline) (λ full. done (changed_with p s full)) h o
  unfolding changed_with
  changed_next baseline s h (raised e) = tt
  changed_next baseline s h (returned (bytes, page)) = at_done (λ x. cc)

  full_page-Ensures :
      (h : History) (o : Outcome PageApiResult) → Continues (Probes p) Anything (full_page p) h o
  unfolding full_page
  full_page-Ensures h (raised e) = tt
  full_page-Ensures h (returned page) = elim (Option-cases page.bytes) [
    | inl e ↦ rw (e, full_page) (at_fail tt)
    | inr (bytes, e) ↦ rw (e, full_page) (at_done tt)
  ]

  page_in_full-Ensures :
      (page : PageApiResult) (h : History) → Ensures (Probes p) Anything h (page_in_full p page)
  unfolding page_in_full unconditional_page
  page_in_full-Ensures page h = elim (Option-cases page.bytes) [
    | inr (bytes, e) ↦ rw (e, page_in_full) (at_done tt)
    | inl e ↦
        rw (e, page_in_full)
          (at_bind (full_page p) (
            Ensures-mono (λ h' c x. x) (λ h' o x. full_page-Ensures h' o)
              (fetch_page_api-Ensures p none none h)))
  ]

  publishes :
      (baseline : Option FreshnessBaseline) (s : Seen) (page : PageApiResult) (h : History)
      → Ensures
          (Probes p)
          (Detects baseline)
          h
          (page_in_full p page >>= λ full. done (changed_with p s full))
  publishes baseline s page h =
      at_bind (λ full. done (changed_with p s full))
        (Ensures-mono (λ h' c x. x) (λ h' o x. changed_next baseline s h' o)
          (page_in_full-Ensures page h))

  conclude-Ensures :
      (b : FreshnessBaseline) (page : PageApiResult) (s : Seen) (h : History)
      → (has_page_changed p b page ≡ false → s.pdf_changed ≡ false → IsUnchanged (some b) h)
      → Ensures (Probes p) (Detects (some b)) h (conclude p b page s)
  unfolding conclude unchanged_with
  conclude-Ensures b page s h rests =
      at_if (has_page_changed p b page || s.pdf_changed) (λ changed. publishes (some b) s page h)
        (λ same.
          let (x, y) = or_false p (has_page_changed p b page) s.pdf_changed same in
          at_done (λ z. rests x y))

  same_urls :
      (b : FreshnessBaseline) (page : PageApiResult)
      → has_page_changed p b page ≡ false
      → current_urls p b page ≡ returned none
  unfolding has_page_changed current_urls
  same_urls b page e = elim (Option-cases page.bytes) [
    | inl e' ↦ rw (e', current_urls) refl
    | inr (bytes, e') ↦
        let same : text_eq (p.sha256_hex bytes) b.page_api_sha256 ≡ true =
          not-false p _ (rw (e', has_page_changed) at e) in
        rw (e', current_urls, same) refl
  ]

  some-none : (us : List Text) → ¬ (some us ≡ none)
  some-none us h = cc

  checked_next :
      (b : FreshnessBaseline) (page : PageApiResult) (urls : Option (List Text)) (h : History)
      (o : Outcome Seen)
      → (length b.pdfs == 0) ≡ false
      → (has_page_changed p b page ≡ false → urls ≡ none)
      → Paged
          (scoped (some b) (λ c. c.page_etag))
          (scoped (some b) (λ c. c.page_last_modified))
          h
          page
      → ChecksRest p urls b.pdfs nothing_seen h o
      → Continues (Probes p) (Detects (some b)) (conclude p b page) h o
  checked_next b page urls h (raised e) some_pdfs no_urls paged g = tt
  checked_next b page none h (returned s) some_pdfs no_urls paged g =
      conclude-Ensures b page s h
        (λ same seen. (some_pdfs, same_page b page h paged same, (g seen).1))
  checked_next b page (some us) h (returned s) some_pdfs no_urls paged g =
      conclude-Ensures b page s h (λ same seen. absurd (some-none us (no_urls same)))

  compared :
      (b : FreshnessBaseline) (page : PageApiResult) (h : History)
      (o : Outcome (Option (List Text)))
      → current_urls p b page ≡ o
      → (length b.pdfs == 0) ≡ false
      → Paged
          (scoped (some b) (λ c. c.page_etag))
          (scoped (some b) (λ c. c.page_last_modified))
          h
          page
      → Ensures
          (Probes p)
          (Detects (some b))
          h
          (lift o >>= λ urls. check_pdfs p urls b.pdfs nothing_seen >>= conclude p b page)
  unfolding ◌>>=◌
  compared b page h (raised e) found some_pdfs paged = at_fail tt
  compared b page h (returned urls) found some_pdfs paged = at_bind (conclude p b page) (
      Ensures-mono (λ h' c x. x.0)
        (λ h' o x.
          checked_next b page urls h' o some_pdfs
            (λ same.
              let e : returned urls ≡ returned none = sym found ∙ same_urls b page same in cc)
            x.1 x.0)
        (Ensures-since
          (λ h'.
            Paged (scoped (some b) (λ c. c.page_etag)) (scoped (some b) (λ c. c.page_last_modified))
              h' page)
          (λ h' c a x k. let (r, there, read) = k in (r, inr there, read)) h
          (check_pdfs p urls b.pdfs nothing_seen) paged
          (check_pdfs-Ensures p urls b.pdfs nothing_seen h)))

  compare-Ensures :
      (baseline : Option FreshnessBaseline) (h : History) (o : Outcome PageApiResult)
      → Pages (scoped baseline (λ c. c.page_etag)) (scoped baseline (λ c. c.page_last_modified)) h o
      → Continues (Probes p) (Detects baseline) (compare p baseline) h o
  unfolding compare
  compare-Ensures baseline h (raised e) paged = tt
  compare-Ensures none h (returned page) paged = publishes none nothing_seen page h
  compare-Ensures (some b) h (returned page) paged =
      at_if (length b.pdfs == 0) (λ e. publishes (some b) nothing_seen page h)
        (λ e. compared b page h (current_urls p b page) refl e paged)

  -- Change detection reads only the canonical page and official PDFs and writes nothing but scratch
  -- files; and when it finds nothing changed, there was a baseline with PDFs, the canonical page
  -- was answered 304 to the baseline's own validators or was read whole and has the baseline's
  -- digest, and every PDF of the baseline, asked for at its own URL or where the redirects of that
  -- lead, was answered 304 to its recorded validators or was read whole and has its recorded digest.
  pub detect_change-Ensures :
      (baseline : Option FreshnessBaseline) (h : History)
      → Ensures (Probes p) (Detects baseline) h (detect_change p baseline)
  unfolding detect_change
  detect_change-Ensures baseline h = at_bind (compare p baseline) (
      Ensures-mono (λ h' c x. x) (λ h' o x. compare-Ensures baseline h' o x)
        (fetch_page_api-Ensures p (scoped baseline (λ c. c.page_etag))
          (scoped baseline (λ c. c.page_last_modified)) h))
