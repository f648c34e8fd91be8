-- ===== src/Publisher/Upstream/Fetching.antt =====
-- What the requests of tools/md-publisher/src/upstream.ts may reach, and what their results rest on.
use utm_curs_i_orar.Prelude.{
  ℕ, zero, suc, ◌≡◌, refl, ap, true, false, not, ◌⊎◌, Option, none, some, inl, inr, Bool-cases,
  Option-cases, ◌==◌, ==_iff, not-false, ◌∷◌,
}
use utm_curs_i_orar.Text.{Text}
use utm_curs_i_orar.Worker.Platform.{Platform}
use utm_curs_i_orar.Worker.Policy.{canonical_page_api_url, is_official_timetable_pdf_url}
use utm_curs_i_orar.Publisher.Calls.{
  Call, get, json, upload, read_file, write_file, remove, clock, new_operation_id, ◌>>=◌, Outcome,
  returned, raised, HttpResponse, LocalPath, last_run_file, operation_file, page_file, run_dir,
  cache_dir, cache_path, run_temp_path,
}
use utm_curs_i_orar.Publisher.Calls.Rules.{
  History, Ensures, at_done, at_fail, at_ask, at_if, at_bind, at_settled, Ensures-mono,
  Ensures-since, Continues, Happened, Event,
}
use utm_curs_i_orar.Publisher.Broker.{lift}
use utm_curs_i_orar.Publisher.Upstream.{
  Receiving, receive_pdf, is_redirect, non_empty, fetched, redirected, request_pdf, pdf_rounds,
  revalidated, RevalidateResult, revalidate_pdf, keep_download, download_answer, DownloadedPdf,
  download_pdf,
}

-- A file that holds a body and nothing else.
abbrev pub IsScratch : LocalPath → Type 0
IsScratch (cache_path url) = Unit
IsScratch (run_temp_path id) = Unit
IsScratch last_run_file = ⊥
IsScratch operation_file = ⊥
IsScratch page_file = ⊥
IsScratch run_dir = ⊥
IsScratch cache_dir = ⊥

-- The calls that reading the source may make: the canonical page, an official PDF, and bodies in
-- scratch files.
abbrev pub Probes : Platform → History → Call → Type 0
Probes p h (get url etag modified) =
    (url ≡ canonical_page_api_url) ⊎ (is_official_timetable_pdf_url p url ≡ true)
Probes p h (write_file path contents) = IsScratch path
Probes p h (remove path) = IsScratch path
Probes p h (json r) = ⊥
Probes p h (upload u) = ⊥
Probes p h (read_file path) = ⊥
Probes p h clock = ⊥
Probes p h new_operation_id = ⊥

-- The redirects that were answered lead from the one URL to the other.
pub data Leads (p : Platform) (etag modified : Option Text) (h : History)
    : Text → Text → Type 0 where
  stays : {url : Text} → Leads p etag modified h url url
  moves :
      {url next last : Text} (r : HttpResponse)
      → Happened (get url etag modified, some r) h
      → is_redirect r.status ≡ true
      → redirected p url r.location ≡ some next
      → Leads p etag modified h next last
      → Leads p etag modified h url last

-- A response to a request with these validators for the PDF, or for the official URL that its
-- redirects lead to.
abbrev pub Got : Platform → Text → Option Text → Option Text → History → HttpResponse → Type 0
Got p target etag modified h r =
    (url : Text) × Leads p etag modified h target url
    × Happened (get url etag modified, some r) h
    × (is_official_timetable_pdf_url p url ≡ true)

abbrev pub Gets :
    Platform → Text → Option Text → Option Text → History → Outcome HttpResponse → Type 0
Gets p target etag modified h (returned r) = Got p target etag modified h r
Gets p target etag modified h (raised e) = Unit

Leads-grows :
    {p : Platform} {etag modified : Option Text} {h : History} {url last : Text} (e : Event)
    → Leads p etag modified h url last
    → Leads p etag modified (e ∷ h) url last
Leads-grows e stays = stays
Leads-grows e (moves r there moved to rest) = moves r (inr there) moved to (Leads-grows e rest)

pub Got-grows :
    (p : Platform) (target : Text) (etag modified : Option Text) (h : History) (e : Event)
    (r : HttpResponse)
    → Got p target etag modified h r
    → Got p target etag modified (e ∷ h) r
Got-grows p target etag modified h e r (url, leads, there, good) =
    (url, Leads-grows e leads, inr there, good)

Gets-moved :
    (p : Platform) (url next : Text) (etag modified : Option Text) (h : History) (r : HttpResponse)
    (o : Outcome HttpResponse)
    → is_redirect r.status ≡ true
    → redirected p url r.location ≡ some next
    → Gets p next etag modified h o × Happened (get url etag modified, some r) h
    → Gets p url etag modified h o
Gets-moved p url next etag modified h r (raised e) moved to x = tt
Gets-moved p url next etag modified h r (returned a) moved to ((last, leads, got_it, good), there) =
    (last, moves r there moved to leads, got_it, good)

module _ (p : Platform) where
  pub request_pdf-Ensures :
      (n : ℕ) (target : Text) (etag modified : Option Text) (h : History)
      → Ensures (Probes p) (Gets p target etag modified) h (request_pdf p n target etag modified)
  unfolding request_pdf fetched ◌>>=◌
  request_pdf-Ensures zero target etag modified h = at_fail tt
  request_pdf-Ensures (suc n) target etag modified h =
      at_if (not (is_official_timetable_pdf_url p target)) (λ bad. at_fail tt)
        (λ good.
          let ok = not-false _ good in
          at_ask (inr ok) (elim [
            | none ↦ at_fail tt
            | some r ↦
                at_if (not (is_redirect r.status)) (λ direct. at_done (target, stays, inl refl, ok))
                  (λ moved. elim (Option-cases (redirected p target r.location)) [
                    | inl e ↦ rw e (at_fail tt)
                    | inr (next, e) ↦ rw e (
                        Ensures-mono (λ h' c x. x.0)
                          (λ h' o x.
                            Gets-moved p target next etag modified h' r o (not-false _ moved) e x)
                          (Ensures-since (λ h'. Happened (get target etag modified, some r) h')
                            (λ h' c a x k. inr k) _ (request_pdf p n next etag modified) (inl refl)
                            (request_pdf-Ensures n next etag modified _)))
                  ])
          ]))

  -- What a revalidation or a download rests on.
  abbrev pub Revalidated : Text → Option Text → Option Text → History → Type 0
  Revalidated target etag modified h =
      (r : HttpResponse) × Got p target (non_empty etag) (non_empty modified) h r × (r.status ≡ 304)

  abbrev pub Revalidates :
      Text → Option Text → Option Text → History → Outcome RevalidateResult → Type 0
  Revalidates target etag modified h (returned r) =
      r.changed ≡ false → Revalidated target etag modified h
  Revalidates target etag modified h (raised e) = Unit

  revalidate_next :
      (target : Text) (etag modified : Option Text) (h : History) (o : Outcome HttpResponse)
      → Gets p target (non_empty etag) (non_empty modified) h o
      → Continues
          (Probes p)
          (Revalidates target etag modified)
          (λ r. lift (revalidated etag modified r))
          h
          o
  unfolding revalidated
  revalidate_next target etag modified h (raised e) g = tt
  revalidate_next target etag modified h (returned r) g = elim (Bool-cases (r.status == 304)) [
    | inl same ↦ rw (same, revalidated) (at_done (λ x. (r, g, (==_iff r.status 304).0 same)))
    | inr other ↦ elim (Bool-cases (r.status == 200)) [
      | inl new ↦ rw (other, new, revalidated) (at_done (λ x. cc))
      | inr bad ↦ rw (other, bad, revalidated) (at_fail tt)
    ]
  ]

  pub revalidate_pdf-Ensures :
      (url : Text) (etag modified : Option Text) (h : History)
      → Ensures (Probes p) (Revalidates url etag modified) h (revalidate_pdf p url etag modified)
  unfolding revalidate_pdf
  revalidate_pdf-Ensures url etag modified h =
      at_bind (λ r. lift (revalidated etag modified r))
        (Ensures-mono (λ h' c x. x) (revalidate_next url etag modified)
          (request_pdf-Ensures pdf_rounds url (non_empty etag) (non_empty modified) h))

  -- The bytes of a response were received whole and have this digest.
  abbrev pub Downloaded : Text → Text → History → Type 0
  Downloaded target sha256 h =
      (r : HttpResponse) × (s : Receiving) × Got p target none none h r
      × (r.status ≡ 200)
      × (receive_pdf r.body ≡ returned s)
      × (p.sha256_hex s.content ≡ sha256)

  abbrev pub Downloads : Text → History → Outcome DownloadedPdf → Type 0
  Downloads target h (returned d) = Downloaded target d.sha256 h
  Downloads target h (raised e) = Unit

  keep-Downloads :
      (target : Text) (path : LocalPath) (h : History) (r : HttpResponse) (o : Outcome Receiving)
      → IsScratch path
      → Got p target none none h r
      → r.status ≡ 200
      → receive_pdf r.body ≡ o
      → Ensures (Probes p) (Downloads target) h (keep_download p path r o)
  unfolding keep_download ◌>>=◌
  keep-Downloads target path h r (raised e) scratch g ok received =
      at_ask scratch (λ u. at_settled _ u (λ bad. tt) (λ ok. at_fail tt))
  keep-Downloads target path h r (returned s) scratch g ok received = at_ask scratch (λ u.
      at_if u (λ kept. at_done (r, s, Got-grows p target none none h _ r g, ok, received, refl))
        (λ full. at_ask scratch (λ v. at_settled _ v (λ bad. tt) (λ removed. at_fail tt))))

  download_next :
      (target : Text) (path : LocalPath) (h : History) (o : Outcome HttpResponse)
      → IsScratch path
      → Gets p target none none h o
      → Continues (Probes p) (Downloads target) (download_answer p path) h o
  unfolding download_answer
  download_next target path h (raised e) scratch g = tt
  download_next target path h (returned r) scratch g = elim (Bool-cases (r.status == 200)) [
    | inr bad ↦ rw (bad, download_answer) (at_fail tt)
    | inl ok ↦ elim (Option-cases r.body) [
      | inl none_there ↦ rw (ok, none_there, download_answer) (at_fail tt)
      | inr (s, e) ↦
          rw (ok, e, download_answer)
            (keep-Downloads target path h r (receive_pdf (some s)) scratch g
              ((==_iff r.status 200).0 ok) (ap receive_pdf e))
    ]
  ]

  pub download_pdf-Ensures :
      (url : Text) (path : LocalPath) (h : History)
      → IsScratch path
      → Ensures (Probes p) (Downloads url) h (download_pdf p url path)
  unfolding download_pdf
  download_pdf-Ensures url path h scratch = at_bind (download_answer p path) (
      Ensures-mono (λ h' c x. x) (λ h' o g. download_next url path h' o scratch g)
        (request_pdf-Ensures pdf_rounds url none none h))
