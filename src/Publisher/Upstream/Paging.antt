-- ===== src/Publisher/Upstream/Paging.antt =====
-- What the answer to a request for the page rests on (`fetchPageApi` of
-- tools/md-publisher/src/upstream.ts).
use utm_curs_i_orar.Prelude.{
  ◌≡◌, refl, false, Option, none, some, inl, inr, Bool-cases, ◌==◌, ==_iff,
}
use utm_curs_i_orar.Text.{Text}
use utm_curs_i_orar.Worker.Platform.{Platform}
use utm_curs_i_orar.Worker.Policy.{canonical_page_api_url}
use utm_curs_i_orar.Publisher.Calls.{get, ◌>>=◌, Outcome, returned, raised, HttpResponse}
use utm_curs_i_orar.Publisher.Calls.Rules.{History, Ensures, at_done, at_fail, at_ask, Happened}
use utm_curs_i_orar.Publisher.Broker.{lift, and_then}
use utm_curs_i_orar.Publisher.Upstream.{
  is_redirect, non_empty, fetched, PageApiResult, page_of, fetch_page_api, read_within,
  validator_or_null, max_page_api_bytes,
}
use utm_curs_i_orar.Publisher.Upstream.Fetching.{Probes}

-- The response says that nothing changed since, or has these bytes.
abbrev pub IsPageBody : HttpResponse → Option Text → Type 0
IsPageBody r none = r.status ≡ 304
IsPageBody r (some bytes) =
    (r.status ≡ 200) × (read_within max_page_api_bytes r.body ≡ returned bytes)

-- The canonical page was asked for with these validators, and this was the answer.
abbrev pub Paged : Option Text → Option Text → History → PageApiResult → Type 0
Paged etag modified h page =
    (r : HttpResponse) × Happened
      (get canonical_page_api_url (non_empty etag) (non_empty modified), some r) h
    × IsPageBody r page.bytes

abbrev pub Pages : Option Text → Option Text → History → Outcome PageApiResult → Type 0
Pages etag modified h (returned page) = Paged etag modified h page
Pages etag modified h (raised e) = Unit

module _ (p : Platform) (etag modified : Option Text) (h : History) (r : HttpResponse)
    (there : Happened
      (get canonical_page_api_url (non_empty etag) (non_empty modified), some r)
      h) where
  read-Pages :
      (o : Outcome Text)
      → read_within max_page_api_bytes r.body ≡ o
      → r.status ≡ 200
      → Ensures (Probes p) (Pages etag modified) h (
          lift (
            and_then o (λ bytes. returned (record {
              not_modified = false;
              bytes = some bytes;
              etag = validator_or_null r.etag;
              last_modified = validator_or_null r.last_modified;
            }))))
  read-Pages (raised e) read ok = at_fail tt
  read-Pages (returned bytes) read ok = at_done (r, there, (ok, read))

  page_of-Pages : Ensures (Probes p) (Pages etag modified) h (lift (page_of r))
  unfolding page_of
  page_of-Pages = elim (Bool-cases (is_redirect r.status)) [
    | inl moved ↦ rw (moved, page_of) (at_fail tt)
    | inr direct ↦ elim (Bool-cases (r.status == 304)) [
      | inl same ↦ rw (direct, same, page_of) (at_done (r, there, (==_iff r.status 304).0 same))
      | inr other ↦ elim (Bool-cases (r.status == 200)) [
        | inr bad ↦ rw (direct, other, bad, page_of) (at_fail tt)
        | inl ok ↦
            rw (direct, other, ok, page_of)
              (read-Pages (read_within max_page_api_bytes r.body) refl ((==_iff r.status 200).0 ok))
      ]
    ]
  ]

pub fetch_page_api-Ensures :
    (p : Platform) (etag modified : Option Text) (h : History)
    → Ensures (Probes p) (Pages etag modified) h (fetch_page_api etag modified)
unfolding fetch_page_api fetched ◌>>=◌
fetch_page_api-Ensures p etag modified h =
    at_ask (inl refl)
      (elim [ none ↦ at_fail tt | some r ↦ page_of-Pages p etag modified _ r (inl refl) ])
