-- ===== src/Publisher/Upstream.antt =====
-- tools/md-publisher/src/upstream.ts: the official page and the PDFs, with the limits on what is
-- read and on where a redirect may lead.
pub mod Fetching
pub mod Paging
pub mod Limits
pub mod Signature
use utm_curs_i_orar.Prelude.{
  ℕ, zero, suc, ◌+◌, ◌*◌, Bool, true, false, ◌&&◌, ◌||◌, not, Option, none, some, List, [], ◌∷◌,
  ◌++◌, ltb, leb, ◌==◌, length, take, if◌then◌else◌,
}
use utm_curs_i_orar.Text.{Text, codes, text_eq, trim}
use utm_curs_i_orar.Worker.Platform.{Platform}
use utm_curs_i_orar.Worker.Policy.{
  canonical_page_api_url, is_official_timetable_pdf_url, resolve_official_timetable_pdf_redirect,
}
use utm_curs_i_orar.Publisher.Calls.{
  Failure, upstream_error, other_error, Act, done, fail, call, ◌>>=◌, Outcome, returned, raised,
  get, write_file, removing, Stream, HttpResponse, LocalPath,
}
use utm_curs_i_orar.Publisher.Broker.{and_then, lift}

abbrev pub max_page_api_bytes : ℕ
max_page_api_bytes = 1024 * 1024

abbrev pub max_pdf_bytes : ℕ
max_pdf_bytes = 25 * 1024 * 1024

abbrev pub max_pdf_redirects : ℕ
max_pdf_redirects = 3

abbrev pub pdf_magic : Text
pdf_magic = codes "%PDF-"

unfoldable pub is_redirect : ℕ → Bool
is_redirect s = s == 301 || s == 302 || s == 303 || s == 307 || s == 308

unfoldable pub validator_or_null : Option Text → Option Text
validator_or_null none = none
validator_or_null (some t) = if length (trim t) == 0 then none else some (trim t)

-- What a test for truth leaves of a text that may be null.
unfoldable pub non_empty : Option Text → Option Text
non_empty none = none
non_empty (some t) = if length t == 0 then none else some t

unfoldable pub fetched : Option HttpResponse → Act HttpResponse
fetched none = fail (other_error (codes "transport"))
fetched (some r) = done r

-- The chunks one by one, until they end, break off or exceed the limit.
unfoldable pub read_chunks : ℕ → Bool → List Text → Text → Outcome Text
read_chunks max complete [] sofar =
    if complete then returned sofar else raised (other_error (codes "stream"))
read_chunks max complete (chunk ∷ chunks) sofar =
    let rest = read_chunks max complete chunks (sofar ++ chunk) in
    if ltb max (length sofar + length chunk) then raised (upstream_error none) else rest

unfoldable pub read_within : ℕ → Option Stream → Outcome Text
unfolding read_chunks
read_within max none = raised (upstream_error none)
read_within max (some s) = read_chunks max s.complete s.chunks []

pub record PageApiResult : Type 0 where
  pub not_modified : Bool
  pub bytes : Option Text
  pub etag : Option Text
  pub last_modified : Option Text

unfoldable pub page_of : HttpResponse → Outcome PageApiResult
unfolding is_redirect read_within validator_or_null
page_of r =
    if is_redirect r.status
    then raised (upstream_error (some r.status))
    else if r.status == 304
    then returned (record {
      not_modified = true;
      bytes = none;
      etag = validator_or_null r.etag;
      last_modified = validator_or_null r.last_modified;
    })
    else if not (r.status == 200)
    then raised (upstream_error (some r.status))
    else and_then (read_within max_page_api_bytes r.body) (λ bytes. returned (record {
      not_modified = false;
      bytes = some bytes;
      etag = validator_or_null r.etag;
      last_modified = validator_or_null r.last_modified;
    }))

unfoldable pub fetch_page_api : Option Text → Option Text → Act PageApiResult
unfolding ◌>>=◌ fetched page_of non_empty
fetch_page_api etag modified = do
  a ← call (get canonical_page_api_url (non_empty etag) (non_empty modified))
  r ← fetched a
  lift (page_of r)

-- The checks of `downloadPdf` while the bytes arrive: the prefix is collected from the first bytes
-- of each chunk until it is long enough, and is then compared once.
pub record Receiving : Type 0 where
  pub content : Text
  pub size : ℕ
  pub magic_checked : Bool
  pub magic_prefix : Text

unfoldable pub receive_chunk : Receiving → Text → Outcome Receiving
receive_chunk s chunk =
    let prefix : Text = s.magic_prefix ++ take (length pdf_magic) chunk in
    let enough : Bool = leb (length pdf_magic) (length prefix) in
    if length chunk == 0
    then returned s
    else if not s.magic_checked
        && (enough && not (text_eq (take (length pdf_magic) prefix) pdf_magic))
    then raised (upstream_error none)
    else if ltb max_pdf_bytes (s.size + length chunk)
    then raised (upstream_error none)
    else returned (record {
      content = s.content ++ chunk;
      size = s.size + length chunk;
      magic_checked = s.magic_checked || enough;
      magic_prefix = if s.magic_checked then s.magic_prefix else prefix;
    })

unfoldable pub receive_chunks : Bool → List Text → Receiving → Outcome Receiving
unfolding receive_chunk
receive_chunks complete [] s =
    if not complete
    then raised (other_error (codes "stream"))
    else if not s.magic_checked
    then raised (upstream_error none)
    else returned s
receive_chunks complete (chunk ∷ chunks) s =
    and_then (receive_chunk s chunk) (receive_chunks complete chunks)

abbrev pub nothing_received : Receiving
nothing_received = record { content = []; size = 0; magic_checked = false; magic_prefix = [] }

unfoldable pub receive_pdf : Option Stream → Outcome Receiving
unfolding receive_chunks
receive_pdf none = raised (upstream_error none)
receive_pdf (some s) = receive_chunks s.complete s.chunks nothing_received

pub record RevalidateResult : Type 0 where
  pub changed : Bool
  pub etag : Option Text
  pub last_modified : Option Text

pub record DownloadedPdf : Type 0 where
  pub path : LocalPath
  pub size : ℕ
  pub sha256 : Text
  pub etag : Option Text
  pub last_modified : Option Text

abbrev pub pdf_rounds : ℕ
pdf_rounds = suc max_pdf_redirects

unfoldable pub revalidated : Option Text → Option Text → HttpResponse → Outcome RevalidateResult
unfolding validator_or_null
revalidated etag modified r =
    if r.status == 304
    then returned (record { changed = false; etag = etag; last_modified = modified })
    else if r.status == 200
    then returned (record {
      changed = true;
      etag = validator_or_null r.etag;
      last_modified = validator_or_null r.last_modified;
    })
    else raised (upstream_error (some r.status))

module _ (p : Platform) where
  -- Where a redirect leads, if it may.
  unfoldable pub redirected : Text → Option Text → Option Text
  redirected target none = none
  redirected target (some location) =
      if length location == 0
      then none
      else resolve_official_timetable_pdf_redirect p location target

  -- `requestPdf`, with the number of rounds of its loop that are left.
  unfoldable pub request_pdf : ℕ → Text → Option Text → Option Text → Act HttpResponse
  unfolding ◌>>=◌ fetched is_redirect redirected
  request_pdf zero target etag modified = fail (upstream_error none)
  request_pdf (suc n) target etag modified =
      if not (is_official_timetable_pdf_url p target) then fail (upstream_error none) else do
        a ← call (get target etag modified)
        r ← fetched a
        if not (is_redirect r.status) then done r else elim (redirected target r.location) [
          | none ↦ fail (upstream_error (some r.status))
          | some next ↦ request_pdf n next etag modified
        ]

  unfoldable pub revalidate_pdf : Text → Option Text → Option Text → Act RevalidateResult
  unfolding ◌>>=◌ request_pdf revalidated non_empty
  revalidate_pdf url etag modified = do
    r ← request_pdf pdf_rounds url (non_empty etag) (non_empty modified)
    lift (revalidated etag modified r)

  -- What arrived is in the file when the stream has ended well; otherwise the file is removed.
  unfoldable pub keep_download : LocalPath → HttpResponse → Outcome Receiving → Act DownloadedPdf
  unfolding ◌>>=◌ validator_or_null
  keep_download path r (raised e) = do u ← removing path; fail e
  keep_download path r (returned s) = do
    stored ← call (write_file path s.content)
    if stored
        then done (record {
          path = path;
          size = s.size;
          sha256 = p.sha256_hex s.content;
          etag = validator_or_null r.etag;
          last_modified = validator_or_null r.last_modified;
        })
        else do u ← removing path; fail (other_error (codes "file system"))

  unfoldable pub download_answer : LocalPath → HttpResponse → Act DownloadedPdf
  unfolding keep_download receive_pdf
  download_answer path r =
      if not (r.status == 200) then fail (upstream_error (some r.status)) else elim r.body [
        | none ↦ fail (upstream_error none)
        | some s ↦ keep_download path r (receive_pdf (some s))
      ]

  unfoldable pub download_pdf : Text → LocalPath → Act DownloadedPdf
  unfolding ◌>>=◌ request_pdf download_answer
  download_pdf url path = do r ← request_pdf pdf_rounds url none none; download_answer path r
