-- ===== src/Worker/Policy.antt =====
-- worker-shared/fcim-policy.ts and worker-shared/pdf-inventory.ts: which URLs and file names are
-- official timetable documents, and the inventory of a page.
pub mod Laws
use utm_curs_i_orar.Prelude.{
  ℕ, zero, suc, ◌+◌, ◌-◌, Bool, true, false, ◌&&◌, ◌||◌, not, Option, none, some, List, [], ◌∷◌,
  ◌++◌, ltb, leb, ◌==◌, if◌then◌else◌, length, drop, take, all,
}
use utm_curs_i_orar.Text.{
  Text, codes, text_eq, is_digit, is_lower, is_upper, to_lower, starts_with, includes, trim,
  matches, digit, unit, times, Class,
}
use utm_curs_i_orar.Worker.Platform.{Platform, Url}

abbrev pub canonical_page_api_url : Text
canonical_page_api_url =
    codes "https://fcim.utm.md/wp-json/wp/v2/pages?slug=orar-sectia-zi-2&context=view"

abbrev pub canonical_page_id : ℕ
canonical_page_id = 28642

abbrev pub legacy_page_api_url : Text
legacy_page_api_url = codes "https://fcim.utm.md/wp-json/wp/v2/pages?slug=orar&context=view"

abbrev pub legacy_page_id : ℕ
legacy_page_id = 1739

abbrev pub page_migration_modified_gmt : Text
page_migration_modified_gmt = codes "2026-10-06T08:54:47"

abbrev official_origin : Text
official_origin = codes "https://fcim.utm.md"

abbrev pub max_official_pdf_filename_length : ℕ
max_official_pdf_filename_length = 195

abbrev is_alnum : ℕ → Bool
is_alnum c = is_digit c || is_lower c || is_upper c

abbrev is_name_unit : ℕ → Bool
is_name_unit c = is_alnum c || c == b'_' || c == b'.' || c == b'-'

-- SAFE_PDF_FILENAME, `/^[a-zA-Z0-9][a-zA-Z0-9_.-]{0,190}\.pdf$/i`: a first letter or digit, up to
-- 190 units, and the extension in any case.
safe_pdf_name : Text → Bool
safe_pdf_name [] = false
safe_pdf_name (c ∷ cs) =
    let n = length cs - 4 in
    is_alnum c
    && leb 4 (length cs)
    && leb n 190
    && all is_name_unit (take n cs)
    && text_eq (to_lower (drop n cs)) (codes ".pdf")

unfoldable pub is_safe_official_pdf_filename : Text → Bool
unfolding safe_pdf_name to_lower text_eq includes
is_safe_official_pdf_filename filename =
    safe_pdf_name filename && not (includes (codes "..") filename)

-- DANGEROUS_RAW_PATTERN, `/(?:%25|%2e|%2f|%5c|\.\.|\\)/i`
is_dangerous : Text → Bool
unfolding to_lower includes
is_dangerous raw =
    let low = to_lower raw in
    includes (codes "%25") low
    || includes (codes "%2e") low
    || includes (codes "%2f") low
    || includes (codes "%5c") low
    || includes (codes "..") low
    || includes (codes "\\") low

-- OFFICIAL_TIMETABLE_PDF_PATH, giving its third group: the part behind the upload month, with no
-- slash in it.
official_pdf_name : Text → Option Text
unfolding starts_with matches
official_pdf_name path =
    let prefix = codes "/wp-content/uploads/sites/24/" in
    let rest = drop (length prefix) path in
    let month = take 2 (drop 5 rest) in
    let name = drop 8 rest in
    if starts_with prefix path
      && matches (times 4 digit (unit b'/' ∷ times 2 digit (unit b'/' ∷ []))) (take 8 rest)
      && not (text_eq month (codes "00"))
      && (starts_with (codes "0") month
          || text_eq month (codes "10")
          || text_eq month (codes "11")
          || text_eq month (codes "12"))
      && leb 1 (length name)
      && all (λ c. not (c == b'/')) name
    then some name
    else none

unfoldable pub contains : Text → List Text → Bool
unfolding text_eq
contains t [] = false
contains t (u ∷ us) = text_eq t u || contains t us

-- `urlSet.add`, in insertion order.
unfoldable pub add_url : List Text → Text → List Text
unfolding contains
add_url urls url = if contains url urls then urls else urls ++ url ∷ []

module _ (p : Platform) where
  url_is_official : Text → Url → Bool
  unfolding official_pdf_name is_safe_official_pdf_filename text_eq
  url_is_official raw url =
      text_eq url.protocol (codes "https:")
      && text_eq url.hostname (codes "fcim.utm.md")
      && text_eq url.port []
      && text_eq url.username []
      && text_eq url.password []
      && text_eq url.search []
      && text_eq url.hash []
      && text_eq url.origin official_origin
      && text_eq url.href raw
      && (elim (official_pdf_name url.pathname) [
        | none ↦ false
        | some name ↦ is_safe_official_pdf_filename name
      ])

  unfoldable pub is_official_timetable_pdf_url : Text → Bool
  unfolding url_is_official is_dangerous includes starts_with
  is_official_timetable_pdf_url raw =
      if length raw == 0 || ltb 2048 (length raw)
      then false
      else if is_dangerous raw || includes (codes "?") raw || includes (codes "#") raw
      then false
      else if not (starts_with (official_origin ++ codes "/") raw)
      then false
      else elim (p.parse_url raw) [ none ↦ false | some url ↦ url_is_official raw url ]

  unfoldable pub resolve_official_timetable_pdf_redirect : Text → Text → Option Text
  unfolding is_official_timetable_pdf_url is_dangerous includes
  resolve_official_timetable_pdf_redirect raw current =
      if length raw == 0
        || ltb 2048 (length raw)
        || is_dangerous raw
        || includes (codes "?") raw
        || includes (codes "#") raw
      then none
      else elim (p.resolve_url raw current) [
        | none ↦ none
        | some resolved ↦ if is_official_timetable_pdf_url resolved then some resolved else none
      ]

  -- The URL of one href: absolute, rooted, or resolved against the base; none skips it.
  unfoldable pub resolved_href : Text → Text → Option Text
  unfolding starts_with
  resolved_href base href =
      if starts_with (official_origin ++ codes "/") href
      then some href
      else if starts_with (codes "/") href
      then some (official_origin ++ href)
      else p.resolve_url href base

  unfoldable pub add_official : List Text → Option Text → List Text
  unfolding is_official_timetable_pdf_url add_url
  add_official urls none = urls
  add_official urls (some url) =
      if is_official_timetable_pdf_url url then add_url urls url else urls

  unfoldable pub scan_hrefs : Text → List Text → List Text → List Text
  unfolding add_official resolved_href trim
  scan_hrefs base urls [] = urls
  scan_hrefs base urls (m ∷ ms) =
      scan_hrefs base (add_official urls (resolved_href base (trim m))) ms

  unfoldable pub scan_raw : List Text → List Text → List Text
  unfolding add_official trim
  scan_raw urls [] = urls
  scan_raw urls (m ∷ ms) = scan_raw (add_official urls (some (trim m))) ms

  unfoldable pub extract_official_pdf_urls : Text → List Text
  unfolding scan_hrefs scan_raw
  extract_official_pdf_urls html =
      scan_raw (scan_hrefs official_origin [] (p.href_matches html)) (p.raw_url_matches html)
