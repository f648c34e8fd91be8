-- ===== src/Worker/Policy/Laws.antt =====
-- What the inventory of a page holds.
use utm_curs_i_orar.Prelude.{
  ◌≡◌, refl, true, false, Option, none, some, List, [], ◌∷◌, ◌++◌, All, Bool-cases, inl, inr, arith,
}
use utm_curs_i_orar.Text.{Text, text_eq, trim}
use utm_curs_i_orar.Text.Laws.{text_eq_iff}
use utm_curs_i_orar.Worker.Platform.{Platform}
use utm_curs_i_orar.Worker.Policy.{
  contains, add_url, is_official_timetable_pdf_url, add_official, scan_hrefs, scan_raw,
  resolved_href, extract_official_pdf_urls,
}

-- No text stands twice.
abbrev pub IsDistinct : List Text → Type 0
IsDistinct [] = Unit
IsDistinct (u ∷ us) = (contains u us ≡ false) × IsDistinct us

contains-snoc :
    (u v : Text) (us : List Text)
    → contains u us ≡ false
    → text_eq u v ≡ false
    → contains u (us ++ v ∷ []) ≡ false
unfolding contains
contains-snoc u v [] h e = ground arith
contains-snoc u v (w ∷ us) h e = ground (arith, contains-snoc u v us)

text_eq-flip : (u v : Text) → text_eq u v ≡ false → text_eq v u ≡ false
text_eq-flip u v e = elim (Bool-cases (text_eq v u)) [
  | inr f ↦ f
  | inl t ↦
      let p : v ≡ u = (text_eq_iff v u).0 t in
      let q : text_eq u v ≡ true = (text_eq_iff u v).1 (cc) in cc
]

IsDistinct-snoc :
    (v : Text) (us : List Text) → IsDistinct us → contains v us ≡ false → IsDistinct (us ++ v ∷ [])
unfolding contains
IsDistinct-snoc v [] d h = (refl, tt)
IsDistinct-snoc v (u ∷ us) (fresh, d) h = elim (Bool-cases (text_eq v u)) [
  | inl same ↦ absurd (ground arith)
  | inr other ↦
      (contains-snoc u v us fresh (text_eq-flip v u other), IsDistinct-snoc v us d (ground arith))
]

All-snoc : (P : Text → Type 0) (v : Text) (us : List Text) → All P us → P v → All P (us ++ v ∷ [])
All-snoc P v [] a h = (h, tt)
All-snoc P v (u ∷ us) (x, a) h = (x, All-snoc P v us a h)

module _ (p : Platform) where
  abbrev pub IsOfficial : Text → Type 0
  IsOfficial url = is_official_timetable_pdf_url p url ≡ true

  abbrev pub IsInventory : List Text → Type 0
  IsInventory urls = All IsOfficial urls × IsDistinct urls

  add_official-IsInventory :
      (urls : List Text) (url : Option Text)
      → IsInventory urls
      → IsInventory (add_official p urls url)
  unfolding add_official add_url
  add_official-IsInventory urls none i = i
  add_official-IsInventory urls (some url) (a, d) =
      elim (Bool-cases (is_official_timetable_pdf_url p url)) [
        | inr f ↦ rw f (a, d)
        | inl t ↦ rw t (elim (Bool-cases (contains url urls)) [
          | inl there ↦ rw there (a, d)
          | inr fresh ↦
              rw fresh (All-snoc IsOfficial url urls a t, IsDistinct-snoc url urls d fresh)
        ])
      ]

  scan_hrefs-IsInventory :
      (base : Text) (urls ms : List Text)
      → IsInventory urls
      → IsInventory (scan_hrefs p base urls ms)
  unfolding scan_hrefs
  scan_hrefs-IsInventory base urls [] i = i
  scan_hrefs-IsInventory base urls (m ∷ ms) i =
      let url : Option Text = resolved_href p base (trim m) in
      scan_hrefs-IsInventory base (add_official p urls url) ms (add_official-IsInventory urls url i)

  scan_raw-IsInventory : (urls ms : List Text) → IsInventory urls → IsInventory (scan_raw p urls ms)
  unfolding scan_raw
  scan_raw-IsInventory urls [] i = i
  scan_raw-IsInventory urls (m ∷ ms) i =
      let url : Option Text = some (trim m) in
      scan_raw-IsInventory (add_official p urls url) ms (add_official-IsInventory urls url i)

  -- Every URL in the inventory of a page passes the policy's test for an official timetable
  -- document, and no URL stands in it twice, whatever the page is.
  pub extract_official_pdf_urls-IsInventory :
      (html : Text) → IsInventory (extract_official_pdf_urls p html)
  unfolding extract_official_pdf_urls
  extract_official_pdf_urls-IsInventory html =
      scan_raw-IsInventory _ (p.raw_url_matches html)
        (scan_hrefs-IsInventory _ [] (p.href_matches html) (tt, tt))
