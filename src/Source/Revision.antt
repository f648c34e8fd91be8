-- ===== src/Source/Revision.antt =====
-- src/lib/source/revision.ts: the document and the revision that a PDF's address names. The
-- numbers of the source are floating, so its revisions are exact below 2^53, and lower case is
-- that of ASCII, as a path is written after `new URL`.
pub mod Order
use utm_curs_i_orar.Prelude.{
  ℕ, suc, ◌+◌, ◌-◌, ◌*◌, Bool, true, false, ◌&&◌, ◌||◌, not, Option, none, some, List, [], ◌∷◌,
  ◌++◌, ltb, leb, ◌==◌, if◌then◌else◌, length, take, drop, all,
}
use utm_curs_i_orar.Text.{
  Text, codes, text_eq, is_digit, number_from, to_lower, starts_with, matches, digit, unit, times,
  Class,
}

pub record PdfRevision : Type 0 where
  pub family : Text
  pub revision : ℕ

-- What stands before and behind the last unit `mark`.
unfoldable pub split_last : ℕ → Text → Option (Text × Text)
split_last mark [] = none
split_last mark (c ∷ cs) =
    let rest = split_last mark cs in
    elim rest [
      | none ↦ if c == mark then some ([], cs) else none
      | some (before, behind) ↦ some (c ∷ before, behind)
    ]

-- `/\.pdf$/i`
unfoldable pub is_pdf : Text → Bool
unfolding to_lower text_eq
is_pdf name = leb 4 (length name) && text_eq (to_lower (drop (length name - 4) name)) (codes ".pdf")

-- The units that `.` matches.
abbrev is_dot : ℕ → Bool
is_dot c = not (c == 10 || c == 13 || c == 8232 || c == 8233)

-- REVISION_SUFFIX_RE, `/^(.+)-(\d+)\.pdf$/i`, with its two groups. A dash cannot stand among the
-- digits, so it is the last one.
unfoldable pub revision_suffix : Text → Option (Text × Text)
unfolding split_last is_pdf
revision_suffix name = elim (split_last b'-' (take (length name - 4) name)) [
  | none ↦ none
  | some (stem, digits) ↦
      if is_pdf name
        && leb 1 (length stem)
        && all is_dot stem
        && leb 1 (length digits)
        && all is_digit digits
      then some (stem, digits)
      else none
]

-- `splitPdfRevision`
unfoldable pub split_pdf_revision : Text → PdfRevision
unfolding revision_suffix is_pdf to_lower
split_pdf_revision name = elim (revision_suffix name) [
  | none ↦ record {
    family = to_lower (if is_pdf name then take (length name - 4) name else name);
    revision = 0;
  }
  | some (stem, digits) ↦ record { family = to_lower stem; revision = number_from 0 digits }
]

-- `path.slice(path.lastIndexOf("/") + 1)`
unfoldable pub file_name : Text → Text
unfolding split_last
file_name path = elim (split_last b'/' path) [ none ↦ path | some (before, behind) ↦ behind ]

-- `path.slice(0, path.lastIndexOf("/"))`: without a slash, all but the last unit.
unfoldable pub directory : Text → Text
unfolding split_last
directory path = elim (split_last b'/' path) [
  | none ↦ take (length path - 1) path
  | some (before, behind) ↦ before
]

unfoldable pub revision_of : Text → Option PdfRevision
unfolding is_pdf file_name split_pdf_revision
revision_of path =
    if is_pdf (file_name path) then some (split_pdf_revision (file_name path)) else none

is_month : Text → Bool
unfolding starts_with text_eq
is_month month =
    not (text_eq month (codes "00"))
    && (starts_with (codes "0") month
        || text_eq month (codes "10")
        || text_eq month (codes "11")
        || text_eq month (codes "12"))

-- `period`: the year and the month that a directory ends with, by
-- `/\/(\d{4})\/(0[1-9]|1[0-2])\/[^/]+$/` on the path.
unfoldable pub period : Text → Option Text
unfolding directory file_name matches is_month
period path =
    let end = drop (length (directory path) - 8) (directory path) in
    if leb 1 (length (file_name path))
      && matches (unit b'/' ∷ times 4 digit (unit b'/' ∷ times 2 digit [])) end
      && is_month (drop 6 end)
    then some (take 4 (drop 1 end) ++ drop 6 end)
    else none

-- `a < b` on strings.
unfoldable pub text_ltb : Text → Text → Bool
text_ltb [] [] = false
text_ltb [] (_ ∷ _) = true
text_ltb (_ ∷ _) [] = false
text_ltb (x ∷ xs) (y ∷ ys) = ltb x y || (x == y && text_ltb xs ys)

-- The comparison of two periods, and what decides without two that differ.
unfoldable pub later_by : Option Text → Option Text → Bool → Bool
unfolding text_eq text_ltb
later_by none q within = within
later_by (some x) none within = within
later_by (some x) (some y) within = if text_eq x y then within else text_ltb y x

unfoldable pub is_later : Text → PdfRevision → Text → PdfRevision → Bool
unfolding text_eq directory period later_by
is_later path a other b =
    text_eq a.family b.family
    && later_by (period path) (period other)
        (text_eq (directory path) (directory other) && ltb b.revision a.revision)

-- `new URL(…).pathname`, none where it throws.
module _ (pathname_of : Text → Option Text) where
  -- `pdfRevisionFromUrl`
  unfoldable pub pdf_revision_from_url : Text → Option PdfRevision
  unfolding revision_of
  pdf_revision_from_url url = elim (pathname_of url) [ none ↦ none | some path ↦ revision_of path ]

  -- `isNewerPdfPublication`
  unfoldable pub is_newer_pdf_publication : Text → Text → Bool
  unfolding pdf_revision_from_url is_later
  is_newer_pdf_publication candidate current = elim (pathname_of candidate) [
    | none ↦ false
    | some path ↦ elim (pathname_of current) [
      | none ↦ false
      | some other ↦ elim (pdf_revision_from_url candidate) [
        | none ↦ false
        | some a ↦ elim (pdf_revision_from_url current) [
          | none ↦ false
          | some b ↦ is_later path a other b
        ]
      ]
    ]
  ]
