-- ===== src/Source/Tests.antt =====
-- Addresses of src/lib/source/revision.ts.
use utm_curs_i_orar.Prelude.{◌≡◌, refl, true, false, Option, some}
use utm_curs_i_orar.Text.{Text, codes}
use utm_curs_i_orar.Source.Revision.{is_newer_pdf_publication}
use utm_curs_i_orar.Source.Revision.Order.{is_newer_pdf_publication-strict}

-- Addresses that are paths already.
abbrev same_path : Text → Option Text
same_path u = some u

abbrev ninth : Text
ninth = codes "/24/2026/09/anul_i_semestrul_i-9.pdf"

abbrev tenth : Text
tenth = codes "/24/2026/09/anul_i_semestrul_i-10.PDF"

abbrev restarted : Text
restarted = codes "/24/2026/10/anul_i_semestrul_i.pdf"

tenth_newer : is_newer_pdf_publication same_path tenth ninth ≡ true
unfolding is_newer_pdf_publication
tenth_newer = refl

restarted_newer : is_newer_pdf_publication same_path restarted tenth ≡ true
unfolding is_newer_pdf_publication
restarted_newer = refl

is_newer_pdf_publication-strict_example :
    (is_newer_pdf_publication same_path restarted ninth ≡ true)
    × (is_newer_pdf_publication same_path tenth restarted ≡ false)
    × ((u : Text) → is_newer_pdf_publication same_path u u ≡ false)
is_newer_pdf_publication-strict_example =
    is_newer_pdf_publication-strict same_path restarted tenth ninth restarted_newer tenth_newer
