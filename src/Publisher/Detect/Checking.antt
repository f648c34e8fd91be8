-- ===== src/Publisher/Detect/Checking.antt =====
-- What the loop over the PDFs rests on (`detectChange` of tools/md-publisher/src/publish.ts).
use utm_curs_i_orar.Prelude.{
  ◌≡◌, refl, subst, Bool, true, false, ◌||◌, not, ◌⊎◌, Option, none, some, List, [], ◌∷◌, inl, inr,
  All,
}
use utm_curs_i_orar.Text.{Text, text_eq}
use utm_curs_i_orar.Text.Laws.{text_eq_iff}
use utm_curs_i_orar.Worker.Platform.{Platform}
use utm_curs_i_orar.Publisher.Calls.{Failure, done, Outcome, returned, raised, cache_path}
use utm_curs_i_orar.Publisher.Calls.Rules.{
  Event, History, Ensures, at_done, at_if, at_bind, Ensures-mono, Ensures-since, Continues,
}
use utm_curs_i_orar.Publisher.Types.{BaselinePdf}
use utm_curs_i_orar.Publisher.Upstream.{RevalidateResult, DownloadedPdf, non_empty}
use utm_curs_i_orar.Publisher.Upstream.Fetching.{
  Probes, Revalidated, Revalidates, revalidate_pdf-Ensures, Downloaded, Downloads, Got-grows,
  download_pdf-Ensures,
}
use utm_curs_i_orar.Publisher.Detect.{
  Seen, check_pdf_revalidated, check_pdf_downloaded, is_some, was_removed, check_pdf, check_pdfs,
}

module _ (p : Platform) where
  -- The source still has these bytes: asked for the PDF with the recorded validators it answered
  -- 304, or the PDF was read again and has the recorded digest.
  abbrev pub IsSamePdf : History → BaselinePdf → Type 0
  IsSamePdf h pdf =
      Revalidated p pdf.source_url pdf.etag pdf.last_modified h
      ⊎ Downloaded p pdf.source_url pdf.sha256 h

  pub IsSamePdf-grows :
      (e : Event) (h : History) (pdf : BaselinePdf) → IsSamePdf h pdf → IsSamePdf (e ∷ h) pdf
  IsSamePdf-grows e h pdf (inl (r, g, same)) = inl (r, Got-grows p pdf.source_url _ _ h e r g, same)
  IsSamePdf-grows e h pdf (inr (r, s, g, ok, received, digest)) =
      inr (r, s, Got-grows p pdf.source_url none none h e r g, ok, received, digest)

  pub or_false : (a b : Bool) → (a || b) ≡ false → (a ≡ false) × (b ≡ false)
  or_false true b h = cc
  or_false false b h = (refl, h)

  -- One PDF.
  abbrev pub ChecksOne : BaselinePdf → Seen → History → Outcome Seen → Type 0
  ChecksOne pdf s h (returned t) = t.pdf_changed ≡ false → (s.pdf_changed ≡ false) × IsSamePdf h pdf
  ChecksOne pdf s h (raised e) = Unit

  pub revalidated_next :
      (pdf : BaselinePdf) (s : Seen) (h : History) (o : Outcome RevalidateResult)
      → Revalidates p pdf.source_url pdf.etag pdf.last_modified h o
      → Continues
          (Probes p)
          (ChecksOne pdf s)
          (λ r. done (check_pdf_revalidated pdf.source_url s r))
          h
          o
  unfolding check_pdf_revalidated
  revalidated_next pdf s h (raised e) g = tt
  revalidated_next pdf s h (returned r) g =
      at_done (λ x. let (a, b) = or_false s.pdf_changed r.changed x in (a, inl (g b)))

  pub not-false : (b : Bool) → not b ≡ false → b ≡ true
  not-false true h = refl
  not-false false h = cc

  pub downloaded_next :
      (pdf : BaselinePdf) (s : Seen) (h : History) (o : Outcome DownloadedPdf)
      → Downloads p pdf.source_url h o
      → Continues (Probes p) (ChecksOne pdf s) (λ body. done (check_pdf_downloaded pdf s body)) h o
  unfolding check_pdf_downloaded
  downloaded_next pdf s h (raised e) g = tt
  downloaded_next pdf s h (returned d) g = at_done (λ x.
      let (a, b) = or_false s.pdf_changed (not (text_eq d.sha256 pdf.sha256)) x in
      let same : d.sha256 ≡ pdf.sha256 = (text_eq_iff d.sha256 pdf.sha256).0 (not-false _ b) in
      (a, inr (subst (λ q. Downloaded p pdf.source_url q h) same g)))

  pub check_pdf-Ensures :
      (pdf : BaselinePdf) (s : Seen) (h : History)
      → Ensures (Probes p) (ChecksOne pdf s) h (check_pdf p pdf s)
  unfolding check_pdf
  check_pdf-Ensures pdf s h =
      at_if (is_some (non_empty pdf.etag) || is_some (non_empty pdf.last_modified))
        (λ a.
          at_bind (λ r. done (check_pdf_revalidated pdf.source_url s r))
            (Ensures-mono (λ h' c x. x) (revalidated_next pdf s)
              (revalidate_pdf-Ensures p pdf.source_url pdf.etag pdf.last_modified h)))
        (λ b.
          at_bind (λ body. done (check_pdf_downloaded pdf s body))
            (Ensures-mono (λ h' c x. x) (downloaded_next pdf s)
              (download_pdf-Ensures p pdf.source_url (cache_path pdf.source_url) h tt)))

  -- The rest of the loop keeps what was seen.
  abbrev pub ChecksRest :
      Option (List Text) → List BaselinePdf → Seen → History → Outcome Seen → Type 0
  ChecksRest none pdfs s h (returned t) =
      t.pdf_changed ≡ false → (s.pdf_changed ≡ false) × All (IsSamePdf h) pdfs
  ChecksRest (some urls) pdfs s h (returned t) = Unit
  ChecksRest urls pdfs s h (raised e) = Unit

  pub add_checked :
      (urls : Option (List Text)) (pdf : BaselinePdf) (pdfs : List BaselinePdf) (s t : Seen)
      (h : History) (o : Outcome Seen)
      → ChecksRest urls pdfs t h o
        × (t.pdf_changed ≡ false → (s.pdf_changed ≡ false) × IsSamePdf h pdf)
      → ChecksRest urls (pdf ∷ pdfs) s h o
  add_checked none pdf pdfs s t h (returned u) (rest, one) =
      λ x. let (a, all) = rest x in let (b, same) = one a in (b, (same, all))
  add_checked (some us) pdf pdfs s t h (returned u) g = tt
  add_checked none pdf pdfs s t h (raised e) g = tt
  add_checked (some us) pdf pdfs s t h (raised e) g = tt

  pub raised_rest :
      (urls : Option (List Text)) (pdfs : List BaselinePdf) (s : Seen) (h : History) (e : Failure)
      → ChecksRest urls pdfs s h (raised e)
  raised_rest none pdfs s h e = tt
  raised_rest (some us) pdfs s h e = tt

  pub end_rest :
      (urls : Option (List Text)) (s : Seen) (h : History) → ChecksRest urls [] s h (returned s)
  end_rest none s h = λ x. (x, tt)
  end_rest (some us) s h = tt

  pub removed_rest :
      (urls : Option (List Text)) (pdf : BaselinePdf) (pdfs : List BaselinePdf) (s : Seen)
      (h : History) (o : Outcome Seen)
      → was_removed urls pdf ≡ true
      → ChecksRest urls pdfs s h o
      → ChecksRest urls (pdf ∷ pdfs) s h o
  unfolding was_removed
  removed_rest none pdf pdfs s h o e g = cc
  removed_rest (some us) pdf pdfs s h (returned t) e g = tt
  removed_rest (some us) pdf pdfs s h (raised f) e g = tt

  module _ (urls : Option (List Text)) (pdf : BaselinePdf) (pdfs : List BaselinePdf)
      (s : Seen) where
    one_more :
        ((t : Seen) (h : History)
          → Ensures (Probes p) (ChecksRest urls pdfs t) h (check_pdfs p urls pdfs t))
        → (h : History) (o : Outcome Seen) → ChecksOne pdf s h o
        → Continues
            (Probes p)
            (ChecksRest urls (pdf ∷ pdfs) s)
            (λ seen. check_pdfs p urls pdfs seen)
            h
            o
    one_more rest h (raised e) g = raised_rest urls (pdf ∷ pdfs) s h e
    one_more rest h (returned t) g =
        Ensures-mono (λ h' c x. x.0) (λ h' o. add_checked urls pdf pdfs s t h' o)
          (Ensures-since (λ h'. t.pdf_changed ≡ false → (s.pdf_changed ≡ false) × IsSamePdf h' pdf)
            (λ h' c a x k y. let (b, same) = k y in (b, IsSamePdf-grows (c, a) h' pdf same)) h
            (check_pdfs p urls pdfs t) g (rest t h))

  pub check_pdfs-Ensures :
      (urls : Option (List Text)) (pdfs : List BaselinePdf) (s : Seen) (h : History)
      → Ensures (Probes p) (ChecksRest urls pdfs s) h (check_pdfs p urls pdfs s)
  unfolding check_pdfs
  check_pdfs-Ensures urls [] s h = at_done (end_rest urls s h)
  check_pdfs-Ensures urls (pdf ∷ pdfs) s h =
      at_if (was_removed urls pdf)
        (λ gone.
          Ensures-mono (λ h' c x. x) (λ h' o. removed_rest urls pdf pdfs s h' o gone)
            (check_pdfs-Ensures urls pdfs s h))
        (λ there.
          at_bind (λ seen. check_pdfs p urls pdfs seen)
            (Ensures-mono (λ h' c x. x)
              (one_more urls pdf pdfs s (λ t h'. check_pdfs-Ensures urls pdfs t h'))
              (check_pdf-Ensures pdf s h)))
