-- ===== src/Worker/Keys/Laws.antt =====
-- Different ids have different keys.
use utm_curs_i_orar.Prelude.{
  ℕ, ◌+◌, ◌-◌, ◌*◌, ◌≡◌, sym, ap, [], ◌∷◌, ltb, Bool-cases, inl, inr, arith, ◌∙◌,
}
use utm_curs_i_orar.Text.{Text, codes, decimal}
use utm_curs_i_orar.Text.Laws.{append_cancel}
use utm_curs_i_orar.Worker.Keys.{snapshot_pdf_key, snapshot_prefix}

-- The number that a spelling of up to three digits stands for.
value : Text → ℕ
value [] = 0
value (a ∷ []) = a - 48
value (a ∷ b ∷ []) = (a - 48) * 10 + (b - 48)
value (a ∷ b ∷ c ∷ cs) = (a - 48) * 100 + (b - 48) * 10 + (c - 48)

value-decimal : (n : ℕ) → value (decimal n) ≡ n
unfolding value
value-decimal n = elim (Bool-cases (ltb n 10)) [
  | inl small ↦ rw small (omega arith)
  | inr large ↦ rw large (elim (Bool-cases (ltb n 100)) [
    | inl two ↦ rw two (omega arith)
    | inr three ↦ rw three (omega arith)
  ])
]

pub decimal-injective : (a b : ℕ) → decimal a ≡ decimal b → a ≡ b
decimal-injective a b h = sym (value-decimal a) ∙ ap value h ∙ value-decimal b

pub snapshot_pdf_key-injective :
    (snapshot_id a b : Text)
    → snapshot_pdf_key snapshot_id a ≡ snapshot_pdf_key snapshot_id b
    → a ≡ b
unfolding snapshot_pdf_key
snapshot_pdf_key-injective snapshot_id a b h =
    append_cancel (codes "/pdfs/") a b
      (append_cancel snapshot_id _ _ (append_cancel snapshot_prefix _ _ h))
