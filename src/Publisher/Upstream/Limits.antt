-- ===== src/Publisher/Upstream/Limits.antt =====
-- The limits on what is read from the source (`readWithin` and `downloadPdf` of
-- tools/md-publisher/src/upstream.ts).
use utm_curs_i_orar.Prelude.{
  ℕ, ◌+◌, ◌≤◌, ◌≡◌, refl, sym, ◌∙◌, ap, subst, Bool, true, false, ◌↔◌, some, List, [], ◌∷◌, ◌++◌,
  append_assoc, append-nil, inl, inr, Bool-cases, ltb, length, length-append, arith,
}
use utm_curs_i_orar.Text.{Text}
use utm_curs_i_orar.Publisher.Calls.{returned, raised, Stream}
use utm_curs_i_orar.Publisher.Upstream.{read_chunks, read_within}

-- All the bytes of a stream.
abbrev pub joined : List Text → Text
joined [] = []
joined (chunk ∷ chunks) = chunk ++ joined chunks

pub joined-append :
    (a b : Text) (chunks : List Text) → (a ++ b) ++ joined chunks ≡ a ++ joined (b ∷ chunks)
joined-append a b chunks = append_assoc a b (joined chunks)

longer : (a b : Text) → length a ≤ length (a ++ b)
longer a b = omega (arith, length-append a b)

read_ok :
    (max : ℕ) (complete : Bool) (chunks : List Text) (sofar t : Text)
    → length sofar ≤ max
    → read_chunks max complete chunks sofar ≡ returned t
    → (complete ≡ true) × (t ≡ sofar ++ joined chunks) × (length t ≤ max)
unfolding read_chunks
read_ok max true [] sofar t fits e =
    let same : sofar ≡ t = cc in
    (refl, sym same ∙ sym (append-nil sofar), subst (λ x. length x ≤ max) same fits)
read_ok max false [] sofar t fits e = cc
read_ok max complete (chunk ∷ chunks) sofar t fits e =
    elim (Bool-cases (ltb max (length sofar + length chunk))) [
      | inl over ↦ let bad : raised _ ≡ returned t = rw over at e in cc
      | inr within ↦
          let rest : read_chunks max complete chunks (sofar ++ chunk) ≡ returned t =
            rw within at e in
          let small : length (sofar ++ chunk) ≤ max =
            (let le : length sofar + length chunk ≤ max = ground arith in
              omega (arith, le, length-append sofar chunk)) in
          let (done, all, bound) = read_ok max complete chunks (sofar ++ chunk) t small rest in
          (done, all ∙ joined-append sofar chunk chunks, bound)
    ]

read_all :
    (max : ℕ) (chunks : List Text) (sofar : Text)
    → length (sofar ++ joined chunks) ≤ max
    → read_chunks max true chunks sofar ≡ returned (sofar ++ joined chunks)
unfolding read_chunks
read_all max [] sofar fits = ap returned (sym (append-nil sofar))
read_all max (chunk ∷ chunks) sofar fits =
    let same : length ((sofar ++ chunk) ++ joined chunks)
        ≡ length (sofar ++ joined (chunk ∷ chunks)) =
      ap length (joined-append sofar chunk chunks) in
    let within : ltb max (length sofar + length chunk) ≡ false =
      (let le : length sofar + length chunk ≤ max =
          omega (
            arith,
            same,
            fits,
            length-append sofar chunk,
            longer (sofar ++ chunk) (joined chunks),
          ) in
        ground arith) in
    rw within (
      read_all max chunks (sofar ++ chunk) (omega (arith, same, fits))
      ∙ ap returned (joined-append sofar chunk chunks))

-- A limited read gives exactly the bytes of the stream when it ends and they are within the limit;
-- if the stream breaks off or is longer, nothing is given.
pub read_within_iff :
    (max : ℕ) (s : Stream) (t : Text)
    → (read_within max (some s) ≡ returned t)
      ↔ ((s.complete ≡ true) × (t ≡ joined s.chunks) × (length t ≤ max))
unfolding read_within
read_within_iff max s t = (
  λ e. read_ok max s.complete s.chunks [] t (omega arith) e,
  λ h.
      let (done, same, fits) = h in
      rw done
        (read_all max s.chunks [] (subst (λ x. length x ≤ max) same fits) ∙ ap returned (sym same)),
)
