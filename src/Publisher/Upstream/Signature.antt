-- ===== src/Publisher/Upstream/Signature.antt =====
-- What a download has checked while its bytes arrived in chunks (`downloadPdf` of
-- tools/md-publisher/src/upstream.ts).
use utm_curs_i_orar.Prelude.{
  ℕ, zero, suc, ◌+◌, ◌≤◌, ◌<◌, ◌≡◌, refl, sym, ◌∙◌, ap, subst, Bool, true, false, ◌&&◌, ◌||◌, not,
  ◌⊎◌, some, List, [], ◌∷◌, ◌++◌, append-nil, inl, inr, Bool-cases, ltb, leb, ◌==◌, length, take,
  length-append, arith, if◌then◌else◌,
}
use utm_curs_i_orar.Text.{Text, text_eq}
use utm_curs_i_orar.Text.Laws.{text_eq_iff}
use utm_curs_i_orar.Publisher.Calls.{Failure, Outcome, returned, raised, Stream}
use utm_curs_i_orar.Publisher.Broker.{and_then}
use utm_curs_i_orar.Publisher.Upstream.{
  max_pdf_bytes, pdf_magic, Receiving, receive_chunk, receive_chunks, nothing_received, receive_pdf,
}
use utm_curs_i_orar.Publisher.Upstream.Limits.{joined, joined-append}

take_long : (n : ℕ) (a b : Text) → n ≤ length a → take n (a ++ b) ≡ take n a
take_long zero a b h = refl
take_long (suc n) [] b h = absurd (omega (arith, h))
take_long (suc n) (x ∷ a) b h = ap (λ t. x ∷ t) (take_long n a b (omega (arith, h)))

take-take : (n k : ℕ) (c : Text) → n ≤ k → take n (take k c) ≡ take n c
take-take zero k c h = refl
take-take (suc n) zero c h = absurd (omega (arith, h))
take-take (suc n) (suc k) [] h = refl
take-take (suc n) (suc k) (x ∷ c) h = ap (λ t. x ∷ t) (take-take n k c (omega (arith, h)))

take_prefix : (n k : ℕ) (a c : Text) → n ≤ k → take n (a ++ take k c) ≡ take n (a ++ c)
take_prefix n k [] c h = take-take n k c h
take_prefix zero k (x ∷ a) c h = refl
take_prefix (suc n) k (x ∷ a) c h = ap (λ t. x ∷ t) (take_prefix n k a c (omega (arith, h)))

take_short : (n : ℕ) (c : Text) → length (take n c) < n → take n c ≡ c
take_short zero c h = absurd (omega (arith, h))
take_short (suc n) [] h = refl
take_short (suc n) (x ∷ c) h = ap (λ t. x ∷ t) (take_short n c (omega (arith, h)))

length-take_le : (n : ℕ) (c : Text) → length (take n c) ≤ length c
length-take_le zero c = omega arith
length-take_le (suc n) [] = omega arith
length-take_le (suc n) (x ∷ c) = omega (arith, length-take_le n c)

-- The signature has been seen, or too little has arrived and all of it was kept.
abbrev IsSigned : Receiving → Type 0
IsSigned s =
    ((s.magic_checked ≡ true) × (take 5 s.content ≡ pdf_magic))
    ⊎ ((s.magic_checked ≡ false) × (s.magic_prefix ≡ s.content) × (length s.content < 5))

abbrev IsReceiving : Receiving → Type 0
IsReceiving s = (s.size ≡ length s.content) × (length s.content ≤ max_pdf_bytes) × IsSigned s

signed_length : (c : Text) → take 5 c ≡ pdf_magic → 5 ≤ length c
signed_length c e = omega (arith, length-take_le 5 c, ap length e)

-- The next state of the receiver, when no test refuses.
abbrev received : Receiving → Text → Receiving
received s chunk = record {
  content = s.content ++ chunk;
  size = s.size + length chunk;
  magic_checked = s.magic_checked || leb 5 (length (s.magic_prefix ++ take 5 chunk));
  magic_prefix = if s.magic_checked then s.magic_prefix else s.magic_prefix ++ take 5 chunk;
}

-- The test of the signature.
abbrev refuses : Receiving → Text → Bool
refuses s chunk =
    not s.magic_checked
    && (leb 5 (length (s.magic_prefix ++ take 5 chunk))
        && not (text_eq (take 5 (s.magic_prefix ++ take 5 chunk)) pdf_magic))

passes : (b : Bool) → not b ≡ false → b ≡ true
passes true e = refl
passes false e = cc

received-IsSigned :
    (s : Receiving) (chunk : Text)
    → IsSigned s
    → refuses s chunk ≡ false
    → IsSigned (received s chunk)
received-IsSigned s chunk (inl (checked, signed)) ok =
    inl (rw checked refl, take_long 5 s.content chunk (signed_length s.content signed) ∙ signed)
received-IsSigned s chunk (inr (unchecked, kept, short)) ok =
    elim (Bool-cases (leb 5 (length (s.magic_prefix ++ take 5 chunk)))) [
      | inl enough ↦
          let same : text_eq (take 5 (s.magic_prefix ++ take 5 chunk)) pdf_magic ≡ true =
            passes _ (rw (unchecked, enough) at ok) in
          inl (
            rw (unchecked, enough) refl,
            sym (take_prefix 5 5 s.content chunk (omega arith))
                ∙ ap (λ t. take 5 (t ++ take 5 chunk)) (sym kept)
                ∙ (text_eq_iff (take 5 (s.magic_prefix ++ take 5 chunk)) pdf_magic).0 same,
          )
      | inr few ↦
          let less : length (s.magic_prefix ++ take 5 chunk) < 5 = ground arith in
          let whole : take 5 chunk ≡ chunk =
            take_short 5 chunk (omega (arith, less, length-append s.magic_prefix (take 5 chunk))) in
          let all : s.magic_prefix ++ take 5 chunk ≡ s.content ++ chunk =
            ap (λ t. t ++ take 5 chunk) kept ∙ ap (λ t. s.content ++ t) whole in
          inr (rw (unchecked, few) refl, rw unchecked all, omega (arith, less, ap length all))
    ]

signature_of : (r : Receiving) → IsSigned r → r.magic_checked ≡ true → take 5 r.content ≡ pdf_magic
signature_of r (inl (checked, signed)) e = signed
signature_of r (inr (unchecked, kept, short)) e = let bad : true ≡ false = sym e ∙ unchecked in cc

not_zero : (n : ℕ) → (suc n == 0) ≡ false
not_zero n = ground arith

tested :
    (e f : Failure) (a b c : Bool) (s v u : Receiving)
    → a ≡ false
    → (if a then returned s else if b then raised e else if c then raised f else returned v)
      ≡ returned u
    → (b ≡ false) × (c ≡ false) × (v ≡ u)
tested e f true b c s v u h x = cc
tested e f false true c s v u h x = cc
tested e f false false true s v u h x = cc
tested e f false false false s v u h x = (refl, refl, cc)

ended :
    (e f : Failure) (a b : Bool) (s u : Receiving)
    → (if not a then raised e else if not b then raised f else returned s) ≡ returned u
    → (a ≡ true) × (b ≡ true) × (s ≡ u)
ended e f true true s u x = (refl, refl, cc)
ended e f true false s u x = cc
ended e f false b s u x = cc

and_then-returned :
    {A B : Type 0} (o : Outcome A) (f : A → Outcome B) (b : B)
    → and_then o f ≡ returned b
    → (a : A) × (o ≡ returned a) × (f a ≡ returned b)
and_then-returned (returned a) f b h = (a, refl, h)
and_then-returned (raised e) f b h = cc

-- One chunk.
received_ok :
    (s : Receiving) (chunk : Text) (u : Receiving)
    → IsReceiving s
    → receive_chunk s chunk ≡ returned u
    → IsReceiving u × (u.content ≡ s.content ++ chunk)
unfolding receive_chunk
received_ok s [] u ok e =
    let same : s ≡ u = cc in
    subst (λ v. IsReceiving v × (v.content ≡ s.content ++ [])) same (ok, sym (append-nil s.content))
received_ok s (c ∷ cs) u (counted, fits, signed) e =
    let (fine, within, same) =
      tested _ _ (length (c ∷ cs) == 0) (refuses s (c ∷ cs))
        (ltb max_pdf_bytes (s.size + length (c ∷ cs))) s (received s (c ∷ cs)) u
        (not_zero (length cs)) e in
    let bound : s.size + length (c ∷ cs) ≤ max_pdf_bytes = ground arith in
    let next : IsReceiving (received s (c ∷ cs)) = (
      omega (arith, counted, length-append s.content (c ∷ cs)),
      omega (arith, counted, bound, length-append s.content (c ∷ cs)),
      received-IsSigned s (c ∷ cs) signed fine,
    ) in
    subst (λ v. IsReceiving v × (v.content ≡ s.content ++ c ∷ cs)) same (next, refl)

chunks_ok :
    (complete : Bool) (chunks : List Text) (s u : Receiving)
    → IsReceiving s
    → receive_chunks complete chunks s ≡ returned u
    → (complete ≡ true)
      × IsReceiving u
      × (u.magic_checked ≡ true)
      × (u.content ≡ s.content ++ joined chunks)
unfolding receive_chunks
chunks_ok complete [] s u ok e =
    let (done, checked, is) = ended _ _ complete s.magic_checked s u e in
    (
      done,
      subst (λ v. IsReceiving v) is ok,
      ap (λ v. v.magic_checked) (sym is) ∙ checked,
      ap (λ v. v.content) (sym is) ∙ sym (append-nil s.content),
    )
chunks_ok complete (chunk ∷ chunks) s u ok e =
    let (v, first, rest) =
      and_then-returned (receive_chunk s chunk) (receive_chunks complete chunks) u e in
    let (next, grown) = received_ok s chunk v ok first in
    let (done, last, checked, all) = chunks_ok complete chunks v u next rest in
    (
      done,
      last,
      checked,
      all ∙ ap (λ t. t ++ joined chunks) grown ∙ joined-append s.content chunk chunks,
    )

-- A download that is accepted, in whatever chunks it came, is the whole of a stream that ended,
-- begins with the signature of a PDF, is within the limit, and its size is counted right.
pub receive_pdf-returned :
    (s : Stream) (r : Receiving)
    → receive_pdf (some s) ≡ returned r
    → (s.complete ≡ true)
      × (r.content ≡ joined s.chunks)
      × (take 5 r.content ≡ pdf_magic)
      × (r.size ≡ length r.content)
      × (length r.content ≤ max_pdf_bytes)
unfolding receive_pdf
receive_pdf-returned s r e =
    let (done, (counted, fits, signed), checked, all) =
      chunks_ok s.complete s.chunks nothing_received r
        (refl, omega arith, inr (refl, refl, omega arith)) e in
    (done, all, signature_of r signed checked, counted, fits)
