-- ===== src/Worker/Streams/Guarding.antt =====
-- What comes through the guards of worker/src/stream-limit.ts.
use utm_curs_i_orar.Prelude.{
  ℕ, ◌+◌, ◌≤◌, ◌≡◌, refl, sym, ◌∙◌, ap, subst, true, false, ◌↔◌, none, some, List, [], ◌∷◌, ◌++◌,
  inl, inr, Bool-cases, Option-cases, ltb, ◌==◌, length, length-append, arith,
}
use utm_curs_i_orar.Text.{Text, starts_with}
use utm_curs_i_orar.Worker.Streams.{
  Ending, ended, broke, payload_too_large, content_prefix, Body, limit_from, limit_stream_bytes,
  match_chunk, flush, require_from, require_prefix,
}

-- All the bytes of a body.
abbrev pub joined : List Text → Text
joined [] = []
joined (chunk ∷ chunks) = chunk ++ joined chunks

abbrev body : List Text → Ending → Body
body chunks e = record { chunks = chunks; ending = e }

not_ended : ¬ (payload_too_large ≡ ended)
not_ended h = cc

not_prefixed : ¬ (content_prefix ≡ ended)
not_prefixed h = cc

over_not : (max n : ℕ) → ltb max n ≡ false → n ≤ max
over_not max n e = ground arith

not_over : (max n : ℕ) → n ≤ max → ltb max n ≡ false
not_over max n h = ground arith

limit_fits :
    (max total : ℕ) (chunks : List Text) (e : Ending)
    → total ≤ max
    → total + length (joined (limit_from max total chunks e).chunks) ≤ max
unfolding limit_from
limit_fits max total [] e h = omega (arith, h)
limit_fits max total (chunk ∷ chunks) e h = elim (Bool-cases (ltb max (total + length chunk))) [
  | inl over ↦ rw (over, limit_from) (omega (arith, h))
  | inr within ↦
      rw (within, limit_from)
        (omega (
          arith,
          limit_fits max (total + length chunk) chunks e
              (over_not max (total + length chunk) within),
          length-append chunk (joined (limit_from max (total + length chunk) chunks e).chunks),
        ))
]

limit_all :
    (max total : ℕ) (chunks : List Text) (e : Ending)
    → total + length (joined chunks) ≤ max
    → limit_from max total chunks e ≡ body chunks e
unfolding limit_from
limit_all max total [] e h = refl
limit_all max total (chunk ∷ chunks) e h =
    let within : total + length chunk ≤ max =
      omega (arith, h, length-append chunk (joined chunks)) in
    rw
      (
        not_over max (total + length chunk) within,
        limit_all max (total + length chunk) chunks e
            (omega (arith, h, length-append chunk (joined chunks))),
      )
      refl

limit_ended :
    (max total : ℕ) (chunks : List Text) (e : Ending)
    → total ≤ max
    → (limit_from max total chunks e).ending ≡ ended
    → total + length (joined chunks) ≤ max
unfolding limit_from
limit_ended max total [] e h x = omega (arith, h)
limit_ended max total (chunk ∷ chunks) e h x = elim (Bool-cases (ltb max (total + length chunk))) [
  | inl over ↦ let bad : payload_too_large ≡ ended = rw over at x in absurd (not_ended bad)
  | inr within ↦
      let rest : (limit_from max (total + length chunk) chunks e).ending ≡ ended = rw within at x in
      omega (
        arith,
        limit_ended max (total + length chunk) chunks e (over_not max (total + length chunk) within)
            rest,
        length-append chunk (joined chunks),
      )
]

-- A chunk against the prefix.
matched :
    (p chunk more rest : Text)
    → match_chunk p chunk ≡ some more
    → starts_with p (chunk ++ rest) ≡ starts_with more rest
unfolding match_chunk starts_with
matched [] chunk more rest h = let same : [] ≡ more = cc in rw (sym same) refl
matched (p ∷ ps) [] more rest h = let same : p ∷ ps ≡ more = cc in rw (sym same) refl
matched (p ∷ ps) (c ∷ cs) more rest h = elim (Bool-cases (p == c)) [
  | inl e ↦
      let found : match_chunk ps cs ≡ some more = rw e at h in
      let step : starts_with ps (cs ++ rest) ≡ starts_with more rest =
        matched ps cs more rest found in
      rw e step
  | inr e ↦ let bad : none ≡ some more = rw e at h in cc
]

unmatched :
    (p chunk rest : Text) → match_chunk p chunk ≡ none → starts_with p (chunk ++ rest) ≡ false
unfolding match_chunk starts_with
unmatched [] chunk rest h = cc
unmatched (p ∷ ps) [] rest h = cc
unmatched (p ∷ ps) (c ∷ cs) rest h = elim (Bool-cases (p == c)) [
  | inl e ↦
      let bad : match_chunk ps cs ≡ none = rw e at h in
      let step : starts_with ps (cs ++ rest) ≡ false = unmatched ps cs rest bad in rw e step
  | inr e ↦ rw e refl
]

flush-ended : (p : Text) (e : Ending) → flush p e ≡ ended → (e ≡ ended) × (p ≡ [])
unfolding flush
flush-ended [] e h = (h, refl)
flush-ended (p ∷ ps) ended h = cc
flush-ended (p ∷ ps) broke h = cc
flush-ended (p ∷ ps) payload_too_large h = cc
flush-ended (p ∷ ps) content_prefix h = cc

require_on :
    (p chunk more : Text) (chunks : List Text) (e : Ending)
    → match_chunk p chunk ≡ some more
    → require_from p (chunk ∷ chunks) e
      ≡ body (chunk ∷ (require_from more chunks e).chunks) (require_from more chunks e).ending
unfolding require_from
require_on p chunk more chunks e found = rw (found, require_from) refl

require_ended :
    (p : Text) (chunks : List Text) (e : Ending)
    → (require_from p chunks e).ending ≡ ended
    → (e ≡ ended)
      × (starts_with p (joined chunks) ≡ true)
      × (require_from p chunks e ≡ body chunks ended)
unfolding require_from flush starts_with
require_ended p [] e h =
    let (done, none_left) = flush-ended p e h in
    (done, rw none_left refl, rw (none_left, done) refl)
require_ended p (chunk ∷ chunks) e h = elim (Option-cases (match_chunk p chunk)) [
  | inl bad ↦
      let no : content_prefix ≡ ended = rw (bad, require_from) at h in absurd (not_prefixed no)
  | inr (more, found) ↦
      let rest : (require_from more chunks e).ending ≡ ended =
        ap (λ (b : Body). b.ending) (sym (require_on p chunk more chunks e found)) ∙ h in
      let (done, starts, all) = require_ended more chunks e rest in
      (
        done,
        matched p chunk more (joined chunks) found ∙ starts,
        require_on p chunk more chunks e found
            ∙ ap (λ (b : Body). body (chunk ∷ b.chunks) b.ending) all,
      )
]

require_all :
    (p : Text) (chunks : List Text)
    → starts_with p (joined chunks) ≡ true
    → require_from p chunks ended ≡ body chunks ended
unfolding require_from flush starts_with
require_all [] [] h = refl
require_all (x ∷ p) [] h = cc
require_all p (chunk ∷ chunks) h = elim (Option-cases (match_chunk p chunk)) [
  | inl bad ↦ let no : true ≡ false = sym h ∙ unmatched p chunk (joined chunks) bad in cc
  | inr (more, found) ↦
      let rest : require_from more chunks ended ≡ body chunks ended =
        require_all more chunks (sym (matched p chunk more (joined chunks) found) ∙ h) in
      require_on p chunk more chunks ended found
      ∙ ap (λ (b : Body). body (chunk ∷ b.chunks) b.ending) rest
]

limit_passed :
    (max total : ℕ) (chunks : List Text) (e : Ending)
    → (limit_from max total chunks e).ending ≡ ended
    → e ≡ ended
unfolding limit_from
limit_passed max total [] e h = h
limit_passed max total (chunk ∷ chunks) e h = elim (Bool-cases (ltb max (total + length chunk))) [
  | inl over ↦ let bad : payload_too_large ≡ ended = rw over at h in absurd (not_ended bad)
  | inr within ↦
      let rest : (limit_from max (total + length chunk) chunks e).ending ≡ ended = rw within at h in
      limit_passed max (total + length chunk) chunks e rest
]

guarded_ended :
    (max : ℕ) (prefix : Text) (s : Body)
    → (limit_stream_bytes max (require_prefix prefix s)).ending ≡ ended
    → (s.ending ≡ ended)
      × (starts_with prefix (joined s.chunks) ≡ true)
      × (length (joined s.chunks) ≤ max)
unfolding limit_stream_bytes require_prefix
guarded_ended max prefix s h =
    let inner : Body = require_from prefix s.chunks s.ending in
    let done : inner.ending ≡ ended = limit_passed max 0 inner.chunks inner.ending h in
    let (over, starts, all) = require_ended prefix s.chunks s.ending done in
    let bound : length (joined inner.chunks) ≤ max =
      omega (arith, limit_ended max 0 inner.chunks inner.ending (omega arith) h) in
    (over, starts, subst (λ (b : Body). length (joined b.chunks) ≤ max) all bound)

guarded_all :
    (max : ℕ) (prefix : Text) (s : Body)
    → (s.ending ≡ ended)
      × (starts_with prefix (joined s.chunks) ≡ true)
      × (length (joined s.chunks) ≤ max)
    → limit_stream_bytes max (require_prefix prefix s) ≡ body s.chunks ended
unfolding limit_stream_bytes require_prefix
guarded_all max prefix s (over, starts, bound) =
    rw (over, require_all prefix s.chunks starts)
      (limit_all max 0 s.chunks ended (omega (arith, bound)))

-- Through both guards, in whatever chunks it comes: never more than the limit gets through; and a
-- body gets through to its end exactly when it ends at its source, begins with the prefix and is
-- within the limit, and then every byte of it does.
pub guarded_iff :
    (max : ℕ) (prefix : Text) (s : Body)
    → (length (joined (limit_stream_bytes max (require_prefix prefix s)).chunks) ≤ max)
      × ((limit_stream_bytes max (require_prefix prefix s) ≡ body s.chunks ended) ↔ (
          (s.ending ≡ ended)
          × (starts_with prefix (joined s.chunks) ≡ true)
          × (length (joined s.chunks) ≤ max)))
      × ((limit_stream_bytes max (require_prefix prefix s)).ending ≡ ended
          → limit_stream_bytes max (require_prefix prefix s) ≡ body s.chunks ended)
unfolding limit_stream_bytes require_prefix
guarded_iff max prefix s = (
  omega (
    arith,
    limit_fits max 0 (require_prefix prefix s).chunks (require_prefix prefix s).ending
        (omega arith),
  ),
  (λ e. guarded_ended max prefix s (ap (λ (b : Body). b.ending) e), guarded_all max prefix s),
  λ h. guarded_all max prefix s (guarded_ended max prefix s h),
)
