-- ===== src/Text.antt =====
-- Texts: JavaScript strings as lists of UTF-16 code units, with the operations and the regular
-- expressions that the source uses on them. A regular expression of fixed length is a list of
-- character classes.
pub mod Laws
use Prim.Native.Char.{code}
use Prim.Native.String.{String}
use utm_curs_i_orar.Prelude.{
  ℕ, zero, suc, ◌+◌, ◌-◌, ◌*◌, ◌/◌, ◌%◌, ◌^◌, Bool, true, false, ◌&&◌, ◌||◌, Option, none, some,
  List, [], ◌∷◌, ◌++◌, ltb, leb, ◌==◌, if◌then◌else◌, take, drop,
}

abbrev pub Text : Type 0
Text = List ℕ

-- The code units of a literal, which is ASCII wherever one is written.
abbrev pub codes : String → Text
codes String.[] = []
codes (String.◌∷◌ c s) = code c ∷ codes s

-- `a === b` on strings.
unfoldable pub text_eq : Text → Text → Bool
text_eq [] [] = true
text_eq [] (_ ∷ _) = false
text_eq (_ ∷ _) [] = false
text_eq (x ∷ xs) (y ∷ ys) = x == y && text_eq xs ys

-- `a === b` where `a` may be missing.
abbrev pub option_eq : Option Text → Text → Bool
option_eq none b = false
option_eq (some a) b = text_eq a b

-- `a === b` where both may be null.
abbrev pub nullable_eq : Option Text → Option Text → Bool
nullable_eq none none = true
nullable_eq none (some _) = false
nullable_eq (some _) none = false
nullable_eq (some a) (some b) = text_eq a b

pub data Class : Type 0 where
  digit lower_hex any_hex variant : Class
  unit : ℕ → Class

abbrev pub is_digit : ℕ → Bool
is_digit c = leb b'0' c && leb c b'9'

abbrev pub is_lower : ℕ → Bool
is_lower c = leb b'a' c && leb c b'z'

abbrev pub is_upper : ℕ → Bool
is_upper c = leb b'A' c && leb c b'Z'

unfoldable pub in_class : Class → ℕ → Bool
in_class digit c = is_digit c
in_class lower_hex c = is_digit c || (leb b'a' c && leb c b'f')
in_class any_hex c = is_digit c || (leb b'a' c && leb c b'f') || (leb b'A' c && leb c b'F')
in_class variant c = c == b'8' || c == b'9' || c == b'a' || c == b'b'
in_class (unit d) c = c == d

-- `/^…$/.test(text)` for a sequence of classes.
unfoldable pub matches : List Class → Text → Bool
unfolding in_class
matches [] [] = true
matches [] (_ ∷ _) = false
matches (_ ∷ _) [] = false
matches (k ∷ ks) (c ∷ cs) = in_class k c && matches ks cs

abbrev pub times : ℕ → Class → List Class → List Class
times zero k rest = rest
times (suc n) k rest = k ∷ times n k rest

-- ASCII case folding: every text that the source folds is compared with, or tested for, ASCII.
abbrev lower_unit : ℕ → ℕ
lower_unit c = if is_upper c then c + 32 else c

unfoldable pub to_lower : Text → Text
to_lower [] = []
to_lower (c ∷ cs) = lower_unit c ∷ to_lower cs

unfoldable pub starts_with : Text → Text → Bool
starts_with [] cs = true
starts_with (p ∷ ps) [] = false
starts_with (p ∷ ps) (c ∷ cs) = p == c && starts_with ps cs

unfoldable pub includes : Text → Text → Bool
unfolding starts_with
includes needle [] = starts_with needle []
includes needle (c ∷ cs) = starts_with needle (c ∷ cs) || includes needle cs

-- `text.slice(text.lastIndexOf("/") + 1)`: no slash gives the whole text.
unfoldable pub after_last_slash_from : Text → Text → Text
after_last_slash_from cur [] = cur
after_last_slash_from cur (c ∷ cs) = after_last_slash_from (if c == b'/' then cs else cur) cs

unfoldable pub after_last_slash : Text → Text
unfolding after_last_slash_from
after_last_slash t = after_last_slash_from t t

-- `trim()` over ASCII white space and the no-break space.
abbrev is_space : ℕ → Bool
is_space c = c == 32 || (leb 9 c && leb c 13) || c == 160

unfoldable pub trim_start : Text → Text
trim_start [] = []
trim_start (c ∷ cs) = if is_space c then trim_start cs else c ∷ cs

unfoldable pub trim_end : Text → Text
trim_end [] = []
trim_end (c ∷ cs) =
    let rest = trim_end cs in
    elim rest [ [] ↦ if is_space c then [] else c ∷ [] | d ∷ ds ↦ c ∷ d ∷ ds ]

unfoldable pub trim : Text → Text
unfolding trim_start trim_end
trim t = trim_end (trim_start t)

-- `text.slice(from, to)` with `from ≤ to`.
abbrev pub slice : ℕ → ℕ → Text → Text
slice from to t = take (to - from) (drop from t)

-- The decimal spelling of a number below 1000 by its digits; `String(n)` on such numbers.
abbrev pub decimal : ℕ → Text
decimal n =
    if ltb n 10
    then (b'0' + n) ∷ []
    else if ltb n 100
    then (b'0' + n / 10) ∷ (b'0' + n % 10) ∷ []
    else (b'0' + n / 100) ∷ (b'0' + n / 10 % 10) ∷ (b'0' + n % 10) ∷ []

-- `Number` of a text of digits, from the value of the digits before; exact below 2^53.
abbrev pub number_from : ℕ → Text → ℕ
number_from n [] = n
number_from n (c ∷ cs) = number_from (10 * n + (c - b'0')) cs

-- `Number.MAX_SAFE_INTEGER`
abbrev pub max_safe_integer : ℕ
max_safe_integer = 2 ^ 53 - 1
