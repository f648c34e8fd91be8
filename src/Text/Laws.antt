-- ===== src/Text/Laws.antt =====
-- Laws of the operations on texts.
use utm_curs_i_orar.Prelude.{◌≡◌, refl, ◌↔◌, true, [], ◌∷◌, ◌++◌, subst, arith}
use utm_curs_i_orar.Text.{Text, text_eq}

text_eq_sound : (a b : Text) → text_eq a b ≡ true → a ≡ b
unfolding text_eq
text_eq_sound [] [] h = refl
text_eq_sound [] (y ∷ ys) h = cc
text_eq_sound (x ∷ xs) [] h = cc
text_eq_sound (x ∷ xs) (y ∷ ys) h = ground (arith, text_eq_sound xs ys)

pub text_eq_self : (a : Text) → text_eq a a ≡ true
unfolding text_eq
text_eq_self [] = refl
text_eq_self (x ∷ xs) = ground (arith, text_eq_self xs)

pub text_eq_iff : (a b : Text) → (text_eq a b ≡ true) ↔ (a ≡ b)
text_eq_iff a b = (text_eq_sound a b, λ p. subst (λ x. text_eq a x ≡ true) p (text_eq_self a))

-- A common prefix can be taken off.
pub append_cancel : (a b c : Text) → a ++ b ≡ a ++ c → b ≡ c
append_cancel [] b c h = h
append_cancel (x ∷ xs) b c h = append_cancel xs b c (cc)
