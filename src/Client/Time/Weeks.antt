-- ===== src/Client/Time/Weeks.antt =====
-- The weeks of src/lib/client/time.ts against a count of whole weeks.
use utm_curs_i_orar.Prelude.{
  ℕ, suc, ◌+◌, ◌-◌, ◌*◌, ◌/◌, ◌%◌, ◌≤◌, ◌<◌, ◌≡◌, refl, true, false, inl, inr, leb, ◌==◌,
  if◌then◌else◌, pos, negsuc, ◌⊖◌, ◌+ℤ◌, modulo, rounded, arith, ap, sym, ◌∙◌, Bool-cases,
}
use utm_curs_i_orar.Client.Time.{week_from, parity_of, odd_week, even_week}

-- The whole weeks before a day, counted from Mondays.
abbrev pub week_index : ℕ → ℕ
week_index day = (day + 3) / 7

leb-true : (a b : ℕ) → a ≤ b → leb a b ≡ true
leb-true a b h = ground arith

leb-false : (a b : ℕ) → b < a → leb a b ≡ false
leb-false a b h = ground arith

anchor_monday : (start : ℕ) → 7 ≤ start → start - modulo (start ⊖ 4) 7 ≡ 7 * week_index start - 3
anchor_monday start h = rw (leb-true 4 start (omega (arith, h))) (omega (arith, h))

minus-pos : (a b : ℕ) → b ≤ a → (a ⊖ b) ≡ pos (a - b)
minus-pos a b h = rw (leb-true b a h) refl

minus-negsuc : (a b : ℕ) → a < b → (a ⊖ b) ≡ negsuc (b - a - 1)
minus-negsuc a b h = rw (leb-false b a h) refl

rounded-back :
    (a b : ℕ) → a < b → rounded (negsuc (7 * b - 3 - (7 * a - 3) - 1)) 7 ≡ negsuc (b - a - 1)
rounded-back a b h =
    let q : (2 * suc (7 * b - 3 - (7 * a - 3) - 1) + 7 - 1) / 14 ≡ b - a = omega (arith, h) in
    rw q (minus-negsuc 0 (b - a) (omega (arith, h)) ∙ ap negsuc (omega arith))

minus_eq : (m k a b : ℕ) → m + b ≡ a + k → (m ⊖ k) ≡ a ⊖ b
minus_eq m k a b h = elim (Bool-cases (leb b a)) [
  | inl e ↦
      let l : b ≤ a = ground arith in
      rw (minus-pos a b l, minus-pos m k (omega (arith, l, h))) (ap pos (omega (arith, l, h)))
  | inr e ↦
      let l : a < b = ground arith in
      rw (minus-negsuc a b l, minus-negsuc m k (omega (arith, l, h)))
        (ap negsuc (omega (arith, l, h)))
]

plus_back : (a b n : ℕ) → a < b → negsuc (b - a - 1) +ℤ n ≡ (a + n) ⊖ b
plus_back a b n h = minus_eq n (suc (b - a - 1)) (a + n) b (omega (arith, h))

-- Two Mondays are a whole number of weeks apart, and the rounding does nothing.
rounded-weeks : (a b : ℕ) → 1 ≤ a → 1 ≤ b → rounded ((7 * a - 3) ⊖ (7 * b - 3)) 7 ≡ a ⊖ b
rounded-weeks a b ha hb = elim (Bool-cases (leb b a)) [
  | inl e ↦
      let h : b ≤ a = ground arith in
      rw (minus-pos (7 * a - 3) (7 * b - 3) (omega (arith, h)), minus-pos a b h)
        (ap pos (omega (arith, h, ha, hb)))
  | inr e ↦
      let h : a < b = ground arith in
      rw (minus-negsuc (7 * a - 3) (7 * b - 3) (omega (arith, h)), minus-negsuc a b h)
        (rounded-back a b h)
]

plus_sum : (a b n : ℕ) → (a ⊖ b) +ℤ n ≡ (a + n) ⊖ b
plus_sum a b n = elim (Bool-cases (leb b a)) [
  | inl e ↦
      let h : b ≤ a = ground arith in
      rw (minus-pos a b h, minus-pos (a + n) b (omega (arith, h))) (ap pos (omega (arith, h)))
  | inr e ↦ let h : a < b = ground arith in rw (minus-negsuc a b h) (plus_back a b n h)
]

modulo_minus : (a b : ℕ) → modulo (a ⊖ b) 2 ≡ (a + b) % 2
modulo_minus a b = elim (Bool-cases (leb b a)) [
  | inl e ↦ let h : b ≤ a = ground arith in rw (minus-pos a b h) (omega (arith, h))
  | inr e ↦ let h : a < b = ground arith in rw (minus-negsuc a b h) (omega (arith, h))
]

parity_counts :
    (a b : ℕ) → parity_of ((a + 1) ⊖ b) ≡ (if (a + b) % 2 == 0 then odd_week else even_week)
unfolding parity_of
parity_counts a b = rw (modulo_minus (a + 1) b) (ground arith)

-- On Saturday and Sunday the week that starts on Monday is on show.
shown_index :
    (day : ℕ) → week_index (day + 2) ≡ week_index day + (if leb 5 ((day + 3) % 7) then 1 else 0)
shown_index day = ground arith

number_of :
    (start day : ℕ)
    → 7 ≤ start
    → 7 ≤ day
    → (week_from start (record { day = day; weekday = (day + 3) % 7 })).number
      ≡ (week_index (day + 2) + 1) ⊖ week_index start
unfolding week_from
number_of start day hs hd =
    let a : ℕ = week_index day in
    let b : ℕ = week_index start in
    let ahead : ℕ = if leb 5 ((day + 3) % 7) then 1 else 0 in
    let monday : day - (day + 3) % 7 ≡ 7 * a - 3 = omega (arith, hd) in
    rw
      (
        anchor_monday start hs,
        monday,
        rounded-weeks a b (omega (arith, hd)) (omega (arith, hs)),
        plus_sum a b 1,
        plus_sum (a + 1) b ahead,
        shown_index day,
      )
      (ap (λ m. m ⊖ b) (omega arith))

-- When the clock's weekday is the day's own: the number on show counts the weeks from the
-- anchor's, Monday to Sunday, starting at 1 and going to the coming week on a Saturday or Sunday,
-- and its parity is odd exactly when the weeks between are even in number, before the anchor too.
pub week_from-counts :
    (start day : ℕ)
    → 7 ≤ start
    → 7 ≤ day
    → ((week_from start (record { day = day; weekday = (day + 3) % 7 })).number
        ≡ (week_index (day + 2) ⊖ week_index start) +ℤ 1)
      × ((week_from start (record { day = day; weekday = (day + 3) % 7 })).parity
          ≡ (if (week_index (day + 2) + week_index start) % 2 == 0 then odd_week else even_week))
unfolding week_from parity_of
week_from-counts start day hs hd =
    let a : ℕ = week_index (day + 2) in
    let b : ℕ = week_index start in
    (
      number_of start day hs hd ∙ sym (plus_sum a b 1),
      ap parity_of (number_of start day hs hd) ∙ parity_counts a b,
    )
