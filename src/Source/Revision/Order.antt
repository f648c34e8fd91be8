-- ===== src/Source/Revision/Order.antt =====
-- The order of publications in src/lib/source/revision.ts.
use utm_curs_i_orar.Prelude.{
  ℕ, ◌≡◌, ◌⊎◌, refl, sym, ◌∙◌, subst, Bool, true, false, ◌&&◌, Option, none, some, [], ◌∷◌, inl,
  inr, Bool-cases, Option-cases, and_true, ltb, leb, length, arith,
}
use utm_curs_i_orar.Text.{Text, text_eq}
use utm_curs_i_orar.Text.Laws.{text_eq_self, text_eq_iff}
use utm_curs_i_orar.Source.Revision.{
  PdfRevision, is_pdf, file_name, directory, period, revision_of, text_ltb, later_by, is_later,
  pdf_revision_from_url, is_newer_pdf_publication,
}

text_ltb_self : (x : Text) → text_ltb x x ≡ false
unfolding text_ltb
text_ltb_self [] = refl
text_ltb_self (x ∷ xs) = ground (arith, text_ltb_self xs)

text_ltb_trans : (x y z : Text) → text_ltb x y ≡ true → text_ltb y z ≡ true → text_ltb x z ≡ true
unfolding text_ltb
text_ltb_trans [] [] z h k = cc
text_ltb_trans [] (y ∷ ys) [] h k = cc
text_ltb_trans [] (y ∷ ys) (z ∷ zs) h k = refl
text_ltb_trans (x ∷ xs) [] z h k = cc
text_ltb_trans (x ∷ xs) (y ∷ ys) [] h k = cc
text_ltb_trans (x ∷ xs) (y ∷ ys) (z ∷ zs) h k = elim (Bool-cases (text_ltb xs ys)) [
  | inr e ↦ ground (arith, h, k, e)
  | inl e ↦ elim (Bool-cases (text_ltb ys zs)) [
    | inr f ↦ ground (arith, h, k, f)
    | inl f ↦ ground (arith, h, k, text_ltb_trans xs ys zs e f)
  ]
]

same_text : (x y : Text) → text_eq x y ≡ true → x ≡ y
same_text x y h = (text_eq_iff x y).0 h

-- The same period on both sides decides nothing.
later_by_self : (p : Option Text) (within : Bool) → later_by p p within ≡ within
unfolding later_by
later_by_self none within = refl
later_by_self (some x) within = rw (text_eq_self x) refl

-- A period before another.
below : Option Text → Option Text → Bool
unfolding text_ltb
below none q = false
below (some y) none = false
below (some y) (some x) = text_ltb y x

below_trans : (p q r : Option Text) → below p q ≡ true → below q r ≡ true → below p r ≡ true
unfolding below
below_trans none q r h k = cc
below_trans (some x) none r h k = cc
below_trans (some x) (some y) none h k = cc
below_trans (some x) (some y) (some z) h k = text_ltb_trans x y z h k

later_cases :
    (p q : Option Text) (within : Bool)
    → later_by p q within ≡ true
    → (within ≡ true) ⊎ (below q p ≡ true)
unfolding later_by below
later_cases none q within h = inl h
later_cases (some x) none within h = inl h
later_cases (some x) (some y) within h = elim (Bool-cases (text_eq x y)) [
  | inl e ↦ let inside : within ≡ true = rw e at h in inl inside
  | inr e ↦ let before : text_ltb y x ≡ true = rw e at h in inr before
]

below_later : (p q : Option Text) (within : Bool) → below q p ≡ true → later_by p q within ≡ true
unfolding later_by below
below_later none none within h = cc
below_later none (some y) within h = cc
below_later (some x) none within h = cc
below_later (some x) (some y) within h = elim (Bool-cases (text_eq x y)) [
  | inl e ↦
      let bad : text_ltb y y ≡ true = subst (λ z. text_ltb y z ≡ true) (same_text x y e) h in
      let no : true ≡ false = sym bad ∙ text_ltb_self y in cc
  | inr e ↦ rw e h
]

-- Inside one directory the periods agree, so the two ways to be later do not mix.
later_by_trans :
    (p q r : Option Text) (a b c : Bool)
    → (a ≡ true → p ≡ q)
    → (b ≡ true → q ≡ r)
    → (a ≡ true → b ≡ true → c ≡ true)
    → later_by p q a ≡ true
    → later_by q r b ≡ true
    → later_by p r c ≡ true
later_by_trans p q r a b c same same_next both h k = elim (later_cases p q a h) [
  | inl within ↦ elim (later_cases q r b k) [
    | inl within_next ↦
        subst (λ o. later_by p o c ≡ true) (same within ∙ same_next within_next)
          (later_by_self p c ∙ both within within_next)
    | inr before ↦ below_later p r c (subst (λ o. below r o ≡ true) (sym (same within)) before)
  ]
  | inr before ↦ elim (later_cases q r b k) [
    | inl within_next ↦
        below_later p r c (subst (λ o. below o p ≡ true) (same_next within_next) before)
    | inr before_next ↦ below_later p r c (below_trans r q p before_next before)
  ]
]

named : (n : Text) → is_pdf n ≡ true → leb 1 (length n) ≡ true
unfolding is_pdf
named n h =
    let long : leb 4 (length n) ≡ true = (and_true {a = leb 4 (length n)} h).0 in
    ground (arith, long)

same_period :
    (p q : Text)
    → is_pdf (file_name p) ≡ true
    → is_pdf (file_name q) ≡ true
    → directory p ≡ directory q
    → period p ≡ period q
unfolding period
same_period p q hp hq d = rw (named (file_name p) hp, named (file_name q) hq, d) refl

some_injective : {A : Type 0} {x y : A} → some x ≡ some y → x ≡ y
some_injective h = cc

-- What a path whose revision can be read looks like.
revision_of_pdf :
    (p : Text) (a : PdfRevision) → revision_of p ≡ some a → is_pdf (file_name p) ≡ true
unfolding revision_of
revision_of_pdf p a h = elim (Bool-cases (is_pdf (file_name p))) [
  | inl e ↦ e
  | inr e ↦ let bad : none ≡ some a = rw e at h in cc
]

is_later_self : (p : Text) (a : PdfRevision) → is_later p a p a ≡ false
unfolding is_later
is_later_self p a =
    rw (text_eq_self a.family, text_eq_self (directory p), later_by_self) (ground arith)

within_trans :
    (d e g : Text) (l m n : ℕ)
    → (text_eq d e && ltb m l) ≡ true
    → (text_eq e g && ltb n m) ≡ true
    → (text_eq d g && ltb n l) ≡ true
within_trans d e g l m n h k =
    let (first, above) = and_true h in
    let (second, above_next) = and_true k in
    let directories : d ≡ g = same_text d e first ∙ same_text e g second in
    rw (directories, text_eq_self g) (ground (arith, above, above_next))

is_later_trans :
    (p : Text) (a : PdfRevision) (q : Text) (b : PdfRevision) (r : Text) (c : PdfRevision)
    → is_pdf (file_name p) ≡ true
    → is_pdf (file_name q) ≡ true
    → is_pdf (file_name r) ≡ true
    → is_later p a q b ≡ true
    → is_later q b r c ≡ true
    → is_later p a r c ≡ true
unfolding is_later
is_later_trans p a q b r c hp hq hr h k =
    let (family, later) = and_true h in
    let (family_next, later_next) = and_true k in
    let families : a.family ≡ c.family =
      same_text a.family b.family family ∙ same_text b.family c.family family_next in
    rw (families, text_eq_self c.family)
      (later_by_trans (period p) (period q) (period r) _ _ _
        (λ e. same_period p q hp hq (same_text (directory p) (directory q) (and_true e).0))
        (λ e. same_period q r hq hr (same_text (directory q) (directory r) (and_true e).0))
        (within_trans (directory p) (directory q) (directory r) a.revision b.revision c.revision)
        later later_next)

-- The two documents behind an answer.
record Compared (pathname_of : Text → Option Text) (candidate current : Text) : Type 0 where
  path : Text
  other : Text
  a : PdfRevision
  b : PdfRevision
  candidate_path : pathname_of candidate ≡ some path
  current_path : pathname_of current ≡ some other
  candidate_read : revision_of path ≡ some a
  current_read : revision_of other ≡ some b
  later : is_later path a other b ≡ true

compared :
    (pathname_of : Text → Option Text) (candidate current : Text)
    → is_newer_pdf_publication pathname_of candidate current ≡ true
    → Compared pathname_of candidate current
unfolding is_newer_pdf_publication pdf_revision_from_url
compared pathname_of candidate current h = elim (Option-cases (pathname_of candidate)) [
  | inl e ↦ let bad : false ≡ true = rw (is_newer_pdf_publication, e) at h in cc
  | inr (path, e) ↦ elim (Option-cases (pathname_of current)) [
    | inl f ↦ let bad : false ≡ true = rw (e, is_newer_pdf_publication, f) at h in cc
    | inr (other, f) ↦ elim (Option-cases (revision_of path)) [
      | inl g ↦
          let bad : false ≡ true =
            rw (e, is_newer_pdf_publication, f, pdf_revision_from_url, e, g) at h in
          cc
      | inr (a, g) ↦ elim (Option-cases (revision_of other)) [
        | inl k ↦
            let bad : false ≡ true =
              rw (e, is_newer_pdf_publication, f, pdf_revision_from_url, e, g, f, k) at h in
            cc
        | inr (b, k) ↦
            let later : is_later path a other b ≡ true =
              rw (e, is_newer_pdf_publication, f, pdf_revision_from_url, e, g, f, k) at h in
            record {
              path = path;
              other = other;
              a = a;
              b = b;
              candidate_path = e;
              current_path = f;
              candidate_read = g;
              current_read = k;
              later = later;
            }
      ]
    ]
  ]
]

answered :
    (pathname_of : Text → Option Text) (candidate current path other : Text) (a b : PdfRevision)
    → pathname_of candidate ≡ some path
    → pathname_of current ≡ some other
    → revision_of path ≡ some a
    → revision_of other ≡ some b
    → is_newer_pdf_publication pathname_of candidate current ≡ is_later path a other b
unfolding is_newer_pdf_publication pdf_revision_from_url
answered pathname_of candidate current path other a b e f g k =
    rw (e, is_newer_pdf_publication, f, pdf_revision_from_url, e, g, f, k) refl

newer_self :
    (pathname_of : Text → Option Text) (url : Text)
    → is_newer_pdf_publication pathname_of url url ≡ false
newer_self pathname_of url = elim (Bool-cases (is_newer_pdf_publication pathname_of url url)) [
  | inr e ↦ e
  | inl e ↦
      let parts : Compared pathname_of url url = compared pathname_of url url e in
      let alone : is_newer_pdf_publication pathname_of url url ≡ false =
        answered pathname_of url url parts.path parts.path parts.a parts.a parts.candidate_path
          parts.candidate_path parts.candidate_read parts.candidate_read
        ∙ is_later_self parts.path parts.a in
      alone
]

newer_trans :
    (pathname_of : Text → Option Text) (x y z : Text)
    → is_newer_pdf_publication pathname_of x y ≡ true
    → is_newer_pdf_publication pathname_of y z ≡ true
    → is_newer_pdf_publication pathname_of x z ≡ true
newer_trans pathname_of x y z h k =
    let first : Compared pathname_of x y = compared pathname_of x y h in
    let second : Compared pathname_of y z = compared pathname_of y z k in
    let paths : first.other ≡ second.path =
      some_injective (sym first.current_path ∙ second.candidate_path) in
    let reads : revision_of second.path ≡ some first.b =
      subst (λ p. revision_of p ≡ some first.b) paths first.current_read in
    let revisions : first.b ≡ second.a = some_injective (sym reads ∙ second.candidate_read) in
    let near : is_later first.path first.a second.path second.a ≡ true =
      rw (sym paths, sym revisions) first.later in
    answered pathname_of x z first.path second.other first.a second.b first.candidate_path
      second.current_path first.candidate_read second.current_read
    ∙ is_later_trans first.path first.a second.path second.a second.other second.b
        (revision_of_pdf first.path first.a first.candidate_read)
        (revision_of_pdf second.path second.a second.candidate_read)
        (revision_of_pdf second.other second.b second.current_read) near second.later

-- Whatever the URL parser: "newer" is a strict order on addresses. When a first address is newer
-- than a second and the second newer than a third, the first is newer than the third, the second
-- is not newer than the first, and no address is newer than itself.
pub is_newer_pdf_publication-strict :
    (pathname_of : Text → Option Text) (x y z : Text)
    → is_newer_pdf_publication pathname_of x y ≡ true
    → is_newer_pdf_publication pathname_of y z ≡ true
    → (is_newer_pdf_publication pathname_of x z ≡ true)
      × (is_newer_pdf_publication pathname_of y x ≡ false)
      × ((u : Text) → is_newer_pdf_publication pathname_of u u ≡ false)
is_newer_pdf_publication-strict pathname_of x y z h k =
    let back : is_newer_pdf_publication pathname_of y x ≡ false =
      elim (Bool-cases (is_newer_pdf_publication pathname_of y x)) [
        | inr e ↦ e
        | inl e ↦
            let round : true ≡ false =
              sym (newer_trans pathname_of x y x h e) ∙ newer_self pathname_of x in
            cc
      ] in
    (newer_trans pathname_of x y z h k, back, newer_self pathname_of)
