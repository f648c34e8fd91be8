-- ===== src/Worker/Checked.antt =====
-- A chain of checks that stops at the first one that fails, with its error.
use utm_curs_i_orar.Prelude.{◌≡◌, refl, Bool, true, false, Option, none, some, Bool-cases, inl, inr}

pub data Checked (E A : Type 0) : Type 0 where
  fine : A → Checked E A
  fault : E → Checked E A

infixl 5 ◌>>=◌ ◌>>◌
abbrev pub ◌>>=◌ : {E A B : Type 0} → Checked E A → (A → Checked E B) → Checked E B
fine a >>= f = f a
fault e >>= f = fault e

abbrev pub ◌>>◌ : {E B : Type 0} → Checked E (Unit {0}) → Checked E B → Checked E B
m >> k = m >>= λ _. k

abbrev pub require : {E : Type 0} → Bool → E → Checked E (Unit {0})
require true e = fine tt
require false e = fault e

abbrev pub present : {E A : Type 0} → Option A → E → Checked E A
present none e = fault e
present (some a) e = fine a

-- A value that must satisfy a test.
abbrev pub tested : {E A : Type 0} → (A → Bool) → Option A → E → Checked E A
tested p none e = fault e
tested p (some a) e = require (p a) e >>= λ _. fine a

-- A successful bind had a successful first part.
pub >>=-eq-fine :
    {E A B : Type 0} (m : Checked E A) (f : A → Checked E B) {b : B}
    → (m >>= f) ≡ fine b
    → (a : A) × (m ≡ fine a) × (f a ≡ fine b)
>>=-eq-fine (fine a) f h = (a, refl, h)
>>=-eq-fine (fault e) f h = cc

pub require-eq-fine :
    {E B : Type 0} (b : Bool) (e : E) (k : Checked E B) {x : B}
    → (require b e >> k) ≡ fine x
    → (b ≡ true) × (k ≡ fine x)
require-eq-fine true e k h = (refl, h)
require-eq-fine false e k h = cc

pub tested-eq-fine :
    {E A B : Type 0} (p : A → Bool) (o : Option A) (e : E) (f : A → Checked E B) {b : B}
    → (tested p o e >>= f) ≡ fine b
    → (a : A) × (o ≡ some a) × (p a ≡ true) × (f a ≡ fine b)
tested-eq-fine p none e f h = cc
tested-eq-fine p (some a) e f h = elim (Bool-cases (p a)) [
  | inl passed ↦ (a, refl, passed, rw passed at h)
  | inr fails ↦ let k : fault e ≡ fine _ = rw fails at h in cc
]
