-- ===== src/Publisher/Calls/Counting.antt =====
-- How many calls of a kind a run of the publisher can make, whatever it is answered
-- (tools/md-publisher/src).
use utm_curs_i_orar.Prelude.{ℕ, zero, suc, ◌≡◌, Bool, true, false, if◌then◌else◌}
use utm_curs_i_orar.Publisher.Calls.{
  Failure, Call, Answer, get, json, upload, read_file, write_file, remove, clock, new_operation_id,
  Act, done, fail, ask, ◌>>=◌, Outcome, caught, settled, JsonRequest,
}
use utm_curs_i_orar.Publisher.Calls.Rules.{History, Ensures, at_done, at_fail, at_ask}

-- A kind of calls: some of the JSON requests, and all uploads or none.
abbrev pub counts : (JsonRequest → Bool) → Bool → Call → Bool
counts requests uploads (json r) = requests r
counts requests uploads (upload u) = uploads
counts requests uploads (get url etag modified) = false
counts requests uploads (read_file path) = false
counts requests uploads (write_file path contents) = false
counts requests uploads (remove path) = false
counts requests uploads clock = false
counts requests uploads new_operation_id = false

-- No branch makes more calls of the kind than this.
pub data AtMost {A : Type 0} (kind : Call → Bool) : ℕ → Act A → Type 0 where
  most_done : {n : ℕ} {a : A} → AtMost kind n (done a)
  most_fail : {n : ℕ} {e : Failure} → AtMost kind n (fail e)
  most_free :
      {n : ℕ} {c : Call} {k : Answer c → Act A}
      → kind c ≡ false
      → ((a : Answer c) → AtMost kind n (k a))
      → AtMost kind n (ask c k)
  most_spent :
      {n : ℕ} {c : Call} {k : Answer c → Act A}
      → ((a : Answer c) → AtMost kind n (k a))
      → AtMost kind (suc n) (ask c k)

abbrev pub plus : ℕ → ℕ → ℕ
plus zero n = n
plus (suc m) n = suc (plus m n)

module _ {A : Type 0} {kind : Call → Bool} where
  pub more : {n : ℕ} {m : Act A} → AtMost kind n m → AtMost kind (suc n) m
  more most_done = most_done
  more most_fail = most_fail
  more (most_free e k) = most_free e (λ a. more (k a))
  more (most_spent k) = most_spent (λ a. more (k a))

  more_by : (d : ℕ) {n : ℕ} {m : Act A} → AtMost kind n m → AtMost kind (plus d n) m
  more_by zero e = e
  more_by (suc d) e = more (more_by d e)

  pub most_any : (n : ℕ) {m : Act A} → AtMost kind zero m → AtMost kind n m
  most_any zero e = e
  most_any (suc n) e = more (most_any n e)

  pub most_if :
      {n : ℕ} (b : Bool) {x y : Act A}
      → AtMost kind n x
      → AtMost kind n y
      → AtMost kind n (if b then x else y)
  most_if true ex ey = ex
  most_if false ex ey = ey

  pub most_caught : {n : ℕ} {m : Act A} → AtMost kind n m → AtMost kind n (caught m)
  unfolding caught
  most_caught most_done = most_done
  most_caught most_fail = most_done
  most_caught (most_free e k) = most_free e (λ a. most_caught (k a))
  most_caught (most_spent k) = most_spent (λ a. most_caught (k a))

pub most_settled : {kind : Call → Bool} {n : ℕ} (a : Bool) → AtMost kind n (settled a)
most_settled true = most_done
most_settled false = most_fail

module _ {A B : Type 0} {kind : Call → Bool} where
  pub most_then :
      {n : ℕ} {d : ℕ} {m : Act A} (f : A → Act B)
      → AtMost kind d m
      → ((a : A) → AtMost kind n (f a))
      → AtMost kind (plus d n) (m >>= f)
  unfolding ◌>>=◌
  most_then f (most_done {n = d} {a}) k = more_by d (k a)
  most_then f most_fail k = most_fail
  most_then f (most_free e g) k = most_free e (λ a. most_then f (g a) k)
  most_then f (most_spent g) k = most_spent (λ a. most_then f (g a) k)

module _ {B : Type 0} {kind : Call → Bool} where
  -- What follows a write or a removal.
  pub most_settling :
      {n : ℕ} (f : Unit {0} → Act B) (a : Bool)
      → AtMost kind n (f tt)
      → AtMost kind n (settled a >>= f)
  unfolding ◌>>=◌
  most_settling f true e = e
  most_settling f false e = most_fail

-- A part whose calls are none of the kind.
pub most_none :
    {A : Type 0} {kind : Call → Bool} {P : History → Call → Type 0}
    {Q : History → Outcome A → Type 0} {h : History} {m : Act A}
    → ((h' : History) (c : Call) → P h' c → kind c ≡ false)
    → Ensures P Q h m
    → AtMost kind zero m
most_none free (at_done q) = most_done
most_none free (at_fail q) = most_fail
most_none free (at_ask p e) = most_free (free _ _ p) (λ a. most_none free (e a))
