-- ===== src/Worker/Bucket.antt =====
-- The R2 bucket and the queue, which the broker only calls, as the operations of a program tree: a
-- handler is the tree of its calls, branching on every answer that the bucket can give. So what is
-- shown of all branches holds whatever other invocations do between two calls.
pub mod Runs
pub mod Rules
use utm_curs_i_orar.Prelude.{ℕ, ◌≡◌, Bool, true, false, Option, none, some, List, []}
use utm_curs_i_orar.Text.{Text, text_eq}
use utm_curs_i_orar.Worker.Types.{Body, PublicationJob}

-- Custom metadata, a record of texts.
abbrev pub Meta : Type 0
Meta = List (Text × Text)

pub record Object : Type 0 where
  pub body : Body
  pub etag : Text
  pub size : ℕ
  pub uploaded : ℕ
  pub custom : Meta

-- `onlyIf`: none, `etagDoesNotMatch: "*"`, or `etagMatches`.
pub data Cond : Type 0 where
  always if_absent : Cond
  if_etag : Text → Cond

-- `list` with a prefix, the delimiter "/" or none, a limit and a cursor. A delimited listing gives
-- the prefixes one level down.
pub record Listing : Type 0 where
  pub objects : List (Text × ℕ)
  pub prefixes : List Text
  pub truncated : Bool
  pub next : Option Text

-- How a streamed write ends: `putLimitedStream` returns an object or null, or throws.
pub data Upload : Type 0 where
  written : ℕ → Upload
  lost too_large bad_prefix bad_hash bad_length broken : Upload

pub data Proc (A : Type 0) : Type 0 where
  done : A → Proc A
  get : Text → (Option Object → Proc A) → Proc A
  put : Text → Body → Cond → Meta → (Option Object → Proc A) → Proc A
  stream : Text → Cond → Meta → (Upload → Proc A) → Proc A
  delete : List Text → Proc A → Proc A
  list : Text → Bool → ℕ → Option Text → (Listing → Proc A) → Proc A
  send : PublicationJob → Proc A → Proc A

infixl 5 ◌>>=◌ ◌>>◌
unfoldable pub ◌>>=◌ : {A B : Type 0} → Proc A → (A → Proc B) → Proc B
◌>>=◌ (done a) f = f a
◌>>=◌ (get k c) f = get k (λ o. c o >>= f)
◌>>=◌ (put k b w m c) f = put k b w m (λ o. c o >>= f)
◌>>=◌ (stream k w m c) f = stream k w m (λ o. c o >>= f)
◌>>=◌ (delete ks c) f = delete ks (c >>= f)
◌>>=◌ (list p d n t c) f = list p d n t (λ l. c l >>= f)
◌>>=◌ (send j c) f = send j (c >>= f)

abbrev pub ◌>>◌ : {A B : Type 0} → Proc A → Proc B → Proc B
m >> n = m >>= λ _. n

abbrev pub read : Text → Proc (Option Object)
read k = get k (λ o. done o)

abbrev pub write : Text → Body → Cond → Meta → Proc (Option Object)
write k b w m = put k b w m (λ o. done o)
