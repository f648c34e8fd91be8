-- ===== src/Publisher/Calls.antt =====
-- What the publisher calls, as the operations of a program tree: the network of
-- tools/md-publisher/src/transport.ts, the files below the state directory, the clock and random
-- ids. A run is the tree of its calls, branching on every answer.
pub mod Rules
pub mod Counting
use utm_curs_i_orar.Prelude.{ℕ, Bool, true, false, Option, none, some, List}
use utm_curs_i_orar.Text.{Text, codes}

-- How a JavaScript exception is told apart: BrokerError, UpstreamError, or another error.
pub data Failure : Type 0 where
  broker_error : (status : ℕ) (code : Text) → Failure
  upstream_error : Option ℕ → Failure
  other_error : Text → Failure

-- A streamed body: its chunks, and whether the stream ended or broke off.
pub record Stream : Type 0 where
  pub chunks : List Text
  pub complete : Bool

pub record HttpResponse : Type 0 where
  pub status : ℕ
  pub etag : Option Text
  pub last_modified : Option Text
  pub location : Option Text
  pub body : Option Stream

pub record JsonResponse : Type 0 where
  pub status : ℕ
  pub text : Text

pub data Method : Type 0 where
  get_method post_method put_method : Method

pub record JsonRequest : Type 0 where
  pub method : Method
  pub url : Text
  pub headers : List (Text × Text)
  pub body : Option Text

-- The files of `StateStore`.
pub data LocalPath : Type 0 where
  last_run_file operation_file page_file run_dir cache_dir : LocalPath
  cache_path run_temp_path : Text → LocalPath

pub record UploadInput : Type 0 where
  pub url : Text
  pub headers : List (Text × Text)
  pub file_path : LocalPath
  pub size : ℕ

pub data Call : Type 0 where
  get : (url : Text) (if_none_match if_modified_since : Option Text) → Call
  json : JsonRequest → Call
  upload : UploadInput → Call
  read_file : LocalPath → Call
  write_file : LocalPath → Text → Call
  remove : LocalPath → Call
  clock new_operation_id : Call

-- An answer of the network is none where the transport throws, and one of a file where it cannot
-- be read. A write or a removal is answered with whether the file system did it.
abbrev pub Answer : Call → Type 0
Answer (get url etag modified) = Option HttpResponse
Answer (json r) = Option JsonResponse
Answer (upload u) = Option JsonResponse
Answer (read_file path) = Option Text
Answer (write_file path contents) = Bool
Answer (remove path) = Bool
Answer clock = Text
Answer new_operation_id = Text

pub data Act (A : Type 0) : Type 0 where
  done : A → Act A
  fail : Failure → Act A
  ask : (c : Call) → (Answer c → Act A) → Act A

infixl 5 ◌>>=◌ ◌>>◌
unfoldable pub ◌>>=◌ : {A B : Type 0} → Act A → (A → Act B) → Act B
◌>>=◌ (done a) f = f a
◌>>=◌ (fail e) f = fail e
◌>>=◌ (ask c k) f = ask c (λ a. k a >>= f)

abbrev pub ◌>>◌ : {A B : Type 0} → Act A → Act B → Act B
m >> n = m >>= λ _. n

pub data Outcome (A : Type 0) : Type 0 where
  returned : A → Outcome A
  raised : Failure → Outcome A

-- `try … catch`
unfoldable pub caught : {A : Type 0} → Act A → Act (Outcome A)
caught (done a) = done (returned a)
caught (fail e) = done (raised e)
caught (ask c k) = ask c (λ a. caught (k a))

-- The call throws when the file system refuses.
abbrev pub settled : Bool → Act (Unit {0})
settled true = done tt
settled false = fail (other_error (codes "file system"))

abbrev pub writing : LocalPath → Text → Act (Unit {0})
writing path contents = ask (write_file path contents) (λ a. settled a)

abbrev pub removing : LocalPath → Act (Unit {0})
removing path = ask (remove path) (λ a. settled a)

abbrev pub call : (c : Call) → Act (Answer c)
call c = ask c (λ a. done a)
