-- ===== src/Worker/Requests.antt =====
-- Requests and responses of the broker, with the readers of worker/src/stream-limit.ts and
-- worker/src/publication-api.ts that every route uses. A response keeps its status, its code and
-- its data; the text of a message is left out.
use utm_curs_i_orar.Prelude.{
  ℕ, ◌-◌, ◌^◌, Bool, true, false, ◌&&◌, ◌||◌, not, Option, none, some, List, [], ◌∷◌, ltb, leb,
  ◌==◌, if◌then◌else◌, length, all,
}
use utm_curs_i_orar.Text.{Text, to_lower, includes, is_digit, trim}
use utm_curs_i_orar.Worker.Types.{Body, PublicationPlan, FinalizeResult}
use utm_curs_i_orar.Worker.Instants.{number}

-- `headers.get` gives null for a header that is not there; a body may be missing.
pub record Request : Type 0 where
  pub header : Text → Option Text
  pub body : Option Text

pub data Response : Type 0 where
  failure : ℕ → Text → Response
  publication_created publication_resumed publication_open : PublicationPlan → Response
  file_stored file_already_stored : Text → ℕ → Text → Response
  finalized : FinalizeResult → Response
  publication_incomplete : List Text → Response
  finalize_failed : Bool → Response
  heartbeat_received : Text → Response
  payload_created payload_idempotent : Text → Text → Response
  pointer_created pointer_updated pointer_idempotent : Text → Response
  served : Body → Response

-- A header that is there and not empty.
abbrev pub given : Option Text → Option Text
given none = none
given (some []) = none
given (some (c ∷ cs)) = some (c ∷ cs)

unfoldable pub content_type_is : Text → Option Text → Bool
unfolding includes to_lower
content_type_is wanted none = false
content_type_is wanted (some t) = leb 1 (length t) && includes wanted (to_lower t)

-- `/^(?:0|[1-9]\d*)$/`
is_plain_number : Text → Bool
is_plain_number [] = false
is_plain_number (c ∷ cs) = is_digit c && all is_digit cs && (not (c == b'0') || length cs == 0)

-- `contentLengthOrNull`
unfoldable pub content_length_or_null : Option Text → Option ℕ
unfolding is_plain_number number
content_length_or_null none = none
content_length_or_null (some t) =
    if is_plain_number t && leb (number t) (2 ^ 53 - 1) then some (number t) else none

-- `readBodyWithin`: none is `PayloadTooLargeError`.
unfoldable pub read_body_within : ℕ → Option Text → Option Text
read_body_within max none = some []
read_body_within max (some body) = if ltb max (length body) then none else some body

abbrev pub max_heartbeat_field_length : ℕ
max_heartbeat_field_length = 256

-- `boundedObservation`
unfoldable pub bounded_observation : Option Text → Option Text
unfolding trim
bounded_observation none = none
bounded_observation (some value) =
    let t = trim value in
    if length t == 0
      || ltb max_heartbeat_field_length (length t)
      || not (all (λ c. leb 32 c && leb c 126) t)
    then none
    else some t

-- `declared !== null && declared > max`, and `declared === null || declared === n`.
abbrev pub exceeds : ℕ → Option ℕ → Bool
exceeds max none = false
exceeds max (some n) = ltb max n

abbrev pub may_be : ℕ → Option ℕ → Bool
may_be actual none = true
may_be actual (some n) = n == actual
