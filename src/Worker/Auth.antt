-- ===== src/Worker/Auth.antt =====
-- worker/src/publisher-auth.ts, and `verifyAuth` of worker/src/accepted-handler.ts: who may call.
pub mod Separation
use utm_curs_i_orar.Prelude.{
  ℕ, Bool, true, false, ◌&&◌, ◌||◌, not, Option, none, some, [], ◌∷◌, ◌++◌, ltb, leb, if◌then◌else◌,
  length, drop,
}
use utm_curs_i_orar.Text.{Text, codes, text_eq, option_eq, to_lower, starts_with, trim}
use utm_curs_i_orar.Worker.Platform.{Platform, Env}

abbrev pub min_publisher_token_length : ℕ
min_publisher_token_length = 32

pub data Credential : Type 0 where
  current_token previous_token : Credential

pub data PublisherAuthResult : Type 0 where
  authorized : Credential → PublisherAuthResult
  unauthorized misconfigured : PublisherAuthResult

-- `secretEquals`: the digests are compared byte for byte.
unfoldable pub secret_equals : Platform → Text → Text → Bool
unfolding text_eq
secret_equals p presented expected = text_eq (p.sha256_hex presented) (p.sha256_hex expected)

-- `bearerToken`, from the Authorization header.
unfoldable pub bearer_token : Option Text → Option Text
unfolding trim to_lower starts_with
bearer_token none = none
bearer_token (some header) =
    if starts_with (codes "bearer ") (to_lower (trim header))
    then elim (trim (drop 7 (trim header))) [ [] ↦ none | c ∷ cs ↦ some (c ∷ cs) ]
    else none

shares_secret : Text → Option Text → Option Text → Bool
unfolding text_eq
shares_secret current previous none = false
shares_secret current previous (some secret) =
    leb 1 (length secret) && (text_eq current secret || option_eq previous secret)

unfoldable pub present_token : Platform → Option Text → Text → Option Text → PublisherAuthResult
unfolding secret_equals
present_token p none current previous = unauthorized
present_token p (some presented) current previous =
    if secret_equals p presented current then authorized current_token else elim previous [
      | none ↦ unauthorized
      | some old ↦
          if leb min_publisher_token_length (length old) && secret_equals p presented old
          then authorized previous_token
          else unauthorized
    ]

unfoldable pub authorize_publisher : Platform → Env → Option Text → PublisherAuthResult
unfolding shares_secret present_token bearer_token
authorize_publisher p env header = elim env.md_publisher_token [
  | none ↦ misconfigured
  | some current ↦
      if ltb (length current) min_publisher_token_length
      then misconfigured
      else if shares_secret current env.md_publisher_token_previous env.schedule_broker_secret
      then misconfigured
      else present_token p (bearer_token header) current env.md_publisher_token_previous
]

-- `verifyAuth`
unfoldable pub verify_auth : Env → Option Text → Bool
unfolding text_eq trim
verify_auth env header = elim env.schedule_broker_secret [
  | none ↦ false
  | some secret ↦ elim header [
    | none ↦ false
    | some h ↦
        leb 1 (length secret) && leb 1 (length h) && text_eq (trim h) (codes "Bearer " ++ secret)
  ]
]
