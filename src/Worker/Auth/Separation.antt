-- ===== src/Worker/Auth/Separation.antt =====
-- The two credentials have two powers: none opens both kinds of routes.
use utm_curs_i_orar.Prelude.{
  ◌≡◌, ◌≢◌, refl, false, Option, none, some, arith, inl, inr, ltb, length, subst, Bool-cases,
  Option-cases, ◌<◌, ◌≤◌,
}
use utm_curs_i_orar.Text.{Text}
use utm_curs_i_orar.Text.Laws.{text_eq_iff}
use utm_curs_i_orar.Worker.Platform.{Platform, Env}
use utm_curs_i_orar.Worker.Auth.{
  Credential, current_token, previous_token, authorized, misconfigured, secret_equals, bearer_token,
  shares_secret, present_token, authorize_publisher, min_publisher_token_length,
}

-- The configured token behind a credential.
abbrev pub token_of : Env → Credential → Option Text
token_of env current_token = env.md_publisher_token
token_of env previous_token = env.md_publisher_token_previous

-- A token that shares nothing with the secret is another text than the secret.
unshared :
    (current : Text) (previous : Option Text) (secret : Text)
    → shares_secret current previous (some secret) ≡ false
    → 0 < length secret
    → (current ≢ secret) × ((old : Text) → previous ≡ some old → old ≢ secret)
unfolding shares_secret
unshared current none secret e n =
    (ground (arith, text_eq_iff current secret), λ old no. absurd (cc))
unshared current (some previous) secret e n = (
  ground (arith, text_eq_iff current secret),
  λ old same. ground (arith, text_eq_iff previous secret),
)

module _ (p : Platform) (env : Env) where
  -- What a request shows that is authorized as a credential.
  pub record Accepts (header : Option Text) (c : Credential) : Type 0 where
    pub presented : Text
    pub token : Text
    pub bears : bearer_token header ≡ some presented
    pub configured : token_of env c ≡ some token
    pub same_digest : p.sha256_hex presented ≡ p.sha256_hex token
    pub long_enough : min_publisher_token_length ≤ length token
    pub separate :
        (secret : Text)
        → env.schedule_broker_secret ≡ some secret
        → 0 < length secret
        → token ≢ secret

  separated :
      (current : Text)
      → shares_secret current env.md_publisher_token_previous env.schedule_broker_secret ≡ false
      → (secret : Text) → env.schedule_broker_secret ≡ some secret
      → 0 < length secret
      → (current ≢ secret)
        × ((old : Text) → env.md_publisher_token_previous ≡ some old → old ≢ secret)
  separated current e secret same n =
      unshared current env.md_publisher_token_previous secret
        (subst (λ s. shares_secret current env.md_publisher_token_previous s ≡ false) same e) n

  module _ (header : Option Text) (current : Text)
      (configured : env.md_publisher_token ≡ some current)
      (long : ltb (length current) min_publisher_token_length ≡ false)
      (apart : shares_secret current env.md_publisher_token_previous env.schedule_broker_secret
        ≡ false) where
    presented-Accepts :
        (presented : Option Text) (previous : Option Text) (c : Credential)
        → bearer_token header ≡ presented
        → env.md_publisher_token_previous ≡ previous
        → present_token p presented current previous ≡ authorized c
        → Accepts header c
    unfolding present_token secret_equals
    presented-Accepts none previous c b v e = cc
    presented-Accepts (some presented) previous current_token b v e = record {
      presented = presented;
      token = current;
      bears = b;
      configured = configured;
      same_digest = ground (arith, text_eq_iff (p.sha256_hex presented) (p.sha256_hex current));
      long_enough = ground arith;
      separate = λ secret s n. (separated current apart secret s n).0;
    }
    presented-Accepts (some presented) none previous_token b v e = ground arith
    presented-Accepts (some presented) (some old) previous_token b v e = record {
      presented = presented;
      token = old;
      bears = b;
      configured = v;
      same_digest = ground (arith, text_eq_iff (p.sha256_hex presented) (p.sha256_hex old));
      long_enough = ground arith;
      separate = λ secret s n. (separated current apart secret s n).1 old v;
    }

  -- A request is authorized as a credential only if it carries a bearer value with the digest of
  -- that credential's configured token, which has at least 32 units and is not the accepted-state
  -- secret, where a secret is configured.
  pub authorize_publisher-Accepts :
      (header : Option Text) (c : Credential)
      → authorize_publisher p env header ≡ authorized c
      → Accepts header c
  unfolding authorize_publisher
  authorize_publisher-Accepts header c e = elim (Option-cases env.md_publisher_token) [
    | inl missing ↦
        let k : misconfigured ≡ authorized c = rw (missing, authorize_publisher) at e in cc
    | inr (current, configured) ↦
        let shares =
          shares_secret current env.md_publisher_token_previous env.schedule_broker_secret in
        elim (Bool-cases (ltb (length current) min_publisher_token_length)) [
          | inl short ↦ ground arith
          | inr long ↦ elim (Bool-cases shares) [
            | inl shared ↦ ground arith
            | inr apart ↦
                presented-Accepts header current configured long apart (bearer_token header)
                  env.md_publisher_token_previous c refl refl
                  (rw (long, apart) at (rw (configured, authorize_publisher) at e))
          ]
        ]
  ]
