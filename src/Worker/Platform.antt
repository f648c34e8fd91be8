-- ===== src/Worker/Platform.antt =====
-- What the JavaScript runtime provides: the URL parser, JSON, the regular-expression scans of the
-- page and SHA-256. The broker's definitions take it as an argument, and assume nothing of it but
-- what a theorem names.
use utm_curs_i_orar.Prelude.{ℕ, Option, List}
use utm_curs_i_orar.Text.{Text}
use utm_curs_i_orar.Worker.Types.{Json, Body}

-- The fields of a `URL` object that the source reads.
pub record Url : Type 0 where
  pub protocol : Text
  pub hostname : Text
  pub port : Text
  pub username : Text
  pub password : Text
  pub search : Text
  pub hash : Text
  pub origin : Text
  pub pathname : Text
  pub href : Text

pub record Platform : Type 0 where
  -- `new URL(raw)`, and `new URL(raw, base).toString()`; none where it throws.
  pub parse_url : Text → Option Url
  pub resolve_url : Text → Text → Option Text
  -- `JSON.parse`; none where it throws.
  pub json_parse : Text → Option Json
  -- The text of an object's body.
  pub text_of : Body → Text
  -- The first groups of all matches of HREF_PDF_REGEX and of RAW_URL_REGEX.
  pub href_matches : Text → List Text
  pub raw_url_matches : Text → List Text
  -- The lower-case hexadecimal SHA-256 of bytes.
  pub sha256_hex : Text → Text
  -- `new TextDecoder().decode(bytes)`.
  pub decode : Text → Text
  -- `new Date(ms).toISOString()`.
  pub to_iso : ℕ → Text

-- The deployment's settings.
pub record Env : Type 0 where
  pub schedule_broker_secret : Option Text
  pub md_publisher_token : Option Text
  pub md_publisher_token_previous : Option Text
  pub max_page_future_skew_hours : Option Text
  pub fcim_page_api_url : Option Text
