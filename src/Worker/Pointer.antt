-- ===== src/Worker/Pointer.antt =====
-- worker/src/pointer.ts: the strict parser of `current.json`, and the builder of the document.
use utm_curs_i_orar.Prelude.{
  ℕ, suc, ◌+◌, ◌-◌, ◌++◌, Bool, true, false, ◌&&◌, ◌||◌, not, Option, none, some, List, [], ◌∷◌,
  ltb, leb, ◌==◌, if◌then◌else◌, length, drop, all,
}
use utm_curs_i_orar.Text.{
  max_safe_integer, Text, codes, text_eq, Class, digit, unit, times, matches, starts_with,
}
use utm_curs_i_orar.Worker.Types.{
  Json, null, bool, num, other_num, str, arr, obj, Fields, end, field, CurrentPointer,
  ParsedCurrentPointer, strict, legacy,
}
use utm_curs_i_orar.Worker.Keys.{snapshot_manifest_key}
use utm_curs_i_orar.Worker.Instants.{is_snapshot_id, is_wp_gmt}
use utm_curs_i_orar.Worker.Checked.{Checked, fine, ◌>>=◌, ◌>>◌, require, present, tested}

abbrev pub max_current_pointer_bytes : ℕ
max_current_pointer_bytes = 4096

abbrev iso_prefix : List Class → List Class
iso_prefix rest = times 4 digit (
    unit b'-'
    ∷ times 2 digit (
        unit b'-'
        ∷ times 2 digit (
            unit b'T'
            ∷ times 2 digit (unit b':' ∷ times 2 digit (unit b':' ∷ times 2 digit rest)))))

-- ISO_INSTANT_REGEX: the fraction of one to three digits may be left out.
unfoldable pub is_iso_instant : Text → Bool
unfolding matches
is_iso_instant t =
    matches (iso_prefix (unit b'Z' ∷ [])) t
    || matches (iso_prefix (unit b'.' ∷ times 1 digit (unit b'Z' ∷ []))) t
    || matches (iso_prefix (unit b'.' ∷ times 2 digit (unit b'Z' ∷ []))) t
    || matches (iso_prefix (unit b'.' ∷ times 3 digit (unit b'Z' ∷ []))) t

pub data PointerError : Type 0 where
  empty_text too_long not_json not_object wrong_fields missing_field nested_value bad_schema
        bad_snapshot_id bad_updated_at bad_manifest_key duplicate_field bad_published_at
        bad_page_modified bad_page_id bad_pdf_count :
      PointerError

pub data Format : Type 0 where
  strict_format legacy_format : Format

abbrev strict_required_keys : List Text
strict_required_keys =
    codes "schema_version"
    ∷ codes "snapshot_id"
    ∷ codes "updated_at"
    ∷ codes "published_at"
    ∷ codes "manifest_r2_key"
    ∷ codes "page_modified_gmt"
    ∷ codes "page_id"
    ∷ codes "pdf_count"
    ∷ []

abbrev legacy_required_keys : List Text
legacy_required_keys =
    codes "schema_version" ∷ codes "snapshot_id" ∷ codes "updated_at" ∷ codes "manifest_r2_key" ∷ []

abbrev pub required_of : Format → List Text
required_of strict_format = strict_required_keys
required_of legacy_format = legacy_required_keys

-- The own properties of a parsed object, which have distinct names.
unfoldable pub field_of : Text → Fields → Option Json
unfolding text_eq
field_of k end = none
field_of k (field j v fs) = if text_eq k j then some v else field_of k fs

unfoldable pub count_fields : Fields → ℕ
count_fields end = 0
count_fields (field j v fs) = suc (count_fields fs)

abbrev has_own : Fields → Text → Bool
has_own fs k = elim (field_of k fs) [ none ↦ false | some v ↦ true ]

abbrev is_scalar : Json → Bool
is_scalar (bool b) = false
is_scalar (arr items) = false
is_scalar (obj fs) = false
is_scalar _ = true

unfoldable pub all_scalar : Fields → Bool
all_scalar end = true
all_scalar (field j v fs) = is_scalar v && all_scalar fs

abbrev pub as_text : Option Json → Option Text
as_text (some (str t)) = some t
as_text (some null) = none
as_text (some (bool b)) = none
as_text (some (num n)) = none
as_text (some (other_num t)) = none
as_text (some (arr items)) = none
as_text (some (obj fs)) = none
as_text none = none

abbrev pub as_fields : Json → Option Fields
as_fields (obj fs) = some fs
as_fields null = none
as_fields (bool b) = none
as_fields (num n) = none
as_fields (other_num t) = none
as_fields (str t) = none
as_fields (arr items) = none

-- `value === 1`
abbrev pub is_one : Option Json → Bool
is_one (some (num n)) = n == 1
is_one (some (str t)) = false
is_one (some null) = false
is_one (some (bool b)) = false
is_one (some (other_num t)) = false
is_one (some (arr items)) = false
is_one (some (obj fs)) = false
is_one none = false

skip_space : Text → Text
skip_space [] = []
skip_space (c ∷ cs) = if c == 32 || c == 9 || c == 10 || c == 13 then skip_space cs else c ∷ cs

abbrev begins_with : ℕ → Text → Bool
begins_with d [] = false
begins_with d (c ∷ cs) = c == d

-- The loop of `countKeyOccurrences`: `previous` is the unit before, and after an occurrence the
-- search goes on behind it.
count_from : Text → ℕ → ℕ → Text → ℕ
unfolding starts_with skip_space
count_from needle previous jump [] = 0
count_from needle previous jump (c ∷ cs) =
    let hit = jump == 0 && starts_with needle (c ∷ cs) in
    let counts =
      hit
      && not (previous == b'\\')
      && begins_with b':' (skip_space (drop (length needle) (c ∷ cs))) in
    (if counts then 1 else 0) + count_from needle c (if hit then length needle - 1 else jump - 1) cs

unfoldable pub count_key_occurrences : Text → Text → ℕ
unfolding count_from
count_key_occurrences text key = count_from (b'"' ∷ (key ++ b'"' ∷ [])) 0 0 text

unfoldable pub required_keys : Fields → Option Format
unfolding field_of count_fields
required_keys fs =
    if count_fields fs == length strict_required_keys && all (has_own fs) strict_required_keys
    then some strict_format
    else if count_fields fs == length legacy_required_keys && all (has_own fs) legacy_required_keys
    then some legacy_format
    else none

-- `page_modified_gmt` and `page_id` may be null; none says that the value is of neither form.
nullable_gmt : Option Json → Option (Option Text)
nullable_gmt (some null) = some none
nullable_gmt (some (str t)) = if is_wp_gmt t then some (some t) else none
nullable_gmt _ = none

nullable_id : Option Json → Option (Option ℕ)
nullable_id (some null) = some none
nullable_id (some (num n)) = if leb n max_safe_integer && ltb 0 n then some (some n) else none
nullable_id _ = none

count_value : Option Json → Option ℕ
count_value (some (num n)) = if leb n max_safe_integer then some n else none
count_value _ = none

-- The fields that both formats have.
pub record Common : Type 0 where
  pub snapshot_id : Text
  pub updated_at : Text
  pub manifest_r2_key : Text

unfoldable pub parse_common : Text → Fields → Format → Checked PointerError Common
unfolding field_of all_scalar is_snapshot_id is_iso_instant count_key_occurrences
parse_common text fs format = do
  require (all (has_own fs) (required_of format)) missing_field
  require (all_scalar fs) nested_value
  require (is_one (field_of (codes "schema_version") fs)) bad_schema
  id ← tested is_snapshot_id (as_text (field_of (codes "snapshot_id") fs)) bad_snapshot_id
  updated ← tested is_iso_instant (as_text (field_of (codes "updated_at") fs)) bad_updated_at
  key ←
      tested (λ k. text_eq k (snapshot_manifest_key id))
        (as_text (field_of (codes "manifest_r2_key") fs)) bad_manifest_key
  require (all (λ k. count_key_occurrences text k == 1) (required_of format)) duplicate_field
  fine (record { snapshot_id = id; updated_at = updated; manifest_r2_key = key })

unfoldable pub parse_rest : Fields → Format → Common → Checked PointerError ParsedCurrentPointer
unfolding field_of is_iso_instant nullable_gmt nullable_id count_value
parse_rest fs legacy_format c = fine (
    legacy (record {
      snapshot_id = c.snapshot_id;
      updated_at = c.updated_at;
      published_at = c.updated_at;
      manifest_r2_key = c.manifest_r2_key;
    }))
parse_rest fs strict_format c = do
  published ← tested is_iso_instant (as_text (field_of (codes "published_at") fs)) bad_published_at
  modified ← present (nullable_gmt (field_of (codes "page_modified_gmt") fs)) bad_page_modified
  page ← present (nullable_id (field_of (codes "page_id") fs)) bad_page_id
  pdfs ← present (count_value (field_of (codes "pdf_count") fs)) bad_pdf_count
  fine (
      strict (record {
        snapshot_id = c.snapshot_id;
        updated_at = c.updated_at;
        published_at = published;
        manifest_r2_key = c.manifest_r2_key;
        page_modified_gmt = modified;
        page_id = page;
        pdf_count = pdfs;
      }))

unfoldable pub parse_current_pointer :
    (Text → Option Json) → Text → Checked PointerError ParsedCurrentPointer
unfolding required_keys parse_common parse_rest
parse_current_pointer json_parse text = do
  require (ltb 0 (length text)) empty_text
  require (leb (length text) max_current_pointer_bytes) too_long
  parsed ← present (json_parse text) not_json
  fs ← present (as_fields parsed) not_object
  format ← present (required_keys fs) wrong_fields
  common ← parse_common text fs format
  parse_rest fs format common

abbrev pub pointer_id : ParsedCurrentPointer → Text
pointer_id (strict c) = c.snapshot_id
pointer_id (legacy c) = c.snapshot_id

abbrev pub pointer_manifest : ParsedCurrentPointer → Text
pointer_manifest (strict c) = c.manifest_r2_key
pointer_manifest (legacy c) = c.manifest_r2_key

unfoldable pub build_current_pointer : Text → Text → Option Text → Option ℕ → ℕ → CurrentPointer
build_current_pointer snapshot_id published_at page_modified_gmt page_id pdf_count = record {
  snapshot_id = snapshot_id;
  updated_at = published_at;
  published_at = published_at;
  manifest_r2_key = snapshot_manifest_key snapshot_id;
  page_modified_gmt = page_modified_gmt;
  page_id = page_id;
  pdf_count = pdf_count;
}
