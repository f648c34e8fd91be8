-- ===== src/Publisher/Broker/Serving.antt =====
-- What the broker was last seen to serve, in the calls of a run: the latest answer about
-- current.json (tools/md-publisher/src/broker.ts).
use utm_curs_i_orar.Prelude.{
  ◌≡◌, refl, ◌∙◌, Bool, true, false, Option, none, some, [], ◌∷◌, ◌++◌, if◌then◌else◌, ==_iff,
}
use utm_curs_i_orar.Text.{Text, codes, text_eq}
use utm_curs_i_orar.Text.Laws.{text_eq_self}
use utm_curs_i_orar.Worker.Platform.{Platform}
use utm_curs_i_orar.Publisher.Calls.{
  Call, Answer, get, json, upload, read_file, write_file, remove, clock, new_operation_id, returned,
  JsonRequest, JsonResponse,
}
use utm_curs_i_orar.Publisher.Calls.Rules.{History}
use utm_curs_i_orar.Publisher.Types.{PublisherConfig, CurrentPointerView}
use utm_curs_i_orar.Publisher.Broker.Client.{get_request, current_path, current_answer}

module _ (p : Platform) (config : PublisherConfig) where
  abbrev pub is_current : JsonRequest → Bool
  is_current r = text_eq r.url (config.broker_url ++ current_path p config)

  -- The latest answer about the pointer.
  unfoldable pub latest : History → Option (Option JsonResponse)
  latest [] = none
  latest ((json r, a) ∷ h) = if is_current r then some a else latest h
  latest ((get url etag modified, a) ∷ h) = latest h
  latest ((upload u, a) ∷ h) = latest h
  latest ((read_file path, a) ∷ h) = latest h
  latest ((write_file path contents, a) ∷ h) = latest h
  latest ((remove path, a) ∷ h) = latest h
  latest ((clock, a) ∷ h) = latest h
  latest ((new_operation_id, a) ∷ h) = latest h

  -- The broker was last seen to serve this snapshot.
  abbrev pub Serves : History → Text → Type 0
  Serves h id =
      (r : JsonResponse) × (v : CurrentPointerView) × (latest h ≡ some (some r))
      × (current_answer p config r ≡ returned (some v))
      × (v.snapshot_id ≡ id)

  -- A call that does not ask for the pointer.
  abbrev pub Elsewhere : Call → Type 0
  Elsewhere (json r) = is_current r ≡ false
  Elsewhere (get url etag modified) = Unit
  Elsewhere (upload u) = Unit
  Elsewhere (read_file path) = Unit
  Elsewhere (write_file path contents) = Unit
  Elsewhere (remove path) = Unit
  Elsewhere clock = Unit
  Elsewhere new_operation_id = Unit

  pub latest-Elsewhere :
      (h : History) (c : Call) (a : Answer c) → Elsewhere c → latest ((c, a) ∷ h) ≡ latest h
  unfolding latest
  latest-Elsewhere h (json r) a e = rw e refl
  latest-Elsewhere h (get url etag modified) a e = refl
  latest-Elsewhere h (upload u) a e = refl
  latest-Elsewhere h (read_file path) a e = refl
  latest-Elsewhere h (write_file path contents) a e = refl
  latest-Elsewhere h (remove path) a e = refl
  latest-Elsewhere h clock a e = refl
  latest-Elsewhere h new_operation_id a e = refl

  pub Serves-Elsewhere :
      (h : History) (c : Call) (a : Answer c) (id : Text)
      → Elsewhere c
      → Serves h id
      → Serves ((c, a) ∷ h) id
  Serves-Elsewhere h c a id e (r, v, last, read, same) =
      (r, v, latest-Elsewhere h c a e ∙ last, read, same)

  pub same_prefix : (a b c : Text) → text_eq (a ++ b) (a ++ c) ≡ text_eq b c
  unfolding text_eq
  same_prefix [] b c = refl
  same_prefix (x ∷ a) b c = rw ((==_iff x x).1 refl, same_prefix a b c) refl

  pub current_asked : is_current (get_request p config (current_path p config)) ≡ true
  current_asked = text_eq_self (config.broker_url ++ current_path p config)

  pub snapshot_elsewhere :
      (rest : Text) → is_current (get_request p config (codes "/snapshots/" ++ rest)) ≡ false
  unfolding text_eq
  snapshot_elsewhere rest = same_prefix config.broker_url (codes "/snapshots/" ++ rest) _
