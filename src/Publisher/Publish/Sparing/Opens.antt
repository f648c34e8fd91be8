-- ===== src/Publisher/Publish/Sparing/Opens.antt =====
-- How often a run of the publisher opens a publication, and that a dry run changes nothing at the
-- broker (tools/md-publisher/src/publish.ts).
use utm_curs_i_orar.Prelude.{ℕ, Bool, true, false, ◌&&◌, not, ◌++◌}
use utm_curs_i_orar.Text.{Text, codes, text_eq}
use utm_curs_i_orar.Publisher.Calls.{Act, JsonRequest, Method, get_method, post_method, put_method}
use utm_curs_i_orar.Publisher.Calls.Counting.{counts, AtMost}
use utm_curs_i_orar.Publisher.Types.{PublisherConfig}
use utm_curs_i_orar.Publisher.Publish.{Host}

abbrev is_post : Method → Bool
is_post post_method = true
is_post get_method = false
is_post put_method = false

abbrev is_get : Method → Bool
is_get get_method = true
is_get post_method = false
is_get put_method = false

-- A request that opens a publication.
abbrev pub is_open : PublisherConfig → JsonRequest → Bool
is_open config r = is_post r.method && text_eq r.url (config.broker_url ++ codes "/publications")

-- A request that may change something at the broker.
abbrev pub is_change : JsonRequest → Bool
is_change r = not (is_get r.method)

module _ (host : Host) (config : PublisherConfig) where
  open host use {platform, stringify}

  abbrev pub Opens : {A : Type 0} → ℕ → Act A → Type 0
  Opens n m = AtMost (counts (is_open config) false) n m
