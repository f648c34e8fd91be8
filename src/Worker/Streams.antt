-- ===== src/Worker/Streams.antt =====
-- worker/src/stream-limit.ts: the guards around an uploaded body, on streams as the chunks that
-- come through and how they end. The length that `FixedLengthStream` enforces is the runtime's.
pub mod Guarding
use utm_curs_i_orar.Prelude.{
  ℕ, ◌+◌, Bool, true, false, ◌&&◌, not, Option, none, some, List, [], ◌∷◌, ◌++◌, ltb, ◌==◌, length,
  if◌then◌else◌,
}
use utm_curs_i_orar.Text.{Text, codes}

-- A stream ends, breaks off at its source, or is stopped by a guard.
pub data Ending : Type 0 where
  ended broke payload_too_large content_prefix : Ending

pub record Body : Type 0 where
  pub chunks : List Text
  pub ending : Ending

unfoldable pub limit_from : (max total : ℕ) → List Text → Ending → Body
limit_from max total [] e = record { chunks = []; ending = e }
limit_from max total (chunk ∷ chunks) e =
    let rest = limit_from max (total + length chunk) chunks e in
    if ltb max (total + length chunk)
    then record { chunks = []; ending = payload_too_large }
    else record { chunks = chunk ∷ rest.chunks; ending = rest.ending }

-- `limitStreamBytes`
unfoldable pub limit_stream_bytes : ℕ → Body → Body
unfolding limit_from
limit_stream_bytes max s = limit_from max 0 s.chunks s.ending

abbrev pub pdf_magic : Text
pdf_magic = codes "%PDF-"

-- What is left of the prefix after a chunk, none at the first byte that differs.
unfoldable pub match_chunk : Text → Text → Option Text
match_chunk [] chunk = some []
match_chunk (p ∷ ps) [] = some (p ∷ ps)
match_chunk (p ∷ ps) (c ∷ cs) = if p == c then match_chunk ps cs else none

-- `flush`: a stream that ends before the prefix is an error; one that breaks off stays so.
unfoldable pub flush : Text → Ending → Ending
flush [] e = e
flush (p ∷ ps) ended = content_prefix
flush (p ∷ ps) broke = broke
flush (p ∷ ps) payload_too_large = payload_too_large
flush (p ∷ ps) content_prefix = content_prefix

unfoldable pub require_from : Text → List Text → Ending → Body
unfolding match_chunk flush
require_from left [] e = record { chunks = []; ending = flush left e }
require_from left (chunk ∷ chunks) e = elim (match_chunk left chunk) [
  | none ↦ record { chunks = []; ending = content_prefix }
  | some more ↦
      let rest = require_from more chunks e in
      record { chunks = chunk ∷ rest.chunks; ending = rest.ending }
]

-- `requirePrefix`
unfoldable pub require_prefix : Text → Body → Body
unfolding require_from
require_prefix prefix s = require_from prefix s.chunks s.ending
