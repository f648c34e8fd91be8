-- ===== src/Worker/Tests/Streams.antt =====
-- An upload of worker/src/stream-limit.ts in two chunks.
use utm_curs_i_orar.Prelude.{◌≤◌, ◌≡◌, refl, true, ◌↔◌, [], ◌∷◌, length}
use utm_curs_i_orar.Text.{codes, starts_with}
use utm_curs_i_orar.Worker.Streams.{
  Body, ended, flush, limit_from, limit_stream_bytes, match_chunk, pdf_magic, require_from,
  require_prefix,
}
use utm_curs_i_orar.Worker.Streams.Guarding.{joined, guarded_iff}

abbrev upload : Body
upload = record { chunks = codes "%PD" ∷ codes "F-1.7" ∷ []; ending = ended }

guarded_iff_example :
    (length (joined (limit_stream_bytes 8 (require_prefix pdf_magic upload)).chunks) ≤ 8)
    × ((limit_stream_bytes 8 (require_prefix pdf_magic upload) ≡ upload) ↔ (
        (upload.ending ≡ ended)
        × (starts_with pdf_magic (joined upload.chunks) ≡ true)
        × (length (joined upload.chunks) ≤ 8)))
    × ((limit_stream_bytes 8 (require_prefix pdf_magic upload)).ending ≡ ended
        → limit_stream_bytes 8 (require_prefix pdf_magic upload) ≡ upload)
guarded_iff_example = guarded_iff 8 pdf_magic upload

upload_passes : limit_stream_bytes 8 (require_prefix pdf_magic upload) ≡ upload
unfolding limit_stream_bytes limit_from require_prefix require_from match_chunk flush
upload_passes = refl
