-- ===== src/FavoritesTransfer/Pack.antt =====
-- `pack_document`
pub mod Pieces
pub mod Returns
use ottplay_control_server.Prelude.{
  ℕ, zero, suc, ◌+◌, ◌-◌, ◌*◌, ◌/◌, ◌≡◌, Bool, true, false, not, ◌&&◌, Option, none, some, List, [],
  ◌∷◌, length, leb, ltb, take, drop, if◌then◌else◌, Result, ok, err, ◌>>=◌, ◌>>◌, guard, need,
}
use ottplay_control_server.Text.{Bytes, Text}
use ottplay_control_server.Json.Value.{Value}
use ottplay_control_server.FavoritesTransfer.Strict.{
  Failure, invalid_envelope, envelope_too_large, too_many_chunks, max_document_bytes,
  max_chunk_bytes, max_rpc_bytes, max_chunks, Codec, limit, raw_bytes, validate_document_bytes,
}
use ottplay_control_server.FavoritesTransfer.Encoding.{EncodedBytes, encode_bytes, decode_bytes}

pub record Chunk : Type 0 where
  pub seq : ℕ
  pub offset : ℕ
  pub payload : EncodedBytes

pub record EnvelopeBytes : Type 0 where
  pub client : Bytes
  pub queued_upper_bound : Bytes

pub record PackedChunk : Type 0 where
  pub chunk : Chunk
  pub envelopes : EnvelopeBytes

pub record TransferPlan : Type 0 where
  pub size_bytes : ℕ
  pub sha256 : Text
  pub chunks : List PackedChunk

-- The arguments with a default. `build_envelopes` raises, or returns no envelopes, for `none`.
pub record Packing : Type 0 where
  pub build_envelopes : Chunk → Option EnvelopeBytes
  pub chunk_bytes : ℕ
  pub rpc_bytes : ℕ
  pub max_bytes : ℕ
  pub max_chunks : ℕ

-- `except TransferError: raise TransferError("invalid_envelope")`
unfoldable pub as_envelope : Result Failure Value → Result Failure (Unit {0})
as_envelope (ok _) = ok tt
as_envelope (err _) = err invalid_envelope

-- `range(start, …, step)`, with the number of its elements
unfoldable pub range_from : ℕ → ℕ → ℕ → List ℕ
range_from start step zero = []
range_from start step (suc n) = start ∷ range_from (start + step) step n

-- `(len(raw) + chunk_bytes - 1) // chunk_bytes`
abbrev pub pieces : ℕ → ℕ → ℕ
pieces size step = (size + step - 1) / step

module _ (codec : Codec) (p : Packing) where
  unfoldable pub check_envelope : Bytes → Result Failure (Unit {0})
  check_envelope envelope = do
    guard (leb (length envelope) p.rpc_bytes) envelope_too_large
    as_envelope (validate_document_bytes codec envelope p.rpc_bytes)

  -- The body of the loop.
  unfoldable pub pack_chunk : Bytes → ℕ → ℕ → Result Failure PackedChunk
  pack_chunk raw seq offset = do
    payload ← encode_bytes codec (take p.chunk_bytes (drop offset raw)) p.chunk_bytes
    let chunk : Chunk = record { seq = seq; offset = offset; payload = payload }
    envelopes ← need invalid_envelope (p.build_envelopes chunk)
    check_envelope envelopes.client
    check_envelope envelopes.queued_upper_bound
    ok (record { chunk = chunk; envelopes = envelopes })

  -- The loop over the offsets, with the number of the next chunk.
  unfoldable pub pack_chunks : Bytes → ℕ → List ℕ → Result Failure (List PackedChunk)
  pack_chunks raw seq [] = ok []
  pack_chunks raw seq (offset ∷ offsets) = do
    chunk ← pack_chunk raw seq offset
    chunks ← pack_chunks raw (suc seq) offsets
    ok (chunk ∷ chunks)

  unfoldable pub pack_document : Bytes → Result Failure TransferPlan
  pack_document raw = do
    _ ← validate_document_bytes codec raw p.max_bytes
    limit p.chunk_bytes max_chunk_bytes
    limit p.rpc_bytes max_rpc_bytes
    limit p.max_chunks max_chunks
    let count = pieces (length raw) p.chunk_bytes
    guard (leb count p.max_chunks) too_many_chunks
    chunks ← pack_chunks raw 0 (range_from 0 p.chunk_bytes count)
    ok (record { size_bytes = length raw; sha256 = codec.sha256 raw; chunks = chunks })
