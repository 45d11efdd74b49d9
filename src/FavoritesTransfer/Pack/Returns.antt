-- ===== src/FavoritesTransfer/Pack/Returns.antt =====
-- When a document is packed.
use ottplay_control_server.Prelude.{
  ℕ, zero, suc, ◌+◌, ◌*◌, ◌≡◌, ◌≤◌, ◌<◌, refl, some, List, [], ◌∷◌, length, take, drop, length-drop,
  length-take_le, length-take_pos, pieces_needed, le→leb, ok, arith,
}
use ottplay_control_server.Json.Value.{Value}
use ottplay_control_server.Text.{Bytes}
use ottplay_control_server.FavoritesTransfer.Strict.{
  max_document_bytes, max_chunk_bytes, max_rpc_bytes, max_chunks, Codec, limit, raw_bytes,
  validate_document_bytes,
}
use ottplay_control_server.FavoritesTransfer.Encoding.{EncodedBytes, encode_bytes}
use ottplay_control_server.FavoritesTransfer.Pack.{
  Chunk, EnvelopeBytes, PackedChunk, TransferPlan, Packing, range_from, pieces, as_envelope,
  check_envelope, pack_chunk, pack_chunks, pack_document,
}

-- Between 1 and a limit.
abbrev pub InRange : ℕ → ℕ → Type 0
InRange n most = (1 ≤ n) × (n ≤ most)

module _ (codec : Codec) (p : Packing) where
  -- An envelope within the limit, of strict JSON.
  abbrev pub Fits : Bytes → Type 0
  Fits envelope =
      (length envelope ≤ p.rpc_bytes)
      × (value : Value) × (validate_document_bytes codec envelope p.rpc_bytes ≡ ok value)

  -- The builder makes two such envelopes of a chunk.
  abbrev pub BuildsChunk : Chunk → Type 0
  BuildsChunk c =
      (e : EnvelopeBytes) × (p.build_envelopes c ≡ some e)
      × Fits e.client
      × Fits e.queued_upper_bound

  -- It does so of every chunk of this document: of each piece, under its number and its offset.
  abbrev pub Builds : Bytes → Type 0
  Builds raw =
      (seq : ℕ) (payload : EncodedBytes)
      → seq * p.chunk_bytes < length raw
      → encode_bytes codec (take p.chunk_bytes (drop (seq * p.chunk_bytes) raw)) p.chunk_bytes
        ≡ ok payload
      → BuildsChunk (record { seq = seq; offset = seq * p.chunk_bytes; payload = payload })

  -- The numeric arguments are within their limits.
  pub record Allowed : Type 0 where
    pub chunk : InRange p.chunk_bytes max_chunk_bytes
    pub rpc : InRange p.rpc_bytes max_rpc_bytes
    pub chunks : InRange p.max_chunks max_chunks

limit-InRange : (n most : ℕ) → InRange n most → limit n most ≡ ok tt
unfolding limit
limit-InRange n most h = ground (arith, h)

module _ (codec : Codec) (p : Packing) (raw : Bytes) (allowed : Allowed codec p)
    (builds : Builds codec p raw) where
  check_envelope-ok :
      (envelope : Bytes) → Fits codec p envelope → check_envelope codec p envelope ≡ ok tt
  unfolding check_envelope as_envelope
  check_envelope-ok envelope (small, value, strict) = rw (le→leb _ _ small, strict) refl

  encode_piece :
      (offset : ℕ)
      → offset < length raw
      → (e : EncodedBytes) × (encode_bytes codec
            (take p.chunk_bytes (drop offset raw))
            p.chunk_bytes
          ≡ ok e)
  unfolding encode_bytes raw_bytes
  encode_piece offset h =
      let piece = take p.chunk_bytes (drop offset raw) in
      let filled : 0 < length piece =
        length-take_pos p.chunk_bytes (drop offset raw) (omega (arith, allowed.chunk))
          (omega (arith, h, length-drop offset raw)) in
      let within : InRange p.chunk_bytes max_document_bytes = omega (arith, allowed.chunk) in
      let e : EncodedBytes = record {
        size_bytes = length piece;
        sha256 = codec.sha256 piece;
        data_base64 = codec.b64encode piece;
      } in
      (
        e,
        rw
            (
              limit-InRange p.chunk_bytes max_document_bytes within,
              le→leb 1 (length piece) (omega (arith, filled)),
              le→leb (length piece) p.chunk_bytes (length-take_le p.chunk_bytes (drop offset raw)),
            )
            refl,
      )

  pack_chunk-returns :
      (seq : ℕ)
      → seq * p.chunk_bytes < length raw
      → (c : PackedChunk) × (pack_chunk codec p raw seq (seq * p.chunk_bytes) ≡ ok c)
  unfolding pack_chunk
  pack_chunk-returns seq h =
      let offset = seq * p.chunk_bytes in
      let (payload, encoded) = encode_piece offset h in
      let chunk : Chunk = record { seq = seq; offset = offset; payload = payload } in
      let (e, built, client, queued) = builds seq payload h encoded in
      (
        record { chunk = chunk; envelopes = e },
        rw
            (
              encoded,
              built,
              check_envelope-ok e.client client,
              check_envelope-ok e.queued_upper_bound queued,
            )
            refl,
      )

  pack_chunks-returns :
      (n seq offset : ℕ)
      → offset ≡ seq * p.chunk_bytes
      → offset + n * p.chunk_bytes < length raw + p.chunk_bytes
      → (cs : List PackedChunk) × (pack_chunks codec p raw seq (range_from offset p.chunk_bytes n)
          ≡ ok cs)
  unfolding pack_chunks range_from
  pack_chunks-returns zero seq offset at h = ([], refl)
  pack_chunks-returns (suc n) seq offset at h =
      let (c, first) = pack_chunk-returns seq (omega (arith, at, h)) in
      let (cs, rest) =
        pack_chunks-returns n (suc seq) (offset + p.chunk_bytes) (omega (arith, at))
          (omega (arith, h)) in
      (c ∷ cs, rw (at, first, rw at at rest) refl)

-- A strict document that needs no more chunks than allowed is packed, if the limits are within range
-- and the builder makes fitting envelopes of the chunks of this document.
pub pack_document-returns :
    (codec : Codec) (p : Packing) (raw : Bytes) (value : Value)
    → Allowed codec p
    → Builds codec p raw
    → validate_document_bytes codec raw p.max_bytes ≡ ok value
    → pieces (length raw) p.chunk_bytes ≤ p.max_chunks
    → (plan : TransferPlan) × (pack_document codec p raw ≡ ok plan)
unfolding pack_document
pack_document-returns codec p raw value allowed builds strict few =
    let count = pieces (length raw) p.chunk_bytes in
    let (cs, packed) =
      pack_chunks-returns codec p raw allowed builds count 0 0 (omega arith)
        (omega (arith, pieces_needed (length raw) p.chunk_bytes (omega (arith, allowed.chunk)))) in
    (
      record { size_bytes = length raw; sha256 = codec.sha256 raw; chunks = cs },
      rw
          (
            strict,
            limit-InRange p.chunk_bytes max_chunk_bytes allowed.chunk,
            limit-InRange p.rpc_bytes max_rpc_bytes allowed.rpc,
            limit-InRange p.max_chunks max_chunks allowed.chunks,
            le→leb count p.max_chunks few,
            packed,
          )
          refl,
    )
