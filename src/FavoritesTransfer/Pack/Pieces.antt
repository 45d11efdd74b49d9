-- ===== src/FavoritesTransfer/Pack/Pieces.antt =====
-- The chunks of a plan are the bytes, in order, and within the limits.
use ottplay_control_server.Prelude.{
  ℕ, zero, suc, ◌+◌, ◌*◌, ◌≡◌, ◌≤◌, ◌<◌, refl, sym, ap, List, [], ◌∷◌, ◌++◌, length, leb, take,
  drop, take-append-drop, drop-all, drop-add, pieces_enough, pieces_needed, leb→le, Result, ok,
  ok-injective, ◌>>=◌, guard, guard-eq-ok, >>=-eq-ok, need, arith,
}
use ottplay_control_server.Text.{Bytes}
use ottplay_control_server.FavoritesTransfer.Strict.{
  Failure, invalid_envelope, envelope_too_large, too_many_chunks, max_chunk_bytes, max_rpc_bytes,
  max_chunks, Codec, limit, validate_document_bytes,
}
use ottplay_control_server.FavoritesTransfer.Encoding.{encode_bytes, decode_bytes}
use ottplay_control_server.FavoritesTransfer.Encoding.Inverse.{IsCodec, decode_bytes_iff}
use ottplay_control_server.FavoritesTransfer.Pack.{
  Chunk, PackedChunk, TransferPlan, Packing, range_from, pieces, check_envelope, pack_chunk,
  pack_chunks, pack_document,
}

-- `_limit`, as an order.
pub limit-bounds : (n most : ℕ) {u : Unit {0}} → limit n most ≡ ok u → (0 < n) × (n ≤ most)
unfolding limit
limit-bounds n most h = ground (arith, guard-eq-ok _ _ h)

-- What a receiver makes of the chunks: the bytes of each, one after the other.
abbrev pub unpack : Codec → ℕ → List PackedChunk → Result Failure Bytes
unpack codec step [] = ok []
unpack codec step (c ∷ cs) = do
  piece ← decode_bytes codec c.chunk.payload step
  rest ← unpack codec step cs
  ok (piece ++ rest)

module _ (codec : Codec) (p : Packing) (raw : Bytes) where
  -- A chunk with its number, its place, the bytes there, and two envelopes within the limit.
  pub record IsPacked (seq offset : ℕ) (c : PackedChunk) : Type 0 where
    pub numbered : c.chunk.seq ≡ seq
    pub placed : c.chunk.offset ≡ offset
    pub encoded :
        encode_bytes codec (take p.chunk_bytes (drop offset raw)) p.chunk_bytes ≡ ok c.chunk.payload
    pub client : length c.envelopes.client ≤ p.rpc_bytes
    pub queued : length c.envelopes.queued_upper_bound ≤ p.rpc_bytes

  -- Chunks with successive numbers, at successive places.
  abbrev pub Successive : ℕ → ℕ → List PackedChunk → Type 0
  Successive seq offset [] = Unit
  Successive seq offset (c ∷ cs) =
      IsPacked seq offset c × Successive (suc seq) (offset + p.chunk_bytes) cs

  pub record IsPlan (plan : TransferPlan) : Type 0 where
    pub size : plan.size_bytes ≡ length raw
    pub digest : plan.sha256 ≡ codec.sha256 raw
    pub successive : Successive 0 0 plan.chunks
    pub few : length plan.chunks ≤ p.max_chunks
    pub small : p.rpc_bytes ≤ max_rpc_bytes
    pub enough : length raw ≤ length plan.chunks * p.chunk_bytes
    pub needed : length plan.chunks * p.chunk_bytes < length raw + p.chunk_bytes

  check_envelope-le :
      (envelope : Bytes) {u : Unit {0}}
      → check_envelope codec p envelope ≡ ok u
      → length envelope ≤ p.rpc_bytes
  unfolding check_envelope
  check_envelope-le envelope h =
      let (_, g, _) =
        >>=-eq-ok (guard (leb (length envelope) p.rpc_bytes) envelope_too_large) _ h in
      leb→le _ _ (guard-eq-ok _ _ g)

  pack_chunk-IsPacked :
      (seq offset : ℕ) (c : PackedChunk)
      → pack_chunk codec p raw seq offset ≡ ok c
      → IsPacked seq offset c
  unfolding pack_chunk
  pack_chunk-IsPacked seq offset c h =
      let (payload, e, h₁) =
        >>=-eq-ok (encode_bytes codec (take p.chunk_bytes (drop offset raw)) p.chunk_bytes) _ h in
      let chunk : Chunk = record { seq = seq; offset = offset; payload = payload } in
      let (envelopes, _, h₂) = >>=-eq-ok (need invalid_envelope (p.build_envelopes chunk)) _ h₁ in
      let (_, client, h₃) = >>=-eq-ok (check_envelope codec p envelopes.client) _ h₂ in
      let (_, queued, h₄) = >>=-eq-ok (check_envelope codec p envelopes.queued_upper_bound) _ h₃ in
      rw (sym (ok-injective h₄)) (record {
        numbered = refl;
        placed = refl;
        encoded = e;
        client = check_envelope-le _ client;
        queued = check_envelope-le _ queued;
      })

  pack_chunks-Successive :
      (n seq offset : ℕ) (cs : List PackedChunk)
      → pack_chunks codec p raw seq (range_from offset p.chunk_bytes n) ≡ ok cs
      → Successive seq offset cs × (length cs ≡ n)
  unfolding pack_chunks range_from
  pack_chunks-Successive zero seq offset cs h = rw (sym (ok-injective h)) (tt, refl)
  pack_chunks-Successive (suc n) seq offset cs h =
      let (c, first, h₁) = >>=-eq-ok (pack_chunk codec p raw seq offset) _ h in
      let (more, rest, h₂) =
        >>=-eq-ok
          (pack_chunks codec p raw (suc seq) (range_from (offset + p.chunk_bytes) p.chunk_bytes n))
          _ h₁ in
      let (q, count) = pack_chunks-Successive n (suc seq) (offset + p.chunk_bytes) more rest in
      rw (sym (ok-injective h₂)) ((pack_chunk-IsPacked seq offset c first, q), ap suc count)

  -- A plan numbers the chunks from 0 and places each behind the one before; every chunk encodes the
  -- bytes at its place, and its envelopes are within the limit of a request. They are as many as the
  -- bytes need, and at most as many as allowed.
  pub pack_document-IsPlan :
      (plan : TransferPlan) → pack_document codec p raw ≡ ok plan → IsPlan plan
  unfolding pack_document
  pack_document-IsPlan plan h =
      let (_, _, h₁) = >>=-eq-ok (validate_document_bytes codec raw p.max_bytes) _ h in
      let (_, c, h₂) = >>=-eq-ok (limit p.chunk_bytes max_chunk_bytes) _ h₁ in
      let (_, r, h₃) = >>=-eq-ok (limit p.rpc_bytes max_rpc_bytes) _ h₂ in
      let (_, _, h₄) = >>=-eq-ok (limit p.max_chunks max_chunks) _ h₃ in
      let count = pieces (length raw) p.chunk_bytes in
      let (_, few, h₅) = >>=-eq-ok (guard (leb count p.max_chunks) too_many_chunks) _ h₄ in
      let (cs, all, h₆) =
        >>=-eq-ok (pack_chunks codec p raw 0 (range_from 0 p.chunk_bytes count)) _ h₅ in
      let (s, l) = pack_chunks-Successive count 0 0 cs all in
      let (positive, _) = limit-bounds p.chunk_bytes max_chunk_bytes c in
      rw (sym (ok-injective h₆)) (record {
        size = refl;
        digest = refl;
        successive = s;
        few = rw l (leb→le _ _ (guard-eq-ok _ _ few));
        small = (limit-bounds p.rpc_bytes max_rpc_bytes r).1;
        enough = rw l (pieces_enough (length raw) p.chunk_bytes positive);
        needed = rw l (pieces_needed (length raw) p.chunk_bytes positive);
      })

  unpack-Successive :
      (laws : IsCodec codec) (seq offset : ℕ) (cs : List PackedChunk)
      → Successive seq offset cs
      → length raw ≤ offset + length cs * p.chunk_bytes
      → unpack codec p.chunk_bytes cs ≡ ok (drop offset raw)
  unpack-Successive laws seq offset [] s h = rw (drop-all offset raw (omega (arith, h))) refl
  unpack-Successive laws seq offset (c ∷ cs) s h =
      let step = p.chunk_bytes in
      rw
        (
          (decode_bytes_iff codec _ c.chunk.payload step laws).1 s.0.encoded,
          unpack-Successive laws (suc seq) (offset + step) cs s.1 (omega (arith, h)),
          drop-add offset step raw,
          take-append-drop step (drop offset raw),
        )
        refl

-- The chunks of a plan, decoded one after the other, are the packed bytes.
pub unpack-pack_document :
    (codec : Codec) (p : Packing) (raw : Bytes) (plan : TransferPlan)
    → IsCodec codec
    → pack_document codec p raw ≡ ok plan
    → unpack codec p.chunk_bytes plan.chunks ≡ ok raw
unpack-pack_document codec p raw plan laws h =
    let q = pack_document-IsPlan codec p raw plan h in
    unpack-Successive codec p raw laws 0 0 plan.chunks q.successive (omega (arith, q.enough))
