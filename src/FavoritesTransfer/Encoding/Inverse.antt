-- ===== src/FavoritesTransfer/Encoding/Inverse.antt =====
-- Decoding is the inverse of encoding.
use ottplay_control_server.Prelude.{
  ℕ, ◌≡◌, ◌↔◌, refl, sym, ap, ◌∙◌, Bool, true, ◌&&◌, some, length, leb, ◌==◌, ==_iff, &&-parts, ok,
  ok-injective, guard, guard-eq-ok, >>=-eq-ok, need, arith,
}
use ottplay_control_server.Text.{Bytes, text_eq, text_eq_iff}
use ottplay_control_server.FavoritesTransfer.Strict.{
  invalid_encoding, size_mismatch, digest_mismatch, max_document_bytes, Codec, limit, raw_bytes,
}
use ottplay_control_server.FavoritesTransfer.Encoding.{
  EncodedBytes, is_sha256, base64_length, encode_bytes, decode_bytes,
}

-- What is documented of the libraries: Base64 decodes what it encodes, in four characters for every
-- three bytes or less, and a digest is 64 hexadecimal digits.
pub record IsCodec (codec : Codec) : Type 0 where
  pub decodes : (raw : Bytes) → codec.b64decode (codec.b64encode raw) ≡ some raw
  pub measures : (raw : Bytes) → length (codec.b64encode raw) ≡ base64_length (length raw)
  pub hashes : (raw : Bytes) → is_sha256 (codec.sha256 raw) ≡ true

-- The tests of `decode_bytes` on the fields.
abbrev fields_ok : EncodedBytes → ℕ → Bool
fields_ok e max_bytes =
    leb 1 e.size_bytes
    && leb e.size_bytes max_bytes
    && is_sha256 e.sha256
    && leb 1 (length e.data_base64)
    && leb (length e.data_base64) (base64_length max_bytes)

module _ (codec : Codec) (raw : Bytes) (e : EncodedBytes) (max_bytes : ℕ) where
  -- The three fields are those of the bytes.
  record Describes : Type 0 where
    size : e.size_bytes ≡ length raw
    digest : e.sha256 ≡ codec.sha256 raw
    text : e.data_base64 ≡ codec.b64encode raw

  decode_bytes-Describes :
      decode_bytes codec e max_bytes ≡ ok raw
      → (limit max_bytes max_document_bytes ≡ ok tt) × (fields_ok e max_bytes ≡ true) × Describes
  unfolding decode_bytes
  decode_bytes-Describes h =
      let (_, l, h₁) = >>=-eq-ok (limit max_bytes max_document_bytes) _ h in
      let (_, b, h₂) = >>=-eq-ok (guard (fields_ok e max_bytes) invalid_encoding) _ h₁ in
      let (r, _, h₃) = >>=-eq-ok (need invalid_encoding (codec.b64decode e.data_base64)) _ h₂ in
      let (_, same, h₄) =
        >>=-eq-ok (guard (text_eq (codec.b64encode r) e.data_base64) invalid_encoding) _ h₃ in
      let (_, sized, h₅) = >>=-eq-ok (guard (length r == e.size_bytes) size_mismatch) _ h₄ in
      let (_, hashed, h₆) =
        >>=-eq-ok (guard (text_eq (codec.sha256 r) e.sha256) digest_mismatch) _ h₅ in
      let it = ok-injective h₆ in
      (
        l,
        guard-eq-ok _ _ b,
        record {
          size = sym ((==_iff _ _).0 (guard-eq-ok _ _ sized)) ∙ ap (λ r. length r) it;
          digest = sym ((text_eq_iff _ _).0 (guard-eq-ok _ _ hashed)) ∙ ap codec.sha256 it;
          text = sym ((text_eq_iff _ _).0 (guard-eq-ok _ _ same)) ∙ ap codec.b64encode it;
        },
      )

  encode-decode : decode_bytes codec e max_bytes ≡ ok raw → encode_bytes codec raw max_bytes ≡ ok e
  unfolding encode_bytes raw_bytes
  encode-decode h =
      let (l, b, d) = decode_bytes-Describes h in
      let sized : (leb 1 (length raw) && leb (length raw) max_bytes) ≡ true =
        ground (arith, b, d.size) in
      rw (l, sized, sym d.size, sym d.digest, sym d.text) refl

  decode-encode :
      IsCodec codec
      → encode_bytes codec raw max_bytes ≡ ok e
      → decode_bytes codec e max_bytes ≡ ok raw
  unfolding encode_bytes decode_bytes raw_bytes
  decode-encode laws h =
      let (_, l, h₁) = >>=-eq-ok (limit max_bytes max_document_bytes) _ h in
      let (_, b, h₂) = >>=-eq-ok (raw_bytes raw max_bytes) _ h₁ in
      let sized = guard-eq-ok _ _ b in
      let size : leb (length (codec.b64encode raw)) (base64_length max_bytes) ≡ true =
        ground (arith, laws.measures raw, sized) in
      let some_text : leb 1 (length (codec.b64encode raw)) ≡ true =
        ground (arith, laws.measures raw, sized) in
      let (low, high) = &&-parts (leb 1 (length raw)) (leb (length raw) max_bytes) sized in
      rw (sym (ok-injective h₂)) (
        rw
          (
            l,
            low,
            high,
            laws.hashes raw,
            some_text,
            size,
            laws.decodes raw,
            (text_eq_iff _ (codec.b64encode raw)).1 refl,
            (==_iff _ (length raw)).1 refl,
            (text_eq_iff _ (codec.sha256 raw)).1 refl,
          )
          refl)

-- With a codec as documented, bytes are what a text, a size and a digest decode to exactly when they
-- encode to these.
pub decode_bytes_iff :
    (codec : Codec) (raw : Bytes) (e : EncodedBytes) (max_bytes : ℕ)
    → IsCodec codec
    → (decode_bytes codec e max_bytes ≡ ok raw) ↔ (encode_bytes codec raw max_bytes ≡ ok e)
decode_bytes_iff codec raw e max_bytes laws =
    (encode-decode codec raw e max_bytes, decode-encode codec raw e max_bytes laws)
