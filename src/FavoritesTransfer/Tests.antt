-- ===== src/FavoritesTransfer/Tests.antt =====
-- Documents of digits, a codec in place of Base64 and SHA-256, and the theorems at them.
use ottplay_control_server.Prelude.{
  ℕ, zero, suc, ◌≡◌, ◌≤◌, ◌↔◌, refl, ap, false, Option, none, some, [], ◌∷◌, ◌++◌, length, all,
  if◌then◌else◌, ok, err, arith, subst, sym, ◌∙◌, ok-injective, take, drop, ◌*◌,
}
use ottplay_control_server.Text.{Bytes, Text, codes, text_eq, is_digit}
use ottplay_control_server.Json.Value.{int}
use ottplay_control_server.FavoritesTransfer.Strict.{
  Codec, limit, raw_bytes, is_strict, validate_document_bytes,
}
use ottplay_control_server.FavoritesTransfer.Encoding.{
  EncodedBytes, is_sha256, base64_length, encode_bytes, decode_bytes,
}
use ottplay_control_server.FavoritesTransfer.Encoding.Inverse.{IsCodec, decode_bytes_iff}
use ottplay_control_server.FavoritesTransfer.Pack.{
  EnvelopeBytes, PackedChunk, TransferPlan, Packing, as_envelope, range_from, pieces,
  check_envelope, pack_chunk, pack_chunks, pack_document,
}
use ottplay_control_server.FavoritesTransfer.Pack.Pieces.{
  IsPlan, unpack, pack_document-IsPlan, unpack-pack_document,
}
use ottplay_control_server.FavoritesTransfer.Pack.Returns.{
  Allowed, Builds, BuildsChunk, pack_document-returns,
}

-- Four characters for every three bytes or less: the bytes, and how many are missing.
abbrev quads : Bytes → Text
quads [] = []
quads (a ∷ []) = a ∷ 0 ∷ 0 ∷ 2 ∷ []
quads (a ∷ b ∷ []) = a ∷ b ∷ 0 ∷ 1 ∷ []
quads (a ∷ b ∷ c ∷ raw) = a ∷ b ∷ c ∷ 0 ∷ quads raw

abbrev before : Bytes → Option Bytes → Option Bytes
before front none = none
before front (some rest) = some (front ++ rest)

abbrev triples : Text → Option Bytes
triples [] = some []
triples (a ∷ b ∷ c ∷ zero ∷ s) = before (a ∷ b ∷ c ∷ []) (triples s)
triples (a ∷ b ∷ c ∷ suc zero ∷ s) = some (a ∷ b ∷ [])
triples (a ∷ b ∷ c ∷ suc (suc n) ∷ s) = some (a ∷ [])
triples (a ∷ []) = none
triples (a ∷ b ∷ []) = none
triples (a ∷ b ∷ c ∷ []) = none

abbrev codec : Codec
codec = record {
  loads = λ raw. if all is_digit raw then some (int false (length raw)) else none;
  sha256 = λ raw. codes "0123456789abcdef0123456789abcdef0123456789abcdef0123456789abcdef";
  b64encode = quads;
  b64decode = triples;
}

triples-quads : (raw : Bytes) → triples (quads raw) ≡ some raw
triples-quads [] = refl
triples-quads (a ∷ []) = refl
triples-quads (a ∷ b ∷ []) = refl
triples-quads (a ∷ b ∷ c ∷ raw) = ap (before (a ∷ b ∷ c ∷ [])) (triples-quads raw)

length-quads : (raw : Bytes) → length (quads raw) ≡ base64_length (length raw)
length-quads [] = refl
length-quads (a ∷ []) = refl
length-quads (a ∷ b ∷ []) = refl
length-quads (a ∷ b ∷ c ∷ raw) = omega (arith, length-quads raw)

laws : IsCodec codec
unfolding is_sha256 is_digit
laws = record { decodes = triples-quads; measures = length-quads; hashes = λ raw. refl }

-- The envelopes hold the bytes of the chunk.
abbrev envelopes_of : Bytes → EnvelopeBytes
envelopes_of piece = record { client = piece; queued_upper_bound = codes "00" ++ piece }

abbrev built : Option Bytes → Option EnvelopeBytes
built none = none
built (some piece) = some (envelopes_of piece)

abbrev packing : Packing
packing = record {
  build_envelopes = λ c. built (triples c.payload.data_base64);
  chunk_bytes = 4;
  rpc_bytes = 6;
  max_bytes = 1000;
  max_chunks = 3;
}

abbrev raw : Bytes
raw = codes "0123456789"

abbrev encoded_as : Bytes → EncodedBytes
encoded_as piece = record {
  size_bytes = length piece;
  sha256 = codec.sha256 piece;
  data_base64 = quads piece;
}

abbrev packed_as : ℕ → ℕ → Bytes → PackedChunk
packed_as seq offset piece = record {
  chunk = record { seq = seq; offset = offset; payload = encoded_as piece };
  envelopes = envelopes_of piece;
}

abbrev plan : TransferPlan
plan = record {
  size_bytes = 10;
  sha256 = codec.sha256 raw;
  chunks =
      packed_as 0 0 (codes "0123") ∷ packed_as 1 4 (codes "4567") ∷ packed_as 2 8 (codes "89") ∷ [];
}

program : Unit {0}
unfolding text_eq is_digit limit raw_bytes is_strict validate_document_bytes is_sha256 encode_bytes
    decode_bytes as_envelope range_from check_envelope pack_chunk pack_chunks pack_document
program = tt

-- The last chunk is shorter than the others.
plan_run : pack_document codec packing raw ≡ ok plan
unfolding program
plan_run = refl

-- A text of three characters for a digest is refused.
refused_run :
    decode_bytes codec
      (record { size_bytes = 1; sha256 = codes "abc"; data_base64 = quads (codes "1") })
      10
    ≡ err ottplay_control_server.FavoritesTransfer.Strict.invalid_encoding
unfolding program
refused_run = refl

decode_bytes_iff_example :
    (decode_bytes codec (encoded_as raw) 100 ≡ ok raw)
    ↔ (encode_bytes codec raw 100 ≡ ok (encoded_as raw))
decode_bytes_iff_example = decode_bytes_iff codec raw (encoded_as raw) 100 laws

pack_document-IsPlan_example : IsPlan codec packing raw plan
pack_document-IsPlan_example = pack_document-IsPlan codec packing raw plan plan_run

unpack-pack_document_example : unpack codec 4 plan.chunks ≡ ok raw
unpack-pack_document_example = unpack-pack_document codec packing raw plan laws plan_run

-- The chunks of this document.
abbrev BuildsHere : ℕ → EncodedBytes → Type 0
BuildsHere seq payload =
    BuildsChunk codec packing (record { seq = seq; offset = seq * 4; payload = payload })

abbrev piece_at : ℕ → Bytes
piece_at seq = take 4 (drop (seq * 4) raw)

builds_first : BuildsHere 0 (encoded_as (codes "0123"))
unfolding program
builds_first = (
  envelopes_of (codes "0123"),
  refl,
  (omega arith, int false 4, refl),
  (omega arith, int false 6, refl),
)

builds_second : BuildsHere 1 (encoded_as (codes "4567"))
unfolding program
builds_second = (
  envelopes_of (codes "4567"),
  refl,
  (omega arith, int false 4, refl),
  (omega arith, int false 6, refl),
)

builds_last : BuildsHere 2 (encoded_as (codes "89"))
unfolding program
builds_last = (
  envelopes_of (codes "89"),
  refl,
  (omega arith, int false 2, refl),
  (omega arith, int false 4, refl),
)

encoded_first : encode_bytes codec (piece_at 0) 4 ≡ ok (encoded_as (codes "0123"))
unfolding program
encoded_first = refl

encoded_second : encode_bytes codec (piece_at 1) 4 ≡ ok (encoded_as (codes "4567"))
unfolding program
encoded_second = refl

encoded_last : encode_bytes codec (piece_at 2) 4 ≡ ok (encoded_as (codes "89"))
unfolding program
encoded_last = refl

builds : Builds codec packing raw
builds zero payload h e = subst (BuildsHere 0) (ok-injective (sym encoded_first ∙ e)) builds_first
builds (suc zero) payload h e =
    subst (BuildsHere 1) (ok-injective (sym encoded_second ∙ e)) builds_second
builds (suc (suc zero)) payload h e =
    subst (BuildsHere 2) (ok-injective (sym encoded_last ∙ e)) builds_last
builds (suc (suc (suc n))) payload h e = absurd (omega (arith, h))

allowed : Allowed codec packing
allowed = record {
  chunk = (omega arith, omega arith);
  rpc = (omega arith, omega arith);
  chunks = (omega arith, omega arith);
}

strict_run : validate_document_bytes codec raw 1000 ≡ ok (int false 10)
unfolding program
strict_run = refl

few_run : pieces (length raw) 4 ≤ 3
few_run = omega arith

pack_document-returns_example : (plan : TransferPlan) × (pack_document codec packing raw ≡ ok plan)
pack_document-returns_example =
    pack_document-returns codec packing raw (int false 10) allowed builds strict_run few_run
