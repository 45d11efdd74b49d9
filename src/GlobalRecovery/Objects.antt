-- ===== src/GlobalRecovery/Objects.antt =====
-- `_object` of cli/global_favorites_protocol.py: a bounded JSON object, from its bytes or a dictionary.
use ottplay_control_server.Prelude.{
  ℕ, suc, ◌+◌, Bool, true, not, ◌&&◌, ◌||◌, Option, none, some, [], ◌∷◌, length, leb, ltb, ◌==◌,
  Result, ok, err, ◌>>=◌, ◌>>◌, guard, need,
}
use ottplay_control_server.Text.{Bytes}
use ottplay_control_server.Json.Value
use ottplay_control_server.Json.Value.{
  Value, Values, Fields, str, arr, dict, nil, cons, end, field, items,
}
use ottplay_control_server.FavoritesTransfer.Strict.{Codec, is_strict}
use ottplay_control_server.FavoritesTransfer.Envelopes.{Printer}
use ottplay_control_server.GlobalFavorites.Scan.{Scan, scan_start, scan_byte}

-- The codes of `ProtocolError`.
pub data Failure : Type 0 where
  invalid_protocol envelope_too_large context_mismatch : Failure

-- `bytes`, or a dictionary of the program.
pub data Source : Type 0 where
  raw : Bytes → Source
  made : Fields → Source

-- The items that the loop over `pending` takes: every value and every key.
unfoldable mutual
  pub nodes : Value → ℕ
  nodes (arr vs) = suc (nodes_of vs)
  nodes (dict fs) = suc (nodes_in fs)
  nodes _ = 1

  pub nodes_of : Values → ℕ
  nodes_of nil = 0
  nodes_of (cons v vs) = nodes v + nodes_of vs

  pub nodes_in : Fields → ℕ
  nodes_in end = 0
  nodes_in (field k v fs) = suc (nodes v + nodes_in fs)

-- The tests of the loop on an item at this depth, and on those below it.
unfoldable mutual
  pub tame : ℕ → ℕ → Value → Bool
  tame limit depth (arr vs) =
      leb depth 16 && leb (length (items vs)) 1000 && tame_items limit (suc depth) vs
  tame limit depth (dict fs) =
      leb depth 16 && leb (length (Value.keys fs)) 128 && tame_fields limit (suc depth) fs
  tame limit depth (str s) = leb depth 16 && leb (length s) limit
  tame limit depth _ = leb depth 16

  pub tame_items : ℕ → ℕ → Values → Bool
  tame_items limit depth nil = true
  tame_items limit depth (cons v vs) = tame limit depth v && tame_items limit depth vs

  pub tame_fields : ℕ → ℕ → Fields → Bool
  tame_fields limit depth end = true
  tame_fields limit depth (field k v fs) =
      leb depth 16 && leb (length k) limit && tame limit depth v && tame_fields limit depth fs

-- The scan of the raw bytes: no point is nested deeper than 16.
unfoldable pub shallow : Bytes → Scan → Bool
shallow [] s = true
shallow (byte ∷ rest) s =
    let next = scan_byte byte s in
    let deep =
      not s.quoted && (byte == 91 || byte == 123) && not (leb next.opened (16 + next.closed)) in
    not deep && shallow rest next

unfoldable pub as_object : Value → Result Failure Fields
as_object (dict fs) = ok fs
as_object _ = err invalid_protocol

module _ (codec : Codec) (printer : Printer) where
  -- `_encoded`
  unfoldable pub encoded : Value → Option Bytes
  encoded value = elim (printer.finite value) [ none ↦ none | some text ↦ printer.utf8 text ]

  unfoldable pub source_bytes : Source → ℕ → Result Failure Bytes
  source_bytes (raw bytes) limit = ok bytes
  source_bytes (made fs) limit = do
    guard (leb (nodes (dict fs)) limit && tame limit 0 (dict fs)) invalid_protocol
    need invalid_protocol (encoded (dict fs))

  unfoldable pub object : Source → ℕ → Result Failure (Fields × Bytes)
  object source limit = do
    bytes ← source_bytes source limit
    guard (ltb 0 (length bytes) && leb (length bytes) limit) envelope_too_large
    guard (shallow bytes scan_start) invalid_protocol
    value ← need invalid_protocol (codec.loads bytes)
    guard (is_strict value) invalid_protocol
    fs ← as_object value
    ok (fs, bytes)
