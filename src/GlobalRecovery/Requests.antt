-- ===== src/GlobalRecovery/Requests.antt =====
-- The requests: their fields, and `validate_request`.
use ottplay_control_server.Prelude.{
  ℕ, Bool, true, false, not, ◌&&◌, Option, none, some, List, [], ◌∷◌, length, leb, Result, ok, err,
  ◌>>=◌, ◌>>◌, guard,
}
use ottplay_control_server.Text.{Text, codes, text_eq}
use ottplay_control_server.Dict.{is_some}
use ottplay_control_server.Json.Value.{
  Value, Fields, null, str, dict, bool, get, same_keys, field, end,
}
use ottplay_control_server.Json.Fields.{is_text}
use ottplay_control_server.FavoritesTransfer.Strict.{Codec}
use ottplay_control_server.FavoritesTransfer.Pack.{EnvelopeBytes}
use ottplay_control_server.FavoritesTransfer.Envelopes.{Printer, request_envelopes}
use ottplay_control_server.FavoritesTransfer.Strict
use ottplay_control_server.GlobalItems.Page.{is_uuid}
use ottplay_control_server.GlobalRecovery.Objects.{
  Failure, invalid_protocol, envelope_too_large, Source, object,
}
use ottplay_control_server.GlobalRecovery.Records.{
  Hashes, Basis, Revisions, is_runtime, is_digest, reason, read, read_revisions, revision_keys,
  recovery_digests,
}

-- `MAX_ENVELOPE_BYTES`
abbrev pub max_envelope_bytes : ℕ
max_envelope_bytes = 16384

-- Python's libraries as the module uses them.
pub record Libraries : Type 0 where
  pub hashes : Hashes
  pub codec : Codec
  pub printer : Printer

-- A place between two pages, with the revisions of the first.
pub record Cursor : Type 0 where
  pub after : Text
  pub revisions : Revisions

-- An acknowledgement, with its two digests and the ledger's revision behind it.
pub record Ack : Type 0 where
  pub basis : Basis
  pub acknowledgement_id : Text
  pub after : Text
  pub plan : Text

-- A page of the ledger, one operation, or an acknowledgement; the first of a runtime.
pub data Request : Type 0 where
  page : Text → Option Cursor → Request
  single : Text → Text → Request
  acknowledge : Ack → Request

abbrev proof_value : Option Text → Value
proof_value none = null
proof_value (some p) = str p

abbrev cursor_value : Option Cursor → Value
cursor_value none = null
cursor_value (some c) = dict (
    field (codes "after_operation_id") (str c.after) (
      field (codes "ledger_revision") (str c.revisions.ledger) (
        field (codes "store_revision") (str c.revisions.store) (
          field (codes "context_revision") (str c.revisions.context)
            (field (codes "backend_proof") (proof_value c.revisions.proof) end)))))

abbrev ack_fields : Ack → Fields
ack_fields a = field (codes "runtime") (str a.basis.runtime) (
    field (codes "op") (str (codes "acknowledge")) (
      field (codes "subject") (str (codes "global")) (
        field (codes "operation_id") (str a.basis.operation) (
          field (codes "operation_runtime") (str a.basis.original_runtime) (
            field (codes "original_entry_sha256") (str a.basis.entry) (
              field (codes "expected_ledger_revision") (str a.basis.ledger) (
                field (codes "expected_store_revision") (str a.basis.store) (
                  field (codes "expected_context_revision") (str a.basis.context) (
                    field (codes "backend_proof") (str a.basis.proof) (
                      field (codes "reason") (str reason) (
                        field (codes "acknowledgement_id") (str a.acknowledgement_id) (
                          field (codes "after_ledger_sha256") (str a.after) (
                            field (codes "plan_sha256") (str a.plan)
                              (field (codes "accept_unknown") (bool true) end))))))))))))))

-- The dictionaries that `list`, `inspect` and `recovery_ack_request` write.
unfoldable pub request_fields : Request → Fields
request_fields (page runtime cursor) = field (codes "op") (str (codes "inspect")) (
    field (codes "runtime") (str runtime) (
      field (codes "subject") (str (codes "global"))
        (field (codes "cursor") (cursor_value cursor) end)))
request_fields (single runtime operation) = field (codes "op") (str (codes "inspect")) (
    field (codes "runtime") (str runtime) (
      field (codes "subject") (str (codes "global"))
        (field (codes "operation_id") (str operation) end)))
request_fields (acknowledge a) = ack_fields a

abbrev ack_keys : List Text
ack_keys =
    codes "runtime"
    ∷ codes "op"
    ∷ codes "subject"
    ∷ codes "operation_id"
    ∷ codes "operation_runtime"
    ∷ codes "original_entry_sha256"
    ∷ codes "expected_ledger_revision"
    ∷ codes "expected_store_revision"
    ∷ codes "expected_context_revision"
    ∷ codes "backend_proof"
    ∷ codes "reason"
    ∷ codes "acknowledgement_id"
    ∷ codes "after_ledger_sha256"
    ∷ codes "plan_sha256"
    ∷ codes "accept_unknown"
    ∷ []

unfoldable pub is_true : Option Value → Bool
is_true (some (bool b)) = b
is_true _ = false

module _ (lib : Libraries) where
  -- `_cursor`
  unfoldable pub read_cursor : Value → Result Failure Cursor
  read_cursor (dict fs) = do
    guard (same_keys fs (codes "after_operation_id" ∷ revision_keys)) invalid_protocol
    after ← read is_uuid (codes "after_operation_id") fs
    revisions ← read_revisions fs
    guard (not (text_eq revisions.ledger lib.hashes.of_null)) invalid_protocol
    ok (record { after = after; revisions = revisions })
  read_cursor _ = err invalid_protocol

  unfoldable pub optional_cursor : Option Value → Result Failure (Option Cursor)
  optional_cursor (some null) = ok none
  optional_cursor (some v) = do c ← read_cursor v; ok (some c)
  optional_cursor none = err invalid_protocol

  unfoldable pub read_inspect : Text → Fields → Result Failure Request
  read_inspect runtime fs = elim (is_some (get (codes "operation_id") fs)) [
    | true ↦ do
      guard
          (same_keys fs
            (codes "runtime" ∷ codes "op" ∷ codes "subject" ∷ codes "operation_id" ∷ []))
          invalid_protocol
      operation ← read is_uuid (codes "operation_id") fs
      ok (single runtime operation)
    | false ↦ do
      guard (same_keys fs (codes "runtime" ∷ codes "op" ∷ codes "subject" ∷ codes "cursor" ∷ []))
          invalid_protocol
      cursor ← optional_cursor (get (codes "cursor") fs)
      ok (page runtime cursor)
  ]

  -- `_request_digests`, with the tests on the digests
  unfoldable pub read_ack : Text → Fields → Result Failure Request
  read_ack runtime fs = do
    guard (same_keys fs ack_keys) invalid_protocol
    guard (is_text reason (get (codes "reason") fs) && is_true (get (codes "accept_unknown") fs))
        invalid_protocol
    operation ← read is_uuid (codes "operation_id") fs
    original_runtime ← read is_runtime (codes "operation_runtime") fs
    entry ← read is_digest (codes "original_entry_sha256") fs
    ledger ← read is_digest (codes "expected_ledger_revision") fs
    store ← read is_digest (codes "expected_store_revision") fs
    context ← read is_digest (codes "expected_context_revision") fs
    proof ← read is_digest (codes "backend_proof") fs
    after ← read is_digest (codes "after_ledger_sha256") fs
    let basis : Basis = record {
      runtime = runtime;
      operation = operation;
      original_runtime = original_runtime;
      entry = entry;
      ledger = ledger;
      store = store;
      context = context;
      proof = proof;
    }
    (acknowledgement, plan) ← recovery_digests lib.hashes basis after
    guard (is_text acknowledgement (get (codes "acknowledgement_id") fs)) invalid_protocol
    guard (is_text plan (get (codes "plan_sha256") fs)) invalid_protocol
    ok (
        acknowledge (record {
          basis = basis;
          acknowledgement_id = acknowledgement;
          after = after;
          plan = plan;
        }))

  unfoldable pub read_request : Fields → Result Failure Request
  read_request fs = do
    runtime ← read is_runtime (codes "runtime") fs
    guard (is_text (codes "global") (get (codes "subject") fs)) invalid_protocol
    elim (is_text (codes "inspect") (get (codes "op") fs)) [
      | true ↦ read_inspect runtime fs
      | false ↦ do
        guard (is_text (codes "acknowledge") (get (codes "op") fs)) invalid_protocol
        read_ack runtime fs
    ]

  -- The longer envelope of the request.
  abbrev fits : Result Strict.Failure EnvelopeBytes → Result Failure (Unit {0})
  fits (err _) = err invalid_protocol
  fits (ok e) =
      guard
        (leb (length e.client) max_envelope_bytes
          && leb (length e.queued_upper_bound) max_envelope_bytes)
        envelope_too_large

  unfoldable pub validate_request : Fields → Result Failure Request
  validate_request params = do
    (fs, _) ← object lib.codec lib.printer (Source.made params) max_envelope_bytes
    request ← read_request fs
    fits (request_envelopes lib.codec lib.printer (codes "favorites_global_recovery") fs none)
    ok request
