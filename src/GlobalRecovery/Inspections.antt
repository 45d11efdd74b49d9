-- ===== src/GlobalRecovery/Inspections.antt =====
-- The other parts of a reply: `_inspection` and `_acknowledged`.
use ottplay_control_server.Prelude.{
  Bool, true, false, not, ◌&&◌, Option, none, some, List, [], ◌∷◌, Result, ok, err, ◌>>=◌, ◌>>◌,
  guard, need,
}
use ottplay_control_server.Text.{Text, codes, text_eq}
use ottplay_control_server.Json.Value.{Value, Fields, null, get, same_keys}
use ottplay_control_server.Json.Fields.{bool_of, is_text}
use ottplay_control_server.GlobalRecovery.Objects.{Failure, invalid_protocol, context_mismatch}
use ottplay_control_server.GlobalRecovery.Records.{
  Basis, Audit, Record, Revisions, is_digest, read, read_record, recovery_digests,
}
use ottplay_control_server.GlobalRecovery.Requests.{Libraries, Ack, is_true}
use ottplay_control_server.GlobalRecovery.Replies.{same_audit, audit_of, is_null, inspect_keys}

-- One operation, and the acknowledgement that is offered for its record.
pub record Inspection : Type 0 where
  pub revisions : Revisions
  pub operation_id : Text
  pub record_of : Option Record
  pub offer : Option (Record × Ack)

abbrev acknowledged_keys : List Text
acknowledged_keys =
    codes "version"
    ∷ codes "runtime"
    ∷ codes "op"
    ∷ codes "subject"
    ∷ codes "operation_id"
    ∷ codes "operation_runtime"
    ∷ codes "acknowledgement_id"
    ∷ codes "plan_sha256"
    ∷ codes "acknowledged"
    ∷ codes "persistence"
    ∷ codes "ledger_revision"
    ∷ codes "store_revision"
    ∷ codes "context_revision"
    ∷ codes "record"
    ∷ []

module _ (lib : Libraries) where
  -- A record of this operation, or none.
  unfoldable pub own_record : Text → Revisions → Option Value → Result Failure (Option Record)
  own_record operation revisions (some null) = ok none
  own_record operation revisions v = do
    r ← read_record lib.hashes v
    guard (text_eq r.operation_id operation && not (text_eq revisions.ledger lib.hashes.of_null))
        invalid_protocol
    ok (some r)

  unfoldable pub no_audit : Option Audit → Bool
  no_audit none = true
  no_audit (some _) = false

  -- The acknowledgement that is offered.
  unfoldable pub read_offer : Text → Text → Revisions → Option Record → Fields → Result Failure Ack
  read_offer runtime operation revisions none fs = err invalid_protocol
  read_offer runtime operation revisions (some r) fs = do
    guard (no_audit r.acknowledgement) invalid_protocol
    proof ← need invalid_protocol revisions.proof
    after ← read is_digest (codes "after_ledger_sha256") fs
    let basis : Basis = record {
      runtime = runtime;
      operation = operation;
      original_runtime = r.operation_runtime;
      entry = r.original_entry;
      ledger = revisions.ledger;
      store = revisions.store;
      context = revisions.context;
      proof = proof;
    }
    (acknowledgement, plan) ← recovery_digests lib.hashes basis after
    guard
        (is_text acknowledgement (get (codes "acknowledgement_id") fs)
          && is_text plan (get (codes "plan_sha256") fs))
        invalid_protocol
    ok (record { basis = basis; acknowledgement_id = acknowledgement; after = after; plan = plan })

  unfoldable pub with_record : Option Record → Ack → Option (Record × Ack)
  with_record none a = none
  with_record (some r) a = some (r, a)

  -- `_inspection`
  unfoldable pub read_inspection : Text → Text → Revisions → Fields → Result Failure Inspection
  read_inspection runtime operation revisions fs = do
    guard
        (same_keys fs (
          inspect_keys (
            codes "operation_id"
            ∷ codes "record"
            ∷ codes "acknowledge_allowed"
            ∷ codes "acknowledgement_id"
            ∷ codes "after_ledger_sha256"
            ∷ codes "plan_sha256"
            ∷ [])))
        invalid_protocol
    guard (is_text operation (get (codes "operation_id") fs)) invalid_protocol
    allowed ← need invalid_protocol (bool_of (get (codes "acknowledge_allowed") fs))
    row ← own_record operation revisions (get (codes "record") fs)
    offer ← elim allowed [
      | true ↦ do a ← read_offer runtime operation revisions row fs; ok (with_record row a)
      | false ↦ do
        guard
            (is_null (get (codes "acknowledgement_id") fs)
              && is_null (get (codes "after_ledger_sha256") fs)
              && is_null (get (codes "plan_sha256") fs))
            invalid_protocol
        ok none
    ]
    ok (record { revisions = revisions; operation_id = operation; record_of = row; offer = offer })

  -- `_acknowledged`
  unfoldable pub read_acknowledged : Ack → Fields → Result Failure Record
  read_acknowledged a fs = do
    guard (same_keys fs acknowledged_keys) invalid_protocol
    guard
        (is_true (get (codes "acknowledged") fs)
          && is_text (codes "persistent") (get (codes "persistence") fs))
        invalid_protocol
    guard
        (is_text a.basis.operation (get (codes "operation_id") fs)
          && is_text a.basis.original_runtime (get (codes "operation_runtime") fs)
          && is_text a.acknowledgement_id (get (codes "acknowledgement_id") fs)
          && is_text a.plan (get (codes "plan_sha256") fs))
        context_mismatch
    guard
        (is_text a.after (get (codes "ledger_revision") fs)
          && is_text a.basis.store (get (codes "store_revision") fs)
          && is_text a.basis.context (get (codes "context_revision") fs))
        context_mismatch
    row ← read_record lib.hashes (get (codes "record") fs)
    guard
        (text_eq row.operation_id a.basis.operation
          && text_eq row.operation_runtime a.basis.original_runtime
          && text_eq row.original_entry a.basis.entry
          && same_audit row.acknowledgement (some (audit_of a)))
        context_mismatch
    ok row
