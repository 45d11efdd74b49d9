-- ===== src/GlobalRecovery/Records.antt =====
-- The digests of an acknowledgement, and the records of the ledger.
use ottplay_control_server.Prelude.{
  Bool, true, false, not, ◌&&◌, ◌||◌, Option, none, some, List, [], ◌∷◌, ◌++◌, length, all, leb,
  ◌==◌, Result, ok, err, ◌>>=◌, ◌>>◌, guard, need,
}
use ottplay_control_server.Text.{Text, codes, text_eq, is_lower_alnum, is_lower_hex}
use ottplay_control_server.Json.Value.{Value, Fields, null, str, dict, get, same_keys}
use ottplay_control_server.Json.Fields.{matching, is_text}
use ottplay_control_server.GlobalItems.Page.{is_uuid}
use ottplay_control_server.GlobalRecovery.Objects.{Failure, invalid_protocol}

-- `core.RUNTIME`: `[a-z0-9-]{1,64}`
unfoldable pub is_runtime : Text → Bool
unfolding is_lower_alnum
is_runtime s = all (λ c. is_lower_alnum c || c == b'-') s && leb 1 (length s) && leb (length s) 64

-- `core.DIGEST`: `[0-9a-f]{64}`
unfoldable pub is_digest : Text → Bool
unfolding is_lower_hex
is_digest s = all is_lower_hex s && length s == 64

-- `REASON`
abbrev pub reason : Text
reason = codes "accept-unknown-no-replay"

-- SHA-256 in base 16: of the compact JSON list of the texts, and of `null`.
pub record Hashes : Type 0 where
  pub of_texts : List Text → Text
  pub of_null : Text

-- What an acknowledgement is bound to: the runtime, the operation with its runtime and its entry, the
-- three revisions and the proof of the storage.
pub record Basis : Type 0 where
  pub runtime : Text
  pub operation : Text
  pub original_runtime : Text
  pub entry : Text
  pub ledger : Text
  pub store : Text
  pub context : Text
  pub proof : Text

-- `values`
abbrev pub values : Basis → List Text
values b =
    b.runtime
    ∷ codes "global"
    ∷ b.operation
    ∷ b.original_runtime
    ∷ b.entry
    ∷ b.ledger
    ∷ b.store
    ∷ b.context
    ∷ b.proof
    ∷ reason
    ∷ []

-- `pending`, `unknown` and `partial`
pub data State : Type 0 where
  pending unknown partial : State

pub record Audit : Type 0 where
  pub acknowledgement_id : Text
  pub runtime : Text
  pub ledger_before : Text
  pub store : Text
  pub context : Text
  pub proof : Text

-- A record, whose outcome follows from its state.
pub record Record : Type 0 where
  pub operation_id : Text
  pub operation_runtime : Text
  pub original_state : State
  pub original_entry : Text
  pub acknowledgement : Option Audit

-- `ledger_revision`, `store_revision`, `context_revision` and `backend_proof`
pub record Revisions : Type 0 where
  pub ledger : Text
  pub store : Text
  pub context : Text
  pub proof : Option Text

unfoldable pub state_of : Option Value → Option State
state_of (some (str s)) = elim (text_eq s (codes "pending")) [
  | true ↦ some pending
  | false ↦ elim (text_eq s (codes "unknown")) [
    | true ↦ some unknown
    | false ↦ elim (text_eq s (codes "partial")) [ true ↦ some partial | false ↦ none ]
  ]
]
state_of _ = none

-- `original_outcome`
unfoldable pub outcome : State → Text
outcome partial = codes "partial"
outcome _ = codes "unknown"

-- `_pattern(value[key], pattern)`
unfoldable pub read : (Text → Bool) → Text → Fields → Result Failure Text
read pattern key fs = need invalid_protocol (matching pattern (get key fs))

-- The same, where `None` is allowed.
unfoldable pub optional : (Text → Bool) → Option Value → Result Failure (Option Text)
optional pattern (some null) = ok none
optional pattern v = do s ← need invalid_protocol (matching pattern v); ok (some s)

-- `_revisions`
unfoldable pub read_revisions : Fields → Result Failure Revisions
read_revisions fs = do
  ledger ← read is_digest (codes "ledger_revision") fs
  store ← read is_digest (codes "store_revision") fs
  context ← read is_digest (codes "context_revision") fs
  proof ← optional is_digest (get (codes "backend_proof") fs)
  ok (record { ledger = ledger; store = store; context = context; proof = proof })

abbrev pub revision_keys : List Text
revision_keys =
    codes "ledger_revision"
    ∷ codes "store_revision"
    ∷ codes "context_revision"
    ∷ codes "backend_proof"
    ∷ []

abbrev record_keys : List Text
record_keys =
    codes "operation_id"
    ∷ codes "operation_runtime"
    ∷ codes "subject"
    ∷ codes "original_state"
    ∷ codes "original_outcome"
    ∷ codes "original_entry_sha256"
    ∷ codes "acknowledgement"
    ∷ []

abbrev audit_keys : List Text
audit_keys =
    codes "acknowledgement_id"
    ∷ codes "runtime"
    ∷ codes "ledger_revision_before"
    ∷ codes "store_revision"
    ∷ codes "context_revision"
    ∷ codes "backend_proof"
    ∷ codes "reason"
    ∷ []

module _ (hashes : Hashes) where
  -- The tests of `_ack_digest`
  unfoldable pub basis_ok : Basis → Bool
  basis_ok b =
      is_runtime b.runtime
      && is_runtime b.original_runtime
      && is_uuid b.operation
      && all is_digest (b.entry ∷ b.ledger ∷ b.store ∷ b.context ∷ b.proof ∷ [])
      && not (text_eq b.ledger hashes.of_null)

  unfoldable pub ack_digest : Basis → Result Failure Text
  ack_digest b = do
    guard (basis_ok b) invalid_protocol
    ok (hashes.of_texts (codes "ottplay-favorites-global-recovery-ack-v1" ∷ values b))

  unfoldable pub recovery_digests : Basis → Text → Result Failure (Text × Text)
  recovery_digests b after = do
    acknowledgement ← ack_digest b
    guard (is_digest after) invalid_protocol
    guard (not (text_eq after hashes.of_null) && not (text_eq after b.ledger)) invalid_protocol
    let tail = values b ++ acknowledgement ∷ after ∷ []
    ok (acknowledgement, hashes.of_texts (codes "ottplay-favorites-global-recovery-plan-v1" ∷ tail))

  -- The part of `_record` on an audit, behind the operation, its runtime and its entry.
  unfoldable pub read_audit : Text → Text → Text → Value → Result Failure Audit
  read_audit operation original_runtime entry (dict fs) = do
    guard (same_keys fs audit_keys) invalid_protocol
    guard (is_text reason (get (codes "reason") fs)) invalid_protocol
    runtime ← read is_runtime (codes "runtime") fs
    ledger ← read is_digest (codes "ledger_revision_before") fs
    store ← read is_digest (codes "store_revision") fs
    context ← read is_digest (codes "context_revision") fs
    proof ← read is_digest (codes "backend_proof") fs
    acknowledgement ← ack_digest (record {
      runtime = runtime;
      operation = operation;
      original_runtime = original_runtime;
      entry = entry;
      ledger = ledger;
      store = store;
      context = context;
      proof = proof;
    })
    guard (is_text acknowledgement (get (codes "acknowledgement_id") fs)) invalid_protocol
    ok (record {
      acknowledgement_id = acknowledgement;
      runtime = runtime;
      ledger_before = ledger;
      store = store;
      context = context;
      proof = proof;
    })
  read_audit _ _ _ _ = err invalid_protocol

  unfoldable pub audit_in : Text → Text → Text → Option Value → Result Failure (Option Audit)
  audit_in operation original_runtime entry (some null) = ok none
  audit_in operation original_runtime entry (some v) = do
    audit ← read_audit operation original_runtime entry v
    ok (some audit)
  audit_in _ _ _ none = err invalid_protocol

  -- `_record`
  unfoldable pub read_record : Option Value → Result Failure Record
  read_record (some (dict fs)) = do
    guard (same_keys fs record_keys) invalid_protocol
    operation ← read is_uuid (codes "operation_id") fs
    runtime ← read is_runtime (codes "operation_runtime") fs
    entry ← read is_digest (codes "original_entry_sha256") fs
    guard (is_text (codes "global") (get (codes "subject") fs)) invalid_protocol
    state ← need invalid_protocol (state_of (get (codes "original_state") fs))
    guard (is_text (outcome state) (get (codes "original_outcome") fs)) invalid_protocol
    audit ← audit_in operation runtime entry (get (codes "acknowledgement") fs)
    ok (record {
      operation_id = operation;
      operation_runtime = runtime;
      original_state = state;
      original_entry = entry;
      acknowledgement = audit;
    })
  read_record _ = err invalid_protocol
