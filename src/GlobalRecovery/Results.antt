-- ===== src/GlobalRecovery/Results.antt =====
-- `validate_result`, `_checked_inspection` and `recovery_ack_request`.
use ottplay_control_server.Prelude.{
  ℕ, Bool, true, false, ◌&&◌, Option, none, some, List, [], ◌∷◌, length, all, ◌==◌, Result, ok, err,
  ◌>>=◌, ◌>>◌, guard, need,
}
use ottplay_control_server.Text.{Text, codes, text_eq, elem, is_lower_hex}
use ottplay_control_server.Dict.{is_some}
use ottplay_control_server.Json.Value.{Value, Fields, null, str, get, same_keys, field, end}
use ottplay_control_server.Json.Fields.{is_number, is_text}
use ottplay_control_server.GlobalRecovery.Objects.{
  Failure, invalid_protocol, context_mismatch, Source, object,
}
use ottplay_control_server.GlobalRecovery.Records.{Record, read_revisions, values}
use ottplay_control_server.GlobalRecovery.Requests.{
  Libraries, Cursor, Ack, Request, page, single, acknowledge, request_fields, validate_request,
}
use ottplay_control_server.GlobalRecovery.Replies.{
  Page, read_page, check_page, same_record, same_texts, audited,
}
use ottplay_control_server.GlobalRecovery.Inspections.{
  Inspection, read_inspection, read_acknowledged,
}

-- `MAX_METADATA_BYTES`
abbrev pub max_metadata_bytes : ℕ
max_metadata_bytes = 131072

-- The members of the response to a request; its payload is bytes, or a dictionary of the program.
pub record Reply : Type 0 where
  pub id : Text
  pub status : Text
  pub payload : Source

-- What a reply says: a page with the cursor of the next, an inspection, the acknowledged record, or
-- an error.
pub data Answer : Type 0 where
  listed : Page → Option Cursor → Answer
  inspected : Inspection → Answer
  acknowledged : Record → Answer
  refused : Text → Answer

-- `core.REQUEST_ID`: `[0-9a-f]{32}`
unfoldable pub is_request_id : Text → Bool
unfolding is_lower_hex
is_request_id s = all is_lower_hex s && length s == 32

-- `ERRORS`
abbrev pub errors : List Text
errors =
    codes "invalid_request"
    ∷ codes "envelope_too_large"
    ∷ codes "runtime_changed"
    ∷ codes "expired"
    ∷ codes "busy"
    ∷ codes "unsupported_persistence"
    ∷ codes "revision_conflict"
    ∷ codes "context_changed"
    ∷ codes "policy_denied"
    ∷ codes "storage_unavailable"
    ∷ codes "limits_exceeded"
    ∷ codes "outcome_unknown"
    ∷ []

abbrev pub error_keys : List Text
error_keys = codes "version" ∷ codes "runtime" ∷ codes "op" ∷ codes "subject" ∷ codes "error" ∷ []

abbrev pub statuses : List Text
statuses = codes "ok" ∷ codes "rejected" ∷ codes "unsupported" ∷ []

abbrev pub runtime_of : Request → Text
runtime_of (page runtime _) = runtime
runtime_of (single runtime _) = runtime
runtime_of (acknowledge a) = a.basis.runtime

abbrev pub op_of : Request → Text
op_of (acknowledge a) = codes "acknowledge"
op_of _ = codes "inspect"

unfoldable pub is_error : Option Value → List Text → Bool
is_error (some (str e)) known = elem e known
is_error _ known = false

-- The text of `data["error"]`
unfoldable pub error_of : Option Value → Text
error_of (some (str e)) = e
error_of _ = []

-- `value.get(key)`, with `None` for a missing key
abbrev pub or_null : Option Value → Value
or_null none = null
or_null (some v) = v

-- `"0" * 32`
abbrev pub zeros : Text
zeros = codes "00000000000000000000000000000000"

unfoldable pub inspection_of : Answer → Result Failure Inspection
inspection_of (inspected i) = ok i
inspection_of _ = err invalid_protocol

unfoldable pub ack_of : Request → Result Failure Ack
ack_of (acknowledge a) = ok a
ack_of _ = err invalid_protocol

module _ (lib : Libraries) where
  unfoldable pub read_answer : Request → Fields → Result Failure Answer
  read_answer (page runtime cursor) fs = do
    guard (is_number 1 (get (codes "ledger_format") fs)) invalid_protocol
    revisions ← read_revisions fs
    p ← read_page lib revisions fs
    next ← check_page lib cursor p
    ok (listed p next)
  read_answer (single runtime operation) fs = do
    guard (is_number 1 (get (codes "ledger_format") fs)) invalid_protocol
    revisions ← read_revisions fs
    i ← read_inspection lib runtime operation revisions fs
    ok (inspected i)
  read_answer (acknowledge a) fs = do r ← read_acknowledged lib a fs; ok (acknowledged r)

  unfoldable pub read_error : Text → Fields → Result Failure Answer
  read_error status fs = do
    guard (same_keys fs error_keys) invalid_protocol
    guard (elem status (codes "rejected" ∷ codes "unsupported" ∷ [])) invalid_protocol
    guard (is_error (get (codes "error") fs) errors) invalid_protocol
    ok (refused (error_of (get (codes "error") fs)))

  -- The first part of `validate_result`: the tests on the request and on the reply's common fields.
  unfoldable pub receive : Fields → Text → Reply → Result Failure (Request × Fields)
  receive params request_id reply = do
    request ← validate_request lib params
    guard (is_request_id request_id) invalid_protocol
    guard (text_eq reply.id request_id && elem reply.status statuses) invalid_protocol
    (fs, _) ← object lib.codec lib.printer reply.payload max_metadata_bytes
    guard (is_number 1 (get (codes "version") fs)) invalid_protocol
    guard
        (is_text (runtime_of request) (get (codes "runtime") fs)
          && is_text (op_of request) (get (codes "op") fs)
          && is_text (codes "global") (get (codes "subject") fs))
        invalid_protocol
    ok (request, fs)

  -- What the reply says, behind the test whether it has an error; a further test follows.
  unfoldable pub answer_if :
      (Request → Answer → Result Failure (Unit {0}))
      → Bool
      → Request
      → Text
      → Fields
      → Result Failure Answer
  answer_if further true request status fs = read_error status fs
  answer_if further false request status fs = do
    guard (text_eq status (codes "ok")) invalid_protocol
    answer ← read_answer request fs
    further request answer
    ok answer

  unfoldable pub validate_with :
      (Request → Answer → Result Failure (Unit {0}))
      → Fields
      → Text
      → Reply
      → Result Failure (Answer × Fields)
  validate_with further params request_id reply = do
    (request, fs) ← receive params request_id reply
    answer ← answer_if further (is_some (get (codes "error") fs)) request reply.status fs
    ok (answer, fs)

  -- `validate_result` without a context, with the reply's data
  unfoldable pub validate_plain : Fields → Text → Reply → Result Failure (Answer × Fields)
  validate_plain = validate_with (λ _ _. ok tt)

  -- `_checked_inspection`, with the data that it returns
  unfoldable pub checked_inspection : Fields → Result Failure (Inspection × Fields)
  checked_inspection value = do
    (fs, _) ← object lib.codec lib.printer (Source.made value) max_metadata_bytes
    let params = field (codes "op") (str (codes "inspect")) (
        field (codes "runtime") (or_null (get (codes "runtime") fs)) (
          field (codes "subject") (str (codes "global"))
            (field (codes "operation_id") (or_null (get (codes "operation_id") fs)) end)))
    (answer, found) ←
        validate_plain params zeros
          (record { id = zeros; status = codes "ok"; payload = Source.made fs })
    i ← inspection_of answer
    ok (i, found)

  -- `recovery_ack_request` behind its `_checked_inspection`, with the record
  unfoldable pub recovery_ack_request : Inspection → Result Failure (Record × Ack)
  recovery_ack_request i = do
    (r, a) ← need context_mismatch i.offer
    request ← validate_request lib (request_fields (acknowledge a))
    own ← ack_of request
    ok (r, own)

  unfoldable pub same_ack : Request → Ack → Bool
  same_ack (acknowledge a) b =
      text_eq a.plan b.plan
      && text_eq a.acknowledgement_id b.acknowledgement_id
      && text_eq a.after b.after
      && same_texts (values a.basis) (values b.basis)
  same_ack _ b = false

  unfoldable pub is_audited : Record → Ack → Answer → Bool
  is_audited r a (acknowledged row) = same_record row (audited r a)
  is_audited r a _ = false

  -- The part of `validate_result` on a context
  unfoldable pub check_context : Option Fields → Request → Answer → Result Failure (Unit {0})
  check_context none request answer = ok tt
  check_context (some context) request answer = do
    (original, _) ← checked_inspection context
    (r, a) ← recovery_ack_request original
    guard (same_ack request a) context_mismatch
    guard (is_audited r a answer) context_mismatch

  unfoldable pub validate_result : Fields → Text → Reply → Option Fields → Result Failure Answer
  validate_result params request_id reply context = do
    (answer, _) ← validate_with (check_context context) params request_id reply
    ok answer
