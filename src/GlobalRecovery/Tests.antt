-- ===== src/GlobalRecovery/Tests.antt =====
-- A ledger of one uncertain operation, a controller that acknowledges it, and the theorems there.
use ottplay_control_server.Prelude.{
  ℕ, ◌≡◌, refl, subst, sym, ◌∙◌, inl, inr, Bool-cases, Bool, true, false, Option, none, some, List,
  [], ◌∷◌, length, ◌==◌, String, if◌then◌else◌, ok, err,
}
use mathlib.Core.Option.{some-injective}
use ottplay_control_server.Effects.{next, handle, cleaned, finish}
use ottplay_control_server.Text.{
  Bytes, Text, codes, text_eq, elem, is_digit, is_lower_alnum, is_lower_hex, is_letter, is_alnum,
  encodable, starts_with,
}
use ottplay_control_server.Dict.{is_some}
use ottplay_control_server.Json.Value
use ottplay_control_server.Json.Value.{
  Value, Fields, str, int, bool, arr, dict, field, end, items, of_items, get, same_keys,
}
use ottplay_control_server.Json.Fields.{matching, bool_of, nat_of, list_of, is_number, is_text}
use ottplay_control_server.FavoritesTransfer.Strict.{
  limit, raw_bytes, is_strict, validate_document_bytes,
}
use ottplay_control_server.FavoritesTransfer.Pack.{as_envelope}
use ottplay_control_server.FavoritesTransfer.Envelopes.{
  replace, go_escaped, key_ok, repeated, go_raw, request_envelopes,
}
use ottplay_control_server.GlobalFavorites.Scan.{scan_byte}
use ottplay_control_server.GlobalFavorites.Kinds.{text_lt, insert_sorted, sorted_set}
use ottplay_control_server.GlobalItems.Page.{is_uuid, same_cursor}
use ottplay_control_server.GlobalRecovery.Objects.{
  Source, nodes, tame, shallow, as_object, encoded, source_bytes, object,
}
use ottplay_control_server.GlobalRecovery.Records.{
  Hashes, State, Record, reason, is_runtime, is_digest, state_of, outcome, read, optional,
  read_revisions, basis_ok, ack_digest, recovery_digests, read_audit, audit_in, read_record,
}
use ottplay_control_server.GlobalRecovery.Requests.{
  Libraries, Ack, page, single, acknowledge, request_fields, is_true, read_cursor, optional_cursor,
  read_inspect, read_ack, read_request, validate_request,
}
use ottplay_control_server.GlobalRecovery.Replies.{
  same_texts, same_state, same_audit, same_record, audited, starts_after, last_id, is_null,
  read_records, read_page, place, next_cursor, check_page,
}
use ottplay_control_server.GlobalRecovery.Inspections.{
  own_record, no_audit, read_offer, with_record, read_inspection, read_acknowledged,
}
use ottplay_control_server.GlobalRecovery.Results.{
  Reply, Answer, is_request_id, is_error, error_of, inspection_of, ack_of, read_answer, read_error,
  receive, answer_if, validate_with, validate_plain, checked_inspection, recovery_ack_request,
  same_ack, is_audited, check_context, validate_result,
}
use ottplay_control_server.GlobalRecovery.Peer.{
  saved, posted, Host, World, new_world, remote, confirmed, blocked, Report, report, inspection_in,
  page_in, has_record, agree, ended, keep, blocked_unless, seen, rpc, collect, list, inspect, save,
  enough_time, reconcile, post, attempt, acknowledge_plan,
}
use ottplay_control_server.GlobalRecovery.Once.{
  Call, list_call, acknowledge_call, call, run_calls, run_calls-IsOrdered,
}
use ottplay_control_server.GlobalRecovery.Steps.{IsOrdered}
use ottplay_control_server.GlobalRecovery.Evidence.{IsReported, acknowledge_plan-IsReported}
use ottplay_control_server.GlobalRecovery.Restored.{Restores}

abbrev digest : ℕ → Text
unfolding repeated
digest c = repeated c 64

-- The acknowledgement is digested from 11 texts, the plan from 13.
abbrev hashes : Hashes
hashes = record {
  of_texts = λ ts. if length ts == 11 then digest b'a' else digest b'b';
  of_null = digest b'0';
}

abbrev operation : Text
operation = codes "00000000-0000-4000-8000-000000000001"

abbrev box : Text
box = codes "box-2"

abbrev text_field : String → Text → Fields → Fields
text_field k s fs = field (codes k) (str s) fs

abbrev common : String → Fields → Fields
common op fs = field (codes "version") (int false 1) (
    text_field "runtime" box
      (text_field "op" (codes op) (text_field "subject" (codes "global") fs)))

abbrev row : Record
row = record {
  operation_id = operation;
  operation_runtime = codes "box-1";
  original_state = State.pending;
  original_entry = digest b'e';
  acknowledgement = none;
}

abbrev row_value : Value → Value
row_value audit = dict (
    text_field "operation_id" operation (
      text_field "operation_runtime" (codes "box-1") (
        text_field "subject" (codes "global") (
          text_field "original_state" (codes "pending") (
            text_field "original_outcome" (codes "unknown") (
              text_field "original_entry_sha256" (digest b'e')
                (field (codes "acknowledgement") audit end)))))))

abbrev audit_value : Value
audit_value = dict (
    text_field "acknowledgement_id" (digest b'a') (
      text_field "runtime" box (
        text_field "ledger_revision_before" (digest b'1') (
          text_field "store_revision" (digest b'2') (
            text_field "context_revision" (digest b'3')
              (text_field "backend_proof" (digest b'4') (text_field "reason" reason end)))))))

abbrev metadata : Fields → Fields
metadata fs = common "inspect" (
    field (codes "ledger_format") (int false 1) (
      text_field "ledger_revision" (digest b'1') (
        text_field "store_revision" (digest b'2') (
          text_field "context_revision" (digest b'3')
            (text_field "backend_proof" (digest b'4') fs)))))

abbrev inspection : Fields
inspection = metadata (
    text_field "operation_id" operation (
      field (codes "record") (row_value Value.null) (
        field (codes "acknowledge_allowed") (bool true) (
          text_field "acknowledgement_id" (digest b'a') (
            text_field "after_ledger_sha256" (digest b'5')
              (text_field "plan_sha256" (digest b'b') end))))))

abbrev page_data : Fields
page_data = metadata (
    field (codes "total") (int false 1) (
      field (codes "records") (arr (of_items (row_value Value.null ∷ [])))
        (field (codes "next_cursor") Value.null end)))

abbrev acknowledged_data : Fields
acknowledged_data = common "acknowledge" (
    text_field "operation_id" operation (
      text_field "operation_runtime" (codes "box-1") (
        text_field "acknowledgement_id" (digest b'a') (
          text_field "plan_sha256" (digest b'b') (
            field (codes "acknowledged") (bool true) (
              text_field "persistence" (codes "persistent") (
                text_field "ledger_revision" (digest b'5') (
                  text_field "store_revision" (digest b'2') (
                    text_field "context_revision" (digest b'3')
                      (field (codes "record") (row_value audit_value) end))))))))))

abbrev ack : Ack
ack = record {
  basis = record {
    runtime = box;
    operation = operation;
    original_runtime = codes "box-1";
    entry = digest b'e';
    ledger = digest b'1';
    store = digest b'2';
    context = digest b'3';
    proof = digest b'4';
  };
  acknowledgement_id = digest b'a';
  after = digest b'5';
  plan = digest b'b';
}

-- One byte for each dictionary that occurs.
abbrev has : String → Fields → Bool
unfolding get text_eq
has k fs = is_some (get (codes k) fs)

abbrev byte_of : Fields → ℕ
byte_of fs =
    if has "accept_unknown" fs
    then 1
    else if has "acknowledge_allowed" fs
    then 2
    else if has "cursor" fs
    then 3
    else if has "acknowledged" fs
    then 5
    else if has "records" fs
    then 6
    else 4

abbrev written : Value → Option Text
written (dict fs) = some (byte_of fs ∷ [])
written _ = some (0 ∷ [])

abbrev table : ℕ → Value
unfolding request_fields
table b =
    if b == 1
    then dict (request_fields (acknowledge ack))
    else if b == 2
    then dict inspection
    else if b == 3
    then dict (request_fields (page box none))
    else if b == 4
    then dict (request_fields (single box operation))
    else if b == 5
    then dict acknowledged_data
    else if b == 6
    then dict page_data
    else Value.null

abbrev value_of : Bytes → Option Value
value_of (b ∷ []) = some (table b)
value_of _ = some Value.null

abbrev lib : Libraries
lib = record {
  hashes = hashes;
  codec = record {
    loads = value_of;
    sha256 = λ _. digest b'9';
    b64encode = λ raw. raw;
    b64decode = some;
  };
  printer = record { spaced = written; compact = written; finite = written; utf8 = some };
}

abbrev request_id : Text
unfolding repeated
request_id = repeated b'7' 32

abbrev delivered : ℕ → Text × Reply
delivered byte =
    (request_id, record { id = request_id; status = codes "ok"; payload = Source.raw (byte ∷ []) })

abbrev host : Host
host = record {
  lib = lib;
  runtime = box;
  enough_time = λ _. ok true;
  save = λ _ _ _. ok true;
  send = λ _ fs.
      ok (delivered (if has "accept_unknown" fs then 5 else if has "cursor" fs then 6 else 2));
}

program : Unit {0}
unfolding text_eq elem is_digit is_lower_alnum is_lower_hex is_letter is_alnum encodable starts_with
    items of_items get same_keys Value.keys matching bool_of nat_of list_of is_number is_text limit
    raw_bytes is_strict validate_document_bytes as_envelope replace go_escaped key_ok repeated
    go_raw request_envelopes scan_byte text_lt insert_sorted sorted_set is_uuid same_cursor nodes
    tame shallow as_object encoded source_bytes object is_runtime is_digest state_of outcome read
    optional read_revisions basis_ok ack_digest recovery_digests read_audit audit_in read_record
    request_fields is_true read_cursor optional_cursor read_inspect read_ack read_request
    validate_request same_texts same_state same_audit same_record starts_after last_id is_null
    read_records read_page place next_cursor check_page own_record no_audit read_offer with_record
    read_inspection read_acknowledged is_request_id is_error error_of inspection_of ack_of
    read_answer read_error receive answer_if validate_with validate_plain checked_inspection
    recovery_ack_request same_ack is_audited check_context validate_result remote inspection_in
    page_in has_record agree ended keep blocked_unless seen rpc collect list inspect save
    enough_time reconcile post attempt acknowledge_plan call run_calls next handle cleaned finish
program = tt

request_run : validate_request lib (request_fields (page box none)) ≡ ok (page box none)
unfolding program
request_run = refl

abbrev plan : Text
plan = digest b'b'

abbrev reported : Report
reported = report row ack (confirmed (Answer.acknowledged (audited row ack)))

abbrev behind : World
behind = record {
  attempted = plan ∷ [];
  locked = false;
  log = posted (acknowledge ack) ∷ saved plan true ∷ [];
}

acknowledge_run : acknowledge_plan host inspection plan new_world ≡ (ok reported, behind)
unfolding program
acknowledge_run = refl

abbrev Again : Value → Type 0
Again v =
    (printed : Bytes) × (encoded lib.codec lib.printer v ≡ some printed)
    × (value_of printed ≡ some v)

null_entry : Again Value.null
unfolding program
null_entry = (0 ∷ [], refl, refl)

table-Again : (b : ℕ) → Again (table b)
unfolding program
table-Again b = elim (Bool-cases (b == 1)) [
  | inl h ↦ rw h (1 ∷ [], refl, refl)
  | inr h₁ ↦ elim (Bool-cases (b == 2)) [
    | inl h ↦ rw (h₁, h) (2 ∷ [], refl, refl)
    | inr h₂ ↦ elim (Bool-cases (b == 3)) [
      | inl h ↦ rw (h₁, h₂, h) (3 ∷ [], refl, refl)
      | inr h₃ ↦ elim (Bool-cases (b == 4)) [
        | inl h ↦ rw (h₁, h₂, h₃, h) (4 ∷ [], refl, refl)
        | inr h₄ ↦ elim (Bool-cases (b == 5)) [
          | inl h ↦ rw (h₁, h₂, h₃, h₄, h) (5 ∷ [], refl, refl)
          | inr h₅ ↦ elim (Bool-cases (b == 6)) [
            | inl h ↦ rw (h₁, h₂, h₃, h₄, h₅, h) (6 ∷ [], refl, refl)
            | inr h₆ ↦ rw (h₁, h₂, h₃, h₄, h₅, h₆) null_entry
          ]
        ]
      ]
    ]
  ]
]

value_of-Again : (read : Bytes) (v : Value) → value_of read ≡ some v → Again v
value_of-Again [] v h = subst Again (some-injective _ v h) null_entry
value_of-Again (b ∷ []) v h = subst Again (some-injective _ v h) (table-Again b)
value_of-Again (b ∷ c ∷ read) v h = subst Again (some-injective _ v h) null_entry

restores : Restores lib
restores read printed v loaded h =
    let (other, same, again) = value_of-Again read v loaded in
    subst (λ bytes. value_of bytes ≡ some v) (some-injective other printed (sym same ∙ h)) again

acknowledge_plan-IsReported_example : IsReported host inspection plan reported
acknowledge_plan-IsReported_example =
    acknowledge_plan-IsReported host inspection plan new_world behind reported restores
      acknowledge_run

-- A second acknowledgement of the plan is blocked.
again_run :
    acknowledge_plan host inspection plan behind
    ≡ (ok (report row ack (blocked (codes "already_started"))), behind)
unfolding program
again_run = refl

-- Without an answer the request is reconciled, and nothing is posted again.
abbrev silent : Host
silent = record host { send = λ _ _. err (codes "transport") }

silent_run :
    (acknowledge_plan silent inspection plan new_world).1.log
    ≡ posted (single box operation) ∷ posted (acknowledge ack) ∷ saved plan true ∷ []
unfolding program
silent_run = refl

abbrev calls : List Call
calls = list_call ∷ acknowledge_call inspection plan ∷ acknowledge_call inspection plan ∷ []

run_calls-IsOrdered_example : IsOrdered (run_calls silent calls new_world).log
run_calls-IsOrdered_example = run_calls-IsOrdered silent calls
