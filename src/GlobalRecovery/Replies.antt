-- ===== src/GlobalRecovery/Replies.antt =====
-- A page of a reply: `_page`; the equality of records.
use ottplay_control_server.Prelude.{
  ℕ, ◌-◌, Bool, true, false, not, ◌&&◌, ◌||◌, Option, none, some, List, [], ◌∷◌, map, length, leb,
  ltb, ◌==◌, if◌then◌else◌, Result, ok, ◌>>=◌, ◌>>◌, guard, need,
}
use ottplay_control_server.Text.{Text, codes, text_eq}
use ottplay_control_server.Json.Value.{Value, Fields, null, get, same_keys}
use ottplay_control_server.Json.Fields.{nat_of, list_of}
use ottplay_control_server.GlobalFavorites.Kinds.{text_lt, sorted_set}
use ottplay_control_server.GlobalItems.Page.{same_cursor}
use ottplay_control_server.GlobalRecovery.Objects.{Failure, invalid_protocol, context_mismatch}
use ottplay_control_server.GlobalRecovery.Records.{
  State, pending, unknown, partial, Audit, Record, Revisions, read_record,
}
use ottplay_control_server.GlobalRecovery.Requests.{Libraries, Cursor, Ack, read_cursor}

-- `MAX_RECORDS` and `PAGE_SIZE`
abbrev pub max_records : ℕ
max_records = 32

abbrev pub page_size : ℕ
page_size = 16

-- The fields of a page; the next cursor is not read yet.
pub record Page : Type 0 where
  pub revisions : Revisions
  pub total : ℕ
  pub records : List Record
  pub next : Option Value

unfoldable pub same_texts : List Text → List Text → Bool
same_texts [] [] = true
same_texts (s ∷ ss) (t ∷ ts) = text_eq s t && same_texts ss ts
same_texts _ _ = false

abbrev pub same_revisions : Revisions → Revisions → Bool
same_revisions a b =
    text_eq a.ledger b.ledger
    && text_eq a.store b.store
    && text_eq a.context b.context
    && same_cursor a.proof b.proof

unfoldable pub same_state : State → State → Bool
same_state pending pending = true
same_state unknown unknown = true
same_state partial partial = true
same_state _ _ = false

unfoldable pub same_audit : Option Audit → Option Audit → Bool
same_audit none none = true
same_audit (some a) (some b) =
    text_eq a.acknowledgement_id b.acknowledgement_id
    && text_eq a.runtime b.runtime
    && text_eq a.ledger_before b.ledger_before
    && text_eq a.store b.store
    && text_eq a.context b.context
    && text_eq a.proof b.proof
same_audit _ _ = false

-- The equality of two records as dictionaries.
unfoldable pub same_record : Record → Record → Bool
same_record a b =
    text_eq a.operation_id b.operation_id
    && text_eq a.operation_runtime b.operation_runtime
    && same_state a.original_state b.original_state
    && text_eq a.original_entry b.original_entry
    && same_audit a.acknowledgement b.acknowledgement

-- `_audit`
abbrev pub audit_of : Ack → Audit
audit_of a = record {
  acknowledgement_id = a.acknowledgement_id;
  runtime = a.basis.runtime;
  ledger_before = a.basis.ledger;
  store = a.basis.store;
  context = a.basis.context;
  proof = a.basis.proof;
}

-- `{**original["record"], "acknowledgement": _audit(request)}`
abbrev pub audited : Record → Ack → Record
audited r a = record r { acknowledgement = some (audit_of a) }

abbrev pub ids : List Record → List Text
ids = map (λ r. r.operation_id)

-- `ids[0] > cursor["after_operation_id"]`
unfoldable pub starts_after : Text → List Record → Bool
starts_after after [] = false
starts_after after (r ∷ rs) = text_lt after r.operation_id

-- `ids[-1]`
unfoldable pub last_id : List Record → Text
last_id [] = []
last_id (r ∷ []) = r.operation_id
last_id (r ∷ s ∷ rs) = last_id (s ∷ rs)

unfoldable pub is_null : Option Value → Bool
is_null (some null) = true
is_null _ = false

-- `COMMON | INSPECT_META`
abbrev pub common_keys : List Text
common_keys = codes "version" ∷ codes "runtime" ∷ codes "op" ∷ codes "subject" ∷ []

abbrev pub inspect_keys : List Text → List Text
inspect_keys more =
    codes "version"
    ∷ codes "runtime"
    ∷ codes "op"
    ∷ codes "subject"
    ∷ codes "ledger_format"
    ∷ codes "ledger_revision"
    ∷ codes "store_revision"
    ∷ codes "context_revision"
    ∷ codes "backend_proof"
    ∷ more

module _ (lib : Libraries) where
  unfoldable pub read_records : List Value → Result Failure (List Record)
  read_records [] = ok []
  read_records (v ∷ vs) = do r ← read_record lib.hashes (some v); rs ← read_records vs; ok (r ∷ rs)

  -- The part of `_page` that reads the fields.
  unfoldable pub read_page : Revisions → Fields → Result Failure Page
  read_page revisions fs = do
    guard (same_keys fs (inspect_keys (codes "total" ∷ codes "records" ∷ codes "next_cursor" ∷ [])))
        invalid_protocol
    total ← need invalid_protocol (nat_of (get (codes "total") fs))
    guard (leb total max_records) invalid_protocol
    rows ← need invalid_protocol (list_of (get (codes "records") fs))
    guard (leb (length rows) page_size) invalid_protocol
    records ← read_records rows
    ok (record {
      revisions = revisions;
      total = total;
      records = records;
      next = get (codes "next_cursor") fs;
    })

  -- The part that depends on the cursor: whether records remain.
  unfoldable pub place : Option Cursor → Page → Result Failure Bool
  place none p = do
    guard (length p.records == (if leb page_size p.total then page_size else p.total))
        invalid_protocol
    ok (ltb page_size p.total)
  place (some c) p = do
    guard (same_revisions p.revisions c.revisions) context_mismatch
    guard
        (ltb page_size p.total
          && leb p.total max_records
          && length p.records == p.total - page_size
          && starts_after c.after p.records)
        invalid_protocol
    ok false

  unfoldable pub next_cursor : Bool → Page → Result Failure (Option Cursor)
  next_cursor true p = do
    v ← need invalid_protocol p.next
    c ← read_cursor lib v
    guard (text_eq c.after (last_id p.records) && same_revisions c.revisions p.revisions)
        invalid_protocol
    ok (some c)
  next_cursor false p = do guard (is_null p.next) invalid_protocol; ok none

  unfoldable pub check_page : Option Cursor → Page → Result Failure (Option Cursor)
  check_page cursor p = do
    guard (same_texts (ids p.records) (sorted_set (ids p.records))) invalid_protocol
    remains ← place cursor p
    next ← next_cursor remains p
    guard (p.total == 0 || not (text_eq p.revisions.ledger lib.hashes.of_null)) invalid_protocol
    ok next
