-- ===== src/GlobalRecovery/Peer.antt =====
-- `RecoveryPeer`: `list`, `inspect` and `acknowledge`, over a transport that may do anything.
use ottplay_control_server.Prelude.{
  ℕ, suc, zero, Bool, true, false, not, ◌&&◌, Option, none, some, List, [], ◌∷◌, ◌++◌, length, ◌==◌,
  if◌then◌else◌, Result, ok, err,
}
use ottplay_control_server.Effects.{
  Eff, pure, raise, lift, check, get_state, modify, try_except, try_finally, ◌>>=◌, ◌>>◌,
}
use ottplay_control_server.Text.{Text, codes, text_eq, elem}
use ottplay_control_server.Json.Value.{Fields}
use ottplay_control_server.GlobalFavorites.Kinds.{sorted_set}
use ottplay_control_server.GlobalRecovery.Objects.{Failure}
use ottplay_control_server.GlobalRecovery.Records.{Record, Revisions, outcome}
use ottplay_control_server.GlobalRecovery.Requests.{
  Libraries, Cursor, Ack, Request, page, single, acknowledge, request_fields, validate_request,
}
use ottplay_control_server.GlobalRecovery.Replies.{
  Page, same_texts, same_revisions, same_record, audited, ids,
}
use ottplay_control_server.GlobalRecovery.Inspections.{Inspection}
use ottplay_control_server.GlobalRecovery.Results.{
  Reply, Answer, listed, inspected, validate_result, checked_inspection, recovery_ack_request,
}

-- The intent of this plan is given to `save_intent`, with whether it answers with a `bool` in time;
-- a request is handed to the transport.
pub data Event : Type 0 where
  saved : Text → Bool → Event
  posted : Request → Event

-- The libraries, the peer's runtime, and the rest of the program, which may depend on all events
-- before, newest first: whether more time is left than a request takes (or the clock is refused),
-- whether `save_intent` answers with a `bool` in time, and what the transport delivers for a request:
-- a `RemoteError` with its code, or the request's number and the response.
pub record Host : Type 0 where
  pub lib : Libraries
  pub runtime : Text
  pub enough_time : List Event → Result Text Bool
  pub save : List Event → Fields → Ack → Result Text Bool
  pub send : List Event → Fields → Result Text (Text × Reply)

-- `_attempted`, whether `_ack_lock` is held, and the events.
pub record World : Type 0 where
  pub attempted : List Text
  pub locked : Bool
  pub log : List Event

abbrev pub new_world : World
new_world = record { attempted = []; locked = false; log = [] }

-- `RemoteError` is known by its code.
abbrev pub M : Type 0 → Type 0
M A = Eff World Text A

abbrev pub note : Event → M (Unit {0})
note e = modify (λ w. record w { log = e ∷ w.log })

-- `except ProtocolError: raise RemoteError(code)`
unfoldable pub remote : {A : Type 0} → Text → Result Failure A → M A
remote code (ok a) = pure a
remote code (err _) = raise code

-- The ledger that `list` returns.
pub record Ledger : Type 0 where
  pub revisions : Revisions
  pub total : ℕ
  pub records : List Record

pub data Status : Type 0 where
  blocked : Text → Status
  confirmed : Answer → Status
  observed : Inspection → Status
  unconfirmed : Status

-- `base` with the status and its evidence.
pub record Report : Type 0 where
  pub operation_id : Text
  pub acknowledgement_id : Text
  pub plan : Text
  pub original_outcome : Text
  pub replay_allowed : Bool
  pub status : Status

abbrev pub report : Record → Ack → Status → Report
report r a status = record {
  operation_id = a.basis.operation;
  acknowledgement_id = a.acknowledgement_id;
  plan = a.plan;
  original_outcome = outcome r.original_state;
  replay_allowed = false;
  status = status;
}

unfoldable pub inspection_in : Answer → M Inspection
inspection_in (inspected i) = pure i
inspection_in _ = raise (codes "invalid_response")

unfoldable pub page_in : Answer → M (Page × Option Cursor)
page_in (listed p next) = pure (p, next)
page_in _ = raise (codes "invalid_response")

unfoldable pub has_record : Option Record → Record → Bool
has_record none r = false
has_record (some s) r = same_record s r

-- The first page, which the second one must agree with; both have the ledger format 1.
unfoldable pub agree : Option Page → Page → M Page
agree none p = pure p
agree (some first) p = do
  check (same_revisions p.revisions first.revisions && p.total == first.total)
      (codes "invalid_response")
  pure first

-- The end of a round: the next one, or the ledger.
unfoldable pub ended : Option Cursor → Page → List Record → (Cursor → M Ledger) → M Ledger
ended (some c) f rows more = more c
ended none f rows more = do
  check (length rows == f.total && same_texts (ids rows) (sorted_set (ids rows)))
      (codes "invalid_response")
  pure (record { revisions = f.revisions; total = f.total; records = rows })

-- The intent is given away; the clock may be refused behind it.
unfoldable pub keep : Text → Result Text Bool → M Bool
keep plan (ok answered) = do note (saved plan answered); pure answered
keep plan (err code) = do note (saved plan false); raise code

-- An early return.
unfoldable pub blocked_unless : Text → Bool → M Status → M Status
blocked_unless reason true rest = rest
blocked_unless reason false rest = pure (blocked reason)

unfoldable pub seen : Record → Ack → Inspection → M Status
seen r a i = if has_record i.record_of (audited r a) then pure (observed i) else pure unconfirmed

module _ (host : Host) where
  -- `_rpc`, around the transport
  unfoldable pub rpc : Request → Option Fields → M Answer
  rpc request context = do
    _ ← remote (codes "invalid_response") (validate_request host.lib (request_fields request))
    note (posted request)
    w ← get_state
    (id, reply) ← lift (host.send w.log (request_fields request))
    answer ←
        remote (codes "invalid_response")
          (validate_result host.lib (request_fields request) id reply context)
    check (text_eq reply.status (codes "ok")) (
        if text_eq reply.status (codes "rejected")
        then codes "player_rejected"
        else codes "player_unsupported")
    pure answer

  -- At most `left` more rounds of the loop.
  unfoldable pub collect : ℕ → Option Cursor → Option Page → List Record → M Ledger
  collect zero cursor first rows = raise (codes "invalid_response")
  collect (suc left) cursor first rows = do
    answer ← rpc (page host.runtime cursor) none
    (p, next) ← page_in answer
    f ← agree first p
    ended next f (rows ++ p.records) (λ c. collect left (some c) (some f) (rows ++ p.records))

  -- `RecoveryPeer.list`
  unfoldable pub list : M Ledger
  list = collect 2 none none []

  -- `RecoveryPeer.inspect`
  unfoldable pub inspect : Text → M Inspection
  inspect operation = do answer ← rpc (single host.runtime operation) none; inspection_in answer

  -- `_save`
  unfoldable pub save : Fields → Ack → M Bool
  save context a = do w ← get_state; keep a.plan (host.save w.log context a)

  unfoldable pub enough_time : M Bool
  enough_time = do w ← get_state; lift (host.enough_time w.log)

  -- The one inspection behind a request that was not confirmed.
  unfoldable pub reconcile : Record → Ack → M Status
  reconcile r a = try_except (do i ← inspect a.basis.operation; seen r a i) (λ _. pure unconfirmed)

  unfoldable pub post : Fields → Record → Ack → M Status
  post context r a = do
    modify (λ w. record w { attempted = a.plan ∷ w.attempted })
    try_except (do answer ← rpc (acknowledge a) (some context); pure (confirmed answer))
        (λ _. reconcile r a)

  -- The part of `acknowledge` under the lock
  unfoldable pub attempt : Fields → Record → Ack → M Status
  attempt context r a = do
    w ← get_state
    blocked_unless (codes "already_started") (not (elem a.plan w.attempted)) (do
      enough ← enough_time
      blocked_unless (codes "deadline_insufficient") enough (do
        kept ← save context a
        blocked_unless (codes "context_not_saved") kept (do
          still ← enough_time
          blocked_unless (codes "deadline_insufficient") still (post context r a))))

  abbrev pub release : M (Unit {0})
  release = modify (λ w. record w { locked = false })

  -- `RecoveryPeer.acknowledge`
  unfoldable pub acknowledge_plan : Fields → Text → M Report
  acknowledge_plan inspection confirmation = do
    (original, context) ← remote (codes "invalid_context") (checked_inspection host.lib inspection)
    (r, a) ← remote (codes "invalid_context") (recovery_ack_request host.lib original)
    check (text_eq a.basis.runtime host.runtime && text_eq confirmation a.plan)
        (codes "invalid_context")
    w ← get_state
    check (not w.locked) (codes "already_started")
    modify (λ w. record w { locked = true })
    status ← try_finally (attempt context r a) release
    pure (report r a status)
