-- ===== src/GlobalRecovery/Confirmed.antt =====
-- What a result with a context says, and what the evidence of an acknowledgement is.
use ottplay_control_server.Prelude.{
  subst, ◌≡◌, refl, ap, ◌∙◌, Bool, true, false, Option, none, some, List, [], ◌∷◌, ok, ok-injective,
  guard, guard-eq-ok, >>=-eq-ok, arith,
}
use ottplay_control_server.Text.{Text, text_eq, text_eq_iff, elem, codes}
use ottplay_control_server.Dict.{is_some}
use ottplay_control_server.Json.Value.{Fields, get, same_keys}
use ottplay_control_server.GlobalRecovery.Objects.{invalid_protocol}
use ottplay_control_server.GlobalRecovery.Records.{State, pending, unknown, partial, Audit, Record}
use ottplay_control_server.GlobalRecovery.Requests.{
  Libraries, Ack, Request, page, single, acknowledge, request_fields, validate_request,
}
use ottplay_control_server.GlobalRecovery.Replies.{
  same_texts, same_state, same_audit, same_record, audited,
}
use ottplay_control_server.GlobalRecovery.Inspections.{Inspection}
use ottplay_control_server.GlobalRecovery.Results.{
  error_keys, Answer, Reply, listed, inspected, acknowledged, refused, read_answer, read_error,
  answer_if, receive, same_ack, validate_with, check_context, is_audited, validate_result,
  checked_inspection, recovery_ack_request,
}
use ottplay_control_server.GlobalRecovery.Restored.{receive-parts}
use ottplay_control_server.GlobalRecovery.Peer.{
  Status, blocked, confirmed, observed, unconfirmed, has_record,
}

same_state_eq : (a b : State) → same_state a b ≡ true → a ≡ b
unfolding same_state
same_state_eq pending pending h = refl
same_state_eq unknown unknown h = refl
same_state_eq partial partial h = refl
same_state_eq _ _ h = absurd (cc)

same_audit_eq : (a b : Option Audit) → same_audit a b ≡ true → a ≡ b
unfolding same_audit
same_audit_eq none none h = refl
same_audit_eq (some a) (some b) h = ground (
  arith,
  text_eq_iff a.acknowledgement_id b.acknowledgement_id,
  text_eq_iff a.runtime b.runtime,
  text_eq_iff a.ledger_before b.ledger_before,
  text_eq_iff a.store b.store,
  text_eq_iff a.context b.context,
  text_eq_iff a.proof b.proof,
)
same_audit_eq _ _ h = absurd (cc)

same_record_eq : (a b : Record) → same_record a b ≡ true → a ≡ b
unfolding same_record
same_record_eq a b h = ground (
  arith,
  text_eq_iff a.operation_id b.operation_id,
  text_eq_iff a.operation_runtime b.operation_runtime,
  same_state_eq a.original_state b.original_state,
  text_eq_iff a.original_entry b.original_entry,
  same_audit_eq a.acknowledgement b.acknowledgement,
)

pub has_record_eq : (o : Option Record) (r : Record) → has_record o r ≡ true → o ≡ some r
unfolding has_record
has_record_eq none r h = absurd (cc)
has_record_eq (some s) r h = ap some (same_record_eq s r h)

is_audited_eq :
    (lib : Libraries) (r : Record) (a : Ack) (o : Answer)
    → is_audited lib r a o ≡ true
    → o ≡ acknowledged (audited r a)
unfolding is_audited
is_audited_eq lib r a (acknowledged row) h =
    ap (λ x. acknowledged x) (same_record_eq row (audited r a) h)
is_audited_eq lib r a (listed _ _) h = absurd (cc)
is_audited_eq lib r a (inspected _) h = absurd (cc)
is_audited_eq lib r a (refused _) h = absurd (cc)

abbrev failed : List Text
failed = codes "rejected" ∷ codes "unsupported" ∷ []

refused_ok : elem (codes "ok") failed ≡ true → ⊥
unfolding elem text_eq
refused_ok h = cc

-- The data offer an acknowledgement of a record.
abbrev pub Offers : Libraries → Fields → Record → Ack → Type 0
Offers lib fs r a =
    (i : Inspection) × (found : Fields) × (checked_inspection lib fs ≡ ok (i, found))
    × (recovery_ack_request lib i ≡ ok (r, a))

-- The request of these parameters is an acknowledgement that the context offers, and the answer is
-- the record of that offer with its audit.
abbrev pub IsConfirmed : Libraries → Fields → Fields → Answer → Type 0
IsConfirmed lib params context o =
    (s : Record) × (b : Ack) × Offers lib context s b
    × (validate_request lib params ≡ ok (acknowledge b))
    × (o ≡ acknowledged (audited s b))

-- A confirmation is of the request that was sent for this acknowledgement, and has this record with
-- its audit; an observation has that record too.
abbrev pub IsEvidence : Libraries → Record → Ack → Status → Type 0
IsEvidence lib r a (confirmed o) =
    (validate_request lib (request_fields (acknowledge a)) ≡ ok (acknowledge a))
    × (o ≡ acknowledged (audited r a))
IsEvidence lib r a (observed i) = i.record_of ≡ some (audited r a)
IsEvidence lib r a (blocked _) = Unit
IsEvidence lib r a unconfirmed = Unit

same_ack_eq :
    (lib : Libraries) (request : Request) (b : Ack)
    → same_ack lib request b ≡ true
    → request ≡ acknowledge b
unfolding same_ack same_texts
same_ack_eq lib (acknowledge a) b h =
    ap (λ x. acknowledge x)
      (ground (
        arith,
        text_eq_iff a.plan b.plan,
        text_eq_iff a.acknowledgement_id b.acknowledgement_id,
        text_eq_iff a.after b.after,
        text_eq_iff a.basis.runtime b.basis.runtime,
        text_eq_iff a.basis.operation b.basis.operation,
        text_eq_iff a.basis.original_runtime b.basis.original_runtime,
        text_eq_iff a.basis.entry b.basis.entry,
        text_eq_iff a.basis.ledger b.basis.ledger,
        text_eq_iff a.basis.store b.basis.store,
        text_eq_iff a.basis.context b.basis.context,
        text_eq_iff a.basis.proof b.basis.proof,
      ))
same_ack_eq lib (page _ _) b h = absurd (cc)
same_ack_eq lib (single _ _) b h = absurd (cc)

module _ (lib : Libraries) where
  -- What a context adds.
  check_context_lem :
      (params context : Fields) (request : Request) (o : Answer) {u : Unit {0}}
      → validate_request lib params ≡ ok request
      → check_context lib (some context) request o ≡ ok u
      → IsConfirmed lib params context o
  unfolding check_context
  check_context_lem params context request o sent h =
      let (i, again, h₁) = >>=-eq-ok (checked_inspection lib context) _ h in
      let (x, offer, h₂) = >>=-eq-ok (recovery_ack_request lib i.0) _ h₁ in
      let (_, own, h₃) = >>=-eq-ok (guard (same_ack lib request x.1) _) _ h₂ in
      (
        x.0,
        x.1,
        (i.0, i.1, again, offer),
        sent ∙ ap ok (same_ack_eq lib request x.1 (guard-eq-ok _ _ own)),
        is_audited_eq lib x.0 x.1 o (guard-eq-ok _ _ h₃),
      )

  -- An error does not come with the status `ok`.
  answer_if-ok :
      (params context : Fields) (b : Bool) (request : Request) (status : Text) (fs : Fields)
      (o : Answer)
      → validate_request lib params ≡ ok request
      → answer_if lib (check_context lib (some context)) b request status fs ≡ ok o
      → text_eq status (codes "ok") ≡ true
      → IsConfirmed lib params context o
  unfolding answer_if read_error elem
  answer_if-ok params context true request status fs o sent h t =
      let (_, _, h₁) = >>=-eq-ok (guard (same_keys fs error_keys) invalid_protocol) _ h in
      let (_, e, _) = >>=-eq-ok (guard (elem status failed) invalid_protocol) _ h₁ in
      let same = (text_eq_iff status (codes "ok")).0 t in
      absurd (refused_ok (rw same at (guard-eq-ok _ _ e)))
  answer_if-ok params context false request status fs o sent h t =
      let (_, _, h₁) = >>=-eq-ok (guard (text_eq status (codes "ok")) _) _ h in
      let (p, _, h₂) = >>=-eq-ok (read_answer lib request fs) _ h₁ in
      let (u, further, h₃) = >>=-eq-ok (check_context lib (some context) request p) _ h₂ in
      subst (IsConfirmed lib params context) (ok-injective h₃)
        (check_context_lem params context request p sent further)

  pub validate_result-ok :
      (params : Fields) (id : Text) (reply : Reply) (context : Fields) (o : Answer)
      → validate_result lib params id reply (some context) ≡ ok o
      → text_eq reply.status (codes "ok") ≡ true
      → IsConfirmed lib params context o
  unfolding validate_result validate_with
  validate_result-ok params id reply context o h t =
      let (x, both, h₁) =
        >>=-eq-ok (validate_with lib (check_context lib (some context)) params id reply) _ h in
      let (y, got, h₂) = >>=-eq-ok (receive lib params id reply) _ both in
      let (own, _, _) = receive-parts lib params id reply y got in
      let (p, said, h₃) =
        >>=-eq-ok
          (answer_if lib (check_context lib (some context)) (is_some (get (codes "error") y.1)) y.0
            reply.status y.1)
          _ h₂ in
      let same : p ≡ o = ap (λ z. z.0) (ok-injective h₃) ∙ ok-injective h₁ in
      subst (IsConfirmed lib params context) same
        (answer_if-ok params context _ y.0 reply.status y.1 p own said t)
