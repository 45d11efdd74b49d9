-- ===== src/GlobalRecovery/Evidence.antt =====
-- What the evidence of an acknowledgement says.
use ottplay_control_server.Prelude.{
  subst, inl, inr, ◌≡◌, sym, ap, ◌∙◌, Bool, true, false, ◌&&◌, some, Result, ok, err, ok-injective,
  Bool-cases, &&-parts,
}
use ottplay_control_server.Effects.{
  check, finish, get_state, modify, next, handle, next-eq-ok, check-eq-ok, finish-eq-ok,
}
use ottplay_control_server.Text.{Text, text_eq, text_eq_iff, codes}
use ottplay_control_server.Json.Value.{Fields}
use ottplay_control_server.GlobalRecovery.Objects.{Failure}
use ottplay_control_server.GlobalRecovery.Records.{Record}
use ottplay_control_server.GlobalRecovery.Requests.{
  Ack, acknowledge, request_fields, validate_request,
}
use ottplay_control_server.GlobalRecovery.Replies.{audited}
use ottplay_control_server.GlobalRecovery.Inspections.{Inspection}
use ottplay_control_server.GlobalRecovery.Results.{
  Answer, validate_result, checked_inspection, recovery_ack_request,
}
use ottplay_control_server.GlobalRecovery.Peer.{
  Host, World, M, remote, Status, blocked, confirmed, Report, report, has_record, blocked_unless,
  seen, rpc, inspect, save, enough_time, reconcile, post, attempt, acknowledge_plan, release,
}
use ottplay_control_server.GlobalRecovery.Restored.{Restores, checked_inspection-again}
use ottplay_control_server.GlobalRecovery.Confirmed.{
  has_record_eq, Offers, IsConfirmed, IsEvidence, validate_result-ok,
}

module _ (host : Host) where
  -- What a computation returns satisfies this.
  abbrev Yields : {A : Type 0} → (A → Type 0) → M A → Type 0
  Yields {A} Q m = (w v : World) (a : A) → m w ≡ (ok a, v) → Q a

  bind-Yields :
      {A B : Type 0} (Q : B → Type 0) (m : M A) (f : A → M B)
      → ((a : A) → Yields Q (f a))
      → Yields Q (λ w. next f (m w))
  bind-Yields Q m f k w v b h = let (a, s, _, h₁) = next-eq-ok f (m w) h in k a s v b h₁

  blocked_unless-Yields :
      (Q : Status → Type 0) (reason : Text) (b : Bool) (m : M Status)
      → Q (blocked reason)
      → Yields Q m
      → Yields Q (blocked_unless reason b m)
  unfolding blocked_unless
  blocked_unless-Yields Q reason true m q k = k
  blocked_unless-Yields Q reason false m q k = λ _ _ _ h. subst Q (ok-injective (ap (λ x. x.0) h)) q

  handle-Yields :
      (Q : Status → Type 0) (h : Text → M Status) (o : Result Text Status × World) (v : World)
      (a : Status)
      → handle h o ≡ (ok a, v)
      → ((s : World) → o ≡ (ok a, s) → Q a)
      → ((e : Text) → Yields Q (h e))
      → Q a
  unfolding handle
  handle-Yields Q h (ok b, s) v a e good bad = good v e
  handle-Yields Q h (err c, s) v a e good bad = bad c s v a e

  remote-eq-ok :
      {A : Type 0} (code : Text) (r : Result Failure A) (w v : World) (a : A)
      → remote code r w ≡ (ok a, v)
      → r ≡ ok a
  unfolding remote
  remote-eq-ok code (ok b) w v a h = ap ok (ok-injective (ap (λ x. x.0) h))
  remote-eq-ok code (err e) w v a h = absurd (cc (ap (λ x. x.0) h))

  rpc-ok :
      (a : Ack) (context : Fields) (w v : World) (o : Answer)
      → rpc host (acknowledge a) (some context) w ≡ (ok o, v)
      → IsConfirmed host.lib (request_fields (acknowledge a)) context o
  unfolding rpc
  rpc-ok a context w v o h =
      let (_, w₁, _, h₁) = next-eq-ok _ (remote _ (validate_request host.lib _) w) h in
      let (_, w₂, _, h₂) = next-eq-ok _ _ h₁ in
      let (u, w₃, _, h₃) = next-eq-ok _ _ h₂ in
      let (x, w₄, _, h₄) = next-eq-ok _ _ h₃ in
      let (p, w₅, said, h₅) =
        next-eq-ok _ (remote _ (validate_result host.lib _ x.0 x.1 (some context)) w₄) h₄ in
      let (_, w₆, good, h₆) = next-eq-ok _ (check (text_eq x.1.status (codes "ok")) _ w₅) h₅ in
      let (t, _) = check-eq-ok (text_eq x.1.status (codes "ok")) _ good in
      subst (IsConfirmed host.lib (request_fields (acknowledge a)) context)
        (ok-injective (ap (λ z. z.0) h₆))
        (validate_result-ok host.lib _ x.0 x.1 context p (remote-eq-ok _ _ _ _ _ said) t)

  module _ (context : Fields) (r : Record) (a : Ack)
      (only : (s : Record) (b : Ack) → Offers host.lib context s b → (s ≡ r) × (b ≡ a)) where
    abbrev Fine : Status → Type 0
    Fine = IsEvidence host.lib r a

    -- The context offers nothing else, so that a confirmation is of this offer.
    confirmed-Fine :
        (o : Answer)
        → IsConfirmed host.lib (request_fields (acknowledge a)) context o
        → Fine (confirmed o)
    confirmed-Fine o (s, b, offer, sent, made) =
        let (row, own) = only s b offer in
        (
          sent ∙ ap (λ b. ok (acknowledge b)) own,
          made
              ∙ ap (λ s. Answer.acknowledged (audited s b)) row
              ∙ ap (λ b. Answer.acknowledged (audited r b)) own,
        )

    seen-Yields : (i : Inspection) → Yields Fine (seen r a i)
    unfolding seen
    seen-Yields i w v s h = elim (Bool-cases (has_record i.record_of (audited r a))) [
      | inl t ↦ subst Fine (ok-injective (ap (λ x. x.0) (rw t at h))) (has_record_eq _ _ t)
      | inr f ↦ subst Fine (ok-injective (ap (λ x. x.0) (rw f at h))) tt
    ]

    reconcile-Yields : Yields Fine (reconcile host r a)
    unfolding reconcile
    reconcile-Yields w v s h =
        handle-Yields Fine _ _ v s h
          (λ u e. bind-Yields Fine (inspect host a.basis.operation) _ seen-Yields w u s e)
          (λ _ _ _ _ e. subst Fine (ok-injective (ap (λ x. x.0) e)) tt)

    post-Yields : Yields Fine (post host context r a)
    unfolding post
    post-Yields = bind-Yields Fine (modify _) _ (λ _ w v s h.
        handle-Yields Fine _ _ v s h
          (λ u e.
            let (o, t, got, e₁) = next-eq-ok _ (rpc host (acknowledge a) (some context) w) e in
            subst Fine (ok-injective (ap (λ x. x.0) e₁))
              (confirmed-Fine o (rpc-ok a context w t o got)))
          (λ _. reconcile-Yields))

    attempt-Yields : Yields Fine (attempt host context r a)
    unfolding attempt
    attempt-Yields = bind-Yields Fine get_state _ (λ w. blocked_unless-Yields Fine _ _ _ tt (
        bind-Yields Fine (enough_time host) _ (λ b. blocked_unless-Yields Fine _ b _ tt (
          bind-Yields Fine (save host context a) _ (λ k. blocked_unless-Yields Fine _ k _ tt (
            bind-Yields Fine (enough_time host) _
              (λ c. blocked_unless-Yields Fine _ c _ tt post-Yields)))))))

-- The data that `_checked_inspection` returns offer what its inspection offers.
only_offer :
    (host : Host) (inspection context : Fields) (i : Inspection) (r : Record) (a : Ack)
    → Restores host.lib
    → checked_inspection host.lib inspection ≡ ok (i, context)
    → recovery_ack_request host.lib i ≡ ok (r, a)
    → (s : Record) (b : Ack) → Offers host.lib context s b
    → (s ≡ r) × (b ≡ a)
only_offer host inspection context i r a restores first offer s b (j, found, again, other) =
    let same =
      checked_inspection-again host.lib restores inspection context found i j first again in
    let pair = ok-injective (sym other ∙ rw same at offer) in
    (ap (λ x. x.0) pair, ap (λ x. x.1) pair)

-- What `acknowledge` returns: the offer of the inspection that it is called with, whose plan is the
-- confirmation, and a status with its evidence.
pub record IsReported (host : Host) (inspection : Fields) (confirmation : Text) (p : Report)
    : Type 0 where
  pub row : Record
  pub ack : Ack
  pub original : Inspection
  pub context : Fields
  pub checked : checked_inspection host.lib inspection ≡ ok (original, context)
  pub offered : recovery_ack_request host.lib original ≡ ok (row, ack)
  pub plan : confirmation ≡ ack.plan
  pub runtime : ack.basis.runtime ≡ host.runtime
  pub status : Status
  pub made : p ≡ report row ack status
  pub evidence : IsEvidence host.lib row ack status

-- If `json` loads a loaded value again as it is, a report of `acknowledge` is about the offer in the
-- given inspection, whose plan was confirmed for the peer's runtime; a confirmed or observed one
-- carries that record with the audit of that acknowledgement, and what a confirmed one answers is the
-- request of that acknowledgement.
pub acknowledge_plan-IsReported :
    (host : Host) (inspection : Fields) (confirmation : Text) (w v : World) (p : Report)
    → Restores host.lib
    → acknowledge_plan host inspection confirmation w ≡ (ok p, v)
    → IsReported host inspection confirmation p
unfolding acknowledge_plan
acknowledge_plan-IsReported host inspection confirmation w v p restores h =
    let checked = checked_inspection host.lib inspection in
    let ((i, context), w₁, e₁, h₁) = next-eq-ok _ (remote (codes "invalid_context") checked w) h in
    let offered = recovery_ack_request host.lib i in
    let ((r, a), w₂, e₂, h₂) = next-eq-ok _ (remote (codes "invalid_context") offered w₁) h₁ in
    let meant = text_eq a.basis.runtime host.runtime && text_eq confirmation a.plan in
    let (_, w₃, e₃, h₃) = next-eq-ok _ (check meant (codes "invalid_context") w₂) h₂ in
    let (_, w₄, _, h₄) = next-eq-ok _ (get_state w₃) h₃ in
    let (_, w₅, _, h₅) = next-eq-ok _ (check _ _ w₄) h₄ in
    let (_, w₆, _, h₆) = next-eq-ok _ (modify (λ x. record x { locked = true }) w₅) h₅ in
    let (status, w₇, e₇, h₇) =
      next-eq-ok _ (finish (release host) (attempt host context r a w₆)) h₆ in
    let (done, _, _) = finish-eq-ok (release host) (attempt host context r a w₆) e₇ in
    let first = remote-eq-ok host _ checked w w₁ (i, context) e₁ in
    let offer = remote-eq-ok host _ offered w₁ w₂ (r, a) e₂ in
    let only : (s : Record) (b : Ack) → Offers host.lib context s b → (s ≡ r) × (b ≡ a) =
      only_offer host inspection context i r a restores first offer in
    let both = &&-parts _ _ (check-eq-ok meant (codes "invalid_context") e₃).0 in
    record {
      row = r;
      ack = a;
      original = i;
      context = context;
      checked = first;
      offered = offer;
      plan = (text_eq_iff confirmation a.plan).0 both.1;
      runtime = (text_eq_iff a.basis.runtime host.runtime).0 both.0;
      status = status;
      made = sym (ok-injective (ap (λ x. x.0) h₇));
      evidence =
          attempt-Yields host context r a only w₆ (attempt host context r a w₆).1 status
            (ap (λ x. (x, (attempt host context r a w₆).1)) done);
    }
