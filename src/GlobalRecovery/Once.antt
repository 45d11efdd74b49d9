-- ===== src/GlobalRecovery/Once.antt =====
-- Each acknowledgement is posted at most once by a peer, and only behind its saved intent.
use ottplay_control_server.Prelude.{
  ◌⊎◌, ◌≡◌, refl, ap, ◌∙◌, Bool, true, false, not, none, some, List, [], ◌∷◌, Result, ok, err,
  ok-injective, Bool-cases, inl, inr, arith,
}
use ottplay_control_server.Effects.{check, get_state, modify, next, next_lem, finish_lem, finish}
use ottplay_control_server.Text.{Text, text_eq, text_eq_iff, elem, codes}
use ottplay_control_server.Text.Members.{elem-cons, elem_head}
use ottplay_control_server.Json.Value.{Fields}
use ottplay_control_server.GlobalRecovery.Records.{Record}
use ottplay_control_server.GlobalRecovery.Requests.{Ack, acknowledge}
use ottplay_control_server.GlobalRecovery.Results.{checked_inspection, recovery_ack_request}
use ottplay_control_server.GlobalRecovery.Peer.{
  Event, saved, posted, Host, World, new_world, remote, keep, blocked_unless, rpc, list, inspect,
  save, enough_time, post, attempt, release, acknowledge_plan,
}
use ottplay_control_server.GlobalRecovery.Steps.{
  plans, intended, IsOrdered, Inv, Ready, Moves, bind-Moves, bind-Keeps, check-Keeps, remote-Keeps,
  blocked_unless-Keeps, rpc-Moves,
}
use ottplay_control_server.GlobalRecovery.Reading.{
  collect-Keeps, inspect-Keeps, handle-Keeps, reconcile-Keeps,
}

module _ (host : Host) where
  -- The set of attempted plans grows before the request is posted.
  begun-Ready :
      (a : Ack) (w : World)
      → Inv w
      → intended a.plan w.log ≡ true
      → elem a.plan w.attempted ≡ false
      → Ready a (record w { attempted = a.plan ∷ w.attempted })
  begun-Ready a w p kept new = record {
    inv = record {
      ordered = p.ordered;
      known = λ q h. ground (arith, elem-cons q a.plan w.attempted, p.known q h);
    };
    kept = kept;
    fresh = ground (arith, p.known a.plan);
    begun = elem_head a.plan w.attempted;
  }

  posted-Inv :
      (a : Ack) (w : World) → Ready a w → Inv (record w { log = posted (acknowledge a) ∷ w.log })
  posted-Inv a w p = record {
    ordered = (p.kept, p.fresh, p.inv.ordered);
    known = λ q h. known_of q (Bool-cases (text_eq q a.plan)) h;
  }
    where
      known_of :
          (q : Text)
          → (text_eq q a.plan ≡ true) ⊎ (text_eq q a.plan ≡ false)
          → elem q (a.plan ∷ plans w.log) ≡ true
          → elem q w.attempted ≡ true
      known_of q (inl e) h = rw ((text_eq_iff q a.plan).0 e) p.begun
      known_of q (inr e) h = p.inv.known q (ground (arith, elem-cons q a.plan (plans w.log)))

  post-Keeps :
      (context : Fields) (r : Record) (a : Ack) (w : World)
      → Inv w
      → intended a.plan w.log ≡ true
      → elem a.plan w.attempted ≡ false
      → Inv (post host context r a w).1
  unfolding post
  post-Keeps context r a w p kept new =
      bind-Moves (λ v. v ≡ w) (Ready a) Inv
        (modify (λ w. record w { attempted = a.plan ∷ w.attempted })) _
        (λ v e. rw e (begun-Ready a w p kept new)) (λ _ q. q.inv)
        (λ _ v q.
          handle-Keeps host _ _
            (bind-Moves (Ready a) Inv Inv (rpc host (acknowledge a) (some context)) _
              (rpc-Moves (Ready a) Inv host (acknowledge a) (some context) (λ _ x. x.inv)
                (posted-Inv a))
              (λ _ x. x) (λ _ _ x. x) v q)
            (λ _. reconcile-Keeps host r a))
        w refl

  saved_kept :
      (plan : Text) (answered : Bool) (log : List Event)
      → answered ≡ true
      → intended plan (saved plan answered ∷ log) ≡ true
  saved_kept plan true log h = ground (arith, text_eq_iff plan plan)
  saved_kept plan false log h = absurd (cc)

  keep-saved :
      (plan : Text) (o : Result Text Bool) (w : World)
      → Inv w
      → Inv (keep plan o w).1
        × ((keep plan o w).1.attempted ≡ w.attempted)
        × ((keep plan o w).0 ≡ ok true → intended plan (keep plan o w).1.log ≡ true)
  unfolding keep next
  keep-saved plan (ok answered) w p = (
    record { ordered = p.ordered; known = p.known },
    refl,
    λ h. saved_kept plan answered w.log (ok-injective h),
  )
  keep-saved plan (err code) w p =
      (record { ordered = p.ordered; known = p.known }, refl, λ h. absurd (cc h))

  -- Behind the saved intent.
  behind-Keeps :
      (context : Fields) (r : Record) (a : Ack) (w : World)
      → Inv w
      → intended a.plan w.log ≡ true
      → elem a.plan w.attempted ≡ false
      → Inv
          (next
            (λ still. blocked_unless (codes "deadline_insufficient") still (post host context r a))
            (enough_time host w)).1
  unfolding enough_time next
  behind-Keeps context r a w p kept new =
      next_lem (λ o. Inv o.1) _ (enough_time host w)
        (λ still _.
          blocked_unless-Keeps Inv _ still _ w p (λ _. post-Keeps context r a w p kept new))
        (λ _ _. p)

  -- From the saving of the intent on.
  saving-Keeps :
      (context : Fields) (r : Record) (a : Ack) (w : World)
      → Inv w
      → elem a.plan w.attempted ≡ false
      → Inv
          (next
            (λ kept. blocked_unless (codes "context_not_saved") kept (λ v.
              next
                (λ still.
                  blocked_unless (codes "deadline_insufficient") still (post host context r a))
                (enough_time host v)))
            (save host context a w)).1
  unfolding save next
  saving-Keeps context r a w p new =
      let o = host.save w.log context a in
      let (inv, same, kept) = keep-saved a.plan o w p in
      next_lem (λ o. Inv o.1) _ (keep a.plan o w)
        (λ b h. blocked_unless-Keeps Inv _ b _ _ inv (λ t.
          behind-Keeps context r a (keep a.plan o w).1 inv (kept (h ∙ ap ok t)) (rw same new)))
        (λ _ _. inv)

  attempt-Keeps :
      (context : Fields) (r : Record) (a : Ack) → Moves Inv Inv (attempt host context r a)
  unfolding attempt enough_time next
  attempt-Keeps context r a w p =
      blocked_unless-Keeps Inv _ (not (elem a.plan w.attempted)) _ w p (λ new.
        next_lem (λ o. Inv o.1) _ (enough_time host w)
          (λ enough _.
            blocked_unless-Keeps Inv _ enough _ w p
              (λ _. saving-Keeps context r a w p (ground arith)))
          (λ _ _. p))

  acknowledge-Keeps :
      (inspection : Fields) (confirmation : Text)
      → Moves Inv Inv (acknowledge_plan host inspection confirmation)
  unfolding acknowledge_plan
  acknowledge-Keeps inspection confirmation =
      bind-Keeps Inv (remote _ (checked_inspection host.lib inspection)) _ (remote-Keeps Inv _ _)
        (λ x.
          bind-Keeps Inv (remote _ (recovery_ack_request host.lib x.0)) _ (remote-Keeps Inv _ _)
            (λ y. bind-Keeps Inv (check _ _) _ (check-Keeps Inv _ _) (λ _.
              bind-Keeps Inv get_state _ (λ _ p. p)
                (λ w. bind-Keeps Inv (check (not w.locked) _) _ (check-Keeps Inv _ _) (λ _.
                  bind-Keeps Inv (modify _) _
                    (λ _ p. record { ordered = p.ordered; known = p.known })
                    (λ _.
                      bind-Keeps Inv (λ v. finish (release host) (attempt host x.1 y.0 y.1 v)) _
                        (λ v p.
                          finish_lem Inv Inv (release host) (attempt host x.1 y.0 y.1 v)
                            (attempt-Keeps x.1 y.0 y.1 v p)
                            (λ _ q. record { ordered = q.ordered; known = q.known }))
                        (λ _ _ q. q)))))))

-- A call of a method of the peer.
pub data Call : Type 0 where
  list_call : Call
  inspect_call : Text → Call
  acknowledge_call : Fields → Text → Call

-- The peer behind a call, whatever its outcome.
unfoldable pub call : Host → Call → World → World
call host list_call w = (list host w).1
call host (inspect_call operation) w = (inspect host operation w).1
call host (acknowledge_call inspection confirmation) w =
    (acknowledge_plan host inspection confirmation w).1

unfoldable pub run_calls : Host → List Call → World → World
run_calls host [] w = w
run_calls host (c ∷ calls) w = run_calls host calls (call host c w)

call-Keeps : (host : Host) (c : Call) (w : World) → Inv w → Inv (call host c w)
unfolding call list
call-Keeps host list_call w p = collect-Keeps host 2 none none [] w p
call-Keeps host (inspect_call operation) w p = inspect-Keeps host operation w p
call-Keeps host (acknowledge_call inspection confirmation) w p =
    acknowledge-Keeps host inspection confirmation w p

run_calls-Inv : (host : Host) (calls : List Call) (w : World) → Inv w → Inv (run_calls host calls w)
unfolding run_calls
run_calls-Inv host [] w p = p
run_calls-Inv host (c ∷ calls) w p =
    run_calls-Inv host calls (call host c w) (call-Keeps host c w p)

-- Over any sequence of calls on a new peer, each acknowledgement is posted behind its saved intent
-- and no acknowledgement of a plan is posted twice.
pub run_calls-IsOrdered :
    (host : Host) (calls : List Call) → IsOrdered (run_calls host calls new_world).log
unfolding elem
run_calls-IsOrdered host calls =
    (run_calls-Inv host calls new_world
      (record { ordered = tt; known = λ p h. absurd (cc) })).ordered
