-- ===== src/GlobalRecovery/Steps.antt =====
-- The invariant of the log, and the parts of the peer's code that keep a property of its state.
use ottplay_control_server.Prelude.{
  ◌≡◌, refl, Bool, true, false, ◌&&◌, ◌||◌, Option, List, [], ◌∷◌, Result, ok, err,
}
use ottplay_control_server.Effects.{check, get_state, modify, next, next_lem, lift}
use ottplay_control_server.Text.{Text, text_eq, elem, codes}
use ottplay_control_server.Json.Value.{Fields}
use ottplay_control_server.GlobalRecovery.Objects.{Failure}
use ottplay_control_server.GlobalRecovery.Requests.{
  Ack, Request, acknowledge, request_fields, validate_request,
}
use ottplay_control_server.GlobalRecovery.Results.{
  Answer, listed, inspected, acknowledged, refused, validate_result,
}
use ottplay_control_server.GlobalRecovery.Peer.{
  Event, saved, posted, Host, World, M, remote, Status, inspection_in, page_in, blocked_unless, rpc,
}

-- The plans of the acknowledgements that are posted, newest first.
abbrev pub plans : List Event → List Text
plans [] = []
plans (posted (acknowledge a) ∷ log) = a.plan ∷ plans log
plans (_ ∷ log) = plans log

-- The intent of the plan was saved.
abbrev pub intended : Text → List Event → Bool
intended plan [] = false
intended plan (saved p b ∷ log) = (b && text_eq plan p) || intended plan log
intended plan (posted _ ∷ log) = intended plan log

-- Every acknowledgement is posted behind its saved intent, and was not posted before.
abbrev pub IsOrdered : List Event → Type 0
IsOrdered [] = Unit
IsOrdered (posted (acknowledge a) ∷ log) =
    (intended a.plan log ≡ true) × (elem a.plan (plans log) ≡ false) × IsOrdered log
IsOrdered (_ ∷ log) = IsOrdered log

-- The invariant: what is posted was attempted.
pub record Inv (w : World) : Type 0 where
  pub ordered : IsOrdered w.log
  pub known : (p : Text) → elem p (plans w.log) ≡ true → elem p w.attempted ≡ true

-- The acknowledgement may be posted now.
pub record Ready (a : Ack) (w : World) : Type 0 where
  pub inv : Inv w
  pub kept : intended a.plan w.log ≡ true
  pub fresh : elem a.plan (plans w.log) ≡ false
  pub begun : elem a.plan w.attempted ≡ true

abbrev pub Moves : (World → Type 0) → (World → Type 0) → {A : Type 0} → M A → Type 0
Moves P Q m = (w : World) → P w → Q (m w).1

pub bind-Moves :
    (P Q R : World → Type 0) {A B : Type 0} (m : M A) (f : A → M B)
    → Moves P Q m
    → ((w : World) → Q w → R w)
    → ((a : A) → Moves Q R (f a))
    → Moves P R (λ w. next f (m w))
bind-Moves P Q R m f k weak g w p =
    next_lem (λ o. R o.1) f (m w) (λ a _. g a (m w).1 (k w p)) (λ e _. weak (m w).1 (k w p))

pub bind-Keeps :
    (P : World → Type 0) {A B : Type 0} (m : M A) (f : A → M B)
    → Moves P P m
    → ((a : A) → Moves P P (f a))
    → Moves P P (λ w. next f (m w))
bind-Keeps P m f k g = bind-Moves P P P m f k (λ _ p. p) g

pub check-Keeps : (P : World → Type 0) (b : Bool) (code : Text) → Moves P P (check b code)
check-Keeps P true code w p = p
check-Keeps P false code w p = p

pub remote-Keeps :
    (P : World → Type 0) {A : Type 0} (code : Text) (r : Result Failure A)
    → Moves P P (remote code r)
unfolding remote
remote-Keeps P code (ok a) w p = p
remote-Keeps P code (err e) w p = p

pub inspection_in-Keeps : (P : World → Type 0) (o : Answer) → Moves P P (inspection_in o)
unfolding inspection_in
inspection_in-Keeps P (inspected i) w p = p
inspection_in-Keeps P (listed _ _) w p = p
inspection_in-Keeps P (acknowledged _) w p = p
inspection_in-Keeps P (refused _) w p = p

pub page_in-Keeps : (P : World → Type 0) (o : Answer) → Moves P P (page_in o)
unfolding page_in
page_in-Keeps P (listed _ _) w p = p
page_in-Keeps P (inspected i) w p = p
page_in-Keeps P (acknowledged _) w p = p
page_in-Keeps P (refused _) w p = p

pub blocked_unless-Keeps :
    (P : World → Type 0) (reason : Text) (b : Bool) (m : M Status) (w : World)
    → P w
    → (b ≡ true → P (m w).1)
    → P (blocked_unless reason b m w).1
unfolding blocked_unless
blocked_unless-Keeps P reason true m w p k = k refl
blocked_unless-Keeps P reason false m w p k = p

-- The parts of a request around the transport: only the posting changes the log.
pub rpc-Moves :
    (P Q : World → Type 0) (host : Host) (request : Request) (context : Option Fields)
    → ((w : World) → P w → Q w)
    → ((w : World) → P w → Q (record w { log = posted request ∷ w.log }))
    → Moves P Q (rpc host request context)
unfolding rpc
rpc-Moves P Q host request context weak posting =
    let valid = validate_request host.lib (request_fields request) in
    bind-Moves P P Q (remote (codes "invalid_response") valid) _ (remote-Keeps P _ valid) weak (λ _.
      bind-Moves P Q Q (modify (λ w. record w { log = posted request ∷ w.log })) _ posting
        (λ _ q. q)
        (λ _.
          bind-Keeps Q get_state _ (λ _ q. q)
            (λ w.
              bind-Keeps Q (lift (host.send w.log (request_fields request))) _ (λ _ q. q)
                (λ x.
                  let result = validate_result host.lib (request_fields request) x.0 x.1 context in
                  bind-Keeps Q (remote (codes "invalid_response") result) _
                    (remote-Keeps Q _ result)
                    (λ o.
                      bind-Keeps Q (check (text_eq x.1.status (codes "ok")) _) _ (check-Keeps Q _ _)
                        (λ _ _ q. q))))))
