-- ===== src/GlobalRecovery/Reading.antt =====
-- `list`, `inspect` and the reconciliation keep the invariant: they post no acknowledgement.
use ottplay_control_server.Prelude.{
  ℕ, suc, zero, Option, none, some, List, Result, ok, err, Bool-cases, inl, inr,
}
use ottplay_control_server.Effects.{check, handle}
use ottplay_control_server.Text.{Text}
use ottplay_control_server.GlobalRecovery.Records.{Record}
use ottplay_control_server.GlobalRecovery.Requests.{Cursor, Ack, page, single}
use ottplay_control_server.GlobalRecovery.Replies.{Page, audited}
use ottplay_control_server.GlobalRecovery.Inspections.{Inspection}
use ottplay_control_server.GlobalRecovery.Peer.{
  Host, World, M, page_in, agree, Ledger, ended, has_record, seen, rpc, collect, inspect, reconcile,
}
use ottplay_control_server.GlobalRecovery.Steps.{
  Inv, Moves, bind-Keeps, check-Keeps, inspection_in-Keeps, page_in-Keeps, rpc-Moves,
}

module _ (host : Host) where
  -- A request that is no acknowledgement.
  page-Keeps : (runtime : Text) (c : Option Cursor) → Moves Inv Inv (rpc host (page runtime c) none)
  page-Keeps runtime c =
      rpc-Moves Inv Inv host (page runtime c) none (λ _ p. p)
        (λ w p. record { ordered = p.ordered; known = p.known })

  single-Keeps :
      (runtime operation : Text) → Moves Inv Inv (rpc host (single runtime operation) none)
  single-Keeps runtime operation =
      rpc-Moves Inv Inv host (single runtime operation) none (λ _ p. p)
        (λ w p. record { ordered = p.ordered; known = p.known })

  agree-Keeps : (first : Option Page) (p : Page) → Moves Inv Inv (agree first p)
  unfolding agree
  agree-Keeps none p = λ _ i. i
  agree-Keeps (some f) p = bind-Keeps Inv (check _ _) _ (check-Keeps Inv _ _) (λ _ _ i. i)

  ended-Keeps :
      (next : Option Cursor) (f : Page) (rows : List Record) (more : Cursor → M Ledger)
      → ((c : Cursor) → Moves Inv Inv (more c))
      → Moves Inv Inv (ended next f rows more)
  unfolding ended
  ended-Keeps (some c) f rows more k = k c
  ended-Keeps none f rows more k = bind-Keeps Inv (check _ _) _ (check-Keeps Inv _ _) (λ _ _ i. i)

  pub collect-Keeps :
      (left : ℕ) (c : Option Cursor) (first : Option Page) (rows : List Record)
      → Moves Inv Inv (collect host left c first rows)
  unfolding collect
  collect-Keeps zero c first rows = λ _ p. p
  collect-Keeps (suc left) c first rows =
      bind-Keeps Inv (rpc host (page host.runtime c) none) _ (page-Keeps host.runtime c) (λ o.
        bind-Keeps Inv (page_in o) _ (page_in-Keeps Inv o) (λ x.
          bind-Keeps Inv (agree first x.0) _ (agree-Keeps first x.0)
            (λ f. ended-Keeps x.1 f _ _ (λ c. collect-Keeps left (some c) (some f) _))))

  pub inspect-Keeps : (operation : Text) → Moves Inv Inv (inspect host operation)
  unfolding inspect
  inspect-Keeps operation =
      bind-Keeps Inv (rpc host (single host.runtime operation) none) _
        (single-Keeps host.runtime operation) (λ o. inspection_in-Keeps Inv o)

  seen-Keeps : (r : Record) (a : Ack) (i : Inspection) → Moves Inv Inv (seen r a i)
  unfolding seen
  seen-Keeps r a i w p = elim (Bool-cases (has_record i.record_of (audited r a))) [
    | inl h ↦ rw h p
    | inr h ↦ rw h p
  ]

  -- A handler that keeps the invariant too.
  pub handle-Keeps :
      {A : Type 0} (h : Text → M A) (o : Result Text A × World)
      → Inv o.1
      → ((e : Text) → Moves Inv Inv (h e))
      → Inv (handle h o).1
  unfolding handle
  handle-Keeps h (ok a, w) p k = p
  handle-Keeps h (err e, w) p k = k e w p

  pub reconcile-Keeps : (r : Record) (a : Ack) → Moves Inv Inv (reconcile host r a)
  unfolding reconcile
  reconcile-Keeps r a w p =
      handle-Keeps _ _
        (bind-Keeps Inv (inspect host a.basis.operation) _ (inspect-Keeps a.basis.operation)
          (seen-Keeps r a) w p)
        (λ _ _ q. q)
