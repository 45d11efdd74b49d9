-- ===== src/GlobalItems/Peer.antt =====
-- `ItemsPeer`: which calls dispatch a playback. A `Listing` object is known by its serial number.
use ottplay_control_server.Prelude.{
  ℕ, suc, ◌+◌, ◌≡◌, ◌≤◌, Bool, true, false, not, ◌&&◌, Option, none, some, List, [], ◌∷◌, ◌==◌, any,
  length, Result, ok, err, ◌>>◌, guard, guard-eq-ok, >>=-eq-ok, refl, arith,
}
use ottplay_control_server.Text.{Text, text_eq}
use ottplay_control_server.GlobalItems.Page.{Failure, already_started, invalid_snapshot}
use ottplay_control_server.GlobalItems.Listing.{Listing}

-- A `Listing` object.
pub record Handle : Type 0 where
  pub serial : ℕ
  pub listing : Listing

-- `_listing` and `_played`, with the serial number of the next object.
pub record Peer : Type 0 where
  pub listing : Option Handle
  pub played : Bool
  pub next : ℕ

abbrev pub new_peer : Peer
new_peer = record { listing = none; played = false; next = 0 }

-- A call with what its parts that are not the peer's give: the loop of a list, whether the
-- handle's target is the peer's, and the check of the request's parameters.
pub data Call : Type 0 where
  list : Result Failure Listing → Call
  current : Call
  play : Text → Handle → Bool → Result Failure (Unit {0}) → Call

is_current : Handle → Option Handle → Bool
is_current h none = false
is_current h (some own) = h.serial == own.serial

-- The tests of `play`, up to the moment where `_played` is set.
unfoldable pub may_play :
    Text → Handle → Bool → Result Failure (Unit {0}) → Peer → Result Failure (Unit {0})
unfolding is_current
may_play item h same_target params p = do
  guard (is_current h p.listing && same_target) invalid_snapshot
  guard (not p.played) already_started
  guard (any (λ row. text_eq row.id item) h.listing.rows) invalid_snapshot
  params

-- The peer behind `list`, which forgets its listing first.
unfoldable pub after_list : Result Failure Listing → Peer → Peer
after_list (err e) p = record p { listing = none; played = false }
after_list (ok l) p = record p {
  listing = some (record { serial = p.next; listing = l });
  played = false;
  next = suc p.next;
}

-- The rest of `play`: `_played` is set before the request is sent.
abbrev after_play : Text → Peer → Result Failure (Unit {0}) → Peer × Option Text
after_play item p (err e) = (p, none)
after_play item p (ok _) = (record p { played = true }, some item)

-- The peer behind a call, and the item of the playback that is dispatched.
unfoldable pub step : Call → Peer → Peer × Option Text
step (list result) p = (after_list result p, none)
step current p = (p, none)
step (play item h same_target params) p = after_play item p (may_play item h same_target params p)

abbrev noted : Option Text → List Text → List Text
noted none items = items
noted (some item) items = item ∷ items

-- The items that a sequence of calls dispatches.
unfoldable pub dispatched : List Call → Peer → List Text
dispatched [] p = []
dispatched (c ∷ calls) p = let (q, item) = step c p in noted item (dispatched calls q)

-- The lists that were complete.
abbrev pub completed : List Call → ℕ
completed [] = 0
completed (list (ok _) ∷ calls) = suc (completed calls)
completed (_ ∷ calls) = completed calls

-- A playback that the peer may still dispatch.
abbrev ready : Option Handle → Bool → ℕ
ready none played = 0
ready (some h) true = 0
ready (some h) false = 1

played_not_ready : (o : Option Handle) → ready o true ≡ 0
played_not_ready none = refl
played_not_ready (some h) = refl

may_play-ready :
    (item : Text) (h : Handle) (same_target : Bool) (params : Result Failure (Unit {0})) (p : Peer)
    {u : Unit {0}}
    → may_play item h same_target params p ≡ ok u
    → ready p.listing p.played ≡ 1
unfolding may_play is_current
may_play-ready item h same_target params p e =
    let (_, own, e₁) =
      >>=-eq-ok (guard (is_current h p.listing && same_target) invalid_snapshot) _ e in
    let (_, fresh, _) = >>=-eq-ok (guard (not p.played) already_started) _ e₁ in
    both p.listing p.played (guard-eq-ok _ _ own) (guard-eq-ok _ _ fresh)
  where
    both :
        (o : Option Handle) (played : Bool)
        → (is_current h o && same_target) ≡ true
        → not played ≡ true
        → ready o played ≡ 1
    both none played a b = absurd (cc)
    both (some own) true a b = absurd (cc)
    both (some own) false a b = refl

after_play-le :
    (calls : List Call) (item : Text) (p : Peer) (r : Result Failure (Unit {0}))
    → ((u : Unit {0}) → r ≡ ok u → ready p.listing p.played ≡ 1)
    → ((q : Peer) → length (dispatched calls q) ≤ ready q.listing q.played + completed calls)
    → length (noted (after_play item p r).1 (dispatched calls (after_play item p r).0))
      ≤ ready p.listing p.played + completed calls
after_play-le calls item p (err e) one rest = rest p
after_play-le calls item p (ok u) one rest =
    omega (arith, one u refl, played_not_ready p.listing, rest (record p { played = true }))

dispatched-le :
    (calls : List Call) (p : Peer)
    → length (dispatched calls p) ≤ ready p.listing p.played + completed calls
unfolding dispatched step after_list
dispatched-le [] p = omega arith
dispatched-le (list (ok l) ∷ calls) p = omega (arith, dispatched-le calls (after_list (ok l) p))
dispatched-le (list (err e) ∷ calls) p = omega (arith, dispatched-le calls (after_list (err e) p))
dispatched-le (current ∷ calls) p = dispatched-le calls p
dispatched-le (play item h same_target params ∷ calls) p =
    after_play-le calls item p (may_play item h same_target params p)
      (λ u e. may_play-ready item h same_target params p e) (dispatched-le calls)

-- Over any sequence of calls on a new peer, no more playbacks are dispatched than lists were
-- completed.
pub dispatched-le-completed :
    (calls : List Call) → length (dispatched calls new_peer) ≤ completed calls
dispatched-le-completed calls = omega (arith, dispatched-le calls new_peer)
