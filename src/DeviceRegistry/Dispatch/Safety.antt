-- ===== src/DeviceRegistry/Dispatch/Safety.antt =====
-- The order of checkpoint and change over a whole command, and the number of changes.
use ottplay_control_server.Prelude.{
  ℕ, suc, ◌≡◌, ◌≤◌, refl, ◌∙◌, Bool, true, Option, none, some, List, ok, arith,
}
use ottplay_control_server.Text.{Text}
use ottplay_control_server.Dict.{is_some}
use ottplay_control_server.Json.Value.{Value}
use ottplay_control_server.DeviceRegistry.World.{
  Request, Reply, not_sent, lost, answer, refused, sent, checkpoint_written, checkpoint_removed,
  Write, kept, done, unsynced, Host, World, noted, answered, call, stored, gone, removing,
  save_checkpoint, remove_checkpoint,
}
use ottplay_control_server.DeviceRegistry.Session.Frame.{Frame}
use ottplay_control_server.DeviceRegistry.Session.Guarded.{mutations, IsGuarded}
use ottplay_control_server.DeviceRegistry.Session.Rules.{Rules}
use ottplay_control_server.DeviceRegistry.Dispatch.{dispatch}
use ottplay_control_server.DeviceRegistry.Dispatch.Rules.{dispatch_rule}

-- The properties that the rules are applied to.
module _ (start : Bool) where
  abbrev Present : World → Type 0
  Present w = IsGuarded start w × (is_some w.checkpoint_file ≡ true)

  guarded_frame : Frame (IsGuarded start)
  guarded_frame = record {
    sends =
        λ r w m p. record { in_place = p.in_place; covered = (λ h. absurd (cc (h, m)), p.covered) };
    configures = λ v w p. record { in_place = p.in_place; covered = p.covered };
    connects = λ c w p. record { in_place = p.in_place; covered = p.covered };
  }

  Present-frame : Frame Present
  Present-frame = record {
    sends = λ r w m p. (guarded_frame.sends r w m p.0, p.1);
    configures = λ v w p. (guarded_frame.configures v w p.0, p.1);
    connects = λ c w p. (guarded_frame.connects c w p.0, p.1);
  }

  sent-IsGuarded : (r : Request) (w : World) → Present w → IsGuarded start (noted (sent r) w)
  sent-IsGuarded r w p = record {
    in_place = p.0.in_place;
    covered = (λ _. p.0.in_place ∙ p.1, p.0.covered);
  }

  module _ (host : Host) where
    answered-IsGuarded :
        (r : Request) (w : World) (a : Reply) → Present w → IsGuarded start (answered host r w a).1
    answered-IsGuarded r w not_sent p = p.0
    answered-IsGuarded r w lost p = sent-IsGuarded r w p
    answered-IsGuarded r w (answer code v) p = sent-IsGuarded r w p
    answered-IsGuarded r w (refused code) p = sent-IsGuarded r w p

    gone-IsGuarded : (w : World) (o : Write) → IsGuarded start w → IsGuarded start (gone host w o).1
    gone-IsGuarded w kept p = p
    gone-IsGuarded w done p = record { in_place = refl; covered = p.covered }
    gone-IsGuarded w unsynced p = record { in_place = refl; covered = p.covered }

    removing-IsGuarded :
        (w : World) (f : Option Value) → IsGuarded start w → IsGuarded start (removing host w f).1
    removing-IsGuarded w none p = p
    removing-IsGuarded w (some v) p = gone-IsGuarded w (host.write w.log checkpoint_removed) p

    saved-Present :
        (v : Value) (w : World) (o : Write)
        → IsGuarded start w
        → let r =
            stored host (checkpoint_written v) (λ w. record w { checkpoint_file = some v }) w o in
          ((u : Unit {0}) → r.0 ≡ ok u → Present r.1) × IsGuarded start r.1
    saved-Present v w kept p = (λ u e. absurd (cc e), p)
    saved-Present v w done p = (
      λ u e. (record { in_place = refl; covered = p.covered }, refl),
      record { in_place = refl; covered = p.covered },
    )
    saved-Present v w unsynced p =
        (λ u e. absurd (cc e), record { in_place = refl; covered = p.covered })

    guarded-Rules : Rules (IsGuarded start) Present (IsGuarded start) host
    unfolding call save_checkpoint remove_checkpoint
    guarded-Rules = record {
      before = guarded_frame;
      between = Present-frame;
      after = guarded_frame;
      weakens = λ w p. p;
      relaxes = λ w p. p.0;
      opens = λ w p h. (p, h);
      removes = λ w p. removing-IsGuarded w w.checkpoint_file p;
      posts = λ r w p. answered-IsGuarded r w (host.reply w.log r) p;
      saves = λ v w p. saved-Present v w (host.write w.log (checkpoint_written v)) p;
    }

-- Over any command, if this held before, every change of the registry is sent while a checkpoint is
-- in place, whatever the controller replies and whichever writes fail.
pub dispatch-IsGuarded :
    (host : Host) (start : Bool) (action : Text) (tail : List Text) (explicit : Bool) (w : World)
    → IsGuarded start w
    → IsGuarded start (dispatch host action tail explicit w).1
dispatch-IsGuarded host start action tail explicit w p =
    dispatch_rule (IsGuarded start) (Present start) (IsGuarded start) host
      (guarded-Rules start host) action tail explicit w p

module _ (most : ℕ) where
  abbrev AtMost : World → Type 0
  AtMost w = mutations w.log ≤ most

  abbrev OneMore : World → Type 0
  OneMore w = mutations w.log ≤ suc most

  AtMost-frame : Frame AtMost
  AtMost-frame = record {
    sends = λ r w m p. ground (arith, m);
    configures = λ v w p. p;
    connects = λ c w p. p;
  }

  OneMore-frame : Frame OneMore
  OneMore-frame = record {
    sends = λ r w m p. ground (arith, m);
    configures = λ v w p. p;
    connects = λ c w p. p;
  }

  module _ (host : Host) where
    sent-OneMore : (r : Request) (w : World) → AtMost w → OneMore (noted (sent r) w)
    sent-OneMore r w p = ground arith

    answered-OneMore :
        (r : Request) (w : World) (a : Reply) → AtMost w → OneMore (answered host r w a).1
    answered-OneMore r w not_sent p = omega arith
    answered-OneMore r w lost p = sent-OneMore r w p
    answered-OneMore r w (answer code v) p = sent-OneMore r w p
    answered-OneMore r w (refused code) p = sent-OneMore r w p

    removing-OneMore : (w : World) (f : Option Value) → OneMore w → OneMore (removing host w f).1
    removing-OneMore w none p = p
    removing-OneMore w (some v) p = gone_case (host.write w.log checkpoint_removed)
      where
        gone_case : (o : Write) → OneMore (gone host w o).1
        gone_case kept = p
        gone_case done = p
        gone_case unsynced = p

    saved-AtMost :
        (v : Value) (w : World) (o : Write)
        → AtMost w
        → AtMost
            (stored host (checkpoint_written v) (λ w. record w { checkpoint_file = some v }) w o).1
    saved-AtMost v w kept p = p
    saved-AtMost v w done p = p
    saved-AtMost v w unsynced p = p

    once-Rules : Rules AtMost AtMost OneMore host
    unfolding call save_checkpoint remove_checkpoint
    once-Rules = record {
      before = AtMost-frame;
      between = AtMost-frame;
      after = OneMore-frame;
      weakens = λ w p. omega arith;
      relaxes = λ w p. p;
      opens = λ w p h. p;
      removes = λ w p. removing-OneMore w w.checkpoint_file p;
      posts = λ r w p. answered-OneMore r w (host.reply w.log r) p;
      saves = λ v w p.
          let q = saved-AtMost v w (host.write w.log (checkpoint_written v)) p in (λ u e. q, q);
    }

-- A command sends at most one change of the registry, also where replies are lost or a checkpoint is
-- resumed.
pub dispatch-once :
    (host : Host) (action : Text) (tail : List Text) (explicit : Bool) (w : World)
    → mutations (dispatch host action tail explicit w).1.log ≤ suc (mutations w.log)
dispatch-once host action tail explicit w =
    dispatch_rule (AtMost (mutations w.log)) (AtMost (mutations w.log)) (OneMore (mutations w.log))
      host (once-Rules (mutations w.log) host) action tail explicit w (omega arith)
