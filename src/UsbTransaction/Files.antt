-- ===== src/UsbTransaction/Files.antt =====
-- The temporary files behind a log of events, and steps that keep them.
use ottplay_control_server.Prelude.{
  ℕ, ◌≡◌, refl, ap, ◌∙◌, Bool, true, false, ◌&&◌, ◌||◌, List, [], ◌∷◌, ◌++◌, if◌then◌else◌,
}
use ottplay_control_server.Effects.{check, next, next_lem}
use ottplay_control_server.Text.{Text, text_eq, text_eq_iff}
use ottplay_control_server.UsbTransaction.World.{
  Failure, Command, reserve, show, discard, stage, Ending, done, failed, lost, Event, executed,
  sent, World, M, noted,
}

-- Temporary files, each with its container.
abbrev pub Files : Type 0
Files = List (Text × Text)

abbrev pub same_file : Text → Text → Text × Text → Bool
same_file c t f = text_eq f.0 c && text_eq f.1 t

abbrev pub take_out : Text → Text → Files → Files
take_out c t [] = []
take_out c t (f ∷ fs) = let rest = take_out c t fs in if same_file c t f then fs else f ∷ rest

abbrev pub holds : Text → Text → Files → Bool
holds c t [] = false
holds c t (f ∷ fs) = same_file c t f || holds c t fs

-- What a command that ended like this does to the files that may be there: one that was lost may have
-- created its file, and only a removal that is known to have succeeded counts.
abbrev pub after : Text → Command → Ending → Files → Files
after c (reserve t) done fs = (c, t) ∷ fs
after c (reserve t) failed fs = fs
after c (reserve t) lost fs = (c, t) ∷ fs
after c (discard t) done fs = take_out c t fs
after c (discard t) failed fs = fs
after c (discard t) lost fs = fs
after c (show t) e fs = fs
after c (stage t payload) e fs = fs

-- The temporary files that may be there behind these events, newest first.
abbrev pub open_files : List Event → Files
open_files [] = []
open_files (sent alias command ∷ log) = open_files log
open_files (executed c command e ∷ log) = after c command e (open_files log)

-- The file that a command may leave behind for good: that of a creation that was lost, and that of a
-- removal that is not known to have succeeded.
abbrev pub left_by : Text → Command → Ending → Files → Files
left_by c (reserve t) done fs = fs
left_by c (reserve t) failed fs = fs
left_by c (reserve t) lost fs = (c, t) ∷ fs
left_by c (discard t) done fs = fs
left_by c (discard t) failed fs = (c, t) ∷ fs
left_by c (discard t) lost fs = (c, t) ∷ fs
left_by c (show t) e fs = fs
left_by c (stage t payload) e fs = fs

-- These files behind all events, newest first.
abbrev pub left_over : List Event → Files
left_over [] = []
left_over (sent alias command ∷ log) = left_over log
left_over (executed c command e ∷ log) = left_by c command e (left_over log)

abbrev pub Own : Text → Command → Files → Type 0
Own c (discard t) fs = holds c t fs ≡ true
Own c (reserve t) fs = Unit
Own c (show t) fs = Unit
Own c (stage t payload) fs = Unit

-- Every removal is of a file that may have been created before and is not yet removed.
abbrev pub OwnRemovals : List Event → Type 0
OwnRemovals [] = Unit
OwnRemovals (sent alias command ∷ log) = OwnRemovals log
OwnRemovals (executed c command e ∷ log) = Own c command (open_files log) × OwnRemovals log

-- The depth of the lock is this one; and the temporary files are these, besides those of the lost
-- creations and of the removals that did not succeed.
pub record At (n : ℕ) (fs : Files) (w : World) : Type 0 where
  pub depth : w.lock_depth ≡ n
  pub files : open_files w.log ≡ fs ++ left_over w.log
  pub own : OwnRemovals w.log

pub same_file_refl : (c t : Text) → same_file c t (c, t) ≡ true
same_file_refl c t = rw ((text_eq_iff c c).1 refl, (text_eq_iff t t).1 refl) refl

abbrev pub Keeps : (World → Type 0) → {A : Type 0} → M A → Type 0
Keeps P m = (w : World) → P w → P (m w).1

-- A step that keeps a property, and the rest of its value.
pub bind-Keeps :
    (P : World → Type 0) {A B : Type 0} (m : M A) (f : A → M B)
    → Keeps P m
    → ((a : A) → Keeps P (f a))
    → Keeps P (λ w. next f (m w))
bind-Keeps P m f k g w p = next_lem (λ o. P o.1) f (m w) (λ a _. g a (m w).1 (k w p)) (λ e _. k w p)

pub check-Keeps : (P : World → Type 0) (b : Bool) (e : Failure) → Keeps P (check b e)
check-Keeps P true e w p = p
check-Keeps P false e w p = p

-- A command, by what it does to the files.
pub executed-At :
    (n : ℕ) (gs fs : Files) (c : Text) (command : Command) (e : Ending) (w : World)
    → ((xs : Files) → after c command e (gs ++ xs) ≡ fs ++ left_by c command e xs)
    → ((xs : Files) → Own c command (gs ++ xs))
    → At n gs w
    → At n fs (noted (executed c command e) w)
executed-At n gs fs c command e w same mine p = record {
  depth = p.depth;
  files = ap (after c command e) p.files ∙ same (left_over w.log);
  own = (rw p.files (mine (left_over w.log)), p.own);
}
