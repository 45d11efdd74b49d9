-- ===== src/UsbTransaction/Returned.antt =====
-- What a transaction that returns leaves behind.
use ottplay_control_server.Prelude.{
  ℕ, zero, suc, ◌-◌, ◌≡◌, refl, sym, ◌∙◌, ap, subst, Bool, true, false, ◌||◌, List, [], ◌∷◌, length,
  all, leb, ok, Option, none, some, if◌then◌else◌,
}
use ottplay_control_server.Effects.{
  pure, check, get_state, modify, next, next-eq-ok, finish-eq-ok, try_finally,
}
use ottplay_control_server.Text.{Bytes, Text, codes}
use ottplay_control_server.UsbTransaction.World.{
  Failure, Command, reserve, show, discard, stage, Adb, done, Outcome, not_run, exited, Container,
  Manager, World, M, set_depth, locked_at, require_lock, lock_required, container_unavailable,
  is_identity, found, locked, operate, ended, aux, container, replied, device_adb,
  reserve_temporary, probe, pull_file, arguments, manager_busy, manager_failed,
}
use ottplay_control_server.UsbTransaction.Operations.{
  run_all, max_payload, no_nul, is_path, is_install, is_push, substitute, discard_temporary, pull,
  staged_adb, Transaction, pulling, staging, run,
}
use ottplay_control_server.UsbTransaction.Files.{Files, left_by, left_over, open_files, At}
use ottplay_control_server.UsbTransaction.Cleanup.{run_all-At}

-- Where a computation returns it has left no file behind.
abbrev Steady : {A : Type 0} → M A → Type 0
Steady {A} m = (w v : World) (a : A) → m w ≡ (ok a, v) → left_over v.log ≡ left_over w.log

bind-Steady :
    {A B : Type 0} (m : M A) (f : A → M B)
    → Steady m
    → ((a : A) → Steady (f a))
    → Steady (λ w. next f (m w))
bind-Steady m f j k w v b h = let (a, s, h₀, h₁) = next-eq-ok f (m w) h in k a s v b h₁ ∙ j w s a h₀

pure-Steady : {A : Type 0} (a : A) → Steady {A = A} (pure a)
pure-Steady a w v b h = sym (ap (λ x. left_over x.1.log) h)

check-Steady : (b : Bool) (e : Failure) → Steady (check b e)
check-Steady true e w v a h = sym (ap (λ x. left_over x.1.log) h)
check-Steady false e w v a h = absurd (cc (ap (λ x. x.0) h))

finally-Steady :
    {A : Type 0} (m : M A) (cleanup : M (Unit {0}))
    → Steady m
    → Steady cleanup
    → Steady (try_finally m cleanup)
finally-Steady m cleanup j k w v a h =
    let (r, u, e) = finish-eq-ok cleanup (m w) h in
    k (m w).1 v u e ∙ j w (m w).1 a (ap (λ x. (x, (m w).1)) r)

depth-Steady : (depth : World → ℕ) → Steady (modify (λ w. record w { lock_depth = depth w }))
depth-Steady depth w v a h = sym (ap (λ x. left_over x.1.log) h)

get-Steady : Steady get_state
get-Steady w v a h = sym (ap (λ x. left_over x.1.log) h)

-- A command that is done leaves nothing behind.
done-left_by : (c : Text) (command : Command) (fs : Files) → left_by c command done fs ≡ fs
done-left_by c (reserve t) fs = refl
done-left_by c (discard t) fs = refl
done-left_by c (show t) fs = refl
done-left_by c (stage t payload) fs = refl

module _ (manager : Manager) where
  require_lock-Steady : Steady require_lock
  unfolding require_lock
  require_lock-Steady = bind-Steady get_state _ get-Steady (λ w. check-Steady _ lock_required)

  ended-Steady :
      (c : Text) (command : Command) (o : Outcome) → Steady (λ w. ended manager c command w o)
  ended-Steady c command not_run w v out h = absurd (cc (ap (λ x. x.0) h))
  ended-Steady c command (exited zero a) w v out h =
      sym (ap (λ x. left_over x.1.log) h) ∙ done-left_by c command (left_over w.log)
  ended-Steady c command (exited (suc n) a) w v out h = absurd (cc (ap (λ x. x.0) h))

  aux-Steady : (c : Text) (command : Command) → Steady (aux manager c command)
  unfolding aux
  aux-Steady c command =
      bind-Steady require_lock _ require_lock-Steady
        (λ _ w. ended-Steady c command (manager.execute w.log c command) w)

  replied-Steady :
      (alias : Text) (command : Adb) (o : Option Bytes)
      → Steady (λ w. replied manager alias command w o)
  replied-Steady alias command none w v a h = absurd (cc (ap (λ x. x.0) h))
  replied-Steady alias command (some out) w v a h = sym (ap (λ x. left_over x.1.log) h)

  device_adb-Steady : (alias c : Text) (command : Adb) → Steady (device_adb manager alias c command)
  unfolding device_adb
  device_adb-Steady alias c command =
      bind-Steady require_lock _ require_lock-Steady
        (λ _ w. replied-Steady alias command (manager.adb w.log alias c command) w)

  found-Steady : (o : Option Container) → Steady (found manager o)
  unfolding found
  found-Steady none w v a h = absurd (cc (ap (λ x. x.0) h))
  found-Steady (some c) w v a h =
      bind-Steady (check c.running container_unavailable) _ (check-Steady _ _)
        (λ _. bind-Steady (check (is_identity c.id) _) _ (check-Steady _ _) (λ _. pure-Steady c.id))
        w v a h

  container-Steady : Steady (container manager)
  unfolding container
  container-Steady =
      bind-Steady require_lock _ require_lock-Steady
        (λ _. bind-Steady get_state _ get-Steady (λ w. found-Steady (manager.inspect w.log)))

  reserve_temporary-Steady : (c suffix : Text) → Steady (reserve_temporary manager c suffix)
  unfolding reserve_temporary
  reserve_temporary-Steady c suffix =
      bind-Steady get_state _ get-Steady
        (λ w. bind-Steady (aux manager c _) _ (aux-Steady c _) (λ _. pure-Steady _))

  discard-Steady : (c t : Text) → Steady (discard_temporary manager c t)
  unfolding discard_temporary
  discard-Steady c t =
      bind-Steady (aux manager c (discard t)) _ (aux-Steady c _) (λ _. pure-Steady tt)

  locked_at-Steady : {A : Type 0} (m : M A) → Steady m → (n : ℕ) → Steady (locked_at manager n m)
  unfolding locked_at
  locked_at-Steady m k (suc n) =
      bind-Steady (set_depth (suc (suc n))) _ (depth-Steady (λ _. suc (suc n)))
        (λ _. finally-Steady m _ k (depth-Steady (λ w. w.lock_depth - 1)))
  locked_at-Steady m k zero = bind-Steady get_state _ get-Steady (λ w.
      bind-Steady (check (manager.lock w.log) manager_busy) _ (check-Steady _ _) (λ _.
        bind-Steady (set_depth 1) _ (depth-Steady (λ _. 1))
          (λ _. finally-Steady m _ k (depth-Steady (λ _. 0)))))

  operate-Steady :
      {A : Type 0} (alias : Text) (m : M A) → Steady m → Steady (operate manager alias m)
  unfolding operate locked
  operate-Steady alias m k w =
      locked_at-Steady _
        (bind-Steady get_state _ get-Steady (λ w.
          bind-Steady (check (manager.prepare w.log alias) manager_failed) _ (check-Steady _ _)
            (λ _. k)))
        w.lock_depth w

  pull-Steady : (alias path : Text) → Steady (pull manager alias path)
  unfolding pull
  pull-Steady alias path = bind-Steady (check (is_path path) _) _ (check-Steady _ _) (λ _.
      operate-Steady alias _ (
        bind-Steady (container manager) _ container-Steady (λ c.
          bind-Steady (device_adb manager alias c (probe path)) _ (device_adb-Steady alias c _)
            (λ kind. bind-Steady (check _ _) _ (check-Steady _ _) (λ _.
              bind-Steady (reserve_temporary manager c []) _ (reserve_temporary-Steady c []) (λ t.
                finally-Steady _ (discard_temporary manager c t)
                  (bind-Steady (device_adb manager alias c (pull_file path t max_payload)) _
                    (device_adb-Steady alias c _) (λ _. aux-Steady c (show t)))
                  (discard-Steady c t)))))))

  staged_adb-Steady :
      (alias : Text) (payload : Bytes) (words : List Text)
      → Steady (staged_adb manager alias payload words)
  unfolding staged_adb
  staged_adb-Steady alias payload words =
      bind-Steady (check (leb (length payload) max_payload) _) _ (check-Steady _ _) (λ _.
        bind-Steady (check (all no_nul words) _) _ (check-Steady _ _) (λ _.
          bind-Steady (check (is_install words || is_push words) _) _ (check-Steady _ _) (λ _.
            operate-Steady alias _ (
              bind-Steady (container manager) _ container-Steady (λ c.
                bind-Steady
                  (reserve_temporary manager c (if is_install words then codes ".apk" else [])) _
                  (reserve_temporary-Steady c _)
                  (λ t.
                    finally-Steady _ (discard_temporary manager c t)
                      (bind-Steady (aux manager c (stage t payload)) _ (aux-Steady c _)
                        (λ _. device_adb-Steady alias c (arguments (substitute t words))))
                      (discard-Steady c t)))))))

  run-Steady : (t : Transaction) → Steady (run manager t)
  unfolding run
  run-Steady (pulling alias path) = pull-Steady alias path
  run-Steady (staging alias payload words) = staged_adb-Steady alias payload words

-- The temporary files that may be there are those whose creation was lost and those whose removal did
-- not succeed, every removal was of a file that may have been created before, and the lock has some
-- depth. Then a transaction that returns a result leaves exactly the temporary files that may have
-- been there before it.
pub run-open_files :
    (manager : Manager) (t : Transaction) (n : ℕ) (w v : World) (out : Bytes)
    → At n [] w
    → run manager t w ≡ (ok out, v)
    → open_files v.log ≡ open_files w.log
unfolding run_all
run-open_files manager t n w v out p h =
    let q : At n [] v = subst (λ x. At n [] x.1) h (run_all-At manager (t ∷ []) n w p) in
    q.files ∙ run-Steady manager t w v out h ∙ sym p.files
