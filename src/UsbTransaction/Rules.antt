-- ===== src/UsbTransaction/Rules.antt =====
-- What the parts of a transaction do to the temporary files, under the lock.
use ottplay_control_server.Prelude.{
  ℕ, zero, suc, ◌≡◌, refl, ◌∙◌, inl, inr, Bool-cases, true, Option, none, some, [], ◌∷◌, ◌++◌, ltb,
  arith,
}
use ottplay_control_server.Effects.{pure, check, next, next_lem, finish_lem, try_finally}
use ottplay_control_server.Text.{Bytes, Text, codes}
use ottplay_control_server.UsbTransaction.World.{
  manager_failed, lock_required, container_unavailable, Command, reserve, discard, Adb, Ending,
  done, failed, lost, executed, Outcome, not_run, exited, Container, Manager, World, M, noted,
  set_depth, leave, require_lock, is_identity, locked_at, locked, operate, found, container, ended,
  aux, replied, device_adb, reserve_temporary,
}
use ottplay_control_server.UsbTransaction.Operations.{discard_temporary}
use ottplay_control_server.UsbTransaction.Files.{
  Files, At, after, left_by, Own, same_file_refl, Keeps, bind-Keeps, check-Keeps, executed-At,
}

module _ (manager : Manager) (files : Files) where
  module _ (n : ℕ) where
    require_lock-Keeps : Keeps (At n files) require_lock
    unfolding require_lock next
    require_lock-Keeps w p = check-Keeps (At n files) (ltb 0 w.lock_depth) lock_required w p

    ended-At :
        (c : Text) (command : Command) (o : Outcome)
        → ((e : Ending) (xs : Files)
            → after c command e (files ++ xs) ≡ files ++ left_by c command e xs)
        → ((xs : Files) → Own c command (files ++ xs))
        → (w : World) → At n files w
        → At n files (ended manager c command w o).1
    ended-At c command not_run same mine w p =
        executed-At n files files c command lost w (same lost) mine p
    ended-At c command (exited zero out) same mine w p =
        executed-At n files files c command done w (same done) mine p
    ended-At c command (exited (suc k) out) same mine w p =
        executed-At n files files c command failed w (same failed) mine p

    pub aux-Keeps :
        (c : Text) (command : Command)
        → ((e : Ending) (xs : Files)
            → after c command e (files ++ xs) ≡ files ++ left_by c command e xs)
        → ((xs : Files) → Own c command (files ++ xs))
        → Keeps (At n files) (aux manager c command)
    unfolding aux
    aux-Keeps c command same mine =
        bind-Keeps (At n files) require_lock _ require_lock-Keeps
          (λ _ w p. ended-At c command (manager.execute w.log c command) same mine w p)

    replied-At :
        (alias : Text) (command : Adb) (o : Option Bytes) (w : World)
        → At n files w
        → At n files (replied manager alias command w o).1
    replied-At alias command none w p = record { depth = p.depth; files = p.files; own = p.own }
    replied-At alias command (some out) w p = record {
      depth = p.depth;
      files = p.files;
      own = p.own;
    }

    pub device_adb-Keeps :
        (alias c : Text) (command : Adb) → Keeps (At n files) (device_adb manager alias c command)
    unfolding device_adb
    device_adb-Keeps alias c command =
        bind-Keeps (At n files) require_lock _ require_lock-Keeps
          (λ _ w p. replied-At alias command (manager.adb w.log alias c command) w p)

    found-Keeps : (o : Option Container) → Keeps (At n files) (found manager o)
    unfolding found
    found-Keeps none = λ w p. p
    found-Keeps (some c) =
        bind-Keeps (At n files) (check c.running container_unavailable) _
          (check-Keeps _ c.running _)
          (λ _.
            bind-Keeps (At n files) (check (is_identity c.id) _) _ (check-Keeps _ _ _) (λ _ w p. p))

    pub container-Keeps : Keeps (At n files) (container manager)
    unfolding container next
    container-Keeps =
        bind-Keeps (At n files) require_lock _ require_lock-Keeps
          (λ _ w p. found-Keeps (manager.inspect w.log) w p)

module _ (manager : Manager) (n : ℕ) (c : Text) where
  removed_by :
      (t : Text) (e : Ending) (w : World)
      → At n ((c, t) ∷ []) w
      → ((xs : Files) → after c (discard t) e ((c, t) ∷ xs) ≡ left_by c (discard t) e xs)
      → At n [] (noted (executed c (discard t) e) w)
  removed_by t e w p same =
      executed-At n ((c, t) ∷ []) [] c (discard t) e w same (λ xs. rw (same_file_refl c t) refl) p

  -- The removal of the file that was created last, however it ends.
  removed-At :
      (t : Text) (o : Outcome) (w : World)
      → At n ((c, t) ∷ []) w
      → At n [] (ended manager c (discard t) w o).1
  removed-At t not_run w p = removed_by t lost w p (λ xs. refl)
  removed-At t (exited zero out) w p = removed_by t done w p (λ xs. rw (same_file_refl c t) refl)
  removed-At t (exited (suc k) out) w p = removed_by t failed w p (λ xs. refl)

module _ (manager : Manager) (n : ℕ) (c : Text) where
  -- Under the lock, the cleanup of a file removes it or fails.
  discard_temporary-At :
      (t : Text) (w : World)
      → At (suc n) ((c, t) ∷ []) w
      → At (suc n) [] (discard_temporary manager c t w).1
  unfolding discard_temporary aux require_lock next
  discard_temporary-At t w p =
      let held : ltb 0 w.lock_depth ≡ true = ground (arith, p.depth) in
      let o = manager.execute w.log c (discard t) in
      rw held (
        next_lem (λ r. At (suc n) [] r.1) _ (ended manager c (discard t) w o)
          (λ _ _. removed-At manager (suc n) c t o w p)
          (λ _ _. removed-At manager (suc n) c t o w p))

  module _ (body : Text → M Bytes)
      (kept : (t : Text) → Keeps (At (suc n) ((c, t) ∷ [])) (body t)) where
    abbrev with_file : Text → M Bytes
    with_file t = try_finally (body t) (discard_temporary manager c t)

    reserved-At :
        (t : Text) (o : Outcome) (w : World)
        → At (suc n) [] w
        → At (suc n) [] (next with_file (next (λ _. pure t) (ended manager c (reserve t) w o))).1
    unfolding next
    reserved-At t not_run w p =
        executed-At (suc n) [] [] c (reserve t) lost w (λ xs. refl) (λ xs. tt) p
    reserved-At t (exited zero out) w p =
        let v = noted (executed c (reserve t) done) w in
        finish_lem (At (suc n) []) (At (suc n) ((c, t) ∷ [])) (discard_temporary manager c t)
          (body t v)
          (kept t v
            (executed-At (suc n) [] ((c, t) ∷ []) c (reserve t) done w (λ xs. refl) (λ xs. tt) p))
          (λ u q. discard_temporary-At t u q)
    reserved-At t (exited (suc k) out) w p =
        executed-At (suc n) [] [] c (reserve t) failed w (λ xs. refl) (λ xs. tt) p

    -- A file is reserved, used and removed.
    pub temporary-Keeps :
        (suffix : Text)
        → Keeps (At (suc n) []) (λ w. next with_file (reserve_temporary manager c suffix w))
    unfolding reserve_temporary aux require_lock next
    temporary-Keeps suffix w p =
        let held : ltb 0 w.lock_depth ≡ true = ground (arith, p.depth) in
        let t = codes "/tmp/ott-transaction-" ++ manager.uuid w.log ++ suffix in
        rw held (reserved-At t (manager.execute w.log c (reserve t)) w p)

module _ (manager : Manager) (files : Files) where
  locked_at-Keeps :
      {A : Type 0} (m : M A)
      → ((n : ℕ) → Keeps (At (suc n) files) m)
      → (n : ℕ) → Keeps (At n files) (locked_at manager n m)
  unfolding locked_at next
  locked_at-Keeps m k (suc n) w p =
      let v : World = record w { lock_depth = suc (suc n) } in
      finish_lem (At (suc n) files) (At (suc (suc n)) files) leave (m v)
        (k (suc n) v (record { depth = refl; files = p.files; own = p.own }))
        (λ u q. record { depth = omega (arith, q.depth); files = q.files; own = q.own })
  locked_at-Keeps m k zero w p =
      let v : World = record w { lock_depth = 1 } in
      elim (Bool-cases (manager.lock w.log)) [
        | inl free ↦ rw free (
            finish_lem (At 0 files) (At 1 files) (set_depth 0) (m v)
              (k 0 v (record { depth = refl; files = p.files; own = p.own }))
              (λ u q. record { depth = refl; files = q.files; own = q.own }))
        | inr busy ↦ rw busy p
      ]

  -- The lock is taken before an action, and given back behind it.
  pub operate-Keeps :
      {A : Type 0} (alias : Text) (m : M A)
      → ((n : ℕ) → Keeps (At (suc n) files) m)
      → (n : ℕ) → Keeps (At n files) (operate manager alias m)
  unfolding operate locked next
  operate-Keeps alias m k n w p =
      let r =
        locked_at-Keeps _
          (λ n w p.
            bind-Keeps (At (suc n) files) (check (manager.prepare w.log alias) manager_failed)
              (λ _. m) (check-Keeps _ _ _) (λ _. k n) w p)
          w.lock_depth w (record { depth = refl; files = p.files; own = p.own }) in
      record { depth = r.depth ∙ p.depth; files = r.files; own = r.own }
