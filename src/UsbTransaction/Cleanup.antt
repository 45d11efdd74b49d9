-- ===== src/UsbTransaction/Cleanup.antt =====
-- What transactions leave behind.
use ottplay_control_server.Prelude.{
  ℕ, suc, refl, ◌||◌, List, [], ◌∷◌, all, length, leb, if◌then◌else◌,
}
use ottplay_control_server.Effects.{check}
use ottplay_control_server.Text.{Bytes, Text, codes}
use ottplay_control_server.UsbTransaction.World.{
  show, stage, probe, pull_file, Manager, World, container, aux, device_adb,
}
use ottplay_control_server.UsbTransaction.Operations.{
  is_path, is_install, is_push, no_nul, max_payload, pull, staged_adb, Transaction, pulling,
  staging, run, run_all,
}
use ottplay_control_server.UsbTransaction.Files.{At, Keeps, bind-Keeps, check-Keeps}
use ottplay_control_server.UsbTransaction.Rules.{
  aux-Keeps, device_adb-Keeps, container-Keeps, temporary-Keeps, operate-Keeps,
}

module _ (manager : Manager) where
  pub pull-Keeps : (alias path : Text) (n : ℕ) → Keeps (At n []) (pull manager alias path)
  unfolding pull
  pull-Keeps alias path n =
      bind-Keeps (At n []) (check (is_path path) _) _ (check-Keeps _ _ _) (λ _.
        operate-Keeps manager [] alias _
          (λ n.
            bind-Keeps (At (suc n) []) (container manager) _ (container-Keeps manager [] (suc n))
              (λ c.
                bind-Keeps _ (device_adb manager alias c (probe path)) _
                  (device_adb-Keeps manager [] (suc n) alias c _)
                  (λ kind. bind-Keeps _ (check _ _) _ (check-Keeps _ _ _) (λ _.
                    temporary-Keeps manager n c _
                      (λ t.
                        bind-Keeps _ (device_adb manager alias c (pull_file path t max_payload)) _
                          (device_adb-Keeps manager ((c, t) ∷ []) (suc n) alias c _)
                          (λ _.
                            aux-Keeps manager ((c, t) ∷ []) (suc n) c (show t) (λ e xs. refl)
                              (λ xs. tt)))
                      []))))
          n)

  pub staged_adb-Keeps :
      (alias : Text) (payload : Bytes) (words : List Text) (n : ℕ)
      → Keeps (At n []) (staged_adb manager alias payload words)
  unfolding staged_adb
  staged_adb-Keeps alias payload words n =
      bind-Keeps (At n []) (check (leb (length payload) max_payload) _) _ (check-Keeps _ _ _) (λ _.
        bind-Keeps (At n []) (check (all no_nul words) _) _ (check-Keeps _ _ _) (λ _.
          bind-Keeps (At n []) (check (is_install words || is_push words) _) _ (check-Keeps _ _ _)
            (λ _.
              operate-Keeps manager [] alias _
                (λ n.
                  bind-Keeps (At (suc n) []) (container manager) _
                    (container-Keeps manager [] (suc n))
                    (λ c.
                      temporary-Keeps manager n c _
                        (λ t.
                          bind-Keeps _ (aux manager c (stage t payload)) _
                            (aux-Keeps manager ((c, t) ∷ []) (suc n) c _ (λ e xs. refl) (λ xs. tt))
                            (λ _. device_adb-Keeps manager ((c, t) ∷ []) (suc n) alias c _))
                        (if is_install words then codes ".apk" else [])))
                n)))

-- The depth of the lock, the temporary files that may be there and the removals before hold this: the
-- files are those whose creation was lost and those whose removal did not succeed, and every removal
-- is of a file that may have been created before it and is not yet removed. Then they hold it after
-- any transactions, however each of their commands ends, and the depth of the lock is the same.
pub run_all-At :
    (manager : Manager) (ts : List Transaction) (n : ℕ) (w : World)
    → At n [] w
    → At n [] (run_all manager ts w)
unfolding run_all run
run_all-At manager [] n w p = p
run_all-At manager (pulling alias path ∷ ts) n w p =
    run_all-At manager ts n _ (pull-Keeps manager alias path n w p)
run_all-At manager (staging alias payload words ∷ ts) n w p =
    run_all-At manager ts n _ (staged_adb-Keeps manager alias payload words n w p)
