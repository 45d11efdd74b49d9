-- ===== src/UsbTransaction/Tests.antt =====
-- A container that runs every command, one that is too slow, an ADB that fails, and the theorems at them.
use ottplay_control_server.Prelude.{
  ◌≡◌, refl, Bool, true, false, Option, none, some, [], ◌∷◌, ok, err,
}
use ottplay_control_server.Effects.{next, finish, cleaned}
use ottplay_control_server.Text.{Bytes, Text, codes, text_eq, elem, starts_with, strip, is_digit}
use ottplay_control_server.UsbTransaction.World.{
  manager_failed, Command, reserve, show, discard, Adb, probe, pull_file, arguments, done, executed,
  sent, not_run, operation_failed, exited, Manager, World, require_lock, is_identity, locked_at,
  locked, operate, found, container, aux, device_adb, reserve_temporary,
}
use ottplay_control_server.UsbTransaction.Operations.{
  max_payload, no_nul, is_space, is_path, flags_staged, is_install, is_push, substitute,
  discard_temporary, pull, staged_adb, pulling, staging, run, run_all,
}
use ottplay_control_server.UsbTransaction.Files.{left_over, open_files, At}
use ottplay_control_server.UsbTransaction.Cleanup.{run_all-At}
use ottplay_control_server.UsbTransaction.Returned.{run-open_files}

abbrev container_id : Text
container_id = codes "0123456789abcdef0123456789abcdef0123456789abcdef0123456789abcdef"

-- The output of `cat` is the only one that is read.
abbrev output : Command → Bytes
output (show t) = codes "content"
output _ = []

abbrev reply : Bool → Adb → Option Bytes
reply works (probe path) = some (codes "__OTT_REGULAR_FILE__")
reply true (pull_file path t limit) = some []
reply false (pull_file path t limit) = none
reply works (arguments words) = some (codes "Success")

abbrev manager_with : Bool → Manager
manager_with works = record {
  lock = λ log. true;
  prepare = λ log alias. true;
  inspect = λ log. some (record { running = true; id = container_id });
  execute = λ log c command. exited 0 (output command);
  adb = λ log alias c command. reply works command;
  uuid = λ log. codes "12";
}

abbrev start : World
start = record { lock_depth = 0; log = [] }

abbrev file : Text
file = codes "/tmp/ott-transaction-12"

program : Unit {0}
unfolding next finish cleaned text_eq elem starts_with strip is_digit require_lock is_identity
    locked_at locked operate found container aux device_adb reserve_temporary no_nul is_space
    is_path flags_staged is_install is_push substitute discard_temporary pull staged_adb run run_all
program = tt

abbrev pulled : World
pulled = record {
  lock_depth = 0;
  log =
      executed container_id (discard file) done
      ∷ executed container_id (show file) done
      ∷ sent (codes "tv") (pull_file (codes "/sdcard/a") file max_payload)
      ∷ executed container_id (reserve file) done
      ∷ sent (codes "tv") (probe (codes "/sdcard/a"))
      ∷ [];
}

-- The file is pulled, read and removed.
pull_run :
    run (manager_with true) (pulling (codes "tv") (codes "/sdcard/a")) start
    ≡ (ok (codes "content"), pulled)
unfolding program
pull_run = refl

-- Where the pull fails the file is removed too, and the error stays.
failed_run :
    let o = run (manager_with false) (pulling (codes "tv") (codes "/sdcard/a")) start in
    (o.0 ≡ err manager_failed) × (open_files o.1.log ≡ [])
unfolding program
failed_run = (refl, refl)

-- An installation is staged under the suffix of an APK.
install_run :
    (run
      (manager_with true)
      (staging (codes "tv") [] (codes "install" ∷ codes "-r" ∷ codes "@staged" ∷ []))
      start).0
    ≡ ok (codes "Success")
unfolding program
install_run = refl

-- The container of a creation that reaches the time limit.
abbrev slow : Manager
slow = record (manager_with true) { execute = λ log c command. not_run }

-- The transaction fails, and its file may be there.
slow_run :
    let o = run slow (pulling (codes "tv") (codes "/sdcard/a")) start in
    (o.0 ≡ err operation_failed)
    × (open_files o.1.log ≡ (container_id, file) ∷ [])
    × (left_over o.1.log ≡ (container_id, file) ∷ [])
unfolding program
slow_run = (refl, refl, refl)

start-At : At 0 [] start
start-At = record { depth = refl; files = refl; own = tt }

run_all-At_example : At 0 [] (
    run_all
      (manager_with false)
      (pulling (codes "tv") (codes "/sdcard/a")
        ∷ staging (codes "tv") [] (codes "install" ∷ codes "@staged" ∷ [])
        ∷ [])
      start)
run_all-At_example =
    run_all-At (manager_with false)
      (pulling (codes "tv") (codes "/sdcard/a")
        ∷ staging (codes "tv") [] (codes "install" ∷ codes "@staged" ∷ [])
        ∷ [])
      0 start start-At

run-open_files_example : open_files pulled.log ≡ open_files start.log
run-open_files_example =
    run-open_files (manager_with true) (pulling (codes "tv") (codes "/sdcard/a")) 0 start pulled
      (codes "content") start-At pull_run
