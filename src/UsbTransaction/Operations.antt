-- ===== src/UsbTransaction/Operations.antt =====
-- `pull` and `staged_adb`
use ottplay_control_server.Prelude.{
  ℕ, ◌*◌, Bool, false, not, ◌&&◌, ◌||◌, List, [], ◌∷◌, length, map, all, leb, ◌==◌, if◌then◌else◌,
}
use ottplay_control_server.Effects.{pure, check, try_finally, ◌>>=◌, ◌>>◌}
use ottplay_control_server.Text.{Bytes, Text, codes, text_eq, elem, starts_with, strip}
use ottplay_control_server.UsbTransaction.World.{
  path_required, not_a_regular_file, oversized_data, invalid_arguments, not_staged, show, discard,
  stage, probe, pull_file, arguments, Manager, World, M, operate, container, aux, device_adb,
  reserve_temporary,
}

abbrev pub max_payload : ℕ
max_payload = 128 * 1024 * 1024

-- `"\0" not in value`
unfoldable pub no_nul : Text → Bool
no_nul s = all (λ c. not (c == 0)) s

-- The white space of `bytes.strip`.
unfoldable pub is_space : ℕ → Bool
is_space c = c == 32 || (leb 9 c && leb c 13)

unfoldable pub is_path : Text → Bool
is_path s = starts_with (codes "/") s && no_nul s

-- `flags` and a last `@staged`
unfoldable pub flags_staged : List Text → Bool
flags_staged [] = false
flags_staged (w ∷ []) = text_eq w (codes "@staged")
flags_staged (w ∷ v ∷ words) =
    elem w (codes "-r" ∷ codes "-t" ∷ codes "-d" ∷ codes "-g" ∷ []) && flags_staged (v ∷ words)

unfoldable pub is_install : List Text → Bool
is_install [] = false
is_install (w ∷ words) = text_eq w (codes "install") && flags_staged words

unfoldable pub is_push : List Text → Bool
is_push (w ∷ v ∷ path ∷ []) =
    text_eq w (codes "push") && text_eq v (codes "@staged") && is_path path
is_push _ = false

-- `temporary if value == "@staged" else value`
unfoldable pub substitute : Text → List Text → List Text
substitute temporary words = map (λ w. if text_eq w (codes "@staged") then temporary else w) words

module _ (manager : Manager) where
  -- The cleanup of both.
  unfoldable pub discard_temporary : Text → Text → M (Unit {0})
  discard_temporary c temporary = do _ ← aux manager c (discard temporary); pure tt

  unfoldable pub pull : Text → Text → M Bytes
  pull alias path = do
    check (is_path path) path_required
    operate manager alias (do
      c ← container manager
      kind ← device_adb manager alias c (probe path)
      check (text_eq (strip is_space kind) (codes "__OTT_REGULAR_FILE__")) not_a_regular_file
      temporary ← reserve_temporary manager c []
      try_finally
          (do
            _ ← device_adb manager alias c (pull_file path temporary max_payload)
            aux manager c (show temporary))
          (discard_temporary c temporary))

  unfoldable pub staged_adb : Text → Bytes → List Text → M Bytes
  staged_adb alias payload words = do
    check (leb (length payload) max_payload) oversized_data
    check (all no_nul words) invalid_arguments
    check (is_install words || is_push words) not_staged
    operate manager alias (do
      c ← container manager
      temporary ← reserve_temporary manager c (if is_install words then codes ".apk" else [])
      try_finally
          (do
            _ ← aux manager c (stage temporary payload)
            device_adb manager alias c (arguments (substitute temporary words)))
          (discard_temporary c temporary))

-- What `main` reads of a request, but for `cdp`.
pub data Transaction : Type 0 where
  pulling : Text → Text → Transaction
  staging : Text → Bytes → List Text → Transaction

module _ (manager : Manager) where
  -- `main`: the operation of a request
  unfoldable pub run : Transaction → M Bytes
  run (pulling alias path) = pull manager alias path
  run (staging alias payload words) = staged_adb manager alias payload words

  -- Transactions one after the other, each with its outcome.
  unfoldable pub run_all : List Transaction → World → World
  run_all [] w = w
  run_all (t ∷ ts) w = run_all ts (run t w).1
