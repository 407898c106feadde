-- ===== src/App/Refused.antt =====
-- What a command of `App::dispatch` (native/smbctl/src/main.rs) does with settings that are refused.
use android_smb_for_ksu.Common.{
  ℕ, ◌+◌, ◌≡◌, refl, List, Result, Error, ok, err, ◌>>=◌, ok_or, inl, inr, Result-cases, ◌∙◌, sym,
  ap, none, some,
}
use android_smb_for_ksu.Text.{Text}
use android_smb_for_ksu.Config
use android_smb_for_ksu.Config.Map.{Config}
use android_smb_for_ksu.Password.{nt_hash}
use android_smb_for_ksu.App.World
use android_smb_for_ksu.App.World.{Env, World, lift}
use android_smb_for_ksu.App.Server
use android_smb_for_ksu.App.Server.{read_config}
use android_smb_for_ksu.App.Commands.{
  Command, start_server, stop_server, suspend_network, restart, set_config, save_restart,
  set_password_hex, updated, change_config, set_password, execute, run_command,
}

-- the tests that come before anything is changed: of config.conf, of the new settings with those that
-- stay, and of a new password
abbrev pub first_tests : (List ℕ → List ℕ) → Command → Config → Result (Unit {0})
first_tests md4 (set_config args) c = updated c args >>= λ c'. ok tt
first_tests md4 (save_restart args) c = updated c args >>= λ c'. ok tt
first_tests md4 (set_password_hex arg) c =
    (ok_or arg Error.missing_password >>= λ hex. nt_hash md4 hex) >>= λ hash. ok tt
first_tests md4 cmd c = ok tt

tests-err :
    {A : Type 0} (r : Result A) {e : Error}
    → Path (Result (Unit {0})) (r >>= λ a. ok tt) (err e)
    → r ≡ err e
tests-err (ok a) h = cc
tests-err (err x) h = cc

module _ (env : Env) (runtime : Text) (md4 : List ℕ → List ℕ) where
  execute-refused :
      (cmd : Command) (c : Config) (w : World) {e : Error}
      → first_tests md4 cmd c ≡ err e
      → execute env runtime md4 cmd c w ≡ (err e, w)
  unfolding execute change_config set_password lift World.◌>>=◌
  execute-refused start_server c w h = cc
  execute-refused stop_server c w h = cc
  execute-refused suspend_network c w h = cc
  execute-refused restart c w h = cc
  execute-refused (set_config args) c w h = rw (tests-err (updated c args) h) refl
  execute-refused (save_restart args) c w h = rw (tests-err (updated c args) h) refl
  execute-refused (set_password_hex none) c w h = cc
  execute-refused (set_password_hex (some hex)) c w h = rw (tests-err (nt_hash md4 hex) h) refl

  -- A command that is refused changes nothing: if config.conf cannot be read or is not valid, or the
  -- settings that the command would make are not valid, or its password is not, the command fails with
  -- that error, and all files and processes are as they were.
  pub run_command-refused :
      (cmd : Command) (w : World) {e : Error}
      → (Config.load (read_config env w) >>= first_tests md4 cmd) ≡ err e
      → run_command env runtime md4 cmd w ≡ (err e, record w { now = w.now + 1 })
  unfolding run_command Server.load World.◌>>=◌
  run_command-refused cmd w h = elim (Result-cases (Config.load (read_config env w))) [
    | inl (c, good) ↦
        let refused : first_tests md4 cmd c ≡ err _ = sym (rw good refl) ∙ h in
        rw (good, execute-refused cmd c (record w { now = w.now + 1 }) refused) refl
    | inr (e', bad) ↦
        let fails : err e' ≡ err _ = sym (rw bad refl) ∙ h in
        rw bad (ap (λ r. (r, record w { now = w.now + 1 })) fails)
  ]
