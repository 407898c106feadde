-- ===== src/App/Dispatch.antt =====
-- `App::dispatch` (native/smbctl/src/main.rs): the names of the commands, and what each one runs. What
-- they print is not part of the result.
use android_smb_for_ksu.Common.{ℕ, List, [], ◌∷◌, if◌then◌else◌, head?, Result, Error, ok, err}
use android_smb_for_ksu.Text.{Text, chars, str_eq}
use android_smb_for_ksu.Os.Lock.{Acquired, acquired, failed}
use android_smb_for_ksu.App.World.{Env, M, pure, raise, try_ask, ◌>>◌}
use android_smb_for_ksu.App.Card.{status, card}
use android_smb_for_ksu.App.Control.{prepare_logs}
use android_smb_for_ksu.App.Commands.{
  Command, start_server, stop_server, suspend_network, restart, set_config, save_restart,
  set_password_hex, run_command, enable_at_boot,
}
use android_smb_for_ksu.App.Queries.{
  Query, get_config, is_running, interface_key, trusted_lan, show_conf, show_log, selfcheck, answer,
  check,
}

-- the arms of `dispatch`
pub data Action : Type 0 where
  change : Command → Action
  print : Query → Action
  retire : List Text → Action
  show_status watch watch_stop prepare boot refresh_card : Action
  unknown : Text → Action

-- the first of the names that is the command's
abbrev pub choose : Text → List (Text × Action) → Action
choose cmd [] = unknown cmd
choose cmd ((name, a) ∷ rest) = if str_eq cmd name then a else choose cmd rest

unfoldable pub action : Text → List Text → Action
action cmd args = choose cmd (
    (chars "retire-legacy", retire args)
    ∷ (chars "status", show_status)
    ∷ (chars "status_text", show_status)
    ∷ (chars "diagnose", show_status)
    ∷ (chars "get_config", print get_config)
    ∷ (chars "is_running", print is_running)
    ∷ (chars "interface_key", print interface_key)
    ∷ (chars "trusted_lan", print trusted_lan)
    ∷ (chars "conf", print show_conf)
    ∷ (chars "log", print show_log)
    ∷ (chars "watch", watch)
    ∷ (chars "watch-stop", watch_stop)
    ∷ (chars "selfcheck", print selfcheck)
    ∷ (chars "logs-prepare", prepare)
    ∷ (chars "boot", boot)
    ∷ (chars "refresh_card", refresh_card)
    ∷ (chars "start", change start_server)
    ∷ (chars "stop", change stop_server)
    ∷ (chars "suspend_network", change suspend_network)
    ∷ (chars "restart", change restart)
    ∷ (chars "set_config", change (set_config args))
    ∷ (chars "save_restart", change (save_restart args))
    ∷ (chars "set_password_hex", change (set_password_hex (head? args)))
    ∷ [])

-- The commands that are modelled on other states (App/Legacy, Watch/Setup, Watch/Stop), and what
-- `Lock::new` answers for control.lock.
pub record Jobs : Type 0 where
  pub retire_legacy : Text → M (Unit {0})
  pub run_watch : M (Unit {0})
  pub stop_watch : M (Unit {0})
  pub lock : ℕ → Acquired

abbrev pub as_result : Acquired → Result (Unit {0})
as_result acquired = ok tt
as_result (failed e) = err Error.io

module _ (env : Env) (runtime : Text) (md4 : List ℕ → List ℕ) (jobs : Jobs) where
  -- `let _lock = self.lock()?`
  abbrev pub take_lock : M (Unit {0})
  take_lock = try_ask (λ t. as_result (jobs.lock t))

  -- `boot` holds the lock for `prepare_logs`, and again for its end
  unfoldable pub run_boot : M (Unit {0})
  run_boot = do
    check env
    take_lock
    prepare_logs env runtime
    try_ask env.wait_boot
    take_lock
    enable_at_boot env runtime md4

  unfoldable pub dispatch : Action → M (Unit {0})
  dispatch (change cmd) = do take_lock; run_command env runtime md4 cmd
  dispatch (print q) = do answer env q; pure tt
  dispatch show_status = do status env; pure tt
  dispatch (retire []) = raise Error.no_module_path
  dispatch (retire (path ∷ args)) = jobs.retire_legacy path
  dispatch watch = jobs.run_watch
  dispatch watch_stop = jobs.stop_watch
  dispatch prepare = do take_lock; prepare_logs env runtime
  dispatch boot = run_boot
  dispatch refresh_card = do take_lock; card env
  dispatch (unknown cmd) = raise (Error.unknown_command cmd)
