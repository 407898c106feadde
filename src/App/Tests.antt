-- ===== src/App/Tests.antt =====
-- Runs of `start`, `log`, `version` and the commands that only print.
use android_smb_for_ksu.Common.{
  err, Error, ℕ, ◌>>=◌, ◌+◌, ◌≡◌, ◌≤◌, ◌⊎◌, ◌&&◌, ◌++◌, refl, true, List, [], ◌∷◌, none, some, ok,
}
use android_smb_for_ksu.Text.{
  split_once, Text, chars, str_eq, is_one_of, byte_len, before_char, parse_digits, parse_unsigned,
  split_whitespace, words_from,
}
use android_smb_for_ksu.Config.Map
use android_smb_for_ksu.Config.Tests.{plain_config}
use android_smb_for_ksu.Os.Interfaces.{interfaces, bind_from, is_selected}
use android_smb_for_ksu.App.World.{Env, World, pure, lift, ask, try_ask}
use android_smb_for_ksu.App.World
use android_smb_for_ksu.App.Server.{
  read_config, keep_servers, processes, pids, ready_with, ready, port_number, all_listening,
}
use android_smb_for_ksu.App.Control.{prepare_logs, check_helpers, start_unlocked, start}
use android_smb_for_ksu.App.Control.Success.{IsConfirmed, IsDeferred, start-IsConfirmed}
use android_smb_for_ksu.App.Log
use android_smb_for_ksu.App.Log.{log, log_line, max_log_bytes}
use android_smb_for_ksu.App.Log.Bounded.{content, log_lem}
use android_smb_for_ksu.App.Template.Lines.{newlines}
use android_smb_for_ksu.App.Commands.{set_config, run_command}
use android_smb_for_ksu.App.Refused.{first_tests, run_command-refused}
use android_smb_for_ksu.Config
use android_smb_for_ksu.Tests.{runs, fine_env, running_world, runtime}

-- smbd owns the listeners of both addresses
abbrev ready_env : Env
ready_env = record fine_env {
  sockets = λ t ps. (chars "127.0.0.1", 8445) ∷ (chars "192.168.1.5", 8445) ∷ [];
}

abbrev ready_world : World
ready_world = (start ready_env runtime plain_config running_world).1

ready-run : start ready_env runtime plain_config running_world ≡ (ok plain_config, ready_world)
unfolding start World.◌>>=◌ prepare_logs try_ask ask pure check_helpers lift Map.get Map.index
    start_unlocked ready pids processes ready_with keep_servers is_one_of interfaces bind_from
    is_selected all_listening port_number parse_unsigned parse_digits before_char split_whitespace
    words_from str_eq android_smb_for_ksu.App.Control.logs_changed World.recorded
    android_smb_for_ksu.Logs.changed
ready-run = refl

start-IsConfirmed_example :
    IsConfirmed ready_env plain_config ready_world
    ⊎ IsDeferred ready_env runtime plain_config ready_world
start-IsConfirmed_example = start-IsConfirmed ready_env runtime plain_config running_world ready-run

-- a message with a line feed
abbrev message : Text
message = chars "START\n99 forged"

abbrev log_answers : Log.Answers
log_answers = record {
  metadata = true;
  rename = true;
  opened = true;
  written = 100;
  seconds = some 1700000000;
}

abbrev old_logs : Log.Logs
old_logs = record { current = some (chars "0 component=smbctl\n"); older = none }

log_lem_example :
    (newlines (content (log 7 log_answers message old_logs).current)
      ≤ newlines (chars "0 component=smbctl\n") + 1)
    × ((true && true) ≡ true
        → byte_len (content (log 7 log_answers message old_logs).current)
          ≤ max_log_bytes + byte_len (log_line (some 1700000000) 7 message))
    × (((log 7 log_answers message old_logs).older ≡ some (chars "0 component=smbctl\n"))
        ⊎ ((t : Text) × (content (log 7 log_answers message old_logs).current
              ≡ chars "0 component=smbctl\n" ++ t)
            × ((log 7 log_answers message old_logs).older ≡ none)))
log_lem_example = log_lem 7 log_answers message old_logs

abbrev no_digest : List ℕ → List ℕ
no_digest s = s

-- an argument that is no setting
refused-run :
    (Config.load (read_config fine_env running_world)
      >>= first_tests no_digest (set_config (chars "PORT" ∷ [])))
    ≡ err Error.expected_key_value
unfolding Config.update Config.set_all split_once
refused-run = rw (runs.1) refl

run_command-refused_example :
    run_command fine_env runtime no_digest (set_config (chars "PORT" ∷ [])) running_world
    ≡ (err Error.expected_key_value, record running_world { now = 1 })
run_command-refused_example =
    run_command-refused fine_env runtime no_digest (set_config (chars "PORT" ∷ [])) running_world
      refused-run
