-- ===== src/App/Main/Tests.antt =====
-- A command that prints, in a system whose lock cannot be had.
use android_smb_for_ksu.Common.{◌≡◌, refl, true, [], ◌∷◌, none, some, ok, Error, err}
use android_smb_for_ksu.Text.{chars, str_eq, parse_unsigned, parse_digits}
use android_smb_for_ksu.Os.Lock.{failed, would_block}
use android_smb_for_ksu.App.World.{pure}
use android_smb_for_ksu.App.Dispatch.{action, change}
use android_smb_for_ksu.App.Commands.{start_server}
use android_smb_for_ksu.App.Main.{Place, Outside, System, request, new, each}
use android_smb_for_ksu.App.Main
use android_smb_for_ksu.Tests.{fine_env, running_world}

abbrev place : Place
place = record {
  exe = ok (some (some (chars "/data/adb/modules/smb")));
  data_variable = none;
  make_dir_ok = λ p. true;
  close_ok = λ p. true;
}

abbrev out : Outside
out = record {
  place = place;
  env = fine_env;
  jobs = record {
    retire_legacy = λ p. pure tt;
    run_watch = pure tt;
    stop_watch = pure tt;
    lock = λ t. failed would_block;
  };
  md4 = λ bytes. [];
  wait = λ name value t. ok tt;
}

abbrev system : System
system = record { dirs = record { made = []; closed = [] }; world = running_world }

start-request : request (chars "start" ∷ []) ≡ Main.run (change start_server)
unfolding request action str_eq
start-request = refl

-- the usage error of `propwait`, its three parts, and a timeout that is no number
propwait-runs :
    (Main.propwait (chars "equals" ∷ []) ≡ err Error.usage)
    × (Main.propwait (chars "equals" ∷ chars "a" ∷ chars "1" ∷ [])
        ≡ ok (chars "a", chars "1", 120000))
    × (Main.propwait (chars "equals" ∷ chars "a" ∷ chars "1" ∷ chars "x" ∷ [])
        ≡ err Error.invalid_timeout)
unfolding Main.propwait str_eq parse_unsigned parse_digits
propwait-runs = (refl, refl, refl)
