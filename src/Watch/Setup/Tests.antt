-- ===== src/Watch/Setup/Tests.antt =====
-- A watcher that runs a turn and is stopped, and another that gives way to it.
use android_smb_for_ksu.Common.{
  ◌≢◌, any, int_eq, pos, ℕ, Bool, ◌≡◌, refl, true, false, List, [], ◌∷◌, Option, none, some, ok,
  arith, if◌then◌else◌,
}
use android_smb_for_ksu.Os.Lock
use android_smb_for_ksu.Os.Lock.{Errno, would_block, other}
use android_smb_for_ksu.Os.Lock.Exclusive.{
  State, IsFlock, Reach, begun, later, attempt, tried, free,
}
use android_smb_for_ksu.App.World.{Env, World}
use android_smb_for_ksu.Watch
use android_smb_for_ksu.Watch.Run
use android_smb_for_ksu.Watch.Run.{Watcher, Answers}
use android_smb_for_ksu.Watch.Loop
use android_smb_for_ksu.Watch.Loop.{init}
use android_smb_for_ksu.Watch.Stop
use android_smb_for_ksu.Watch.Found.{stop-finds}
use android_smb_for_ksu.Os.Sample.{
  program, table, found, processes-found, found-IsSteady, found-listed,
}
use android_smb_for_ksu.Text.{Text, chars}
use android_smb_for_ksu.Watch.Setup
use android_smb_for_ksu.Watch.Setup.{running, Ending, another, ended, run, watch_pid}
use android_smb_for_ksu.Watch.Recorded.{IsRecorded, run-recorded}
use android_smb_for_ksu.Watch.Singleton.{run-another}
use android_smb_for_ksu.Watch.Tests.{failing, snapshot}
use android_smb_for_ksu.Tests.{fine_env, running_world, runtime}
use android_smb_for_ksu.Storage.Decimal
use android_smb_for_ksu.App.Card
use android_smb_for_ksu.App.Commands
use android_smb_for_ksu.App.Conf
use android_smb_for_ksu.App.Control
use android_smb_for_ksu.App.Server
use android_smb_for_ksu.App.Template
use android_smb_for_ksu.App.World
use android_smb_for_ksu.Logs
use android_smb_for_ksu.App.Version
use android_smb_for_ksu.Config
use android_smb_for_ksu.Config.Map
use android_smb_for_ksu.Config.Validate
use android_smb_for_ksu.Os.Interfaces
use android_smb_for_ksu.Os.Network
use android_smb_for_ksu.Text

abbrev granted : Bool → Option Errno
granted nonblock = none

abbrev refused : Bool → Option Errno
refused nonblock = if nonblock then some would_block else some other

granted-IsFlock : IsFlock (λ i. false) 1 granted
granted-IsFlock = record { alone = λ b j e h. cc; taken = λ e. cc; waits = λ e. cc }

-- the process 1 has the lock
abbrev held : State
held = tried free 1 (Lock.new none granted true)

held-Reach : Reach true held
held-Reach = later begun (attempt 1 none granted refl granted-IsFlock)

abbrev setup : Setup.Setup
setup = record {
  open_singleton = none;
  lock_singleton = granted;
  open_lock = none;
  lock = granted;
  events = λ p. ok tt;
  netlink = ok tt;
  inotify = ok tt;
  pid = 42;
}

abbrev second : Setup.Setup
second = record setup { lock_singleton = refused; pid = 43 }

-- it has a turn with a pass, and is stopped
abbrev turns : List Answers
turns = failing ∷ record failing { stopped = true } ∷ []

abbrev over : World
over = (run fine_env runtime setup turns running_world).1

-- it is still running after the turn
abbrev alive : World
alive = (run fine_env runtime setup (failing ∷ []) running_world).1

abbrev settled : Watcher
settled = record { loop = record init { signature = snapshot }; children = [] }

runs :
    (run fine_env runtime setup turns running_world ≡ (ok ended, over))
    × (run fine_env runtime setup (failing ∷ []) running_world ≡ (ok (running settled), alive))
    × (alive.files watch_pid ≡ some (chars "42"))
unfolding Text.str_eq Text.str_lt Text.is_one_of Text.byte_len Text.encode_char Text.utf8
    Text.starts_with Text.strip_prefix Text.split_once Text.before_char Text.split
    Text.trim_end_matches Text.trim_start Text.trim Text.strip_cr Text.lines_from Text.lines
    Text.words_from Text.split_whitespace Text.parse_digits Text.parse_unsigned
    Config.default_config Config.is_skipped Config.set_known Config.parse_line Config.parse_lines
    Config.parse Config.render_keys Config.render Config.load Map.get Map.contains_key Map.insert
    Map.insert_all Map.index Validate.check_legacy Validate.is_bad_value Validate.check_values
    Validate.check_booleans Validate.port_of Validate.is_bad_username Validate.is_bad_name
    Validate.check_names Validate.has_parent_dir Validate.is_bad_path Validate.check_protocols
    Validate.rank Validate.is_out_of_order Validate.validate Network.key Interfaces.is_selected
    Interfaces.bind_from Interfaces.interfaces World.pure World.lift World.ask World.try_ask
    World.gets World.◌>>=◌ World.exists World.read_or_empty World.write_file World.remove_file
    Server.keep_servers Server.read_config Server.load Server.same_file Server.save Server.processes
    Server.pids Server.terminate Server.halt Server.has_root_line Server.password Server.alias_tail
    Server.effective Server.port_number Server.all_listening Server.ready_with Server.ready
    Card.show_addresses Card.description Card.describe Card.status Card.read_prop Card.card_file
    Card.card Conf.join_blank Conf.settings Conf.usermap Conf.conf_ifaces Conf.conf
    Control.prepare_logs Control.check_helpers Control.spawn Control.await_ready
    Control.record_start Control.launch Control.relaunch Control.start_unlocked Control.start
    Commands.execute Commands.run_command Template.pieces Template.find Template.expand_pieces
    Template.expand Setup.run Setup.begin Setup.start Setup.prepare Setup.loop Setup.turn_with
    Setup.attempt Lock.new Run.turn Run.look Run.reconciles Run.polled Run.master Run.oldest
    Loop.observe Loop.is_due Loop.pass Loop.after_reconcile Loop.on_storage Loop.on_crash
    Decimal.show_u32 Decimal.show_from Control.rotate_logs Watch.reconcile Watch.reconcile_enabled
    Watch.halt_running Watch.wait_network Watch.refresh World.recorded World.log World.open_log
    World.version Version.version Version.stamp Control.logs_changed Logs.changed
runs = (refl, refl, refl)

run-recorded_example : IsRecorded fine_env runtime setup running_world ended over
run-recorded_example = run-recorded fine_env runtime setup turns running_world (omega arith) runs.0

stopped :
    (file : Option Text)
    → file ≡ some (chars "42")
    → Stop.stop table file (ok program) 0 9 ≡ ok (found ∷ [])
unfolding Stop.stop Stop.keep_if Stop.is_watcher Stop.recorded Stop.has_argument Text.split
    Text.utf8 Text.encode_char Text.trim Text.trim_start Text.trim_end_matches Text.parse_int
    Text.parse_digits Text.parse_unsigned Text.str_eq
stopped file read = rw (read, processes-found) refl

never : (b : Bool) → refused b ≡ none → ⊥
never true e = cc
never false e = cc

stop-finds_example : any (λ p. int_eq p.pid (pos 42)) (found ∷ []) ≡ true
unfolding Stop.has_argument Text.split Text.utf8 Text.str_eq Text.encode_char
stop-finds_example =
    stop-finds fine_env runtime setup (failing ∷ []) running_world table program (chars "900") 0 9
      (omega arith) runs.1 found-IsSteady refl found-listed refl refl
      (stopped (alive.files watch_pid) runs.2)

refused-IsFlock : IsFlock held.held 2 refused
unfolding Lock.new
refused-IsFlock = record {
  alone = λ b j e h. absurd (never b e);
  taken = λ e. (1, (λ q. omega (arith, q)), refl);
  waits = λ e. cc;
}

run-another_example : (running_world ≡ running_world) × ((j : ℕ) × (j ≢ 2) × (held.inside j ≡ true))
unfolding run Setup.begin Lock.new World.pure
run-another_example =
    run-another fine_env runtime second turns running_world 2 held-Reach refused-IsFlock (λ e. cc)
      refl
