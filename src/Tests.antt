-- ===== src/Tests.antt =====
-- Runs of `start`, `stop` and `reconcile` in a small world, and of the expansion of a template.
use android_smb_for_ksu.Common.{
  List, ◌≡◌, refl, true, false, [], ◌∷◌, none, some, ok, inl, inr, if◌then◌else◌,
}
use android_smb_for_ksu.Text.{
  Text, chars, utf8, str_eq, str_lt, is_one_of, byte_len, starts_with, split_once, before_char,
  split, trim_end_matches, trim_start, trim, strip_cr, lines_from, lines, parse_digits,
  parse_unsigned,
}
use android_smb_for_ksu.Config.Validate.{
  check_legacy, is_bad_value, check_values, check_booleans, port_of, is_bad_username, is_bad_name,
  check_names, has_parent_dir, is_bad_path, check_protocols, rank, is_out_of_order, validate,
}
use android_smb_for_ksu.Config
use android_smb_for_ksu.Config.Map
use android_smb_for_ksu.Config.Map.{Config}
use android_smb_for_ksu.Logs.Disk.{absent, dir}
use android_smb_for_ksu.Logs.Tests.{boot_sys}
use android_smb_for_ksu.Config.Tests.{plain_config, plain_text}
use android_smb_for_ksu.App.World.{
  Env, World, pure, lift, ask, try_ask, gets, ◌>>=◌, exists, write_file, remove_file, read_or_empty,
}
use android_smb_for_ksu.App.Server.{
  config_file, smbd, helpers, keep_servers, read_config, same_file, save, processes, pids,
  terminate, halt, ready_with, password, has_root_line,
}
use android_smb_for_ksu.App.Card.{status, card_file, card, show_addresses}
use android_smb_for_ksu.App.Control.{start, stop, stop_flags, enabled_key, one, pending_file}
use android_smb_for_ksu.App.Control.Halt.{NoneOf}
use android_smb_for_ksu.App.Control.Stop.{server_programs, stop_lem}
use android_smb_for_ksu.App.Control.Auth.{start-launches}
use android_smb_for_ksu.App.Template.{pieces, find, expand_pieces, expand}
use android_smb_for_ksu.App.Template.Lines.{newlines, expand-newlines}
use android_smb_for_ksu.App.Conf.{Settings, values, template_for}
use android_smb_for_ksu.App.Tokens.{expand-templates}
use android_smb_for_ksu.Watch.{halt_running, wait_network, reconcile_enabled, reconcile}
use android_smb_for_ksu.Watch.Unsafe.{reconcile_unsafe}
use android_smb_for_ksu.Watch.Disabled.{NoServer, reconcile-NoServer}

-- a system on which every call succeeds and no process exits by itself
abbrev pub fine_env : Env
fine_env = record {
  network = λ t. ok ((chars "wlan0", chars "192.168.1.5/24") ∷ []);
  processes_ok = λ t. true;
  seen = λ t s. true;
  alive = λ t s. true;
  terminate_ok = λ t. true;
  survives = λ t s. true;
  sockets = λ t ps. [];
  storage_ready = λ t p. true;
  is_dir = λ t p. true;
  make_dir_ok = λ t. true;
  read_ok = λ t. true;
  write_ok = λ t. true;
  write_lands = λ t. false;
  remove_ok = λ t. true;
  helper = λ t n. ok true;
  open_ok = λ t. true;
  launch = λ t. record { spawned = true; success = true; started = [] };
  rounds = λ t. 3;
  poll_ok = λ t. true;
  boot_id = λ t. ok (chars "boot");
  boots = chars "boot" ∷ [];
  reads_marker = λ t. true;
  logs = λ t. boot_sys;
  log_text = λ t n. [];
  version = λ t. record { program = none; reads = true; output = none; lands = true };
  seconds = λ t. ok 1000;
  pidfd_open = λ t. ok tt;
  pidfd_signal = λ t. ok tt;
  netlink = λ t. ok tt;
  inotify = λ t. ok tt;
  wait_boot = λ t. ok tt;
  to_json = λ c. [];
}

-- config.conf is there, and smbd is running beside a process of another program
abbrev pub running_world : World
running_world = record {
  files = λ p. if str_eq p config_file then some plain_text else none;
  servers =
      record { pid = 100; exe = smbd }
      ∷ record { pid = 101; exe = chars "samba-dcerpcd" }
      ∷ record { pid = 102; exe = chars "sshd" }
      ∷ [];
  launches = [];
  records = record {
    disk = record {
      log = dir (record { marker = some (chars "boot"); files = [] });
      history = absent;
      stamp = false;
    };
    version = none;
    lines = [];
  };
  now = 0;
}

abbrev pub runtime : Text
runtime = chars "/data/adb/smb"

abbrev pub stopped_world : World
stopped_world = (stop fine_env runtime plain_config true running_world).1

abbrev pub idle_world : World
idle_world = (reconcile fine_env runtime running_world).1

pub runs :
    (stop fine_env runtime plain_config true running_world
      ≡ (ok (Map.insert enabled_key one plain_config), stopped_world))
    × (Config.load (read_config fine_env running_world) ≡ ok plain_config)
    × (str_eq (Map.value plain_config enabled_key) one ≡ false)
    × (reconcile fine_env runtime running_world ≡ (ok tt, idle_world))
unfolding utf8 str_eq str_lt is_one_of byte_len starts_with split_once before_char split
    trim_end_matches trim_start trim strip_cr lines_from lines parse_digits parse_unsigned
    check_legacy is_bad_value check_values check_booleans port_of is_bad_username is_bad_name
    check_names has_parent_dir is_bad_path check_protocols rank is_out_of_order validate
    Config.default_config Config.is_skipped Config.set_known Config.parse_line Config.parse_lines
    Config.parse Config.render_keys Config.render Config.load Map.get Map.contains_key Map.insert
    Map.insert_all Map.index pure lift ask try_ask gets ◌>>=◌ exists write_file remove_file
    keep_servers read_config same_file save processes pids terminate halt ready_with
    android_smb_for_ksu.App.Server.load status card_file card show_addresses stop stop_flags
    halt_running reconcile android_smb_for_ksu.App.World.log android_smb_for_ksu.App.World.recorded
    android_smb_for_ksu.App.World.version android_smb_for_ksu.App.Server.effective password
    read_or_empty
runs = (refl, refl, refl, refl)

stop_lem_example :
    (Map.insert enabled_key one plain_config
      ≡ Map.insert enabled_key (if true then one else chars "0") plain_config)
    × NoneOf fine_env server_programs stopped_world
    × ((s : Text) × (stopped_world.files config_file ≡ some s)
        × (Config.parse s ≡ ok (Map.insert enabled_key one plain_config)))
stop_lem_example = stop_lem fine_env runtime plain_config true running_world (inl refl) runs.0

reconcile-NoServer_example : NoServer fine_env idle_world
reconcile-NoServer_example =
    reconcile-NoServer fine_env runtime plain_config running_world runs.1 runs.2 runs.3

-- the server is to run, and the device has left the network
abbrev away_env : Env
away_env = record fine_env { network = λ t. ok [] }

abbrev away_world : World
away_world = record stopped_world { servers = running_world.servers }

abbrev suspended_world : World
suspended_world = (reconcile away_env runtime away_world).1

away-run :
    (reconcile away_env runtime away_world ≡ (ok tt, suspended_world))
    × (away_world.files pending_file ≡ none)
unfolding utf8 str_eq str_lt is_one_of byte_len starts_with split_once before_char split
    trim_end_matches trim_start trim strip_cr lines_from lines parse_digits parse_unsigned
    check_legacy is_bad_value check_values check_booleans port_of is_bad_username is_bad_name
    check_names has_parent_dir is_bad_path check_protocols rank is_out_of_order validate
    Config.default_config Config.is_skipped Config.set_known Config.parse_line Config.parse_lines
    Config.parse Config.render_keys Config.render Config.load Map.get Map.contains_key Map.insert
    Map.insert_all Map.index pure lift ask try_ask gets ◌>>=◌ exists write_file remove_file
    keep_servers read_config same_file save processes pids terminate halt ready_with
    android_smb_for_ksu.App.Server.load status card_file card show_addresses stop stop_flags
    halt_running wait_network reconcile_enabled password has_root_line read_or_empty reconcile
    android_smb_for_ksu.App.World.log android_smb_for_ksu.App.World.recorded
    android_smb_for_ksu.App.World.version android_smb_for_ksu.App.Server.effective
away-run = (refl, refl)

reconcile_unsafe_example : NoServer away_env suspended_world
reconcile_unsafe_example =
    reconcile_unsafe away_env runtime away_world (inr (λ t. refl)) away-run.1 away-run.0

abbrev user_config : Config
user_config = Map.insert (chars "AUTH_MODE") (chars "user") plain_config

start-launches_example : (start fine_env runtime user_config running_world).1.launches ≡ []
start-launches_example =
    start-launches fine_env runtime user_config running_world
      (unfold Map.insert Map.get str_eq str_lt in refl) (unfold str_eq in refl)

abbrev one_value : List (Text × Text)
one_value = (chars "PORT", chars "445 $(evil)") ∷ []

abbrev two_lines : Text
two_lines = chars "[global]\n smb ports = $PORT\n"

expanded-run : expand one_value two_lines ≡ ok (chars "[global]\n smb ports = 445 $(evil)\n")
unfolding expand expand_pieces pieces find str_eq
expanded-run = refl

expand-newlines_example :
    newlines (chars "[global]\n smb ports = 445 $(evil)\n") ≡ newlines two_lines
expand-newlines_example =
    expand-newlines one_value two_lines (unfold newlines in (refl, tt)) expanded-run

abbrev home_settings : Settings
home_settings = record {
  workgroup = chars "WORKGROUP";
  netbios_name = chars "ANDROIDSMB";
  port = chars "445";
  ifaces = chars "127.0.0.1/8" ∷ chars "192.168.1.5/24" ∷ [];
  bind = true;
  min_protocol = chars "SMB2_02";
  max_protocol = chars "SMB3";
  runtime = runtime;
  share_name = chars "SpeedBackup";
  share_path = chars "/data/media/0/SpeedBackup";
  read_only = false;
}

expand-templates_example :
    (out : Text) × (expand (values home_settings) (template_for (chars "user")) ≡ ok out)
expand-templates_example = expand-templates home_settings (chars "user")
