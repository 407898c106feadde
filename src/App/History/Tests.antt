-- ===== src/App/History/Tests.antt =====
-- A start of the server, and a pass of the watcher after it.
use android_smb_for_ksu.Common.{List, [], ◌∷◌, refl, true, ◌≡◌, inl, inr, All, length, some, ℕ}
use android_smb_for_ksu.Text.{Text, chars}
use android_smb_for_ksu.Config.Tests.{plain_config, plain_text, plain_config-runs}
use android_smb_for_ksu.Config.RoundTrip.{parse-render}
use android_smb_for_ksu.App.World.{Env, World}
use android_smb_for_ksu.App.Server.{config_file, smbd}
use android_smb_for_ksu.App.Control.{prepare_logs}
use android_smb_for_ksu.App.Commands.{start_server, run_command}
use android_smb_for_ksu.Watch.{reconcile}
use android_smb_for_ksu.App.History.{IsLoadable, IsMade, begun, later, command, reconciled}
use android_smb_for_ksu.App.History.Sound.{Reach-IsSound}
use android_smb_for_ksu.Tests.{fine_env, running_world, runtime}
use android_smb_for_ksu.App.Card
use android_smb_for_ksu.App.Commands
use android_smb_for_ksu.App.Conf
use android_smb_for_ksu.App.Control
use android_smb_for_ksu.App.Server
use android_smb_for_ksu.App.Template
use android_smb_for_ksu.App.World
use android_smb_for_ksu.Logs
use android_smb_for_ksu.App.Version
use android_smb_for_ksu.Config
use android_smb_for_ksu.Config.Map
use android_smb_for_ksu.Config.Validate
use android_smb_for_ksu.Os.Interfaces
use android_smb_for_ksu.Os.Network
use android_smb_for_ksu.Text

-- smbd owns the listeners of both addresses once it has been launched
abbrev launch_env : Env
launch_env = record fine_env {
  launch = λ t. record {
    spawned = true;
    success = true;
    started = record { pid = 200; exe = smbd } ∷ [];
  };
  sockets = λ t ps. (chars "127.0.0.1", 8445) ∷ (chars "192.168.1.5", 8445) ∷ [];
}

-- no server program is running
abbrev fresh_world : World
fresh_world = record running_world { servers = [] }

abbrev no_digest : List ℕ → List ℕ
no_digest bytes = []

abbrev started_world : World
started_world = (run_command launch_env runtime no_digest start_server fresh_world).1

abbrev settled_world : World
settled_world = (reconcile launch_env runtime started_world).1

there : fresh_world.files config_file ≡ some plain_text
unfolding android_smb_for_ksu.Text.str_eq
there = refl

Reach-IsSound_example :
    IsLoadable (settled_world.files config_file)
    × All (IsMade launch_env runtime) settled_world.launches
Reach-IsSound_example =
    Reach-IsSound {md4 = no_digest} {w = fresh_world}
      (inr (
        plain_text,
        plain_config,
        there,
        parse-render plain_config plain_text (inl refl) plain_config-runs.0,
      ))
      refl (later (later begun (command start_server)) reconciled)

launched : length started_world.launches ≡ 1
unfolding Text.str_eq Text.str_lt Text.is_one_of Text.byte_len Text.encode_char Text.utf8
    Text.starts_with Text.strip_prefix Text.split_once Text.before_char Text.split
    Text.trim_end_matches Text.trim_start Text.trim Text.strip_cr Text.lines_from Text.lines
    Text.words_from Text.split_whitespace Text.parse_digits Text.parse_unsigned
    Config.default_config Config.is_skipped Config.set_known Config.parse_line Config.parse_lines
    Config.parse Config.render_keys Config.render Config.load Map.get Map.contains_key Map.insert
    Map.insert_all Map.index Validate.check_legacy Validate.is_bad_value Validate.check_values
    Validate.check_booleans Validate.port_of Validate.is_bad_username Validate.is_bad_name
    Validate.check_names Validate.has_parent_dir Validate.is_bad_path Validate.check_protocols
    Validate.rank Validate.is_out_of_order Validate.validate Network.key Interfaces.is_selected
    Interfaces.bind_from Interfaces.interfaces World.pure World.lift World.ask World.try_ask
    World.gets World.◌>>=◌ World.exists World.read_or_empty World.write_file World.remove_file
    Server.keep_servers Server.read_config Server.load Server.same_file Server.save Server.processes
    Server.pids Server.terminate Server.halt Server.has_root_line Server.password Server.alias_tail
    Server.effective Server.port_number Server.all_listening Server.ready_with Server.ready
    Card.show_addresses Card.description Card.describe Card.status Card.read_prop Card.card_file
    Card.card Conf.join_blank Conf.settings Conf.usermap Conf.conf_ifaces Conf.conf
    Control.prepare_logs Control.check_helpers Control.spawn Control.await_ready
    Control.record_start Control.launch Control.relaunch Control.start_unlocked Control.start
    Commands.execute Commands.run_command Template.pieces Template.find Template.expand_pieces
    Template.expand World.recorded World.log World.open_log World.version Version.version
    Version.stamp Control.logs_changed Logs.changed
launched = refl
