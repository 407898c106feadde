-- ===== src/App/History.antt =====
-- The state of the module over time: the actions of smbctl (native/smbctl/src/main.rs and watch.rs) in
-- any order, and what others do between them.
pub mod Saving
pub mod Admission
pub mod Launching
pub mod Records
pub mod Starting
pub mod Commands
pub mod Sound
pub mod Tests
use android_smb_for_ksu.Common.{
  ℕ, ◌≡◌, ◌≤◌, ◌⊎◌, true, false, Bool, not, ◌&&◌, List, Option, none, some, ok, length, any, All,
}
use android_smb_for_ksu.Text.{Text, chars, starts_with, lines}
use android_smb_for_ksu.Config.{parse}
use android_smb_for_ksu.Config.Map
use android_smb_for_ksu.Config.Map.{Config}
use android_smb_for_ksu.Config.Validate.{validate}
use android_smb_for_ksu.Config.Shape.{HasKeys}
use android_smb_for_ksu.Os.Network.{Address}
use android_smb_for_ksu.Os.Interfaces.{interfaces}
use android_smb_for_ksu.App.World.{Server, Read, Env, World}
use android_smb_for_ksu.App.Template.{expand}
use android_smb_for_ksu.App.Server.{config_file, passwd_file, effective}
use android_smb_for_ksu.App.Conf.{Settings, settings, values, template_for, conf_file}
use android_smb_for_ksu.App.Control.{prepare_logs}
use android_smb_for_ksu.App.Commands.{Command, run_command, enable_at_boot}
use android_smb_for_ksu.Watch.{reconcile}

-- config.conf is not there, or it can be loaded
abbrev pub IsLoadable : Option Text → Type 0
IsLoadable file = (file ≡ none) ⊎ ((s : Text) × (c : Config) × (file ≡ some s) × (parse s ≡ ok c))

-- settings that `load` or `update` can return
abbrev pub IsAccepted : Config → Type 0
IsAccepted c = HasKeys c × (validate c ≡ ok tt)

-- the storage of the share has been found ready
abbrev pub IsUnlocked : Env → Config → Type 0
IsUnlocked env c =
    (t : ℕ) × (path : Text) × (Map.index c (chars "SHARE_PATH") ≡ ok path)
    × (env.storage_ready t path ≡ true)

-- addresses that `interfaces` selects from a trusted network, the loopback address and more
abbrev pub AreTrusted : Env → Config → List Text → Type 0
AreTrusted env c ifaces =
    (t : ℕ) × (n : List Address) × (env.network t ≡ ok n)
    × (interfaces c n ≡ ok ifaces)
    × (2 ≤ length ifaces)

-- in user mode, a line of private/smbpasswd begins with `root:0:`
abbrev pub IsAdmitted : Config → Option Text → Type 0
IsAdmitted c passwords =
    Map.value c (chars "AUTH_MODE") ≡ chars "user"
    → (s : Text) × (passwords ≡ some s)
      × (any (λ l. starts_with l (chars "root:0:")) (lines s) ≡ true)

-- where the share lies: SHARE_PATH, or what `effective` finds below /data/media for it
abbrev pub IsShared : Env → Config → Text → Type 0
IsShared env c share_path =
    (path : Text) × (v : World) × (w : World) × (Map.index c (chars "SHARE_PATH") ≡ ok path)
    × (effective env path v ≡ (ok share_path, w))

-- the values that `conf` has collected
abbrev pub AreOf : Config → List Text → Text → Text → Settings → Type 0
AreOf c ifaces runtime share_path s =
    (v : World) × (w : World) × (settings c ifaces runtime share_path v ≡ (ok s, w))

-- An smb.conf of `conf`: the template of the mode, filled in with the values of accepted settings whose
-- storage was ready, and with the addresses of a trusted network; and in user mode, a password file that has a password.
pub record IsMade (env : Env) (runtime : Text) (read : Read) : Type 0 where
  pub config : Config
  pub accepted : IsAccepted config
  pub unlocked : IsUnlocked env config
  pub ifaces : List Text
  pub trusted : AreTrusted env config ifaces
  pub admitted : IsAdmitted config read.1
  pub share_path : Text
  pub shared : IsShared env config share_path
  pub chosen : Settings
  pub collected : AreOf config ifaces runtime share_path chosen
  pub auth : Text
  pub mode : Map.index config (chars "AUTH_MODE") ≡ ok auth
  pub text : Text
  pub expanded : expand (values chosen) (template_for auth) ≡ ok text
  pub there : read.0 ≡ some text

-- config.conf can be loaded, and smbd has read no other smb.conf than one of `conf`; `X` is what is
-- known of the present smb.conf and private/smbpasswd
pub record IsSoundWith (env : Env) (runtime : Text) (X : Read → Type 0) (w : World) : Type 0 where
  pub loads : IsLoadable (w.files config_file)
  pub made : All (IsMade env runtime) w.launches
  pub known : X (w.files conf_file, w.files passwd_file)

abbrev pub Anything : Read → Type 0
Anything read = Unit

abbrev pub IsSound : Env → Text → World → Type 0
IsSound env runtime = IsSoundWith env runtime Anything

-- What happens while the lock is held: a command, a pass of the watcher, the preparation of the logs or
-- the end of a boot, with whatever outcome; or others start and end processes, or change files but leave
-- a config.conf that can be loaded.
pub data Step (env : Env) (runtime : Text) (md4 : List ℕ → List ℕ) (w : World)
    : World → Type 0 where
  command : (c : Command) → Step env runtime md4 w (run_command env runtime md4 c w).1
  enabled : Step env runtime md4 w (enable_at_boot env runtime md4 w).1
  reconciled : Step env runtime md4 w (reconcile env runtime w).1
  prepared : Step env runtime md4 w (prepare_logs env runtime w).1
  processes : (ss : List Server) → Step env runtime md4 w (record w { servers = ss })
  edited :
      (files : Text → Option Text)
      → IsLoadable (files config_file)
      → Step env runtime md4 w (record w { files = files })

pub data Reach (env : Env) (runtime : Text) (md4 : List ℕ → List ℕ) (w : World)
    : World → Type 0 where
  begun : Reach env runtime md4 w w
  later :
      {u v : World}
      → Reach env runtime md4 w u
      → Step env runtime md4 u v
      → Reach env runtime md4 w v
