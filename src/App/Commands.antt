-- ===== src/App/Commands.antt =====
-- The commands of `App::dispatch` (native/smbctl/src/main.rs) that change the state. The lock
-- control.lock makes each of them but `boot` one uninterrupted action.
use android_smb_for_ksu.Common.{
  ℕ, zero, suc, ◌-◌, ◌/◌, ◌%◌, Bool, true, false, not, ◌&&◌, ◌||◌, List, [], ◌∷◌, ◌++◌, Option, ltb,
  ◌==◌, if◌then◌else◌, is_empty, map, Result, Error, ok, err, ok_or,
}
use android_smb_for_ksu.Text.{Text, chars}
use android_smb_for_ksu.Config
use android_smb_for_ksu.Config.Map
use android_smb_for_ksu.Config.Map.{Config}
use android_smb_for_ksu.Password.{nt_hash, upper_digit}
use android_smb_for_ksu.App.World.{
  Env, M, pure, lift, try_ask, ◌>>=◌, ◌>>◌, when, exists, write_file,
}
use android_smb_for_ksu.App.Server.{setting_is, load, save, pids, halt, password, passwd_file}
use android_smb_for_ksu.App.Card.{card}
use android_smb_for_ksu.App.Conf.{usermap}
use android_smb_for_ksu.App.Control.{start, stop, pending_file, enabled_key, one}

pub data Command : Type 0 where
  start_server stop_server suspend_network restart : Command
  set_config save_restart : List Text → Command
  set_password_hex : Option Text → Command

-- the sixteen digits of a `u64` in base 16
unfoldable pub hex_from : ℕ → ℕ → Text
hex_from zero n = []
hex_from (suc f) n = hex_from f (n / 16) ++ upper_digit (n % 16) ∷ []

-- `str::to_uppercase` of hexadecimal digits
abbrev pub to_uppercase : Text → Text
to_uppercase = map (λ c. if ltb c b'a' || ltb b'z' c then c else c - 32)

-- `{:08X}`
abbrev pub skip_zeros : ℕ → Text → Text
skip_zeros zero s = s
skip_zeros (suc n) [] = []
skip_zeros (suc n) (c ∷ s) = if c == b'0' then skip_zeros n s else c ∷ s

unfoldable pub show_hex8 : ℕ → Text
unfolding hex_from
show_hex8 n = skip_zeros 8 (hex_from 16 n)

-- the line of private/smbpasswd
unfoldable pub passwd_line : Text → ℕ → Text
unfolding show_hex8
passwd_line hash now =
    chars "root:0:XXXXXXXXXXXXXXXXXXXXXXXXXXXXXXXX:"
    ++ (to_uppercase hash ++ (chars ":[U          ]:LCT-" ++ (show_hex8 now ++ chars ":\n")))

-- `config::update` on the map that the command has loaded
abbrev pub map_of : Result (Unit {0}) × Config → Result Config
map_of (ok u, c) = ok c
map_of (err e, c) = err e

abbrev pub updated : Config → List Text → Result Config
updated c args = map_of (Config.update c args)

module _ (env : Env) (runtime : Text) (md4 : List ℕ → List ℕ) where
  abbrev pub done : M Config → M (Unit {0})
  done m = m >>= λ c. pure tt

  unfoldable pub change_config : Config → List Text → M Config
  change_config c args = do c' ← lift (updated c args); save env c'; usermap env runtime c'; pure c'

  -- `save_restart` in user mode with no password: the start waits for one
  unfoldable pub await_password : Config → M (Unit {0})
  await_password c = do
    halt env
    write_file env pending_file one
    save env (Map.insert enabled_key one c)

  unfoldable pub halt_and_start : Config → M (Unit {0})
  halt_and_start c = do halt env; done (start env runtime c)

  unfoldable pub restart_saved : Config → M (Unit {0})
  restart_saved c = do
    user ← setting_is c (chars "AUTH_MODE") (chars "user")
    known ← password env
    if user && not known then await_password c else halt_and_start c

  unfoldable pub set_password : Config → Option Text → M (Unit {0})
  set_password c arg = do
    hex ← lift (ok_or arg Error.missing_password)
    hash ← lift (nt_hash md4 hex)
    now ← try_ask env.seconds
    write_file env passwd_file (passwd_line hash now)
    usermap env runtime c
    user ← setting_is c (chars "AUTH_MODE") (chars "user")
    pending ← exists pending_file
    ps ← pids env
    when (user && (pending || not (is_empty ps))) (halt_and_start c)

  unfoldable pub execute : Command → Config → M (Unit {0})
  execute start_server c = done (start env runtime c)
  execute stop_server c = done (stop env runtime c false)
  execute suspend_network c = done (stop env runtime c true)
  execute restart c = halt_and_start c
  execute (set_config args) c = done (change_config c args)
  execute (save_restart args) c = do c' ← change_config c args; restart_saved c'
  execute (set_password_hex arg) c = set_password c arg

  unfoldable pub run_command : Command → M (Unit {0})
  run_command cmd = do c ← load env; execute cmd c; card env

  abbrev pub enable_if : Bool → Config → Config
  enable_if true c = Map.insert enabled_key one c
  enable_if false c = c

  -- the end of the command `boot`
  unfoldable pub enable_at_boot : M (Unit {0})
  enable_at_boot = do
    c ← load env
    auto ← setting_is c (chars "AUTO_START") (chars "1")
    save env (enable_if auto c)
