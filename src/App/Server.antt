-- ===== src/App/Server.antt =====
-- The server processes of `App` (native/smbctl/src/main.rs): `load`, `pids`, `password`, `effective`,
-- `ready_with`, `halt` and the writing of config.conf.
use android_smb_for_ksu.Common.{
  ℕ, ◌+◌, Bool, false, not, ◌&&◌, ◌||◌, List, [], ◌∷◌, ◌++◌, Option, none, some, ltb, ◌==◌,
  if◌then◌else◌, any, all, length, unwrap_or, Result, Error, ok, err,
}
use android_smb_for_ksu.Text.{
  Text, chars, str_eq, is_one_of, starts_with, strip_prefix, before_char, parse_unsigned, lines,
}
use android_smb_for_ksu.Config
use android_smb_for_ksu.Config.Map
use android_smb_for_ksu.Config.Map.{Config}
use android_smb_for_ksu.Os.Network.{Address}
use android_smb_for_ksu.Os.Sockets.{Socket}
use android_smb_for_ksu.Os.Interfaces.{interfaces}
use android_smb_for_ksu.App.World.{
  Server, Env, World, M, pure, lift, ask, try_ask, gets, log, ◌>>=◌, ◌>>◌, read_or_empty,
  write_file,
}

abbrev pub config_file : Text
config_file = chars "config.conf"

abbrev pub passwd_file : Text
passwd_file = chars "private/smbpasswd"

abbrev pub smbd : Text
smbd = chars "smbd"

-- the programs that `halt` stops and `start` looks for
abbrev pub helpers : List Text
helpers =
    smbd
    ∷ chars "samba-dcerpcd"
    ∷ chars "rpcd_classic"
    ∷ chars "rpcd_lsad"
    ∷ chars "rpcd_winreg"
    ∷ []

unfoldable pub keep_servers : (Server → Bool) → List Server → List Server
keep_servers p [] = []
keep_servers p (s ∷ ss) = let rest = keep_servers p ss in if p s then s ∷ rest else rest

abbrev pub is_running : List Text → Server → Bool
is_running names s = is_one_of names s.exe

-- the process is one of those that were found
abbrev pub is_among : List Server → Server → Bool
is_among ps s = any (λ p. p.pid == s.pid && str_eq p.exe s.exe) ps

-- `c[k]`
abbrev pub setting : Config → Text → M Text
setting c k = lift (Map.index c k)

-- whether the setting `c[k]` is `v`
abbrev pub setting_is : Config → Text → Text → M Bool
setting_is c k v = setting c k >>= λ x. pure (str_eq x v)

module _ (env : Env) where
  -- `fs::read_to_string` of config.conf
  unfoldable pub read_config : World → Result (Option Text)
  read_config w = if env.read_ok w.now then ok (w.files config_file) else err Error.io

  unfoldable pub load : M Config
  load w = (Config.load (read_config w), record w { now = w.now + 1 })

  -- `config::save`: nothing is written if the file has the same bytes
  unfoldable pub same_file : Text → Text → World → Bool
  same_file p s w = elim (w.files p) [ none ↦ false | some t ↦ env.read_ok w.now && str_eq t s ]

  unfoldable pub save : Config → M (Unit {0})
  save c = do
    s ← lift (Config.render c)
    same ← gets (same_file config_file s)
    if same then pure tt else write_file env config_file s

  -- `os::processes`: processes that have exited are gone, and some that are there may be skipped
  unfoldable pub processes : List Text → M (List Server)
  processes names w =
      let there = keep_servers (env.alive w.now) w.servers in
      (
        if env.processes_ok w.now
            then ok (keep_servers (λ s. is_running names s && env.seen w.now s) there)
            else err Error.io,
        record w { servers = there; now = w.now + 1 },
      )

  unfoldable pub pids : M (List Server)
  pids = processes (smbd ∷ [])

  -- `os::terminate`: after a success the processes that it was given have exited
  unfoldable pub terminate : List Server → M (Unit {0})
  terminate ps w =
      if env.terminate_ok w.now
      then (
        ok tt,
        record w { servers = keep_servers (λ s. not (is_among ps s)) w.servers; now = w.now + 1 },
      )
      else (
        err Error.process_survived,
        record w { servers = keep_servers (env.survives w.now) w.servers; now = w.now + 1 },
      )

  unfoldable pub halt : M (Unit {0})
  halt = do ps ← processes helpers; terminate ps; log env (chars "STOP completed")

  -- a line of private/smbpasswd begins with `root:0:`
  unfoldable pub has_root_line : Text → Bool
  has_root_line s = any (λ l. starts_with l (chars "root:0:")) (lines s)

  unfoldable pub password : M Bool
  password = do s ← read_or_empty env passwd_file; pure (has_root_line s)

  -- the loop of `effective` over the two aliases of user 0's storage
  unfoldable pub alias_tail : Text → Text → Option Text
  alias_tail path prefix =
      if str_eq path prefix || starts_with path (prefix ++ b'/' ∷ [])
      then strip_prefix path prefix
      else none

  abbrev pub effective_for : ℕ → Text → Option Text → Text → Text
  effective_for t path none other = other
  effective_for t path (some tail) other =
      if env.is_dir t (chars "/data/media/0" ++ tail) then chars "/data/media/0" ++ tail else other

  unfoldable pub effective : Text → M Text
  effective path = ask λ t.
      effective_for t path (alias_tail path (chars "/sdcard"))
        (effective_for t path (alias_tail path (chars "/storage/emulated/0")) path)

  -- `socks.contains(&(host, port))`
  abbrev pub listens : List Socket → Text → ℕ → Bool
  listens socks host port = any (λ s. str_eq s.0 host && s.1 == port) socks

  unfoldable pub port_number : Text → ℕ
  port_number s = unwrap_or (parse_unsigned 65535 s) 445

  unfoldable pub all_listening : List Socket → List Text → ℕ → Bool
  all_listening socks ifaces port =
      ltb 1 (length ifaces) && all (λ i. listens socks (before_char i b'/') port) ifaces

  unfoldable pub ready_with : Config → List Address → List Server → M Bool
  ready_with c n [] = pure false
  ready_with c n (p ∷ ps) = do
    socks ← ask (λ t. env.sockets t (p ∷ ps))
    port ← setting c (chars "PORT")
    unbound ← setting_is c (chars "BIND_INTERFACES") (chars "0")
    manual ← setting_is c (chars "AUTO_START") (chars "0")
    ifaces ← lift (interfaces c n)
    let number = port_number port
    pure (
        if unbound && manual
        then listens socks (chars "0.0.0.0") number || listens socks (chars "::") number
        else all_listening socks ifaces number)

  unfoldable pub ready : Config → M Bool
  ready c = do n ← try_ask env.network; ps ← pids; ready_with c n ps
