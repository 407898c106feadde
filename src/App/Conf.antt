-- ===== src/App/Conf.antt =====
-- `usermap` and `conf` of `App` (native/smbctl/src/main.rs): the Samba configuration.
use android_smb_for_ksu.Common.{
  Bool, true, false, not, ◌&&◌, ◌||◌, List, [], ◌∷◌, ◌++◌, ltb, if◌then◌else◌, length, Error,
}
use android_smb_for_ksu.Text.{Text, chars, str_eq}
use android_smb_for_ksu.Config.Map.{Config}
use android_smb_for_ksu.Os.Interfaces.{interfaces}
use android_smb_for_ksu.App.World.{
  Env, M, pure, lift, ask, try_ask, ◌>>=◌, ◌>>◌, fail_if, write_file,
}
use android_smb_for_ksu.App.Template.{expand}
use android_smb_for_ksu.App.Templates.{user_conf, guest_conf}
use android_smb_for_ksu.App.Server.{setting, setting_is, password, effective}

-- `join(" ")`
unfoldable pub join_blank : List Text → Text
join_blank [] = []
join_blank (t ∷ []) = t
join_blank (t ∷ u ∷ us) = t ++ b' ' ∷ join_blank (u ∷ us)

abbrev pub yes_no : Bool → Text
yes_no true = chars "yes"
yes_no false = chars "no"

-- what `conf` reads of the configuration, of the network and of the file system; `runtime` is the
-- path of the runtime directory
pub record Settings : Type 0 where
  pub workgroup : Text
  pub netbios_name : Text
  pub port : Text
  pub ifaces : List Text
  pub bind : Bool
  pub min_protocol : Text
  pub max_protocol : Text
  pub runtime : Text
  pub share_name : Text
  pub share_path : Text
  pub read_only : Bool

-- the vector `values`
abbrev pub values : Settings → List (Text × Text)
values s =
    (chars "WORKGROUP", s.workgroup)
    ∷ (chars "NETBIOS_NAME", s.netbios_name)
    ∷ (chars "PORT", s.port)
    ∷ (chars "iface", join_blank s.ifaces)
    ∷ (chars "bind", yes_no s.bind)
    ∷ (chars "effective_min", s.min_protocol)
    ∷ (chars "effective_max", s.max_protocol)
    ∷ (chars "signing_mode", chars "auto")
    ∷ (chars "encrypt_mode", chars "off")
    ∷ (chars "ntlm_mode", chars "ntlmv2-only")
    ∷ (chars "receivefile_size", chars "0")
    ∷ (chars "PASSDB", s.runtime ++ chars "/private/smbpasswd")
    ∷ (chars "USERMAP", s.runtime ++ chars "/private/username.map")
    ∷ (chars "LOGDIR", s.runtime ++ chars "/log")
    ∷ (chars "LOCKDIR", s.runtime ++ chars "/lock")
    ∷ (chars "STATEDIR", s.runtime ++ chars "/state")
    ∷ (chars "CACHEDIR", s.runtime ++ chars "/cache")
    ∷ (chars "PRIVATEDIR", s.runtime ++ chars "/private")
    ∷ (chars "PIDDIR", s.runtime ++ chars "/run")
    ∷ (chars "RUNTIME", s.runtime)
    ∷ (chars "SHARE_NAME", s.share_name)
    ∷ (chars "effective_share_path", s.share_path)
    ∷ (chars "readonly", yes_no s.read_only)
    ∷ (chars "writable", yes_no (not s.read_only))
    ∷ []

abbrev pub template_for : Text → Text
template_for auth = if str_eq auth (chars "user") then user_conf else guest_conf

abbrev pub conf_file : Text
conf_file = chars "smb.conf"

-- the parts of `Settings` that come from the configuration
unfoldable pub settings : Config → List Text → Text → Text → M Settings
settings c ifaces runtime share_path = do
  workgroup ← setting c (chars "WORKGROUP")
  netbios_name ← setting c (chars "NETBIOS_NAME")
  port ← setting c (chars "PORT")
  bound ← setting_is c (chars "BIND_INTERFACES") (chars "1")
  automatic ← setting_is c (chars "AUTO_START") (chars "1")
  lo ← setting c (chars "MIN_PROTOCOL")
  hi ← setting c (chars "MAX_PROTOCOL")
  share_name ← setting c (chars "SHARE_NAME")
  read_only ← setting_is c (chars "READ_ONLY") (chars "1")
  pure (record {
    workgroup = workgroup;
    netbios_name = netbios_name;
    port = port;
    ifaces = ifaces;
    bind = bound || automatic;
    min_protocol = lo;
    max_protocol = hi;
    runtime = runtime;
    share_name = share_name;
    share_path = share_path;
    read_only = read_only;
  })

module _ (env : Env) (runtime : Text) where
  unfoldable pub usermap : Config → M (Unit {0})
  usermap c = do
    user ← setting c (chars "SMB_USERNAME")
    write_file env (chars "private/username.map") (chars "!root = " ++ user ++ b'\n' ∷ [])

  -- the two refusals at the head of `conf`, and its interfaces
  unfoldable pub conf_ifaces : Config → M (List Text)
  conf_ifaces c = do
    n ← try_ask env.network
    ifaces ← lift (interfaces c n)
    fail_if (ltb (length ifaces) 2) Error.no_trusted_lan
    auth ← setting c (chars "AUTH_MODE")
    known ← password env
    fail_if (str_eq auth (chars "user") && not known) Error.auth_password_required
    pure ifaces

  unfoldable pub conf : Config → M (Unit {0})
  conf c = do
    ifaces ← conf_ifaces c
    usermap c
    path ← setting c (chars "SHARE_PATH")
    share_path ← effective env path
    made ← ask env.make_dir_ok
    fail_if (not made) Error.io
    s ← settings c ifaces runtime share_path
    auth ← setting c (chars "AUTH_MODE")
    out ← lift (expand (values s) (template_for auth))
    write_file env conf_file out
    write_file env (chars "auth_mode") auth
