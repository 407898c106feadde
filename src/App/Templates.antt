-- ===== src/App/Templates.antt =====
-- The templates user.conf and guest.conf (native/smbctl/src), line by line.
use android_smb_for_ksu.Common.{List, [], ◌∷◌, ◌++◌}
use android_smb_for_ksu.Text.{Text, chars}

abbrev pub unlines : List Text → Text
unlines [] = []
unlines (l ∷ ls) = l ++ b'\n' ∷ unlines ls

abbrev pub user_conf : Text
user_conf = unlines (
    chars "[global]"
    ∷ chars "   dbwrap_tdb_mutexes:* = no"
    ∷ chars "   server role = standalone server"
    ∷ chars "   security = user"
    ∷ chars "   workgroup = $WORKGROUP"
    ∷ chars "   netbios name = $NETBIOS_NAME"
    ∷ chars "   server string = Android SMB Server WebUI"
    ∷ chars "   disable netbios = yes"
    ∷ chars "   smb ports = $PORT"
    ∷ chars "   interfaces = $iface"
    ∷ chars "   bind interfaces only = $bind"
    ∷ chars "   server min protocol = $effective_min"
    ∷ chars "   server max protocol = $effective_max"
    ∷ chars "   server signing = $signing_mode"
    ∷ chars "   server smb encrypt = $encrypt_mode"
    ∷ chars "   ntlm auth = $ntlm_mode"
    ∷ chars "   lanman auth = no"
    ∷ chars "   use sendfile = yes"
    ∷ chars "   aio read size = 1"
    ∷ chars "   aio write size = 1"
    ∷ chars "   min receivefile size = $receivefile_size"
    ∷ chars "   change notify = yes"
    ∷ chars "   kernel change notify = yes"
    ∷ chars "   smb3 directory leases = no"
    ∷ chars "   map to guest = Never"
    ∷ chars "   passdb backend = smbpasswd:$PASSDB"
    ∷ chars "   username map = $USERMAP"
    ∷ chars "   username map cache time = 0"
    ∷ chars "   load printers = no"
    ∷ chars "   printing = bsd"
    ∷ chars "   printcap name = /dev/null"
    ∷ chars "   log level = 0"
    ∷ chars "   log file = $LOGDIR/smbd.log"
    ∷ chars "   max log size = 512"
    ∷ chars "   lock directory = $LOCKDIR"
    ∷ chars "   state directory = $STATEDIR"
    ∷ chars "   cache directory = $CACHEDIR"
    ∷ chars "   private dir = $PRIVATEDIR"
    ∷ chars "   pid directory = $PIDDIR"
    ∷ chars "   ncalrpc dir = $RUNTIME/ncalrpc"
    ∷ []
    ∷ chars "[$SHARE_NAME]"
    ∷ chars "   path = $effective_share_path"
    ∷ chars "   browseable = yes"
    ∷ chars "   read only = $readonly"
    ∷ chars "   writable = $writable"
    ∷ chars "   guest ok = no"
    ∷ chars "   guest only = no"
    ∷ chars "   valid users = root"
    ∷ chars "   force user = root"
    ∷ chars "   force group = root"
    ∷ chars "   create mask = 0666"
    ∷ chars "   directory mask = 0777"
    ∷ [])

abbrev pub guest_conf : Text
guest_conf = unlines (
    chars "[global]"
    ∷ chars "   dbwrap_tdb_mutexes:* = no"
    ∷ chars "   server role = standalone server"
    ∷ chars "   security = user"
    ∷ chars "   workgroup = $WORKGROUP"
    ∷ chars "   netbios name = $NETBIOS_NAME"
    ∷ chars "   server string = Android SMB Server WebUI"
    ∷ chars "   disable netbios = yes"
    ∷ chars "   smb ports = $PORT"
    ∷ chars "   interfaces = $iface"
    ∷ chars "   bind interfaces only = $bind"
    ∷ chars "   server min protocol = $effective_min"
    ∷ chars "   server max protocol = $effective_max"
    ∷ chars "   server signing = $signing_mode"
    ∷ chars "   server smb encrypt = $encrypt_mode"
    ∷ chars "   ntlm auth = $ntlm_mode"
    ∷ chars "   lanman auth = no"
    ∷ chars "   use sendfile = yes"
    ∷ chars "   aio read size = 1"
    ∷ chars "   aio write size = 1"
    ∷ chars "   min receivefile size = $receivefile_size"
    ∷ chars "   change notify = yes"
    ∷ chars "   kernel change notify = yes"
    ∷ chars "   smb3 directory leases = no"
    ∷ chars "   map to guest = Bad User"
    ∷ chars "   guest account = root"
    ∷ chars "   usershare allow guests = yes"
    ∷ chars "   load printers = no"
    ∷ chars "   printing = bsd"
    ∷ chars "   printcap name = /dev/null"
    ∷ chars "   log level = 0"
    ∷ chars "   log file = $LOGDIR/smbd.log"
    ∷ chars "   max log size = 512"
    ∷ chars "   lock directory = $LOCKDIR"
    ∷ chars "   state directory = $STATEDIR"
    ∷ chars "   cache directory = $CACHEDIR"
    ∷ chars "   private dir = $PRIVATEDIR"
    ∷ chars "   pid directory = $PIDDIR"
    ∷ chars "   ncalrpc dir = $RUNTIME/ncalrpc"
    ∷ []
    ∷ chars "[$SHARE_NAME]"
    ∷ chars "   path = $effective_share_path"
    ∷ chars "   browseable = yes"
    ∷ chars "   read only = $readonly"
    ∷ chars "   writable = $writable"
    ∷ chars "   guest ok = yes"
    ∷ chars "   guest only = yes"
    ∷ chars "   force user = root"
    ∷ chars "   force group = root"
    ∷ chars "   create mask = 0666"
    ∷ chars "   directory mask = 0777"
    ∷ [])
