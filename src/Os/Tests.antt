-- ===== src/Os/Tests.antt =====
-- Runs of the network and process code.
use android_smb_for_ksu.Common.{
  All, pos, int_eq, none, ◌≡◌, refl, Bool, true, false, not, ◌||◌, List, [], ◌∷◌, ◌++◌, some, arith,
  any, ◌↔◌, ok,
}
use android_smb_for_ksu.Text.{Text, chars, str_eq, is_one_of}
use android_smb_for_ksu.Os.Owner.{IsOwned, processes-IsOwned}
use android_smb_for_ksu.Os.Found.{processes-finds}
use android_smb_for_ksu.Os.Sample.{
  program, owner, table, table-IsKernel, found, processes-found, found-IsSteady, found-listed,
}
use android_smb_for_ksu.Config.Map
use android_smb_for_ksu.Config.Tests.{plain_config}
use android_smb_for_ksu.Os.Network.{IfAddr, Address, network}
use android_smb_for_ksu.Os.Network.Sound.{is_listed, ComesFrom, network_lem}
use android_smb_for_ksu.Os.Interfaces.{
  interfaces, interfaces_lem, is_nodup, loopback, selects, is_selected, bind_from,
}
use android_smb_for_ksu.Os.Sockets.{Owner, sockets}
use android_smb_for_ksu.Os.Sockets.Owned.{IsListening, sockets-IsListening}
use android_smb_for_ksu.Os.Terminate.{
  Signal, Round, sent, polled, terminate, saw_exit, at, terminate_all_exited, send_terms, settle,
  wait,
}

-- a LAN address, and one of a mobile network
abbrev addrs : List IfAddr
addrs =
    record {
      name = chars "wlan0";
      family = some 2;
      ip = 0xc0a80105;
      mask = some 0xffffff00;
      up = true;
    }
    ∷ record {
      name = chars "rmnet0";
      family = some 2;
      ip = 0x0a000001;
      mask = some 0xff000000;
      up = true;
    }
    ∷ []

abbrev home : Address
home = (chars "wlan0", chars "192.168.1.5/24")

abbrev no_wireless : Text → Bool
no_wireless name = false

network_lem_example :
    (is_listed (network no_wireless addrs) home ≡ true) ↔ ComesFrom no_wireless addrs home
network_lem_example = network_lem no_wireless addrs home

abbrev bound : List Text
bound = loopback ∷ chars "192.168.1.5/24" ∷ []

bound-run : interfaces plain_config (home ∷ []) ≡ ok bound
unfolding interfaces Map.index bind_from is_selected is_one_of
bound-run = refl

interfaces_lem_example :
    (is_nodup bound ≡ true)
    × ((t : Text)
        → is_one_of bound t ≡ (
            str_eq t loopback
            || selects
                (Map.value plain_config (chars "INTERFACES_AUTO"))
                (Map.value plain_config (chars "EXTRA_INTERFACES"))
                (home ∷ [])
                t))
interfaces_lem_example = interfaces_lem plain_config (home ∷ []) bound-run

abbrev signals : List Signal
signals = sent ∷ sent ∷ []

abbrev first_wait : List Round
first_wait = polled (true ∷ false ∷ []) ∷ polled (false ∷ false ∷ []) ∷ []

abbrev second_wait : List Round
second_wait = polled (false ∷ true ∷ []) ∷ []

abbrev killed : List Bool
killed = false ∷ true ∷ []

killed-run : terminate signals first_wait second_wait ≡ ok killed
unfolding terminate send_terms settle wait
killed-run = refl

terminate_all_exited_example :
    (any (λ r. saw_exit 1 r) (first_wait ++ second_wait) ≡ true)
    × (at killed 1 ≡ not (any (λ r. saw_exit 1 r) first_wait))
terminate_all_exited_example =
    terminate_all_exited signals first_wait second_wait 1 killed-run (omega arith)

processes-IsOwned_example : All (IsOwned table owner (program ∷ [])) (found ∷ [])
processes-IsOwned_example =
    processes-IsOwned table owner table-IsKernel (program ∷ []) 0 processes-found

program-asked : is_one_of (program ∷ []) program ≡ true
unfolding is_one_of str_eq
program-asked = refl

processes-finds_example : any (λ p. int_eq p.pid (pos 42)) (found ∷ []) ≡ true
processes-finds_example =
    processes-finds table (program ∷ []) (pos 42) (chars "900") program 0 found-IsSteady
      program-asked refl found-listed processes-found

-- smbd with one socket
abbrev server : Owner
server = record {
  seen_start = chars "900";
  seen_exe = chars "/data/smbd";
  start = some (chars "900");
  exe = some (chars "/data/smbd");
  links = some (chars "pipe:[7]" ∷ chars "socket:[12345]" ∷ []);
}

-- its listener, and one of another process
abbrev tcp_table : Text
tcp_table =
    chars
      "sl\n 0: 0501A8C0:20FD 00000000:0000 0A 0:0 00:0 0 0 0 12345 1\n 1: 0501A8C0:0016 00000000:0000 0A 0:0 00:0 0 0 0 777 1\n"

sockets-IsListening_example :
    All
      (IsListening (some tcp_table) none (server ∷ []))
      (sockets (server ∷ []) (some tcp_table) none)
sockets-IsListening_example = sockets-IsListening (server ∷ []) (some tcp_table) none
