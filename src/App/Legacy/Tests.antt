-- ===== src/App/Legacy/Tests.antt =====
-- The end of an old watcher: a run.
use android_smb_for_ksu.Common.{◌≡◌, ok, true, All, List, [], none, some, Result}
use android_smb_for_ksu.Text.{Text, chars}
use android_smb_for_ksu.Os.Processes.{Process}
use android_smb_for_ksu.Os.Sample.{owner, table, table-IsKernel}
use android_smb_for_ksu.App.Legacy.{Old, records, retire_legacy}
use android_smb_for_ksu.App.Legacy.Ended.{EndsOld, retire_legacy_lem}

abbrev old_module : Text
old_module = chars "/data/adb/modules/smb"

-- the record of the native part is gone, and that of the script holds a number
abbrev netwatch : Old
netwatch = record { file = none; argument = []; first = 0; second = 9 }

abbrev shell : Old
shell = record { file = some (chars "42\n"); argument = []; first = 20; second = 29 }

abbrev all_end : List Process → Result (Unit {0})
all_end ps = ok tt

retire_legacy_lem_example :
    EndsOld table owner table-IsKernel
      (records old_module netwatch shell)
      (retire_legacy table all_end old_module netwatch shell true (ok tt)).ended
    × ((retire_legacy table all_end old_module netwatch shell true (ok tt)).removed ≡ true
        → All
            (λ ps. all_end ps ≡ ok tt)
            (retire_legacy table all_end old_module netwatch shell true (ok tt)).ended)
retire_legacy_lem_example =
    retire_legacy_lem table owner table-IsKernel all_end old_module netwatch shell true (ok tt)
