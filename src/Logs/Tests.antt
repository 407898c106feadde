-- ===== src/Logs/Tests.antt =====
-- Limits on archived logs: a run.
use android_smb_for_ksu.Common.{ℕ, ◌≡◌, ◌≤◌, ◌<◌, ◌⊎◌, true, false, List, [], ◌∷◌, length, drop}
use android_smb_for_ksu.Text.{chars}
use android_smb_for_ksu.Logs.{Entry, archives, insert_entry, sort_entries, prune}
use android_smb_for_ksu.Logs.Prune.{sizes, is_ordered, prune_lem}
use mathlib.Core.List.{Perm}
use android_smb_for_ksu.Common.{refl, arith, ok, if◌then◌else◌, ltb}
use android_smb_for_ksu.Text.{Text}
use android_smb_for_ksu.Logs.{is_id, changed}
use android_smb_for_ksu.Logs.Disk.{Disk, absent, dir, change, ◌>>=◌}
use android_smb_for_ksu.Logs.Prepare.{
  Sys, prepare, rotate, archive_log, begin_log, prune_loop, entries, mark, made, add_file,
}
use android_smb_for_ksu.Logs.Prepare
use android_smb_for_ksu.Logs.Marked.{IsMarked}
use android_smb_for_ksu.Logs.Crash.{Reach, here, later, booted, prepared, logged, Reach-IsMarked}
use android_smb_for_ksu.Logs.Bytes.{
  Tree, symlink, file, folder, end, entry, IsReadable, bytes, size, u64_max, bytes_lem,
}

-- four archives and a file that is not one
abbrev history : List Entry
history =
    record { name = chars "boot-4"; is_dir = true; size = 100 }
    ∷ record { name = chars "boot-1"; is_dir = true; size = 200 }
    ∷ record { name = chars "notes"; is_dir = false; size = 5 }
    ∷ record { name = chars "boot-3"; is_dir = true; size = 16777216 }
    ∷ record { name = chars "boot-2"; is_dir = true; size = 300 }
    ∷ []

abbrev sorted : List Entry
sorted = sort_entries (archives history)

prune_lem_example :
    Perm sorted (archives history)
    × (is_ordered sorted ≡ true)
    × ((k : ℕ) × (prune history ≡ drop k sorted)
        × (length (prune history) ≤ 3)
        × (sizes (prune history) ≤ 16777216)
        × ((j : ℕ) → j < k → (3 < length (drop j sorted)) ⊎ (16777216 < sizes (drop j sorted))))
unfolding sizes sort_entries archives insert_entry android_smb_for_ksu.Text.starts_with
    android_smb_for_ksu.Text.str_lt
prune_lem_example = prune_lem history (omega arith)

-- the boots: each call succeeds, and the archives are small
abbrev pub boot_sys : Sys
boot_sys = record {
  earlier = [];
  reads_marker = true;
  make_history = true;
  protect_history = true;
  now = ok 1700000000;
  rereads_marker = true;
  list_log = true;
  rename_log = true;
  rename_stamp = true;
  make_log = true;
  protect_log = true;
  open_log = true;
  write_log = true;
  list_history = true;
  size = λ a. ok 100;
  remove = λ n. true;
  mark = true;
  mark_lands = true;
}

abbrev first_boot : Text
first_boot = chars "aaaaaaaa-1111-4111-8111-aaaaaaaaaaaa"

abbrev second_boot : Text
second_boot = chars "bbbbbbbb-2222-4222-8222-bbbbbbbbbbbb"

-- nothing is there before the first boot
abbrev empty_disk : Disk
empty_disk = record { log = absent; history = absent; stamp = false }

abbrev first_disk : Disk
first_disk = (prepare boot_sys first_boot empty_disk).disk

abbrev second_sys : Sys
second_sys = record boot_sys { earlier = first_boot ∷ [] }

-- the second boot writes into the log of the first one before it prepares its own
abbrev mixed_disk : Disk
mixed_disk = add_file (chars "module.log") (second_boot ∷ first_boot ∷ []) first_disk

abbrev last_disk : Disk
last_disk = (prepare second_sys second_boot mixed_disk).disk

first-log : first_disk.log ≡ dir (made first_disk.log)
unfolding prepare rotate archive_log begin_log Prepare.prune prune_loop entries mark change ◌>>=◌
    changed sort_entries archives
first-log = refl

boots-Reach :
    Reach
      (record { disk = empty_disk; boots = [] })
      (record { disk = last_disk; boots = second_boot ∷ first_boot ∷ [] })
unfolding is_id
boots-Reach =
    later
      (later
        (later (later (later here (booted first_boot)) (prepared boot_sys first_boot refl refl))
          (booted second_boot))
        (logged (chars "module.log") (made first_disk.log) first-log))
      (prepared second_sys second_boot refl refl)

Reach-IsMarked_example : IsMarked (second_boot ∷ first_boot ∷ []) last_disk
Reach-IsMarked_example = Reach-IsMarked boots-Reach (tt, tt)

-- a directory with two files whose sizes do not fit a `u64`, a symbolic link, and a directory
abbrev big_tree : Tree
big_tree = folder (
    entry (file 18446744073709551615)
      (entry symlink (entry (folder (entry (file 7) end)) (entry (file 3) end))))

big_tree-IsReadable : IsReadable big_tree
unfolding IsReadable
big_tree-IsReadable = (omega arith, (tt, ((omega arith, tt), (omega arith, tt))))

bytes_lem_example :
    bytes big_tree ≡ ok (if ltb u64_max (size big_tree) then u64_max else size big_tree)
bytes_lem_example = bytes_lem big_tree big_tree-IsReadable
