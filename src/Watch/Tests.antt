-- ===== src/Watch/Tests.antt =====
-- Runs of the watcher.
use android_smb_for_ksu.Common.{
  All, false, some, true, ok, err, Error, ◌⊎◌, ℕ, ◌≡◌, refl, false, List, [], ◌∷◌, some, arith, ◌≤◌,
  leb, ◌+◌,
}
use android_smb_for_ksu.Text.{
  Text, chars, str_eq, split, utf8, encode_char, trim, trim_start, trim_end_matches, parse_int,
  parse_digits, parse_unsigned,
}
use android_smb_for_ksu.Os.Owner.{IsOwned}
use android_smb_for_ksu.Os.Sample.{program, owner, table, table-IsKernel, found, processes-found}
use android_smb_for_ksu.Watch.Stop.{
  IsWatcher, as_pid, stop, keep_if, is_watcher, recorded, has_argument, stop-targets,
}
use android_smb_for_ksu.Watch.Loop.{
  init, pass, is_due, on_crash, poll_timeout, pass_invalid, observe, after_reconcile, on_storage,
}
use android_smb_for_ksu.Watch.Run.{
  Child, master, oldest, coalesce, Watcher, Answers, look, reconciles, turn, next, polled,
}
use android_smb_for_ksu.Watch.Wakeups.{look-sleeps, turn-drops}
use android_smb_for_ksu.Watch.Backoff.{backoff}
use android_smb_for_ksu.Watch.Crashes.{on_crash_lem, run_crashes, recent}

abbrev pub snapshot : Text
snapshot = chars "wlan0 192.168.1.5/24"

backoff_example :
    let l₁ = pass init snapshot 0 100 false in
    let l₂ = pass l₁ snapshot 2200 2300 false in
    let l₃ = pass l₂ snapshot 6400 6500 false in
    let l₄ = pass l₃ snapshot 15000 15100 false in
    (l₁.retry ≡ some 2100)
    × (l₂.retry ≡ some 6300)
    × (l₃.retry ≡ some 14500)
    × ((u : ℕ) → is_due l₄ snapshot u ≡ false)
backoff_example =
    backoff init snapshot 0 100 2300 6500 15100 2200 6400 15000 (unfold str_eq in refl)
      (omega arith) (omega arith) (omega arith)

-- three crashes, of which the first is out of the window
abbrev crashes : List ℕ
crashes = 1000 ∷ 70000 ∷ 75000 ∷ []

on_crash_lem_example :
    let l = run_crashes init crashes in
    ((on_crash l 80000).force ≡ leb (recent 80000 crashes + 1) 3)
    × (3 ≤ recent 80000 crashes → (on_crash l 80000).retry ≡ some 110000)
on_crash_lem_example = on_crash_lem crashes 80000 (ground arith) (ground arith)

-- a turn in which the reconciliation fails
abbrev pub failing : Answers
failing = record {
  stopped = false;
  moved = false;
  execs = true;
  snapshot = ok snapshot;
  now = 100;
  succeeds = false;
  later = 200;
  pids = ok [];
  dirs = false;
  unlocked = false;
  at_poll = 250;
  events = ok (record { property = true; dirs = false; exited = false; changes = false });
  stopped_late = false;
  exit_time = 300;
  window = ok tt;
}

abbrev begun : Watcher
begun = record { loop = init; children = [] }

abbrev failed : Watcher
failed = record {
  loop = record {
    signature = snapshot;
    failures = 1;
    retry = some 2200;
    force = false;
    crashes = [];
  };
  children = [];
}

failed-run : look begun failing (ok snapshot) ≡ ok failed
unfolding look reconciles pass is_due observe after_reconcile str_eq
failed-run = refl

failed-due : is_due failed.loop snapshot 2200 ≡ true
unfolding is_due str_eq
failed-due = refl

look-sleeps_example :
    (r ms : ℕ) × (failed.loop.retry ≡ some r)
    × (r ≤ 2200)
    × (poll_timeout failed.loop 250 ≡ some ms)
    × (ms ≡ 1 ⊎ 250 + ms ≤ r)
look-sleeps_example = look-sleeps begun failing snapshot 2200 failed-run failed-due

abbrev woken : Watcher
woken = record { loop = record failed.loop { force = true }; children = [] }

woken-run : turn begun failing ≡ next woken
unfolding turn look reconciles pass is_due observe after_reconcile str_eq polled on_storage
woken-run = refl

-- the turn behind a crash finds config.conf broken
abbrev unreadable : Answers
unreadable = record failing {
  snapshot = err Error.invalid_port;
  events = ok (record { property = false; dirs = false; exited = false; changes = true });
}

abbrev crashed : Watcher
crashed = record { loop = on_crash failed.loop 1000; children = [] }

abbrev dropped : Watcher
dropped = record { loop = pass_invalid crashed.loop; children = [] }

dropped-run : turn crashed unreadable ≡ next dropped
unfolding turn look polled
dropped-run = refl

same-signature : str_eq snapshot crashed.loop.signature ≡ true
unfolding on_crash str_eq
same-signature = refl

turn-drops_example : reconciles dropped (ok snapshot) 2200 ≡ false
turn-drops_example =
    turn-drops crashed unreadable snapshot 2200 same-signature refl refl refl refl refl dropped-run

stopped-found : stop table (some (chars "42\n")) (ok program) 0 9 ≡ ok (found ∷ [])
unfolding stop keep_if is_watcher recorded has_argument split utf8 encode_char trim trim_start
    trim_end_matches parse_int parse_digits parse_unsigned str_eq
stopped-found = rw processes-found refl

stop-targets_example :
    All
      (λ p.
        IsOwned table owner (program ∷ []) p
        × IsWatcher table (as_pid (parse_int (trim (chars "42\n")))) 9 p)
      (found ∷ [])
stop-targets_example =
    stop-targets table owner table-IsKernel (some (chars "42\n")) program 0 9 stopped-found

-- the master and a process of a client, which has started later
abbrev parent : Child
parent = record { pid = 310; started = 900 }

abbrev client : Child
client = record { pid = 305; started = 950 }

master-run : master (client ∷ parent ∷ []) ≡ some parent
unfolding master oldest
master-run = refl

coalesce-run :
    coalesce 120 ((10, false, ok tt) ∷ (90, false, ok tt) ∷ (130, false, ok tt) ∷ [])
    ≡ ok (10 ∷ 90 ∷ [])
unfolding coalesce
coalesce-run = refl
