-- ===== src/Storage/Tests.antt =====
-- A run of the storage code.
use android_smb_for_ksu.Common.{◌≡◌, ◌≢◌, refl, [], some, arith, ℕ, zero, suc, true, false, Bool}
use android_smb_for_ksu.Text.{Text, chars, str_eq}
use android_smb_for_ksu.Storage.Property.{Area, Follows, waiting, finished, look}
use android_smb_for_ksu.Storage.WaitEquals
use android_smb_for_ksu.Storage.WaitEquals.{wait_equals-awake}
use android_smb_for_ksu.Storage.Deadline
use android_smb_for_ksu.Storage.Events
use android_smb_for_ksu.Storage.Events.{Events-told}

abbrev backup : Text
backup = chars "SpeedBackup"

-- the property is made between two rounds
abbrev locked : Area
locked = record { global = 5; present = false; serial = 0; value = [] }

abbrev unlocked : Area
unlocked = record { global = 6; present = true; serial = 2; value = chars "1" }

locked-Follows : Follows locked unlocked
locked-Follows = record {
  stays = λ h. refl;
  counts = λ h. omega arith;
  tells = λ h e. absurd (omega (arith, e));
  counts_all = omega arith;
  tells_all = λ e. absurd (omega (arith, e));
}

abbrev asleep : WaitEquals.State
asleep = record { area = locked; round = waiting false 5 [] }

-- `n` steps of the loop before its deadline
rounds : ℕ → WaitEquals.State → WaitEquals.State
rounds zero s = s
rounds (suc n) s =
    rounds n (record s { round = WaitEquals.advance (chars "1") s.area false s.round })

rounds-Reach :
    (n : ℕ) {s : WaitEquals.State}
    → WaitEquals.Reach (chars "1") locked s
    → WaitEquals.Reach (chars "1") locked (rounds n s)
unfolding rounds
rounds-Reach zero r = r
rounds-Reach (suc n) r = rounds-Reach n (WaitEquals.later r (WaitEquals.turn false))

asleep-Reach : WaitEquals.Reach (chars "1") locked asleep
unfolding rounds WaitEquals.advance look str_eq
asleep-Reach = rounds-Reach 5 WaitEquals.begun

wait_equals-awake_example : asleep.area.value ≢ chars "1"
wait_equals-awake_example = wait_equals-awake asleep-Reach refl refl

-- the deadline passes while the function sleeps, and the property is made after its wakeup
abbrev ended : WaitEquals.State
ended = record { area = unlocked; round = finished true }

ended-LateRun : Deadline.LateRun (chars "1") asleep 6 ended
unfolding WaitEquals.advance look str_eq
ended-LateRun = Deadline.own (
    Deadline.own (
      Deadline.own (
        Deadline.own (Deadline.own (Deadline.others (Deadline.own Deadline.here) locked-Follows)))))

wait_equals-ends_example :
    (done : Bool) × (WaitEquals.returned ended.round ≡ some (Deadline.answer_of done))
    × (done ≡ true → WaitEquals.Saw (chars "1") (Deadline.LateRun-Reach asleep-Reach ended-LateRun))
wait_equals-ends_example = Deadline.wait_equals-ends asleep-Reach ended-LateRun

abbrev told : Events.State
told = record {
  area = unlocked;
  thread = record {
    round = waiting true 2 (chars "1");
    previous = some (chars "1");
    counter = 2;
    told = some (chars "1");
  };
}

-- `n` steps of the thread
steps : ℕ → Events.State → Events.State
steps zero s = s
steps (suc n) s = steps n (record s { thread = Events.advance s.thread s.area })

steps-Reach : (n : ℕ) {s : Events.State} → Events.Reach locked s → Events.Reach locked (steps n s)
unfolding steps
steps-Reach zero r = r
steps-Reach (suc n) r = steps-Reach n (Events.later r Events.turn)

told-Reach : Events.Reach locked told
unfolding steps Events.advance look str_eq
told-Reach = steps-Reach 6 (Events.later (steps-Reach 5 Events.begun) (Events.other locked-Follows))

Events-told_example : told.thread.told ≡ some (chars "1")
Events-told_example = Events-told told-Reach refl refl
