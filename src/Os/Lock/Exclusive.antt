-- ===== src/Os/Lock/Exclusive.antt =====
-- Processes that take the same lock (os.rs) in any order: smbctl's watchers that take watch.lock without
-- waiting, or its commands and passes that wait for control.lock.
use android_smb_for_ksu.Common.{
  ℕ, ◌≡◌, ◌≢◌, refl, sym, ◌∙◌, arith, Bool, true, false, Option, none, some, if◌then◌else◌, ◌==◌,
  ==_iff, inl, inr, Option-cases,
}
use android_smb_for_ksu.Os.Lock.{Errno, would_block, other, Acquired, acquired, failed, new}

-- `inside` is that the process holds a `Lock`, and `held` that the kernel has locked the file for it
pub record State : Type 0 where
  pub inside : ℕ → Bool
  pub held : ℕ → Bool

abbrev pub set : (ℕ → Bool) → ℕ → Bool → ℕ → Bool
set f i b j = if j == i then b else f j

-- what is documented of `flock` with LOCK_EX: it succeeds only if no other process has the file locked,
-- and answers EWOULDBLOCK only to LOCK_NB and if one has
pub record IsFlock (held : ℕ → Bool) (i : ℕ) (answer : Bool → Option Errno) : Type 0 where
  pub alone : (nonblock : Bool) (j : ℕ) → answer nonblock ≡ none → held j ≡ true → j ≡ i
  pub taken : answer true ≡ some would_block → (j : ℕ) × (j ≢ i) × (held j ≡ true)
  pub waits : answer false ≢ some would_block

abbrev pub tried : State → ℕ → Acquired → State
tried s i acquired = record { inside = set s.inside i true; held = set s.held i true }
tried s i (failed e) = s

-- a process calls `Lock::new`; or its `Lock` is dropped, or it ends
pub data Step (nonblock : Bool) (s : State) : State → Type 0 where
  attempt :
      (i : ℕ) (open_error : Option Errno) (flock : Bool → Option Errno)
      → s.inside i ≡ false
      → IsFlock s.held i flock
      → Step nonblock s (tried s i (new open_error flock nonblock))
  drop :
      (i : ℕ)
      → Step nonblock s (record { inside = set s.inside i false; held = set s.held i false })

abbrev pub free : State
free = record { inside = λ i. false; held = λ i. false }

pub data Reach (nonblock : Bool) : State → Type 0 where
  begun : Reach nonblock free
  later : {s t : State} → Reach nonblock s → Step nonblock s t → Reach nonblock t

-- the kernel has the file locked for the processes that are inside, and for one at most
record IsConsistent (s : State) : Type 0 where
  same : (i : ℕ) → s.inside i ≡ s.held i
  alone : (i j : ℕ) → s.held i ≡ true → s.held j ≡ true → i ≡ j

new-acquired :
    (open_error : Option Errno) (flock : Bool → Option Errno) (nonblock : Bool)
    → new open_error flock nonblock ≡ acquired
    → flock nonblock ≡ none
unfolding new
new-acquired (some e) flock nonblock h = cc
new-acquired none flock nonblock h = elim (Option-cases (flock nonblock)) [
  | inl nothing ↦ nothing
  | inr (e, there) ↦ absurd (ground arith)
]

attempt-IsConsistent :
    (s : State) (i : ℕ) (a : Acquired)
    → (a ≡ acquired → (j : ℕ) → s.held j ≡ true → j ≡ i)
    → IsConsistent s
    → IsConsistent (tried s i a)
attempt-IsConsistent s i acquired h k = record {
  same = λ j. ground (arith, k.same j);
  alone = λ j l in_j in_l. ground (arith, h refl j, h refl l, k.alone j l, ==_iff j i, ==_iff l i);
}
attempt-IsConsistent s i (failed e) h k = k

drop-IsConsistent :
    (s : State) (i : ℕ)
    → IsConsistent s
    → IsConsistent (record { inside = set s.inside i false; held = set s.held i false })
drop-IsConsistent s i k = record {
  same = λ j. ground (arith, k.same j);
  alone = λ j l in_j in_l. ground (arith, k.alone j l);
}

Reach-IsConsistent : {nonblock : Bool} {s : State} → Reach nonblock s → IsConsistent s
Reach-IsConsistent begun = record { same = λ i. refl; alone = λ i j h k. cc }
Reach-IsConsistent {nonblock} (later {s} r (attempt i open_error flock out law)) =
    attempt-IsConsistent s i (new open_error flock nonblock)
      (λ h j k. law.alone nonblock j (new-acquired open_error flock nonblock h) k)
      (Reach-IsConsistent r)
Reach-IsConsistent (later {s} r (drop i)) = drop-IsConsistent s i (Reach-IsConsistent r)

-- However processes take the lock, are refused it, drop it and end, two are never inside together.
new-exclusive :
    {nonblock : Bool} {s : State}
    → Reach nonblock s
    → (i j : ℕ) → s.inside i ≡ true
    → s.inside j ≡ true
    → i ≡ j
new-exclusive r i j in_i in_j =
    let k = Reach-IsConsistent r in k.alone i j (sym (k.same i) ∙ in_i) (sym (k.same j) ∙ in_j)

-- a refusal without waiting: another process is inside
pub new-would_block :
    {s : State} (i : ℕ) (open_error : Option Errno) (flock : Bool → Option Errno)
    → Reach true s
    → IsFlock s.held i flock
    → open_error ≢ some would_block
    → new open_error flock true ≡ failed would_block
    → (j : ℕ) × (j ≢ i) × (s.inside j ≡ true)
unfolding new
new-would_block i (some would_block) flock r law opens h = absurd (opens refl)
new-would_block i (some other) flock r law opens h = cc
new-would_block {s} i none flock r law opens h = elim (Option-cases (flock true)) [
  | inl free_now ↦ absurd (ground arith)
  | inr (would_block, refused) ↦
      let (j, another, held) = law.taken refused in
      (j, another, (Reach-IsConsistent r).same j ∙ held)
  | inr (other, refused) ↦ absurd (ground arith)
]
