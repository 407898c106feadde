-- ===== src/Watch/Crashes.antt =====
-- The limit on restarts after crashes of the server (native/smbctl/src/watch.rs).
use android_smb_for_ksu.Common.{
  ℕ, suc, ◌+◌, ◌-◌, ◌≤◌, ◌<◌, ◌≡◌, refl, sym, ap, ◌∙◌, List, [], ◌∷◌, ◌++◌, some, arith, leb,
  if◌then◌else◌, length, length-append, All, All-append, Bool-cases, inl, inr, append-nil,
  append_assoc, subst,
}
use android_smb_for_ksu.Watch.Loop.{Loop, init, window, drop_old, on_crash}

-- the crashes, in order, each answered by the loop
pub run_crashes : Loop → List ℕ → Loop
run_crashes l [] = l
run_crashes l (t ∷ ts) = run_crashes (on_crash l t) ts

-- how many of the times lie less than 30 s before `now`
abbrev pub recent : ℕ → List ℕ → ℕ
recent now [] = 0
recent now (t ∷ ts) = let rest = recent now ts in if leb window (now - t) then rest else suc rest

abbrev pub IsAscending : List ℕ → Type 0
IsAscending [] = Unit
IsAscending (t ∷ ts) = All (λ u. t ≤ u) ts × IsAscending ts

recent-drop_old :
    (now later : ℕ) (ts : List ℕ) → now ≤ later → recent later (drop_old now ts) ≡ recent later ts
unfolding drop_old
recent-drop_old now later [] h = refl
recent-drop_old now later (t ∷ ts) h = ground (arith, recent-drop_old now later ts)

recent-append : (now : ℕ) (ts us : List ℕ) → recent now (ts ++ us) ≡ recent now ts + recent now us
recent-append now [] us = omega arith
recent-append now (t ∷ ts) us = ground (arith, recent-append now ts us)

recent-All :
    (now t : ℕ) (ts : List ℕ) → now - t < window → All (λ u. t ≤ u) ts → recent now ts ≡ length ts
recent-All now t [] h a = refl
recent-All now t (u ∷ ts) h a = ground (arith, recent-All now t ts)

-- What is left of an ascending list is what is recent.
length-drop_old :
    (now : ℕ) (ts : List ℕ) → IsAscending ts → length (drop_old now ts) ≡ recent now ts
unfolding drop_old
length-drop_old now [] h = refl
length-drop_old now (t ∷ ts) h = ground (arith, length-drop_old now ts, recent-All now t ts)

drop_old-All : (P : ℕ → Type 0) (now : ℕ) (ts : List ℕ) → All P ts → All P (drop_old now ts)
unfolding drop_old
drop_old-All P now [] h = tt
drop_old-All P now (t ∷ ts) h = elim (Bool-cases (leb window (now - t))) [
  | inl old ↦ rw old (drop_old-All P now ts h.1)
  | inr new ↦ rw new h
]

drop_old-IsAscending : (now : ℕ) (ts : List ℕ) → IsAscending ts → IsAscending (drop_old now ts)
unfolding drop_old
drop_old-IsAscending now [] h = tt
drop_old-IsAscending now (t ∷ ts) h = elim (Bool-cases (leb window (now - t))) [
  | inl old ↦ rw old (drop_old-IsAscending now ts h.1)
  | inr new ↦ rw new h
]

IsAscending-snoc :
    (ts : List ℕ) (now : ℕ) → IsAscending ts → All (λ t. t ≤ now) ts → IsAscending (ts ++ now ∷ [])
IsAscending-snoc [] now h a = (tt, tt)
IsAscending-snoc (t ∷ ts) now h a =
    (All-append (λ u. t ≤ u) ts (now ∷ []) h.0 (a.0, tt), IsAscending-snoc ts now h.1 a.1)

crashes-on_crash :
    (l : Loop) (now : ℕ) → (on_crash l now).crashes ≡ drop_old now l.crashes ++ now ∷ []
unfolding on_crash
crashes-on_crash l now = ground arith

-- what the list of the loop knows of the crashes so far: as many recent ones, from `last` on
record Knows (cs h : List ℕ) (last : ℕ) : Type 0 where
  ascending : IsAscending cs
  past : All (λ t. t ≤ last) cs
  counts : (n : ℕ) → last ≤ n → recent n cs ≡ recent n h

All-le_trans : (a b : ℕ) (ts : List ℕ) → a ≤ b → All (λ t. t ≤ a) ts → All (λ t. t ≤ b) ts
All-le_trans a b [] h p = tt
All-le_trans a b (t ∷ ts) h p = (omega (arith, p.0), All-le_trans a b ts h p.1)

Knows-step :
    (cs h : List ℕ) (last now : ℕ)
    → Knows cs h last
    → last ≤ now
    → Knows (drop_old now cs ++ now ∷ []) (h ++ now ∷ []) now
Knows-step cs h last now k le =
    let past = drop_old-All (λ t. t ≤ now) now cs (All-le_trans last now cs le k.past) in
    record {
      ascending =
          IsAscending-snoc (drop_old now cs) now (drop_old-IsAscending now cs k.ascending) past;
      past = All-append (λ t. t ≤ now) (drop_old now cs) (now ∷ []) past (omega arith, tt);
      counts = λ n le'. omega (
        arith,
        recent-append n (drop_old now cs) (now ∷ []),
        recent-append n h (now ∷ []),
        recent-drop_old now n cs le',
        k.counts n (omega arith),
      );
    }

run_crashes-counts :
    (ts h : List ℕ) (l : Loop) (last now : ℕ)
    → Knows l.crashes h last
    → All (λ t. last ≤ t) ts
    → IsAscending ts
    → last ≤ now
    → All (λ t. t ≤ now) ts
    → (recent now (run_crashes l ts).crashes ≡ recent now (h ++ ts))
      × IsAscending (run_crashes l ts).crashes
unfolding run_crashes
run_crashes-counts [] h l last now k from up le to =
    (k.counts now le ∙ ap (recent now) (sym (append-nil h)), k.ascending)
run_crashes-counts (t ∷ ts) h l last now k from up le to =
    let k' = Knows-step l.crashes h last t k from.0 in
    let next = subst (λ cs. Knows cs (h ++ t ∷ []) t) (sym (crashes-on_crash l t)) k' in
    let (counts, ascending) =
      run_crashes-counts ts (h ++ t ∷ []) (on_crash l t) t now next up.0 up.1 to.0 to.1 in
    (counts ∙ ap (recent now) (append_assoc h (t ∷ []) ts), ascending)

answer :
    (l : Loop) (now n : ℕ)
    → length (drop_old now l.crashes) ≡ n
    → ((on_crash l now).force ≡ leb (n + 1) 3)
      × (3 ≤ n → (on_crash l now).retry ≡ some (now + 30000))
unfolding on_crash
answer l now n e =
    let size : length (drop_old now l.crashes ++ now ∷ []) ≡ n + 1 =
      omega (arith, length-append (drop_old now l.crashes) (now ∷ []), e) in
    (ground (arith, size), λ h. ground (arith, size))

-- A crash forces a restart exactly if it is at most the third within 30 seconds, counted over the
-- whole history of crashes; a later one is answered by a single retry 30 seconds after it.
pub on_crash_lem :
    (history : List ℕ) (now : ℕ)
    → IsAscending history
    → All (λ t. t ≤ now) history
    → let l = run_crashes init history in
      ((on_crash l now).force ≡ leb (recent now history + 1) 3)
      × (3 ≤ recent now history → (on_crash l now).retry ≡ some (now + 30000))
on_crash_lem history now up to =
    let l = run_crashes init history in
    let start : Knows [] [] 0 = record { ascending = tt; past = tt; counts = λ n h. refl } in
    let (counts, ascending) =
      run_crashes-counts history [] init 0 now start (All-zero-le history) up (omega arith) to in
    answer l now (recent now history) (length-drop_old now l.crashes ascending ∙ counts)
  where
    All-zero-le : (ts : List ℕ) → All (λ t. 0 ≤ t) ts
    All-zero-le [] = tt
    All-zero-le (t ∷ ts) = (omega arith, All-zero-le ts)
