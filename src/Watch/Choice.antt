-- ===== src/Watch/Choice.antt =====
-- Which process the watcher (native/smbctl/src/watch.rs) takes for the master, and how long it joins
-- events.
use android_smb_for_ksu.Common.{
  ok-injective, some-injective, ℕ, ◌≤◌, ◌<◌, ◌≡◌, refl, arith, Bool, true, false, not, ◌&&◌, List,
  [], ◌∷◌, some, All, ltb, Result, ok, Bool-cases, Result-cases, inl, inr, subst, ◌⊎◌, get_elem?,
  zero, suc,
}
use android_smb_for_ksu.Watch.Run.{Child, is_older, oldest, master, coalesce}

-- `m` is not younger than `c`: it has started before, or in the same tick with no larger number
abbrev IsMasterOver : Child → Child → Type 0
IsMasterOver m c = (m.started < c.started) ⊎ ((m.started ≡ c.started) × (m.pid ≤ c.pid))

not_older : (m c : Child) → is_older c m ≡ false → IsMasterOver m c
not_older m c h = ground arith

IsMasterOver-trans : (l m n : Child) → IsMasterOver l m → IsMasterOver m n → IsMasterOver l n
IsMasterOver-trans l m n h k = ground arith

older : (m c : Child) → is_older c m ≡ true → IsMasterOver c m
older m c h = ground arith

oldest-lem :
    (a : Child) (cs : List Child)
    → IsMasterOver (oldest a cs) a × All (IsMasterOver (oldest a cs)) cs
unfolding oldest
oldest-lem a [] = (ground arith, tt)
oldest-lem a (b ∷ bs) =
    let over : Child → Type 0 = λ m. IsMasterOver m a × All (IsMasterOver m) (b ∷ bs) in
    elim (Bool-cases (is_older b a)) [
      | inl elder ↦
          let (self, rest) = oldest-lem b bs in
          let step : oldest b bs ≡ oldest a (b ∷ bs) = rw (elder, oldest) refl in
          subst over step
            (IsMasterOver-trans (oldest b bs) b a self (older a b elder), (self, rest))
      | inr younger ↦
          let (self, rest) = oldest-lem a bs in
          let step : oldest a bs ≡ oldest a (b ∷ bs) = rw (younger, oldest) refl in
          subst over step
            (self, (IsMasterOver-trans (oldest a bs) a b self (not_older a b younger), rest))
    ]

oldest-elem : (a : Child) (cs : List Child) → (i : ℕ) × (get_elem? (a ∷ cs) i ≡ some (oldest a cs))
unfolding oldest
oldest-elem a [] = (0, refl)
oldest-elem a (b ∷ bs) = elim (Bool-cases (is_older b a)) [
  | inl elder ↦ rw elder (let (i, e) = oldest-elem b bs in (suc i, e))
  | inr younger ↦ rw younger (skip (oldest-elem a bs))
]
  where
    skip :
        (i : ℕ) × (get_elem? (a ∷ bs) i ≡ some (oldest a bs))
        → (i : ℕ) × (get_elem? (a ∷ b ∷ bs) i ≡ some (oldest a bs))
    skip (zero, e) = (0, e)
    skip (suc i, e) = (suc (suc i), e)

-- The master is one of the server processes, and none has started before it; of those that have
-- started in the same tick none has a smaller number.
master_lem :
    (cs : List Child) {m : Child}
    → master cs ≡ some m
    → ((i : ℕ) × (get_elem? cs i ≡ some m)) × All (IsMasterOver m) cs
unfolding master
master_lem [] h = absurd (ground arith)
master_lem (c ∷ cs) h =
    let same = some-injective h in
    let (self, rest) = oldest-lem c cs in
    subst (λ m. ((i : ℕ) × (get_elem? (c ∷ cs) i ≡ some m)) × All (IsMasterOver m) (c ∷ cs)) same
      (oldest-elem c cs, (self, rest))

-- The window that joins a burst of events cannot be drawn out: every round of it begins before the
-- time that was fixed at its start.
coalesce_lem :
    (until : ℕ) (rounds : List (ℕ × Bool × Result (Unit {0}))) {ts : List ℕ}
    → coalesce until rounds ≡ ok ts
    → All (λ t. t < until) ts
unfolding coalesce
coalesce_lem until [] h = subst (All (λ t. t < until)) (ok-injective h) tt
coalesce_lem until ((now, stop, answer) ∷ rounds) {ts = ts} h =
    elim (Bool-cases (ltb now until && not stop)) [
      | inr over ↦ subst (All (λ t. t < until)) (ok-injective (rw (over, coalesce) at h)) tt
      | inl on ↦ elim (Result-cases answer) [
        | inr (e, bad) ↦ absurd (ground arith)
        | inl (u, good) ↦ elim (Result-cases (coalesce until rounds)) [
          | inr (e, bad) ↦ absurd (ground arith)
          | inl (us, rest) ↦
              subst (All (λ t. t < until)) (ok-injective (rw (on, good, rest, coalesce) at h))
                (ground arith, coalesce_lem until rounds rest)
        ]
      ]
    ]
