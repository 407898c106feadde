-- ===== src/Logs/Prune.antt =====
-- What `prune` (logs.rs) keeps.
use android_smb_for_ksu.Common.{
  ap, ◌^◌, ℕ, zero, suc, ◌+◌, ◌-◌, ◌≤◌, ◌<◌, ◌≡◌, refl, ◌∙◌, ◌⊎◌, inl, inr, Bool, true, false, ◌&&◌,
  List, [], ◌∷◌, arith, leb, length, drop, if◌then◌else◌, Bool-cases, not,
}
use mathlib.Core.List.{Perm}
use mathlib.Core.List.Perm
use android_smb_for_ksu.Text.{str_lt}
use android_smb_for_ksu.Text.Lemmas.{str_lt_asymm}
use android_smb_for_ksu.Logs.{
  max_archives, max_archive_bytes, Entry, archives, insert_entry, sort_entries, total_size,
  prune_from, prune,
}

-- the sum of the sizes, without a bound
unfoldable pub sizes : List Entry → ℕ
sizes [] = 0
sizes (e ∷ es) = e.size + sizes es

total_size-sizes : (es : List Entry) → sizes es < 2 ^ 64 → total_size es ≡ sizes es
unfolding total_size sizes
total_size-sizes [] h = refl
total_size-sizes (e ∷ es) h =
    let rest : total_size es ≡ sizes es = total_size-sizes es (omega (arith, h)) in
    rw rest (omega (arith, h))

-- within both limits
abbrev pub fits : List Entry → Bool
fits es = leb (length es) max_archives && leb (sizes es) max_archive_bytes

-- the longest end of the list that is within the limits
pub newest_fitting : List Entry → List Entry
newest_fitting [] = []
newest_fitting (e ∷ es) = let rest = newest_fitting es in if fits (e ∷ es) then e ∷ es else rest

-- The counters of the loop are the length and the size of what is left.
prune_from-newest : (es : List Entry) → prune_from es (sizes es) (length es) ≡ newest_fitting es
unfolding prune_from newest_fitting sizes
prune_from-newest [] = refl
prune_from-newest (e ∷ es) = ground (arith, prune_from-newest es, smaller e.size (sizes es))
  where
    smaller : (a b : ℕ) → a + b - a ≡ b
    smaller a b = omega arith

insert_entry-perm : (e : Entry) (es : List Entry) → Perm (insert_entry e es) (e ∷ es)
unfolding insert_entry
insert_entry-perm e [] = Perm.refl (e ∷ [])
insert_entry-perm e (d ∷ ds) = elim (Bool-cases (str_lt d.name e.name)) [
  | inl after ↦ rw after (Perm.trans (Perm.cons d (insert_entry-perm e ds)) (Perm.swap e d ds))
  | inr before ↦ rw before (Perm.refl (e ∷ d ∷ ds))
]

sort_entries-perm : (es : List Entry) → Perm (sort_entries es) es
unfolding sort_entries
sort_entries-perm [] = Perm.refl []
sort_entries-perm (e ∷ es) =
    Perm.trans (insert_entry-perm e (sort_entries es)) (Perm.cons e (sort_entries-perm es))

-- no entry stands directly behind one with a later name
abbrev pub is_ordered : List Entry → Bool
is_ordered [] = true
is_ordered (e ∷ []) = true
is_ordered (e ∷ d ∷ ds) = not (str_lt d.name e.name) && is_ordered (d ∷ ds)

insert_entry-ordered :
    (e : Entry) (es : List Entry) → is_ordered es ≡ true → is_ordered (insert_entry e es) ≡ true
unfolding insert_entry
insert_entry-ordered e [] h = refl
insert_entry-ordered e (d ∷ []) h = ground (arith, str_lt_asymm d.name e.name)
insert_entry-ordered e (d ∷ c ∷ cs) h =
    ground (
      arith,
      str_lt_asymm d.name e.name,
      str_lt_asymm c.name e.name,
      insert_entry-ordered e (c ∷ cs),
    )

sort_entries-ordered : (es : List Entry) → is_ordered (sort_entries es) ≡ true
unfolding sort_entries
sort_entries-ordered [] = refl
sort_entries-ordered (e ∷ es) = insert_entry-ordered e (sort_entries es) (sort_entries-ordered es)

-- the first end of a list that is within the limits
record FirstFit (es rest : List Entry) : Type 0 where
  dropped : ℕ
  kept : rest ≡ drop dropped es
  within : fits rest ≡ true
  needed : (j : ℕ) → j < dropped → fits (drop j es) ≡ false

newest_fitting-FirstFit : (es : List Entry) → FirstFit es (newest_fitting es)
unfolding newest_fitting sizes
newest_fitting-FirstFit [] = record {
  dropped = 0;
  kept = refl;
  within = refl;
  needed = λ j h. absurd (omega arith);
}
newest_fitting-FirstFit (e ∷ es) = elim (Bool-cases (fits (e ∷ es))) [
  | inl whole ↦
      rw whole
        (record { dropped = 0; kept = refl; within = whole; needed = λ j h. absurd (omega arith) })
  | inr too_big ↦ rw too_big (later e es too_big (newest_fitting-FirstFit es))
]
  where
    later :
        (e : Entry) (es : List Entry)
        → fits (e ∷ es) ≡ false
        → FirstFit es (newest_fitting es)
        → FirstFit (e ∷ es) (newest_fitting es)
    later e es big f = record {
      dropped = suc f.dropped;
      kept = f.kept;
      within = f.within;
      needed = earlier e es big f;
    }
      where
        earlier :
            (e : Entry) (es : List Entry)
            → fits (e ∷ es) ≡ false
            → (f : FirstFit es (newest_fitting es)) (j : ℕ) → j < suc f.dropped
            → fits (drop j (e ∷ es)) ≡ false
        earlier e es big f zero h = big
        earlier e es big f (suc j) h = f.needed j (omega arith)

-- `prune` sorts the archives by name and deletes from the oldest on, one by one, until three at
-- most with 16 MiB at most are left: what stays is an end of the sorted list, it is within both
-- limits, and it is the longest such end. The sorted list holds the archives, each once, in the
-- order of their names. All archives together have fewer than 2 ^ 64 bytes; if not, the total wraps
-- around.
pub prune_lem :
    (history : List Entry)
    → sizes (sort_entries (archives history)) < 2 ^ 64
    → let sorted = sort_entries (archives history) in
      Perm sorted (archives history)
      × (is_ordered sorted ≡ true)
      × ((k : ℕ) × (prune history ≡ drop k sorted)
          × (length (prune history) ≤ 3)
          × (sizes (prune history) ≤ 16777216)
          × ((j : ℕ) → j < k → (3 < length (drop j sorted)) ⊎ (16777216 < sizes (drop j sorted))))
unfolding prune
prune_lem history small =
    let sorted = sort_entries (archives history) in
    let f = newest_fitting-FirstFit sorted in
    let total : total_size sorted ≡ sizes sorted = total_size-sizes sorted small in
    let e : prune_from sorted (total_size sorted) (length sorted) ≡ newest_fitting sorted =
      ap (λ n. prune_from sorted n (length sorted)) total ∙ prune_from-newest sorted in
    (
      sort_entries-perm (archives history),
      sort_entries-ordered (archives history),
      (
        f.dropped,
        e ∙ f.kept,
        rw e (ground (arith, f.within)),
        rw e (ground (arith, f.within)),
        λ j h. ground (arith, f.needed j h),
      ),
    )
