-- ===== src/Logs/Refines.antt =====
-- `prune` of logs.rs on the disk, and the archives that it is to keep.
use android_smb_for_ksu.Common.{
  ℕ, suc, ◌-◌, ◌≡◌, refl, ap, ◌∙◌, Bool, true, false, ◌&&◌, List, [], ◌∷◌, map, take, drop, leb,
  length, ok, Bool-cases, inl, inr,
}
use android_smb_for_ksu.Text.{Text}
use android_smb_for_ksu.Logs
use android_smb_for_ksu.Logs.{
  Entry, max_archives, max_archive_bytes, prune_from, sort_entries, archives, total_size,
}
use android_smb_for_ksu.Logs.Disk.{Archive, Disk, Outcome, Act, pure, dir, change, ◌>>=◌, ◌>>◌}
use android_smb_for_ksu.Logs.Prepare
use android_smb_for_ksu.Logs.Prepare.{Sys, archives_of, without, drop_archive, prune_loop, entries}

-- the archives without those of these names
abbrev without_all : List Text → List Archive → List Archive
without_all [] olds = olds
without_all (n ∷ ns) olds = without_all ns (without n olds)

abbrev names : List Entry → List Text
names es = map (λ e. e.name) es

module _ (sys : Sys) (removes : (name : Text) → sys.remove name ≡ true) where
  -- the test of the loop
  abbrev fits : ℕ → ℕ → Bool
  fits total count = leb count max_archives && leb total max_archive_bytes

  prune_loop-nil : (total count : ℕ) → prune_loop sys [] total count ≡ pure tt
  unfolding prune_loop
  prune_loop-nil total count = refl

  prune_loop-stops :
      (e : Entry) (es : List Entry) (total count : ℕ)
      → fits total count ≡ true
      → prune_loop sys (e ∷ es) total count ≡ pure tt
  unfolding prune_loop
  prune_loop-stops e es total count h = rw (h, prune_loop) refl

  prune_loop-goes :
      (e : Entry) (es : List Entry) (total count : ℕ)
      → fits total count ≡ false
      → prune_loop sys (e ∷ es) total count ≡ (
          change (sys.remove e.name) (drop_archive e.name)
          >> prune_loop sys es (total - e.size) (count - 1))
  unfolding prune_loop
  prune_loop-goes e es total count h = rw (h, prune_loop) refl

  removed :
      (name : Text) (m : Act (Unit {0})) (d : Disk)
      → ((change (sys.remove name) (drop_archive name) >> m) d).result
          ≡ (m (drop_archive name d)).result
        × (((change (sys.remove name) (drop_archive name) >> m) d).disk
            ≡ (m (drop_archive name d)).disk)
  unfolding change ◌>>=◌
  removed name m d = rw (removes name) (refl, refl)

  abbrev IsPruned : List Entry → List Entry → List Archive → Outcome (Unit {0}) → Type 0
  IsPruned es kept olds o =
      (k : ℕ) × (kept ≡ drop k es)
      × (o.result ≡ ok tt)
      × (o.disk.history ≡ dir (without_all (names (take k es)) olds))

  prune_loop-IsPruned :
      (es : List Entry) (total count : ℕ) (d : Disk) (olds : List Archive)
      → d.history ≡ dir olds
      → IsPruned es (prune_from es total count) olds (prune_loop sys es total count d)
  unfolding prune_from
  prune_loop-IsPruned [] total count d olds h =
      let run = prune_loop-nil total count in
      (0, refl, ap (λ m. (m d).result) run, ap (λ m. (m d).disk.history) run ∙ h)
  prune_loop-IsPruned (e ∷ es) total count d olds h = elim (Bool-cases (fits total count)) [
    | inl stop ↦
        let run = prune_loop-stops e es total count stop in
        (0, rw stop refl, ap (λ m. (m d).result) run, ap (λ m. (m d).disk.history) run ∙ h)
    | inr on ↦
        let d' = drop_archive e.name d in
        let rest = prune_loop sys es (total - e.size) (count - 1) in
        let run = prune_loop-goes e es total count on in
        let (k, kept, good, left) =
          prune_loop-IsPruned es (total - e.size) (count - 1) d' (without e.name olds)
            (ap (λ p. dir (without e.name (archives_of p))) h) in
        (
          suc k,
          rw on kept,
          ap (λ m. (m d).result) run ∙ (removed e.name rest d).0 ∙ good,
          ap (λ m. (m d).disk.history) run ∙ ap (λ x. x.history) (removed e.name rest d).1 ∙ left,
        )
  ]

  prune-loop :
      (d : Disk) (olds : List Archive) (es : List Entry)
      → d.history ≡ dir olds
      → sys.list_history ≡ true
      → entries sys olds ≡ ok es
      → let sorted = sort_entries (archives es) in
        let loop = prune_loop sys sorted (total_size sorted) (length sorted) d in
        ((Prepare.prune sys d).result ≡ loop.result) × ((Prepare.prune sys d).disk ≡ loop.disk)
  unfolding Prepare.prune ◌>>=◌ entries prune_loop
  prune-loop d olds es h listed measured =
      let read : entries sys (archives_of d.history) ≡ ok es =
        ap (λ p. entries sys (archives_of p)) h ∙ measured in
      rw (listed, read) (refl, refl)

  -- If each archive can be measured and removed, `prune` on the disk removes exactly the archives that
  -- the list of `Logs.prune` leaves out: the first `k` by name, where the list is what is behind them.
  prune-IsPruned :
      (d : Disk) (olds : List Archive) (es : List Entry)
      → d.history ≡ dir olds
      → sys.list_history ≡ true
      → entries sys olds ≡ ok es
      → IsPruned (sort_entries (archives es)) (Logs.prune es) olds (Prepare.prune sys d)
  unfolding Logs.prune
  prune-IsPruned d olds es h listed measured =
      let sorted = sort_entries (archives es) in
      let run = prune-loop d olds es h listed measured in
      let (k, kept, good, left) =
        prune_loop-IsPruned sorted (total_size sorted) (length sorted) d olds h in
      (k, kept, run.0 ∙ good, ap (λ x. x.history) run.1 ∙ left)
