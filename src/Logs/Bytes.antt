-- ===== src/Logs/Bytes.antt =====
-- `bytes` of logs.rs: the size of a file tree, as a `u64` that saturates.
use android_smb_for_ksu.Common.{
  ℕ, ◌+◌, ◌-◌, ◌^◌, ◌≤◌, ◌≡◌, refl, ltb, arith, if◌then◌else◌, Result, Error, ok, err, ◌>>=◌, ◌∙◌,
  ap, sym,
}

-- What `symlink_metadata` and `read_dir` find at a path. `broken` is an error of the former; a
-- directory that cannot be listed has an entry that is `cut`, where the listing fails.
mutual
  pub data Tree : Type 0 where
    symlink : Tree
    file : ℕ → Tree
    special : Tree
    folder : Trees → Tree
    broken : Tree

  pub data Trees : Type 0 where
    end : Trees
    entry : Tree → Trees → Trees
    cut : Trees

abbrev pub u64_max : ℕ
u64_max = 2 ^ 64 - 1

-- `u64::saturating_add`
unfoldable pub saturating_add : ℕ → ℕ → ℕ
saturating_add a b = if ltb u64_max (a + b) then u64_max else a + b

-- the second is the loop over the entries, with the total so far
unfoldable mutual
  pub bytes : Tree → Result ℕ
  bytes symlink = ok 0
  bytes (file n) = ok n
  bytes special = ok 0
  bytes (folder ts) = bytes_from 0 ts
  bytes broken = err Error.io

  pub bytes_from : ℕ → Trees → Result ℕ
  bytes_from total end = ok total
  bytes_from total (entry t ts) = do n ← bytes t; bytes_from (saturating_add total n) ts
  bytes_from total cut = err Error.io

-- the sum of the sizes of the files, symbolic links not followed
unfoldable mutual
  pub size : Tree → ℕ
  size symlink = 0
  size (file n) = n
  size special = 0
  size (folder ts) = size_all ts
  size broken = 0

  pub size_all : Trees → ℕ
  size_all end = 0
  size_all (entry t ts) = size t + size_all ts
  size_all cut = 0

-- every path below can be read, and every file's size is a `u64`
unfoldable mutual
  pub IsReadable : Tree → Type 0
  IsReadable symlink = Unit
  IsReadable (file n) = n ≤ u64_max
  IsReadable special = Unit
  IsReadable (folder ts) = AreReadable ts
  IsReadable broken = ⊥

  pub AreReadable : Trees → Type 0
  AreReadable end = Unit
  AreReadable (entry t ts) = IsReadable t × AreReadable ts
  AreReadable cut = ⊥

-- the largest `u64` if `n` is none
unfoldable pub capped : ℕ → ℕ
capped n = if ltb u64_max n then u64_max else n

saturating_add-capped : (a b : ℕ) → saturating_add (capped a) (capped b) ≡ capped (a + b)
unfolding saturating_add capped
saturating_add-capped a b = ground arith

capped_self : (n : ℕ) → n ≤ u64_max → capped n ≡ n
unfolding capped
capped_self n h = ground arith

mutual
  unfolding bytes size IsReadable

  bytes-capped : (t : Tree) → IsReadable t → bytes t ≡ ok (capped (size t))
  bytes-capped symlink f = rw (capped_self 0 (omega arith)) refl
  bytes-capped (file n) f = rw (capped_self n f) refl
  bytes-capped special f = rw (capped_self 0 (omega arith)) refl
  bytes-capped (folder ts) f =
      bytes_from-capped 0 0 ts f (sym (capped_self 0 (omega arith)))
      ∙ ap (λ (n : ℕ). ok (capped n)) (omega arith)
  bytes-capped broken f = absurd f

  bytes_from-capped :
      (total sum : ℕ) (ts : Trees)
      → AreReadable ts
      → total ≡ capped sum
      → bytes_from total ts ≡ ok (capped (sum + size_all ts))
  bytes_from-capped total sum end f e = ap ok (e ∙ ap capped (omega arith))
  bytes_from-capped total sum (entry t ts) f e =
      let next : saturating_add total (capped (size t)) ≡ capped (sum + size t) =
        rw e (saturating_add-capped sum (size t)) in
      rw (bytes-capped t f.0) (
        bytes_from-capped (saturating_add total (capped (size t))) (sum + size t) ts f.1 next
        ∙ ap (λ (n : ℕ). ok (capped n)) (omega arith))
  bytes_from-capped total sum cut f e = absurd f

-- The size of a tree that can be read is the sum of the sizes of its files, symbolic links not
-- followed, or the largest `u64` if the sum is larger.
pub bytes_lem :
    (t : Tree) → IsReadable t → bytes t ≡ ok (if ltb u64_max (size t) then u64_max else size t)
bytes_lem t h = bytes-capped t h ∙ ap ok (unfold capped in refl)
