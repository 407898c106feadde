-- ===== src/Watch/Backoff.antt =====
-- How the loop of the watcher (native/smbctl/src/watch.rs) holds back after failures.
use android_smb_for_ksu.Common.{ℕ, ◌+◌, ◌≤◌, ◌≡◌, refl, false, List, Option, none, some, arith}
use android_smb_for_ksu.Text.{Text, str_eq}
use android_smb_for_ksu.Text.Lemmas.{str_eq_refl}
use android_smb_for_ksu.Watch.Loop.{Loop, is_due, pass}

-- a loop that has seen the snapshot `s`, with nothing that forces it
abbrev seen : Text → ℕ → Option ℕ → List ℕ → Loop
seen s f r cr = record { signature = s; failures = f; retry = r; force = false; crashes = cr }

first_failure :
    (l : Loop) (s : Text) (now t : ℕ)
    → str_eq s l.signature ≡ false
    → pass l s now t false ≡ seen s 1 (some (t + 2000)) l.crashes
unfolding pass
first_failure l s now t h = ground arith

next_failure :
    (s : Text) (cr : List ℕ) (r now t : ℕ)
    → r ≤ now
    → (pass (seen s 1 (some r) cr) s now t false ≡ seen s 2 (some (t + 4000)) cr)
      × (pass (seen s 2 (some r) cr) s now t false ≡ seen s 3 (some (t + 8000)) cr)
      × (pass (seen s 3 (some r) cr) s now t false ≡ seen s 4 none cr)
unfolding pass
next_failure s cr r now t h = rw str_eq_refl (ground arith, ground arith, ground arith)

quiet : (s : Text) (f : ℕ) (cr : List ℕ) (u : ℕ) → is_due (seen s f none cr) s u ≡ false
unfolding is_due
quiet s f cr u = rw str_eq_refl

-- While a snapshot does not change and nothing forces a pass, a failing `reconcile` is retried 2, 4
-- and 8 seconds after the failure before; after the fourth failure there is no retry, at any time.
-- The passes come whenever the clock has reached the retry.
pub backoff :
    (l : Loop) (s : Text) (now t₁ t₂ t₃ t₄ n₂ n₃ n₄ : ℕ)
    → str_eq s l.signature ≡ false
    → t₁ + 2000 ≤ n₂
    → t₂ + 4000 ≤ n₃
    → t₃ + 8000 ≤ n₄
    → let l₁ = pass l s now t₁ false in
      let l₂ = pass l₁ s n₂ t₂ false in
      let l₃ = pass l₂ s n₃ t₃ false in
      let l₄ = pass l₃ s n₄ t₄ false in
      (l₁.retry ≡ some (t₁ + 2000))
      × (l₂.retry ≡ some (t₂ + 4000))
      × (l₃.retry ≡ some (t₃ + 8000))
      × ((u : ℕ) → is_due l₄ s u ≡ false)
backoff l s now t₁ t₂ t₃ t₄ n₂ n₃ n₄ changed h₂ h₃ h₄ =
    rw
      (
        first_failure l s now t₁ changed,
        (next_failure s l.crashes (t₁ + 2000) n₂ t₂ h₂).0,
        (next_failure s l.crashes (t₂ + 4000) n₃ t₃ h₃).1,
        (next_failure s l.crashes (t₃ + 8000) n₄ t₄ h₄).2,
      )
      (refl, refl, refl, λ u. quiet s 4 l.crashes u)
