-- ===== src/Storage/UserScope.antt =====
-- `user` and `ready` (storage.rs) on the paths that they are meant for.
use android_smb_for_ksu.Common.{◌≡◌, refl, [], ◌∷◌, ◌++◌, some, arith}
use android_smb_for_ksu.Text.{Text, strip_prefix}

-- `strip_prefix` takes off the prefix that was put there.
strip_prefix-append : (p s : Text) → strip_prefix (p ++ s) p ≡ some s
unfolding strip_prefix
strip_prefix-append [] s = refl
strip_prefix-append (c ∷ p) s = ground (arith, strip_prefix-append p s)
