-- ===== src/Prelude/Int.antt =====
-- Python's integers: `negsuc n` is -(n + 1).
use Prim.Native.Nat.{ℕ}
use mathlib.Core.Bool.{Bool, false, ◌&&◌}
use alertmind.Prelude.Tests.{nat_eq, leb}

pub data ℤ : Type 0 where
  pos : ℕ → ℤ
  negsuc : ℕ → ℤ

-- `lo <= n`, `n < hi` and `n == k` for bounds that are not negative
abbrev pub int_ge : ℤ → ℕ → Bool
int_ge (pos n) lo = leb lo n
int_ge (negsuc _) lo = false

abbrev pub int_between : ℤ → ℕ → ℕ → Bool
int_between (pos n) lo hi = leb lo n && leb n hi
int_between (negsuc _) lo hi = false

abbrev pub int_is : ℤ → ℕ → Bool
int_is (pos n) k = nat_eq n k
int_is (negsuc _) k = false
