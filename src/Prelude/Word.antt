-- ===== src/Prelude/Word.antt =====
-- uint64 counters: `x++` wraps at 2^64.
use Prim.Native.Nat.{ℕ, ◌+◌, ◌%◌, ◌<◌}
use mathlib.Core.Path.{◌≡◌}
use native.Mathlib.Omega.{arith}

abbrev pub u64_mod : ℕ
u64_mod = 18446744073709551616

abbrev pub inc : ℕ → ℕ
inc n = (n + 1) % u64_mod

pub inc_lem : (n : ℕ) → n + 1 < u64_mod → inc n ≡ n + 1
inc_lem n h = omega arith
