-- ===== src/Common/Words.antt =====
-- Go's fixed-width integers: a value is its bit pattern, a number below 2 ^ 64.
use Prim.Native.Nat.{ℕ, ◌+◌, ◌^◌, ◌%◌, ◌<◌, suc}
use mathlib.Core.Path.{◌≡◌}
use mathlib.Core.Bool.{Bool}
use native.Mathlib.Omega.{arith}
use relaypoint.Common.Tests.{ltb}

-- `x + 1` on a `uint64`, and on an `int64` in two's complement.
abbrev pub next64 : ℕ → ℕ
next64 x = (x + 1) % 2 ^ 64

-- `a < b` on an `int64`: the sign bit is flipped, and the patterns are compared.
abbrev pub less_int64 : ℕ → ℕ → Bool
less_int64 a b = ltb ((a + 2 ^ 63) % 2 ^ 64) ((b + 2 ^ 63) % 2 ^ 64)

abbrev pub max_int64 : ℕ
max_int64 = 9223372036854775807

pub next64-eq_suc : (x : ℕ) → x < max_int64 → next64 x ≡ suc x
next64-eq_suc x h = omega arith
