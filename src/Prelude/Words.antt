-- ===== src/Prelude/Words.antt =====
-- Unsigned machine integers as natural numbers: the operations that do not wrap.
use Prim.Native.Nat.{ℕ, ◌+◌, ◌*◌, ◌-◌, ◌^◌, min}
use mathlib.Core.Option.{Option, none, some}
use gobrowseos.Prelude.Tests.{leb, if◌then◌else◌}

abbrev pub u32_max : ℕ
u32_max = 2 ^ 32 - 1

abbrev pub u64_max : ℕ
u64_max = 2 ^ 64 - 1

abbrev pub i64_max : ℕ
i64_max = 2 ^ 63 - 1

-- `u32::saturating_add`.
abbrev pub saturating_add32 : ℕ → ℕ → ℕ
saturating_add32 a b = min (a + b) u32_max

-- `checked_add` and `checked_mul` below a maximum.
abbrev pub checked_add : ℕ → ℕ → ℕ → Option ℕ
checked_add limit a b = if leb (a + b) limit then some (a + b) else none

abbrev pub checked_mul : ℕ → ℕ → ℕ → Option ℕ
checked_mul limit a b = if leb (a * b) limit then some (a * b) else none
