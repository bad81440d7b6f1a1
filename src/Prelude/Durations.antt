-- ===== src/Prelude/Durations.antt =====
-- Times are nanoseconds since Go's zero time, so that 0 is the time for which `IsZero` holds, and
-- durations are signed.
use Prim.Native.Nat.{ℕ, suc, ◌+◌, ◌-◌, ◌*◌}
use mathlib.Core.Bool.{Bool, true, false}

-- `negsuc n` is -(n + 1)
pub data ℤ : Type 0 where
  pos : ℕ → ℤ
  negsuc : ℕ → ℤ

-- `d <= 0`
abbrev pub not_positive : ℤ → Bool
not_positive (pos ℕ.zero) = true
not_positive (pos (suc n)) = false
not_positive (negsuc n) = true

-- `t.Add(d)`
abbrev pub add : ℕ → ℤ → ℕ
add t (pos n) = t + n
add t (negsuc n) = t - suc n

abbrev pub second : ℕ
second = 1_000_000_000

abbrev pub hour : ℕ
hour = 3600 * second
