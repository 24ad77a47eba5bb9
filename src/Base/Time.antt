-- ===== src/Base/Time.antt =====
-- `time.Time` in nanoseconds, and the decimal digits of a number.
use Prim.Native.Nat.{ℕ, zero, suc, ◌+◌, ◌/◌, ◌*◌, ◌%◌, ◌<◌}
use mathlib.Core.Path.{◌≡◌}
use mathlib.Core.Bool.{Bool}
use mathlib.Core.List.{[], ◌∷◌}
use native.Mathlib.Omega.{arith}
use imapsync.Base.Equality.{◌==◌, if◌then◌else◌, ltb}
use imapsync.Base.Int.{ℤ, pos, negsuc, int_eq}
use imapsync.Base.Text.{Text}

-- Nanoseconds since 1970. The zero time of Go is the first second of the year 1.
abbrev pub Time : Type 0
Time = ℤ

abbrev pub zero_time : Time
zero_time = negsuc 62_135_596_799_999_999_999

unfoldable pub is_zero : Time → Bool
is_zero t = t == zero_time

-- `t.Unix()`: the seconds, rounded down.
unfoldable pub unix : Time → ℤ
unix (pos n) = pos (n / 1_000_000_000)
unix (negsuc n) = negsuc (n / 1_000_000_000)

-- `time.Unix(seconds, 0)`
unfoldable pub from_unix : ℤ → Time
from_unix (pos n) = pos (n * 1_000_000_000)
from_unix (negsuc n) = negsuc (n * 1_000_000_000 + 999_999_999)

-- The digits of `n` before `rest`.
unfoldable pub decimal_from : ℕ → ℕ → Text → Text
decimal_from zero n rest = rest
decimal_from (suc fuel) n rest =
    let out = (b'0' + n % 10) ∷ rest in
    let more = decimal_from fuel (n / 10) out in if ltb n 10 then out else more

-- `%d`
unfoldable pub decimal : ℤ → Text
unfolding decimal_from
decimal (pos n) = decimal_from (n + 1) n []
decimal (negsuc n) = b'-' ∷ decimal_from (n + 2) (n + 1) []

-- Any fuel above the number gives the same digits.
pub decimal_from_fuel :
    (f g n : ℕ) (rest : Text) → n < f → n < g → decimal_from f n rest ≡ decimal_from g n rest
unfolding decimal_from
decimal_from_fuel zero g n rest h k = absurd (omega arith)
decimal_from_fuel (suc f) zero n rest h k = absurd (omega arith)
decimal_from_fuel (suc f) (suc g) n rest h k =
    ground (arith, decimal_from_fuel f g (n / 10) ((b'0' + n % 10) ∷ rest))
