-- ===== src/Base/Int.antt =====
-- Go's signed integers, as far as the program compares them.
use Prim.Native.Nat.{ℕ, suc, ◌+◌, ◌-◌}
use mathlib.Core.Path.{◌≡◌}
use mathlib.Core.Logic.{◌↔◌}
use mathlib.Core.Bool.{Bool, true, false, not}
use native.Mathlib.Omega.{arith}
use imapsync.Base.Equality.{Eq, ◌==◌, nat_eq, leb, if◌then◌else◌}

-- `negsuc n` is -(n + 1).
pub data ℤ : Type 0 where
  pos : ℕ → ℤ
  negsuc : ℕ → ℤ

int_beq : ℤ → ℤ → Bool
int_beq (pos a) (pos b) = a == b
int_beq (negsuc a) (negsuc b) = a == b
int_beq _ _ = false

int_beq_iff : (a b : ℤ) → (int_beq a b ≡ true) ↔ (a ≡ b)
unfolding int_beq
int_beq_iff (pos a) (pos b) = (λ h. ground arith, λ h. ground arith)
int_beq_iff (pos a) (negsuc b) = (λ h. cc, λ h. cc)
int_beq_iff (negsuc a) (pos b) = (λ h. cc, λ h. cc)
int_beq_iff (negsuc a) (negsuc b) = (λ h. ground arith, λ h. ground arith)

instance unfoldable pub int_eq : Eq ℤ
unfolding int_beq int_beq_iff
int_eq = record { same = int_beq; same_iff = int_beq_iff }

-- `a <= b` and `a < b`
abbrev pub int_leb : ℤ → ℤ → Bool
int_leb (pos a) (pos b) = leb a b
int_leb (pos a) (negsuc b) = false
int_leb (negsuc a) (pos b) = true
int_leb (negsuc a) (negsuc b) = leb b a

abbrev pub int_ltb : ℤ → ℤ → Bool
int_ltb a b = not (int_leb b a)

abbrev pub pos_part : ℤ → ℕ
pos_part (pos n) = n
pos_part (negsuc n) = 0

abbrev pub neg_part : ℤ → ℕ
neg_part (pos n) = 0
neg_part (negsuc n) = suc n

-- a - b
unfoldable pub int_sub : ℤ → ℤ → ℤ
int_sub a b =
    let up = pos_part a + neg_part b in
    let down = neg_part a + pos_part b in
    if leb down up then pos (up - down) else negsuc (down - up - 1)
