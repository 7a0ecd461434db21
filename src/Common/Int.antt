-- ===== src/Common/Int.antt =====
-- Signed machine integers as integers over the native numbers.
use Prim.Native.Nat.{ℕ, suc, ◌+◌, ◌-◌, ◌^◌, ◌≤◌, ◌<◌}
use mathlib.Core.Path.{◌≡◌, ap}
use mathlib.Core.Logic.{◌↔◌}
use mathlib.Core.Bool.{Bool, false}
use native.Mathlib.Omega.{arith}
use kurbu5_pkinit.Common.Tests.{ltb, leb, nat_beq, nat_beq_iff, if◌then◌else◌}
use kurbu5_pkinit.Common.Equality.{PartialEq}

-- `negsuc n` is -(n + 1).
pub data ℤ : Type 0 where
  pos : ℕ → ℤ
  negsuc : ℕ → ℤ

abbrev pub pos_part : ℤ → ℕ
pos_part (pos n) = n
pos_part (negsuc n) = 0

abbrev pub neg_part : ℤ → ℕ
neg_part (pos n) = 0
neg_part (negsuc n) = suc n

-- `|a - b|`.
abbrev pub abs_diff : ℤ → ℤ → ℕ
abs_diff a b =
    let x = pos_part a + neg_part b in
    let y = pos_part b + neg_part a in if leb x y then y - x else x - y

abbrev pub ltb_ℤ : ℤ → ℤ → Bool
ltb_ℤ a b = ltb (pos_part a + neg_part b) (pos_part b + neg_part a)

abbrev pub ◌≤ℤ◌ : ℤ → ℤ → Type 0
◌≤ℤ◌ a b = pos_part a + neg_part b ≤ pos_part b + neg_part a

infix 50 ◌≤ℤ◌
-- `i32`: from -2^31 to 2^31 - 1.
abbrev pub IsInt32 : ℤ → Type 0
IsInt32 (pos n) = n < 2 ^ 31
IsInt32 (negsuc n) = n < 2 ^ 31

unfoldable pub ℤ_beq : ℤ → ℤ → Bool
ℤ_beq (pos a) (pos b) = nat_beq a b
ℤ_beq (negsuc a) (negsuc b) = nat_beq a b
ℤ_beq _ _ = false

pub ℤ_beq_iff : (a b : ℤ) → (ℤ_beq a b ≡ Bool.true) ↔ (a ≡ b)
unfolding ℤ_beq
ℤ_beq_iff (pos a) (pos b) = (λ h. ap pos ((nat_beq_iff a b).0 h), λ h. ground arith)
ℤ_beq_iff (negsuc a) (negsuc b) = (λ h. ap negsuc ((nat_beq_iff a b).0 h), λ h. ground arith)
ℤ_beq_iff (pos a) (negsuc b) = (λ h. cc, λ h. cc)
ℤ_beq_iff (negsuc a) (pos b) = (λ h. cc, λ h. cc)

instance abbrev pub ℤ_eq : PartialEq ℤ
ℤ_eq = record { test = ℤ_beq; decides = ℤ_beq_iff }
