-- ===== src/Matching/Usage.antt =====
-- pkinit-core/src/identity/matching.rs: what the mask of a key usage rule asks for.
use Prim.Native.Nat.{min, digits, bit_and, bit_and-bitwise}
use kurbu5_pkinit.Common.{
  Bool-cases, ap, arith, inl, inr, leb, refl, suc, zero, ℕ, ◌%◌, ◌*◌, ◌+◌, ◌/◌, ◌↔◌, ◌≡◌, ◌≤◌,
}

-- Bit `i` of a number is set.
abbrev pub Bit : ℕ → ℕ → Type 0
Bit zero n = n % 2 ≡ 1
Bit (suc i) n = Bit i (n / 2)

-- Every bit of the mask is set.
abbrev pub Covers : ℕ → ℕ → Type 0
Covers usage mask = (i : ℕ) → Bit i mask → Bit i usage

-- One binary digit of each; the fuel of `digits` may be any bound of the first number.
digits_any_fuel :
    (u x y mask : ℕ) → u ≤ x → u ≤ y → digits (λ n. 0) min x u mask ≡ digits (λ n. 0) min y u mask
digits_any_fuel zero zero zero mask le le' = refl
digits_any_fuel zero zero (suc y) mask le le' = refl
digits_any_fuel zero (suc x) zero mask le le' = refl
digits_any_fuel zero (suc x) (suc y) mask le le' = refl
digits_any_fuel (suc u) zero y mask le le' = absurd (omega arith)
digits_any_fuel (suc u) (suc x) zero mask le le' = absurd (omega arith)
digits_any_fuel (suc u) (suc x) (suc y) mask le le' =
    let rest = digits_any_fuel (suc u / 2) x y (mask / 2) (omega arith) (omega arith) in
    ap (λ n. n * 2 + min (suc u % 2) (mask % 2)) rest

bit_and-digit :
    (u mask : ℕ) → bit_and u mask ≡ bit_and (u / 2) (mask / 2) * 2 + min (u % 2) (mask % 2)
bit_and-digit zero mask = simp bit_and-bitwise (omega arith)
bit_and-digit (suc u) mask =
    let half = suc u / 2 in
    simp bit_and-bitwise (
      ap (λ n. n * 2 + min (suc u % 2) (mask % 2))
        (digits_any_fuel half u half (mask / 2) (omega arith) (omega arith)))

no_mask : (k u : ℕ) → u ≤ k → bit_and u 0 ≡ 0
no_mask zero u le = let same : u ≡ 0 = omega arith in rw same refl
no_mask (suc k) u le = omega (arith, bit_and-digit u 0, no_mask k (u / 2) (omega arith))

zero_unset : (i : ℕ) → ¬ Bit i 0
zero_unset zero h = absurd (omega arith)
zero_unset (suc i) h = zero_unset i h

bit_and-Covers : (k usage mask : ℕ) → mask ≤ k → bit_and usage mask ≡ mask → Covers usage mask
bit_and-Covers zero usage mask le h i bit =
    let same : mask ≡ 0 = omega arith in absurd (zero_unset i (rw same at bit))
bit_and-Covers (suc k) usage mask le h zero bit = omega (arith, bit_and-digit usage mask)
bit_and-Covers (suc k) usage mask le h (suc i) bit =
    bit_and-Covers k (usage / 2) (mask / 2) (omega arith) (omega (arith, bit_and-digit usage mask))
      i bit

Covers-bit_and : (k usage mask : ℕ) → mask ≤ k → Covers usage mask → bit_and usage mask ≡ mask
Covers-bit_and zero usage mask le covers =
    let same : mask ≡ 0 = omega arith in rw same (no_mask usage usage (omega arith))
Covers-bit_and (suc k) usage mask le covers =
    let rest =
      Covers-bit_and k (usage / 2) (mask / 2) (omega arith) (λ i bit. covers (suc i) bit) in
    elim (Bool-cases (leb 1 (mask % 2))) [
      | inl e ↦
          let one : mask % 2 ≡ 1 = ground arith in
          let set = covers zero one in omega (arith, bit_and-digit usage mask, rest, one, set)
      | inr e ↦
          let unset : mask % 2 ≡ 0 = ground arith in
          omega (arith, bit_and-digit usage mask, rest, unset)
    ]

pub bit_and-mask : (usage mask : ℕ) → (bit_and usage mask ≡ mask) ↔ Covers usage mask
bit_and-mask usage mask =
    (bit_and-Covers mask usage mask (omega arith), Covers-bit_and mask usage mask (omega arith))
