-- ===== src/Json/Float/Rounding.antt =====
-- How far the `float64` of a `uint64` is from it.
use native.Mathlib.Nat.{div-add-mod', mod-lt, pow-le-pow_right}
use native.Mathlib.Decide.{dec_lt}
use shiroclient_sdk_go.Prelude.{
  ◌⊎◌, ℕ, zero, suc, ◌+◌, ◌*◌, ◌/◌, ◌%◌, ◌^◌, ◌≤◌, ◌<◌, ◌≡◌, refl, arith, ltb, leb, if◌then◌else◌,
  lt→ltb, Bool, ◌||◌, ◌&&◌, inl, inr,
}
use shiroclient_sdk_go.Json.Float.{magnitude, of_ℕ, round_half_even, shift_for, float_of_uint64}

shift_for-le : (fuel n e : ℕ) → shift_for fuel n e ≤ e + fuel
unfolding shift_for
shift_for-le zero n e = omega arith
shift_for-le (suc fuel) n e = ground (arith, shift_for-le fuel n (suc e))

-- Twice the distance is at most a unit of the result.
abbrev Near : ℕ → ℕ → ℕ → Type 0
Near n m unit = (2 * n ≤ 2 * m + unit) × (2 * m ≤ 2 * n + unit)

up-Near :
    (n q r unit : ℕ) → q * unit + r ≡ n → r < unit → unit ≤ 2 * r → Near n ((q + 1) * unit) unit
up-Near n q r unit e lt half =
    let f : (q + 1) * unit ≡ q * unit + unit = grind arith in (omega (arith, f), omega (arith, f))

down-Near : (n q r unit : ℕ) → q * unit + r ≡ n → 2 * r ≤ unit → Near n (q * unit) unit
down-Near n q r unit e half = (omega arith, omega arith)

rounded-Near :
    (n q r unit : ℕ) (odd : Bool)
    → q * unit + r ≡ n
    → r < unit
    → Near n ((if ltb unit (2 * r) || (leb unit (2 * r) && odd) then q + 1 else q) * unit) unit
rounded-Near n q r unit odd e lt = ground (arith, up-Near n q r unit e lt, down-Near n q r unit e)

pow-pos : (e : ℕ) → 0 < 2 ^ e
pow-pos e = omega (arith, pow-le-pow_right {n = 2} (omega arith) {i = 0} {j = e} (omega arith))

round_half_even-Near : (n e : ℕ) → Near n (round_half_even n e * 2 ^ e) (2 ^ e)
unfolding round_half_even
round_half_even-Near n e =
    rounded-Near n (n / 2 ^ e) (n % 2 ^ e) (2 ^ e) (ltb 0 (n / 2 ^ e % 2)) (div-add-mod' n (2 ^ e))
      (mod-lt n (pow-pos e))

shift_for-zero : (fuel n : ℕ) → n < 2 ^ 53 → shift_for (suc fuel) n 0 ≡ 0
unfolding shift_for
shift_for-zero fuel n h = rw (lt→ltb (n / 2 ^ 0) (2 ^ 53) (omega (arith, h))) refl

round_half_even-zero : (n : ℕ) → round_half_even n 0 ≡ n
unfolding round_half_even
round_half_even-zero n = ground arith

exact : (n : ℕ) → n < 2 ^ 53 → float_of_uint64 n ≡ of_ℕ n
unfolding float_of_uint64
exact n h = rw (shift_for-zero 10 n h, round_half_even-zero n) refl

exact_or_large : (n : ℕ) → (magnitude (float_of_uint64 n) ≡ n) ⊎ (2 ^ 53 ≤ n)
exact_or_large n = elim (dec_lt n (2 ^ 53)) [
  | yes lt ↦ inl (rw (exact n lt) (omega arith))
  | no ge ↦ inr (omega (arith, ge))
]

-- The number that QueryBlock sends for a block number is that number below 2 ^ 53, and for larger
-- ones it is at most 2 ^ 10 away.
pub float_of_uint64-bounds :
    (n : ℕ)
    → (n ≤ magnitude (float_of_uint64 n) + 2 ^ 10)
      × (magnitude (float_of_uint64 n) ≤ n + 2 ^ 10)
      × ((magnitude (float_of_uint64 n) ≡ n) ⊎ (2 ^ 53 ≤ n))
unfolding float_of_uint64
float_of_uint64-bounds n =
    let e = shift_for 11 n 0 in
    let (below, above) = round_half_even-Near n e in
    let unit = pow-le-pow_right {n = 2} (omega arith) {i = e} {j = 11} (shift_for-le 11 n 0) in
    (omega (arith, below, unit), omega (arith, above, unit), exact_or_large n)
