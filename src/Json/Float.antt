-- ===== src/Json/Float.antt =====
-- Finite `float64` values (JSON has no others), and their conversion to and from integers.
pub mod Rounding
use shiroclient_sdk_go.Prelude.{
  ℕ, zero, suc, ◌+◌, ◌*◌, ◌/◌, ◌%◌, ◌^◌, Bool, false, ◌||◌, ◌&&◌, ltb, leb, if◌then◌else◌,
}
use shiroclient_sdk_go.Prelude.Int.{ℤ, pos, negsuc}

-- ± mantissa · 2 ^ exponent
pub record Float64 : Type 0 where
  pub negative : Bool
  pub mantissa : ℕ
  pub exponent : ℤ

abbrev scaled : ℕ → ℤ → ℕ
scaled m (pos e) = m * 2 ^ e
scaled m (negsuc e) = m / 2 ^ suc e

-- The absolute value, with the fraction dropped.
abbrev pub magnitude : Float64 → ℕ
magnitude f = scaled f.mantissa f.exponent

abbrev pub of_ℕ : ℕ → Float64
of_ℕ n = record { negative = false; mantissa = n; exponent = pos 0 }

-- The value of `n / 2 ^ e` rounded to the nearest integer, and to the even one of two.
unfoldable pub round_half_even : ℕ → ℕ → ℕ
round_half_even n e =
    let q = n / 2 ^ e in
    let r = n % 2 ^ e in
    if ltb (2 ^ e) (2 * r) || (leb (2 ^ e) (2 * r) && ltb 0 (q % 2)) then q + 1 else q

-- The first `e`, counted up from the given one, that leaves at most 53 bits of `n`.
unfoldable pub shift_for : ℕ → ℕ → ℕ → ℕ
shift_for zero n e = e
shift_for (suc fuel) n e =
    let more = shift_for fuel n (suc e) in if ltb (n / 2 ^ e) (2 ^ 53) then e else more

-- `float64(n)` for a `uint64`: 53 bits of precision, so eleven shifts are enough.
unfoldable pub float_of_uint64 : ℕ → Float64
unfolding round_half_even shift_for
float_of_uint64 n =
    let e = shift_for 11 n 0 in
    record { negative = false; mantissa = round_half_even n e; exponent = pos e }
