-- ===== src/Rpc/Numbers.antt =====
-- internal/rpc/shiroclient.go: `convertToUint64`, with the `strconv.ParseUint` that it calls, and the
-- conversions of numbers that replies hold.
pub mod Parse
use shiroclient_sdk_go.Prelude.{
  ℕ, zero, suc, ◌+◌, ◌-◌, ◌*◌, ◌/◌, ◌%◌, ◌^◌, String, Bool, true, false, ◌||◌, Option, none, some,
  List, [], ◌∷◌, ltb, leb, codes, if◌then◌else◌,
}
use shiroclient_sdk_go.Prelude.Int.{ℤ, pos, negsuc}
use shiroclient_sdk_go.Errors.{Error, errors_new, external}
use shiroclient_sdk_go.Json.{Value, num, str}
use shiroclient_sdk_go.Json.Float.{Float64, magnitude}
use shiroclient_sdk_go.Platform.{Platform}

abbrev pub max_uint64 : ℕ
max_uint64 = 2 ^ 64 - 1

abbrev pub syntax_error : Error
syntax_error = external "strconv.ParseUint: invalid syntax"

abbrev pub range_error : Error
range_error = external "strconv.ParseUint: value out of range"

-- The loop of `strconv.ParseUint(s, 10, 64)`: a value comes back beside the error.
unfoldable pub parse_digits : List ℕ → ℕ → ℕ × Option Error
parse_digits [] n = (n, none)
parse_digits (c ∷ s) n =
    let d = c - b'0' in
    let n1 = (n * 10 + d) % 2 ^ 64 in
    let rest = parse_digits s n1 in
    if ltb c b'0' || ltb b'9' c
    then (0, some syntax_error)
    else if leb (max_uint64 / 10 + 1) n
    then (max_uint64, some range_error)
    else if ltb n1 (n * 10 % 2 ^ 64)
    then (max_uint64, some range_error)
    else rest

unfoldable pub parse_uint : List ℕ → ℕ × Option Error
unfolding parse_digits
parse_uint [] = (0, some syntax_error)
parse_uint (c ∷ s) = parse_digits (c ∷ s) 0

-- A Go value that `convertToUint64` tells apart.
pub data Number : Type 0 where
  decoded : Value → Number
  int int64 : ℤ → Number
  uint64 : ℕ → Number

-- `uint64(v)` of a signed integer: two's complement.
unfoldable pub uint64_of_int : ℤ → ℕ
uint64_of_int (pos n) = n
uint64_of_int (negsuc n) = 2 ^ 64 - suc n

module _ (p : Platform) where
  -- `uint64(f)`, `int(f)`: the fraction is dropped
  unfoldable pub uint64_of_float : Float64 → ℕ
  uint64_of_float f =
      if ltb (magnitude f) (if f.negative then 1 else 2 ^ 64)
      then magnitude f
      else p.uint64_out_of_range f

  unfoldable pub negated : ℕ → ℤ
  negated zero = pos 0
  negated (suc n) = negsuc n

  unfoldable pub int_of_float : Float64 → ℤ
  unfolding negated
  int_of_float f =
      if f.negative
      then if leb (magnitude f) (2 ^ 63) then negated (magnitude f) else p.int_out_of_range f
      else if ltb (magnitude f) (2 ^ 63)
      then pos (magnitude f)
      else p.int_out_of_range f

  unfoldable pub convert_to_uint64 : Number → ℕ × Option Error
  unfolding parse_uint uint64_of_int uint64_of_float
  convert_to_uint64 (decoded (num v)) = (uint64_of_float v, none)
  convert_to_uint64 (decoded (str v)) = parse_uint (codes v)
  convert_to_uint64 (decoded v) = (0, some (errors_new "unsupported type"))
  convert_to_uint64 (int v) = (uint64_of_int v, none)
  convert_to_uint64 (int64 v) = (uint64_of_int v, none)
  convert_to_uint64 (uint64 v) = (v, none)
