-- ===== src/Rpc/Numbers/Parse.antt =====
-- `strconv.ParseUint` against the value of a decimal numeral.
use shiroclient_sdk_go.Prelude.{
  ℕ, ◌+◌, ◌-◌, ◌*◌, ◌%◌, ◌^◌, ◌≤◌, ◌<◌, ◌≡◌, sym, String, Option, none, some, List, [], ◌∷◌, ltb,
  All, arith, if◌then◌else◌, Bool-cases, inl, inr, ltb→lt, codes,
}
use shiroclient_sdk_go.Errors.{Error}
use shiroclient_sdk_go.Json.{str}
use shiroclient_sdk_go.Platform.{Platform}
use shiroclient_sdk_go.Rpc.Numbers.{
  parse_digits, parse_uint, max_uint64, range_error, convert_to_uint64, decoded,
}

abbrev pub IsDigit : ℕ → Type 0
IsDigit c = (b'0' ≤ c) × (c ≤ b'9')

-- The number that digits stand for, read after `n`.
unfoldable pub value_after : ℕ → List ℕ → ℕ
value_after n [] = n
value_after n (c ∷ s) = value_after (n * 10 + (c - b'0')) s

le-value_after : (n : ℕ) (s : List ℕ) → n ≤ value_after n s
unfolding value_after
le-value_after n [] = omega arith
le-value_after n (c ∷ s) = omega (arith, le-value_after (n * 10 + (c - b'0')) s)

-- The value if it fits 64 bits; otherwise the largest one, and a range error.
abbrev pub saturated : ℕ → ℕ × Option Error
saturated v = if ltb v (2 ^ 64) then (v, none) else (max_uint64, some range_error)

-- One digit: a range error exactly if the new number does not fit.
step_digit :
    (c n : ℕ) (s : List ℕ)
    → IsDigit c
    → n < 2 ^ 64
    → parse_digits (c ∷ s) n ≡ (
        if ltb (n * 10 + (c - b'0')) (2 ^ 64)
        then parse_digits s (n * 10 + (c - b'0'))
        else (max_uint64, some range_error))
unfolding parse_digits
step_digit c n s (lo, hi) h = elim (Bool-cases (ltb (n * 10 + (c - b'0')) (2 ^ 64))) [
  | inl fits ↦
      let e : (n * 10 + (c - b'0')) % 2 ^ 64 ≡ n * 10 + (c - b'0') =
        omega (arith, ltb→lt _ _ fits) in
      rw (e, fits) (ground arith)
  | inr over ↦ ground arith
]

parse_digits-nil : (n : ℕ) → n < 2 ^ 64 → parse_digits [] n ≡ saturated n
unfolding parse_digits
parse_digits-nil n h = ground arith

saturated_over :
    (n : ℕ) (s : List ℕ) → 2 ^ 64 ≤ n → saturated (value_after n s) ≡ (max_uint64, some range_error)
saturated_over n s h = ground (arith, le-value_after n s)

parse_digits-saturated :
    (s : List ℕ) (n : ℕ)
    → All IsDigit s
    → n < 2 ^ 64
    → parse_digits s n ≡ saturated (value_after n s)
unfolding value_after
parse_digits-saturated [] n d h = parse_digits-nil n h
parse_digits-saturated (c ∷ s) n (dc, ds) h =
    let n' = n * 10 + (c - b'0') in
    rw (step_digit c n s dc h) (elim (Bool-cases (ltb n' (2 ^ 64))) [
      | inl fits ↦ rw fits (parse_digits-saturated s n' ds (ltb→lt _ _ fits))
      | inr over ↦ rw over (sym (saturated_over n' s (ground arith)))
    ])

-- The block numbers of a reply, where they are texts: on a non-empty text of decimal digits the
-- value is the number that it stands for if that is below 2^64, with no error; otherwise it is
-- 2^64 - 1, with a range error.
pub convert_to_uint64-saturated :
    (p : Platform) (s : String) (c : ℕ) (cs : List ℕ)
    → codes s ≡ c ∷ cs
    → All IsDigit (c ∷ cs)
    → convert_to_uint64 p (decoded (str s)) ≡ saturated (value_after 0 (c ∷ cs))
unfolding convert_to_uint64
convert_to_uint64-saturated p s c cs e d =
    rw (e, parse_uint) (parse_digits-saturated (c ∷ cs) 0 d (omega arith))
