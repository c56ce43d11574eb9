-- ===== src/Errors.antt =====
-- Go's error values as this repository makes and inspects them, and results that may be an error or
-- a panic. An error that a library makes is known by its text.
use shiroclient_sdk_go.Prelude.{
  String, Bytes, Bool, true, false, Option, none, some, [], ◌∷◌, concat, print_ℕ, is_empty, suc,
  if◌then◌else◌, ◌==◌,
}
use shiroclient_sdk_go.Prelude.Int.{ℤ, pos, negsuc}

-- The methods of `types.Error` give these three.
pub record FailureError : Type 0 where
  pub message : String
  pub data_json : Bytes
  pub code : ℤ

pub data Error : Type 0 where
  -- `*scError`; its field `err` is never set
  sc_error : (message : String) (code : ℤ) → Error
  -- `errors.New(s)`, or `fmt.Errorf` with no %w
  errors_new : String → Error
  -- "ShiroClient.<operation> unexpected error level %d"
  unexpected_level : (operation : String) (level : ℤ) → Error
  -- `fmt.Errorf("<prefix>%w", err)`, and a library's error that wraps another one
  wrapped : (prefix : String) → Error → Error
  -- `context.Canceled`, `context.DeadlineExceeded`
  canceled deadline_exceeded : Error
  -- `fmt.Errorf("%w: %s", context.Canceled, err)`
  canceled_by : Error → Error
  -- `*jsonFieldError`
  json_field_error : (desc typ field : String) → Error
  -- "remote exception: %s"
  remote_exception : Bytes → Error
  -- `*_rpcError`
  rpc_error : FailureError → Error
  -- `*plugin.Error`
  plugin_error : (diagnostic : String) → Error
  -- `status.Error(codes.Unavailable, message)`
  unavailable : (message : String) → Error
  -- any other error of a library
  external : String → Error

unfoldable pub print_ℤ : ℤ → String
unfolding print_ℕ
print_ℤ (pos n) = print_ℕ n
print_ℤ (negsuc n) = concat ("-" ∷ print_ℕ (suc n) ∷ [])

-- `err.Error()`. `text_of` is the conversion `string(bytes)`.
module _ (text_of : Bytes → String) where
  unfoldable pub error_text : Error → String
  unfolding print_ℤ
  error_text (sc_error message code) = message
  error_text (errors_new s) = s
  error_text (unexpected_level operation level) =
      concat ("ShiroClient." ∷ operation ∷ " unexpected error level " ∷ print_ℤ level ∷ [])
  error_text (wrapped prefix e) = concat (prefix ∷ error_text e ∷ [])
  error_text canceled = "context canceled"
  error_text deadline_exceeded = "context deadline exceeded"
  error_text (canceled_by e) = concat ("context canceled: " ∷ error_text e ∷ [])
  error_text (json_field_error desc typ field) =
      if typ == ""
      then concat (desc ∷ " expected " ∷ field ∷ " field" ∷ [])
      else concat (desc ∷ " expected " ∷ typ ∷ " " ∷ field ∷ " field" ∷ [])
  error_text (remote_exception js) = concat ("remote exception: " ∷ text_of js ∷ [])
  error_text (rpc_error e) =
      let trailer : String =
        if is_empty e.data_json then "" else concat (" " ∷ text_of e.data_json ∷ []) in
      concat ("rpc error code " ∷ print_ℤ e.code ∷ " " ∷ e.message ∷ trailer ∷ [])
  error_text (plugin_error diagnostic) = diagnostic
  error_text (unavailable message) = concat ("rpc error: code = Unavailable desc = " ∷ message ∷ [])
  error_text (external s) = s

-- `errors.Is(err, context.Canceled)`: along the chain of wrapped errors.
abbrev pub is_canceled : Error → Bool
is_canceled canceled = true
is_canceled (wrapped prefix e) = is_canceled e
is_canceled (canceled_by e) = true
is_canceled _ = false

-- `errors.As(err, &se)` for `se *scError`: the code of the first one along the chain.
unfoldable pub as_sc_error : Error → Option ℤ
as_sc_error (sc_error message code) = some code
as_sc_error (wrapped prefix e) = as_sc_error e
as_sc_error _ = none

-- What a function that may fail returns; `panic` is a run-time panic.
pub data Result {ℓ} (A : Type ℓ) : Type ℓ where
  ok : A → Result A
  err : Error → Result A
  panic : String → Result A

-- The value, or another one if there is none.
abbrev pub value_or {ℓ} : {A : Type ℓ} → A → Result A → A
value_or d (ok a) = a
value_or d (err e) = d
value_or d (panic s) = d

-- The result is an error for which `P` holds.
abbrev pub Fails {ℓ} : {A : Type ℓ} → Result A → (Error → Type 0) → Type 0
Fails (err e) P = P e
Fails _ P = ⊥

-- The result is a value for which `P` holds.
abbrev pub Returns {ℓ} : {A : Type ℓ} → Result A → (A → Type 0) → Type 0
Returns (ok a) P = P a
Returns _ P = ⊥

-- `if err != nil { return nil, fmt.Errorf("<prefix>%w", err) }`
abbrev pub wrap_err {ℓ} : {A : Type ℓ} → String → Result A → Result A
wrap_err prefix (ok a) = ok a
wrap_err prefix (err e) = err (wrapped prefix e)
wrap_err prefix (panic s) = panic s

-- `v, ok := x; if !ok { return nil, errors.New(s) }`
abbrev pub require {ℓ} : {A : Type ℓ} → Option A → String → Result A
require none s = err (errors_new s)
require (some a) s = ok a

module _ {ℓ κ} {A : Type ℓ} {B : Type κ} where
  infixl 5 ◌>>=◌
  abbrev pub ◌>>=◌ : Result A → (A → Result B) → Result B
  ok a >>= f = f a
  err e >>= f = err e
  panic s >>= f = panic s
