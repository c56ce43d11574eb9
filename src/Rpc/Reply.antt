-- ===== src/Rpc/Reply.antt =====
-- internal/rpc/shiroclient.go: `rpcres`, its decoding at the end of `reqres`, `scError` and
-- `IsTimeoutError`.
pub mod Laws
use shiroclient_sdk_go.Prelude.{
  ℕ, String, Bool, true, false, Option, none, some, List, [], ◌∷◌, ◌==◌, if◌then◌else◌,
}
use shiroclient_sdk_go.Prelude.Int.{ℤ, pos, ◌==ℤ◌}
use shiroclient_sdk_go.Prelude.Dict.{Dict, lookup}
use shiroclient_sdk_go.Errors.{
  Error, Result, ok, err, sc_error, errors_new, as_sc_error, require, ◌>>=◌,
}
use shiroclient_sdk_go.Json.{Value, null, num, str, as_object, as_string, as_float}
use shiroclient_sdk_go.Platform.{Platform}
use shiroclient_sdk_go.Rpc.Numbers.{convert_to_uint64, int_of_float, decoded}
use shiroclient_sdk_go.Rpc.Codes.{error_code_shiro_client_timeout}

-- A partially decoded reply.
pub record Rpcres : Type 0 where
  pub result : Value
  pub code : Value
  pub message : Value
  pub details : Value  -- `data`
  pub tx_id : String
  pub com_block_num : ℕ
  pub sim_block_num : ℕ
  pub error_level : ℤ

abbrev or_null : Option Value → Value
or_null none = null
or_null (some v) = v

-- `s, _ := v.(string)`
abbrev or_empty : Option String → String
or_empty none = ""
or_empty (some s) = s

abbrev expect_version : String → Result (Unit {0})
expect_version version =
    if version == "2.0"
    then ok tt
    else err (errors_new "ShiroClient.reqres expected jsonrpc version 2.0")

-- `m[key]`, an error if there is no such key; `m[key]` as `nil` if there is none.
abbrev need : Dict Value → String → String → Result Value
need m key what = require (lookup key m) what

abbrev at : Dict Value → String → Value
at m key = or_null (lookup key m)

module _ (p : Platform) where
  unfoldable pub decode_reply : Value → Result Rpcres
  decode_reply res_arb = do
    res_curly ← require (as_object res_arb) "ShiroClient.reqres expected an object"
    jsonrpc_arb ← need res_curly "jsonrpc" "ShiroClient.reqres expected a jsonrpc field"
    jsonrpc ← require (as_string jsonrpc_arb) "ShiroClient.reqres expected a string jsonrpc field"
    _ ← expect_version jsonrpc
    result_arb ← need res_curly "result" "ShiroClient.reqres expected a result field"
    result_curly ←
        require (as_object result_arb) "ShiroClient.reqres expected an object result field"
    error_level_arb ←
        need result_curly "error_level" "ShiroClient.reqres expected an error_level field"
    error_level ←
        require (as_float error_level_arb) "ShiroClient.reqres expected a numeric error_level field"
    result ← need result_curly "result" "ShiroClient.reqres expected a result field"
    code ← need result_curly "code" "ShiroClient.reqres expected a code field"
    message ← need result_curly "message" "ShiroClient.reqres expected a message field"
    details ← need result_curly "data" "ShiroClient.reqres expected a data field"
    ok (record {
      result = result;
      code = code;
      message = message;
      details = details;
      tx_id = or_empty (as_string (at res_curly "$commit_tx_id"));
      com_block_num = (convert_to_uint64 p (decoded (at res_curly "$com_block_num"))).0;
      sim_block_num = (convert_to_uint64 p (decoded (at res_curly "$sim_block_num"))).0;
      error_level = int_of_float p error_level;
    })

  -- `code, _ := r.code.(float64)`, then `int(code)`
  code_or_zero : Value → ℤ
  code_or_zero (num f) = int_of_float p f
  code_or_zero _ = pos 0

  sc_error_of : Value → Value → Error
  unfolding code_or_zero
  sc_error_of code (str message) = sc_error message (code_or_zero code)
  sc_error_of code _ = sc_error "shiroclient error with no message" (pos 0)

  -- `getShiroClientError`
  unfoldable pub get_shiro_client_error : Rpcres → Error
  unfolding sc_error_of
  get_shiro_client_error r = sc_error_of r.code r.message

-- `se.code == rpc.ErrorCodeShiroClientTimeout`
is_timeout_code : Option ℤ → Bool
is_timeout_code (some code) = code ==ℤ error_code_shiro_client_timeout
is_timeout_code none = false

-- `IsTimeoutError`
unfoldable pub is_timeout_error : Error → Bool
unfolding is_timeout_code as_sc_error
is_timeout_error e = is_timeout_code (as_sc_error e)
