-- ===== src/Types/Response.antt =====
-- internal/types/types.go: responses and their accessors, and `UnmarshalProto`.
use shiroclient_sdk_go.Prelude.{ℕ, String, Option, none, some, [], Bytes}
use shiroclient_sdk_go.Prelude.Int.{ℤ}
use shiroclient_sdk_go.Errors.{FailureError, Result, err, errors_new}

pub record SuccessResponse : Type 0 where
  pub tx_id : String
  pub com_block_num : ℕ
  pub sim_block_num : ℕ
  pub result : Bytes

-- The two implementations of the interface `ShiroResponse`.
pub data ShiroResponse : Type 0 where
  failure_response : FailureError → ShiroResponse
  success_response : SuccessResponse → ShiroResponse

-- `NewFailureResponse`
abbrev pub new_failure_response : ℤ → String → Bytes → ShiroResponse
new_failure_response code message data_json =
    failure_response (record { message = message; data_json = data_json; code = code })

-- `NewSuccessResponse`
abbrev pub new_success_response : Bytes → String → ℕ → ℕ → ShiroResponse
new_success_response result tx_id com_block_num sim_block_num = success_response (record {
  tx_id = tx_id;
  com_block_num = com_block_num;
  sim_block_num = sim_block_num;
  result = result;
})

-- How the type switch of `UnmarshalProto` sees a destination.
pub data DstKind : Type 0 where
  proto_message message_v1 plain : DstKind

-- A destination for decoded data, with what each of the three libraries decodes into it.
pub record Dst (A : Type 0) : Type 0 where
  pub kind : DstKind
  pub protojson : Bytes → Result A
  pub jsonpb : Bytes → Result A
  pub json : Bytes → Result A

module _ {A : Type 0} where
  abbrev by_kind : DstKind → Bytes → Dst A → Result A
  by_kind proto_message src dst = dst.protojson src
  by_kind message_v1 src dst = dst.jsonpb src
  by_kind plain src dst = dst.json src

  abbrev pub unmarshal_proto : Bytes → Dst A → Result A
  unmarshal_proto src dst = by_kind dst.kind src dst

  -- `resp.UnmarshalTo(dst)`
  unfoldable pub unmarshal_to : ShiroResponse → Dst A → Result A
  unmarshal_to (failure_response e) dst =
      err (errors_new "can't unmarshal the result if the RPC call failed")
  unmarshal_to (success_response r) dst = unmarshal_proto r.result dst

-- `resp.ResultJSON()`; `nil` and an empty slice are one value here.
abbrev pub result_json : ShiroResponse → Bytes
result_json (failure_response e) = []
result_json (success_response r) = r.result

abbrev pub transaction_id : ShiroResponse → String
transaction_id (failure_response e) = ""
transaction_id (success_response r) = r.tx_id

abbrev pub max_sim_block_num : ShiroResponse → ℕ
max_sim_block_num (failure_response e) = 0
max_sim_block_num (success_response r) = r.sim_block_num

abbrev pub commit_block_num : ShiroResponse → ℕ
commit_block_num (failure_response e) = 0
commit_block_num (success_response r) = r.com_block_num

-- `resp.Error()`
abbrev pub response_error : ShiroResponse → Option FailureError
response_error (failure_response e) = some e
response_error (success_response r) = none
