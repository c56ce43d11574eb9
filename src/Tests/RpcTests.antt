-- ===== src/Tests/RpcTests.antt =====
-- Runs of the RPC client against a gateway that answers each request alike.
use shiroclient_sdk_go.Prelude.{true, none, some, List, [], ◌∷◌, Bytes, ◌≡◌, ◌↔◌, refl, inl, arith}
use shiroclient_sdk_go.Prelude.Int.{pos}
use shiroclient_sdk_go.Prelude.Dict.{lookup}
use shiroclient_sdk_go.Exec.{◌>>=◌}
use shiroclient_sdk_go.Errors.{ok, panic, external, canceled, Fails, is_canceled}
use shiroclient_sdk_go.Json.{Value, null, num, str, arr, obj, of_members, of_elems, strings}
use shiroclient_sdk_go.Json.Float.{of_ℕ}
use shiroclient_sdk_go.Types.Options.{Config, apply_configs}
use shiroclient_sdk_go.Types.Response.{ShiroResponse, new_success_response}
use shiroclient_sdk_go.Types.Chain.{Transaction, new_block}
use shiroclient_sdk_go.Configs.{with_endpoint, with_response, with_response_receiver}
use shiroclient_sdk_go.Platform.{Exchange, do_failed, result_received}
use shiroclient_sdk_go.Rpc.Numbers.{
  int_of_float, convert_to_uint64, decoded, max_uint64, range_error,
}
use shiroclient_sdk_go.Rpc.Numbers.Parse.{convert_to_uint64-saturated, value_after}
use shiroclient_sdk_go.Rpc.Transport.{Session, do_request, outcome, fetch_result}
use shiroclient_sdk_go.Rpc.Transport.Laws.{outcome_canceled}
use shiroclient_sdk_go.Rpc.Reply.{Rpcres, decode_reply, get_shiro_client_error, is_timeout_error}
use shiroclient_sdk_go.Rpc.Reply.Laws.{
  IsReply, SaysTimeout, wrap_all, decode_reply_iff, timeout_iff,
}
use shiroclient_sdk_go.Rpc.Blocks.{decode_block}
use shiroclient_sdk_go.Rpc.Blocks.Laws.{
  Encodes, BlockFields, Aligned, decode_block-Aligned, decode_block_panics,
}
use shiroclient_sdk_go.Rpc.Request.{call_request}
use shiroclient_sdk_go.Rpc.Client.{RpcClient, call, client_options, reqres}
use shiroclient_sdk_go.Rpc.Client.Answers.{Answered, call-Answered}
use shiroclient_sdk_go.Rpc.Health.{HealthReport, unmarshal_health_response}
use shiroclient_sdk_go.Rpc.Health.Laws.{Healthy, health_iff}
use shiroclient_sdk_go.Tests.{test_ctx, good_reply, gateway}

abbrev test_client : RpcClient
test_client = record { default_log = none; base_config = with_endpoint "http://gw" ∷ [] }

abbrev start : Session (gateway good_reply)
start = record { world = 0; events = [] }

-- The call stores the reply in a cell, and hands the response to a receiver.
abbrev call_configs : List Config
call_configs = with_response (some 4) ∷ with_response_receiver (some 8) ∷ []

abbrev call_response : ShiroResponse
call_response = new_success_response (0x22 ∷ 0x78 ∷ 0x22 ∷ []) "tx-9" 7 0

abbrev end : Session (gateway good_reply)
end = (call (gateway good_reply) test_client test_ctx "m" call_configs start).1

call_runs :
    call (gateway good_reply) test_client test_ctx "m" call_configs start ≡ (ok call_response, end)
unfolding call ◌>>=◌ client_options reqres call_request apply_configs with_response_receiver
    with_response with_endpoint do_request decode_reply lookup int_of_float convert_to_uint64
call_runs = refl

call-Answered_example :
    Answered
      (gateway good_reply)
      test_ctx
      "m"
      (apply_configs "id-1" none (with_endpoint "http://gw" ∷ call_configs))
      (record start { world = 1 })
      call_response
      end
call-Answered_example =
    call-Answered (gateway good_reply) test_client test_ctx "m" call_configs start "id-1" 1 refl
      call_runs

abbrev good_rpcres : Rpcres
good_rpcres = record {
  result = str "fine";
  code = null;
  message = null;
  details = null;
  tx_id = "tx-9";
  com_block_num = 7;
  sim_block_num = 0;
  error_level = pos 0;
}

decode_reply_iff_example :
    (decode_reply (gateway good_reply) good_reply ≡ ok good_rpcres)
    ↔ IsReply (gateway good_reply) good_reply good_rpcres
decode_reply_iff_example = decode_reply_iff (gateway good_reply) good_reply good_rpcres

abbrev timeout_rpcres : Rpcres
timeout_rpcres = record good_rpcres {
  code = num (of_ℕ 1);
  message = str "late";
  error_level = pos 1;
}

timeout_iff_example :
    (is_timeout_error
        (wrap_all ("a: " ∷ []) (get_shiro_client_error (gateway good_reply) timeout_rpcres))
      ≡ true)
    ↔ SaysTimeout (gateway good_reply) timeout_rpcres
timeout_iff_example = timeout_iff (gateway good_reply) ("a: " ∷ []) timeout_rpcres

convert_to_uint64-saturated_example :
    convert_to_uint64 (gateway good_reply) (decoded (str "18446744073709551616"))
    ≡ (max_uint64, some range_error)
unfolding value_after
convert_to_uint64-saturated_example =
    convert_to_uint64-saturated (gateway good_reply) "18446744073709551616" 0x31
      (0x38 ∷ 0x34 ∷ 0x34 ∷ 0x36 ∷ 0x37 ∷ 0x34 ∷ 0x34 ∷ 0x30 ∷ 0x37 ∷ 0x33 ∷ 0x37 ∷ 0x30 ∷ 0x39
        ∷ 0x35 ∷ 0x35 ∷ 0x31 ∷ 0x36 ∷ 0x31 ∷ 0x36 ∷ [])
      refl (omega arith)

-- An exchange that fails by itself, in a cancelled context.
abbrev canceled_exchange : Exchange
canceled_exchange = record {
  fetch = do_failed (external "connection reset");
  arrival = result_received;
  ctx_err = some canceled;
}

outcome_canceled_example : Fails (outcome canceled_exchange) (λ f. is_canceled f ≡ true)
unfolding fetch_result
outcome_canceled_example =
    outcome_canceled canceled_exchange (external "connection reset") refl refl

-- A block of one transaction, with the given events and chaincode IDs.
abbrev block_result : List Value → Value
block_result events = obj (
    of_members (
      ("block_hash", str "h")
      ∷ ("transaction_ids", strings ("t1" ∷ []))
      ∷ ("transaction_reasons", strings ("VALID" ∷ []))
      ∷ ("transaction_events", arr (of_elems events))
      ∷ ("chaincode_ids", strings ("cc" ∷ []))
      ∷ []))

block_fields :
    (events : List Value) (bs : List Bytes)
    → Encodes (λ s. some (7 ∷ [])) events bs
    → BlockFields
        (gateway good_reply)
        (block_result events)
        "h"
        ("t1" ∷ [])
        ("VALID" ∷ [])
        bs
        ("cc" ∷ [])
unfolding lookup
block_fields events bs e = record {
  res =
      ("block_hash", str "h")
      ∷ ("transaction_ids", strings ("t1" ∷ []))
      ∷ ("transaction_reasons", strings ("VALID" ∷ []))
      ∷ ("transaction_events", arr (of_elems events))
      ∷ ("chaincode_ids", strings ("cc" ∷ []))
      ∷ [];
  event_values = events;
  is_object = refl;
  has_hash = refl;
  has_txids = refl;
  has_reasons = refl;
  has_events = refl;
  encoded = e;
  has_ccids = refl;
}

decode_block-Aligned_example :
    (txs : List Transaction) × (decode_block (gateway good_reply) (block_result (str "Bw==" ∷ []))
      ≡ ok (new_block "h" txs))
    × Aligned ("VALID" ∷ []) ((7 ∷ []) ∷ []) ("cc" ∷ []) 0 ("t1" ∷ []) txs
decode_block-Aligned_example =
    decode_block-Aligned (gateway good_reply)
      (block_fields (str "Bw==" ∷ []) ((7 ∷ []) ∷ []) (refl, tt)) refl (omega arith) (omega arith)

decode_block_panics_example :
    decode_block (gateway good_reply) (block_result []) ≡ panic "index out of range"
decode_block_panics_example =
    decode_block_panics (gateway good_reply) (block_fields [] [] tt) refl (inl (omega arith))

abbrev reports : List HealthReport
reports =
    record { timestamp = "noon"; status = "UP"; service_name = "phylum"; service_version = "v2" }
    ∷ []

health_iff_example :
    (unmarshal_health_response (gateway good_reply) (1 ∷ []) ≡ ok reports)
    ↔ Healthy (gateway good_reply) (1 ∷ []) reports
health_iff_example = health_iff (gateway good_reply) (1 ∷ []) reports
