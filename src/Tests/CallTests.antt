-- ===== src/Tests/CallTests.antt =====
-- A call that a gateway answers.
use shiroclient_sdk_go.Prelude.{
  ℕ, none, some, List, [], ◌∷◌, ◌++◌, ◌≡◌, refl, arith, eq_iff, String,
}
use shiroclient_sdk_go.Prelude.Int.{pos}
use shiroclient_sdk_go.Errors.{ok}
use shiroclient_sdk_go.Json.{null, str}
use shiroclient_sdk_go.Types.Options.{Config, RequestOptions, apply_configs}
use shiroclient_sdk_go.Types.Response.{ShiroResponse, new_success_response}
use shiroclient_sdk_go.Configs.{with_endpoint, with_response, with_response_receiver}
use shiroclient_sdk_go.Platform.{responded, result_received}
use shiroclient_sdk_go.Rpc.Transport.{Session, sent, stored, received}
use shiroclient_sdk_go.Rpc.Reply.{Rpcres}
use shiroclient_sdk_go.Rpc.Client.{RpcClient, call}
use shiroclient_sdk_go.Rpc.Client.Laws.{post}
use shiroclient_sdk_go.Rpc.Client.Answers.{success}
use shiroclient_sdk_go.Rpc.Client.Complete.{call_body, Reached, call-Reached}
use shiroclient_sdk_go.Tests.{test_ctx, good_reply, gateway}

abbrev client : RpcClient
client = record { default_log = none; base_config = with_endpoint "http://gw" ∷ [] }

abbrev start : Session (gateway good_reply)
start = record { world = 0; events = [] }

abbrev configs : List Config
configs = with_response (some 4) ∷ with_response_receiver (some 8) ∷ []

abbrev options : RequestOptions
options = apply_configs "id-1" none (with_endpoint "http://gw" ∷ configs)

abbrev decoded_reply : Rpcres
decoded_reply = record {
  result = str "fine";
  code = null;
  message = null;
  details = null;
  tx_id = "tx-9";
  com_block_num = 7;
  sim_block_num = 0;
  error_level = pos 0;
}

abbrev response : ShiroResponse
response = new_success_response (0x22 ∷ 0x78 ∷ 0x22 ∷ []) "tx-9" 7 0

abbrev url : String
url = "http://gw"

url_set : url ≡ "" → ⊥
url_set e = ground (arith, eq_iff url "")

reached : Reached (gateway good_reply) test_ctx "m" options 1 1 good_reply decoded_reply
unfolding apply_configs with_response_receiver with_response with_endpoint
    shiroclient_sdk_go.Rpc.Transport.outcome shiroclient_sdk_go.Rpc.Reply.decode_reply
    shiroclient_sdk_go.Prelude.Dict.lookup shiroclient_sdk_go.Rpc.Numbers.convert_to_uint64
    shiroclient_sdk_go.Rpc.Numbers.int_of_float
reached = record {
  args = null;
  marshals = refl;
  endpoint_set = url_set;
  requests = refl;
  exchanged = record {
    fetch = responded (record { body = 1 ∷ []; read_err = none; close_err = none });
    arrival = result_received;
    ctx_err = none;
  };
  exchanges = refl;
  body = 1 ∷ [];
  arrives = refl;
  unmarshals = refl;
  decodes = refl;
}

call-Reached_example : call (gateway good_reply) client test_ctx "m" configs start ≡ (
  ok response,
  record {
    world = 1;
    events =
        sent (
          post
            (gateway good_reply)
            test_ctx
            options
            (call_body (gateway good_reply) test_ctx "m" options null))
        ∷ stored 4 good_reply
        ∷ received 8 response
        ∷ [];
  },
)
unfolding apply_configs with_response_receiver with_response
call-Reached_example =
    call-Reached (gateway good_reply) test_ctx "m" client configs start "id-1" 1 1 good_reply
      decoded_reply response refl reached (success refl refl)
