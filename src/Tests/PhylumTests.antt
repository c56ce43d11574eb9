-- ===== src/Tests/PhylumTests.antt =====
-- Runs of the phylum client, over a client that answers each call alike and over the RPC client.
use shiroclient_sdk_go.Prelude.{
  ℕ, String, Option, none, some, List, [], ◌∷◌, ◌++◌, Bytes, ◌≡◌, ◌↔◌, refl, map, false,
}
use shiroclient_sdk_go.Prelude.Int.{pos}
use shiroclient_sdk_go.Errors.{FailureError, ok, err}
use shiroclient_sdk_go.Exec.{Exec, pure, ◌>>=◌}
use shiroclient_sdk_go.Json.{null, num, str}
use shiroclient_sdk_go.Json.Float.{of_ℕ}
use shiroclient_sdk_go.Types.{ShiroClient}
use shiroclient_sdk_go.Types.Options.{Config, RequestOptions}
use shiroclient_sdk_go.Types.Response.{failure_response}
use shiroclient_sdk_go.Configs.{with_header, with_transient_data}
use shiroclient_sdk_go.Rpc.Transport.{Session}
use shiroclient_sdk_go.Rpc.Reply.{Rpcres}
use shiroclient_sdk_go.Rpc.Reply.Laws.{SaysTimeout}
use shiroclient_sdk_go.Rpc.Request.{call_request}
use shiroclient_sdk_go.Rpc.Client.{RpcClient, reqres}
use shiroclient_sdk_go.Rpc.Interface.{rpc_shiro_client}
use shiroclient_sdk_go.Phylum.{Codec, call, sdk_call, new_rpc}
use shiroclient_sdk_go.Phylum.Joins.{join_config, draw_all, join_config-draws}
use shiroclient_sdk_go.Phylum.Laws.{Answers, call_iff}
use shiroclient_sdk_go.Phylum.Timeouts.{
  failure_masked, rpc_timeout-unavailable, unavailable_error, sdk_options,
}
use shiroclient_sdk_go.Tests.{
  test_ctx, good_reply, timeout_reply, gateway, good_client, fixed_client, test_seed,
}

abbrev text_codec : Codec String
text_codec = record { unmarshal_rep = λ b. ok "answer"; unmarshal_string = λ b. none }

abbrev start : List String
start = []

call_iff_example :
    (call
        (gateway good_reply)
        text_codec
        good_client
        test_seed
        test_ctx
        "m"
        (ok null)
        "empty"
        []
        start
      ≡ (ok "answer", "seed" ∷ "m" ∷ []))
    ↔ Answers
        (gateway good_reply)
        text_codec
        good_client
        test_seed
        test_ctx
        "m"
        (ok null)
        "empty"
        []
        "answer"
        start
        ("seed" ∷ "m" ∷ [])
call_iff_example =
    call_iff (gateway good_reply) text_codec good_client test_seed test_ctx "m" (ok null) "empty"
      "answer" [] start ("seed" ∷ "m" ∷ [])

-- Two failures with the same data.
abbrev failure : String → ℕ → FailureError
failure message code = record { message = message; data_json = 0x7b ∷ 0x7d ∷ []; code = pos code }

abbrev failing : String → ℕ → ShiroClient
failing message code = fixed_client (failure_response (failure message code))

failure_masked_example :
    (sdk_call
      (gateway good_reply)
      text_codec
      (failing "secret" 1)
      test_seed
      test_ctx
      "m"
      (ok null)
      false
      []
      start).0
    ≡ (sdk_call
        (gateway good_reply)
        text_codec
        (failing "other" 2)
        test_seed
        test_ctx
        "m"
        (ok null)
        false
        []
        start).0
failure_masked_example =
    failure_masked (gateway good_reply) text_codec (failing "secret" 1) (failing "other" 2)
      test_seed test_seed test_ctx "m" (ok null) false [] start ("seed" ∷ []) ("seed" ∷ "m" ∷ [])
      start ("seed" ∷ []) ("seed" ∷ "m" ∷ []) (5 ∷ []) (5 ∷ []) (failure "secret" 1)
      (failure "other" 2) refl refl refl refl refl

abbrev joined_defaults : List (Exec (List String) Config)
joined_defaults = (λ s. (ok (with_transient_data "k" (1 ∷ [])), s ++ "k" ∷ [])) ∷ []

join_config-draws_example :
    join_config joined_defaults joined_defaults (with_header "a" "b" ∷ []) start
    ≡ (draw_all joined_defaults 0 >>= λ cs. pure (map some (cs ++ with_header "a" "b" ∷ []))) start
join_config-draws_example = join_config-draws joined_defaults (with_header "a" "b" ∷ []) start

-- A gateway that answers each call with a timeout.
abbrev late_client : RpcClient
late_client = new_rpc "http://gw" [] none

abbrev session : ℕ → Session (gateway timeout_reply)
session n = record { world = n; events = [] }

abbrev session_seed : Exec (Session (gateway timeout_reply)) Bytes
session_seed s = (ok (5 ∷ []), s)

abbrev late_options : RequestOptions
late_options =
    sdk_options (gateway timeout_reply) text_codec late_client session_seed test_ctx "m" (ok null)
      false [] "id-1" (5 ∷ [])

abbrev after_late : Session (gateway timeout_reply)
after_late =
    (reqres (gateway timeout_reply) test_ctx (call_request "m" late_options test_ctx) late_options
      (session 1)).1

abbrev late_rpcres : Rpcres
late_rpcres = record {
  result = null;
  code = num (of_ℕ 1);
  message = str "late";
  details = null;
  tx_id = "tx-9";
  com_block_num = 7;
  sim_block_num = 0;
  error_level = pos 1;
}

late_reqres :
    reqres
      (gateway timeout_reply)
      test_ctx
      (call_request "m" late_options test_ctx)
      late_options
      (session 1)
    ≡ (ok late_rpcres, after_late)
unfolding reqres ◌>>=◌ call_request shiroclient_sdk_go.Types.Options.apply_configs new_rpc
    with_transient_data shiroclient_sdk_go.Configs.with_params
    shiroclient_sdk_go.Configs.with_logrus_fields shiroclient_sdk_go.Configs.with_endpoint
    shiroclient_sdk_go.Rpc.Transport.do_request shiroclient_sdk_go.Rpc.Reply.decode_reply
    shiroclient_sdk_go.Prelude.Dict.lookup shiroclient_sdk_go.Rpc.Numbers.convert_to_uint64
    shiroclient_sdk_go.Rpc.Numbers.int_of_float
late_reqres = refl

late_says : SaysTimeout (gateway timeout_reply) late_rpcres
unfolding shiroclient_sdk_go.Rpc.Numbers.int_of_float
late_says = ("late", of_ℕ 1, refl, refl, refl)

rpc_timeout-unavailable_example :
    sdk_call
      (gateway timeout_reply)
      text_codec
      (rpc_shiro_client (gateway timeout_reply) late_client)
      session_seed
      test_ctx
      "m"
      (ok null)
      false
      []
      (session 0)
    ≡ (err unavailable_error, after_late)
rpc_timeout-unavailable_example =
    rpc_timeout-unavailable (gateway timeout_reply) text_codec late_client session_seed test_ctx "m"
      (ok null) false [] (session 0) (session 0) after_late (5 ∷ []) "id-1" 1 late_rpcres refl refl
      late_reqres refl late_says
