-- ===== src/Tests/ExchangeTests.antt =====
-- A query of a block and an update over the RPC client.
use shiroclient_sdk_go.Prelude.{none, [], ◌∷◌, ◌≡◌, refl}
use shiroclient_sdk_go.Prelude.Dict.{lookup}
use shiroclient_sdk_go.Exec.{◌>>=◌}
use shiroclient_sdk_go.Errors.{ok}
use shiroclient_sdk_go.Json.{Value, null, str, obj, of_members, strings}
use shiroclient_sdk_go.Types.Options.{RequestOptions, apply_configs}
use shiroclient_sdk_go.Types.Chain.{Block, new_block, new_transaction}
use shiroclient_sdk_go.Configs.{with_endpoint}
use shiroclient_sdk_go.Rpc.Transport.{Session}
use shiroclient_sdk_go.Rpc.Reply.{decode_reply}
use shiroclient_sdk_go.Rpc.Client.{RpcClient, query_block}
use shiroclient_sdk_go.Rpc.Client.Queries.{Fetched, query_block-Fetched}
use shiroclient_sdk_go.Rpc.Blocks.{decode_block}
use shiroclient_sdk_go.Rpc.Interface.{rpc_shiro_client}
use shiroclient_sdk_go.Update.{enable}
use shiroclient_sdk_go.Update.OverRpc.{Posted, update_options, enable-Posted}
use shiroclient_sdk_go.Tests.{test_ctx, good_reply, gateway_reply, gateway}

abbrev update_client : RpcClient
update_client = record { default_log = none; base_config = with_endpoint "http://gw" ∷ [] }

abbrev session : Session (gateway good_reply)
session = record { world = 0; events = [] }

abbrev enabled : Session (gateway good_reply)
enabled =
    (enable (gateway good_reply) (rpc_shiro_client (gateway good_reply) update_client) test_ctx "v2"
      [] session).1

enable_runs :
    enable
      (gateway good_reply)
      (rpc_shiro_client (gateway good_reply) update_client)
      test_ctx
      "v2"
      []
      session
    ≡ (ok tt, enabled)
unfolding enable ◌>>=◌ shiroclient_sdk_go.Update.call_accept shiroclient_sdk_go.Rpc.Client.call
    shiroclient_sdk_go.Rpc.Client.client_options shiroclient_sdk_go.Rpc.Client.reqres
    shiroclient_sdk_go.Rpc.Request.call_request shiroclient_sdk_go.Types.Options.apply_configs
    shiroclient_sdk_go.Configs.with_params with_endpoint shiroclient_sdk_go.Rpc.Transport.do_request
    decode_reply lookup shiroclient_sdk_go.Rpc.Numbers.int_of_float
enable_runs = refl

enable-Posted_example :
    Posted
      (gateway good_reply)
      test_ctx
      "enable"
      (strings ("v2" ∷ []))
      (update_options (gateway good_reply) update_client test_ctx "v2" [] "id-1")
      (record session { world = 1 })
      enabled
enable-Posted_example =
    enable-Posted (gateway good_reply) update_client test_ctx "v2" [] session enabled "id-1" 1 refl
      enable_runs

-- A block of one transaction.
abbrev block_reply : Value
block_reply =
    gateway_reply 0
      (obj (
        of_members (
          ("block_hash", str "h")
          ∷ ("transaction_ids", strings ("t1" ∷ []))
          ∷ ("transaction_reasons", strings ("VALID" ∷ []))
          ∷ ("transaction_events", strings ("Bw==" ∷ []))
          ∷ ("chaincode_ids", strings ("cc" ∷ []))
          ∷ [])))
      null null

abbrev block : Block
block = new_block "h" (new_transaction "t1" "VALID" (7 ∷ []) "cc" ∷ [])

abbrev query_start : Session (gateway block_reply)
query_start = record { world = 0; events = [] }

abbrev queried : Session (gateway block_reply)
queried = (query_block (gateway block_reply) update_client test_ctx 12 [] query_start).1

query_runs :
    query_block (gateway block_reply) update_client test_ctx 12 [] query_start ≡ (ok block, queried)
unfolding query_block ◌>>=◌ shiroclient_sdk_go.Rpc.Client.client_options
    shiroclient_sdk_go.Rpc.Client.reqres shiroclient_sdk_go.Types.Options.apply_configs
    with_endpoint shiroclient_sdk_go.Rpc.Transport.do_request decode_reply lookup
    shiroclient_sdk_go.Rpc.Numbers.int_of_float decode_block
query_runs = refl

query_block-Fetched_example :
    Fetched
      (gateway block_reply)
      test_ctx
      12
      (apply_configs "id-1" none (with_endpoint "http://gw" ∷ []))
      (record query_start { world = 1 })
      block
      queried
query_block-Fetched_example =
    query_block-Fetched (gateway block_reply) update_client test_ctx 12 [] query_start queried
      "id-1" 1 block refl query_runs
