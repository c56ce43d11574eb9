-- ===== src/Tests/ServedTests.antt =====
-- A mock client over a host whose one process serves an implementation.
use shiroclient_sdk_go.Prelude.{String, none, List, [], ◌∷◌, ◌++◌, Bytes, ◌≡◌, refl}
use shiroclient_sdk_go.Errors.{ok, err, errors_new, plugin_error}
use shiroclient_sdk_go.Exec.{lift, ◌>>=◌}
use shiroclient_sdk_go.Plugin.Substrate.{Substrate}
use shiroclient_sdk_go.Plugin.Rpc.{
  serve_health_check, serve_new_mock_from, serve_set_creator, serve_snapshot_mock, serve_close_mock,
  serve_init, serve_call, serve_query_info, serve_query_block,
}
use shiroclient_sdk_go.Plugin.Connection.{Host}
use shiroclient_sdk_go.Mock.{
  Machine, MockShiroClient, flatten, init, call, call_response, query_info, query_block, block_of,
  snapshot,
}
use shiroclient_sdk_go.Mock.Served.{Serves, seen, mock-refines}
use shiroclient_sdk_go.Tests.{test_ctx}

-- The state is the log of the methods run. Calls fail.
abbrev logged : Substrate
logged = record {
  State = List String;
  health_check = λ nat s. (ok nat, s);
  new_mock_from = λ name version snapshot s. (ok "tag", s ++ name ∷ []);
  set_creator_with_attributes_mock = λ tag creator attrs s. (ok tt, s);
  snapshot_mock = λ tag s. (ok (9 ∷ []), s ++ "snapshot" ∷ []);
  close_mock = λ tag s. (ok tt, s);
  init = λ tag phylum cro s. (ok tt, s ++ phylum ∷ []);
  call = λ tag command cro s. (err (errors_new "no such command"), s ++ command ∷ []);
  query_info = λ tag cro s. (ok 3, s);
  query_block = λ tag height cro s. (ok none, s);
}

abbrev text_of : Bytes → String
text_of b = "text"

abbrev serving_host : Host
serving_host = record {
  State = List String;
  launch = λ config s. (ok 0, s);
  dispense = λ process name s. (ok tt, s);
  kill = λ process s. s;
  health_check = λ process. serve_health_check text_of logged;
  new_mock_from = λ process. serve_new_mock_from text_of logged;
  set_creator = λ process. serve_set_creator text_of logged;
  snapshot_mock = λ process. serve_snapshot_mock text_of logged;
  close_mock = λ process. serve_close_mock text_of logged;
  init = λ process. serve_init text_of logged;
  call = λ process. serve_call text_of logged;
  query_info = λ process. serve_query_info text_of logged;
  query_block = λ process. serve_query_block text_of logged;
}

abbrev machine : Machine (List String)
machine = record {
  json_marshal = λ v. 1 ∷ [];
  text_of = text_of;
  base64_encode = λ b. "Bw==";
  new_uuid = λ s. (ok "id-1", s);
  now = λ s. ("noon", s);
  getenv = λ name s. "";
  read_all = λ r s. (ok [], s);
  write = λ w bytes s. (ok tt, s);
}

abbrev client : MockShiroClient serving_host machine
client = record {
  base_config = [];
  conn = record { client = 0 };
  tag = "tag";
  mock_phylum = "test";
}

serves : Serves serving_host machine logged 0
serves = record {
  get = λ s. s;
  put = λ t s. t;
  inits = λ args. refl;
  calls = λ args. refl;
  asks_info = λ args. refl;
  asks_block = λ args. refl;
  snapshots = λ args. refl;
}

mock-refines_example :
    (init serving_host machine client test_ctx "m" [] ≡ (
      flatten serving_host machine client test_ctx [] >>= λ cro.
      seen serving_host machine logged 0 serves (logged.init "tag" "m" cro)))
    × (call serving_host machine client test_ctx "m" [] ≡ (
        flatten serving_host machine client test_ctx [] >>= λ cro.
        seen serving_host machine logged 0 serves (logged.call "tag" "m" cro) >>= λ resp.
        lift (call_response serving_host machine resp)))
    × (query_info serving_host machine client test_ctx [] ≡ (
        flatten serving_host machine client test_ctx [] >>= λ cro.
        seen serving_host machine logged 0 serves (logged.query_info "tag" cro)))
    × (query_block serving_host machine client test_ctx 4 [] ≡ (
        flatten serving_host machine client test_ctx [] >>= λ cro.
        seen serving_host machine logged 0 serves (logged.query_block "tag" 4 cro) >>= λ blk.
        lift (block_of serving_host machine blk)))
    × (snapshot serving_host machine client 4 ≡ (
        seen serving_host machine logged 0 serves (logged.snapshot_mock "tag") >>= λ bytes.
        machine.write 4 bytes))
mock-refines_example = mock-refines serving_host machine logged client serves test_ctx "m" 4 []

-- The error of a call arrives as a plugin error, and the call has run.
failing_call :
    call serving_host machine client test_ctx "m" [] []
    ≡ (err (plugin_error "no such command"), "m" ∷ [])
unfolding call ◌>>=◌ flatten shiroclient_sdk_go.Types.Options.apply_configs
    shiroclient_sdk_go.Plugin.Rpc.rpc_call serve_call shiroclient_sdk_go.Errors.error_text
failing_call = refl
