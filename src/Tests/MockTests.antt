-- ===== src/Tests/MockTests.antt =====
-- Runs of the mock client on a host that numbers its processes in order.
use shiroclient_sdk_go.Prelude.{
  ℕ, suc, ◌+◌, String, Option, none, some, List, [], ◌∷◌, ◌++◌, ◌≡◌, ◌↔◌, refl, count, false,
}
use shiroclient_sdk_go.Prelude.Int.{pos}
use shiroclient_sdk_go.Errors.{Error, ok, err, wrapped, plugin_error}
use shiroclient_sdk_go.Configs.{with_logrus_fields}
use shiroclient_sdk_go.Plugin.Substrate.{Response}
use shiroclient_sdk_go.Plugin.Connection.{Host}
use shiroclient_sdk_go.Plugin.Trace.{launched, killed, Traced, traced}
use shiroclient_sdk_go.Mock.{Machine, MockShiroClient, close}
use shiroclient_sdk_go.Mock.Start.{new_mock}
use shiroclient_sdk_go.Mock.Options.{
  MockOption, with_plugin_path, with_snapshot_reader, mock_config,
}
use shiroclient_sdk_go.Mock.Quiet.{traced_machine, TracedClient}
use shiroclient_sdk_go.Mock.Laws.{Made, new_mock_iff}
use shiroclient_sdk_go.Mock.Launches.{new_mock_leaks}
use shiroclient_sdk_go.Mock.Lifecycle.{
  starts, kills, Program, opens, closes, Reach, here, next, processes, processes-IsBalanced,
}
use shiroclient_sdk_go.Phylum.Mock.{Client, over_mock, new_mock_from, close_client}
use shiroclient_sdk_go.Phylum.Mock.Processes.{close-new_mock_from}

abbrev plugin_response : Response
plugin_response = record {
  result_json = 7 ∷ [];
  has_error = false;
  error_code = pos 0;
  error_message = "";
  error_json = [];
  transaction_id = "tx-1";
}

-- The state is the number of processes started; `refusal` is the answer to `NewMockFrom`, if it fails.
abbrev test_host : Option String → Host
test_host refusal = record {
  State = ℕ;
  launch = λ config n. (ok n, suc n);
  dispense = λ process name n. (ok tt, n);
  kill = λ process n. n;
  health_check = λ process args n. (ok (record { suc = args.nat }), n);
  new_mock_from = λ process args n. (ok (record { value = "tag"; failure = refusal }), n);
  set_creator = λ process args n. (ok (record { value = tt; failure = none }), n);
  snapshot_mock = λ process args n. (ok (record { value = 9 ∷ []; failure = none }), n);
  close_mock = λ process args n. (ok (record { value = tt; failure = none }), n);
  init = λ process args n. (ok (record { value = tt; failure = none }), n);
  call = λ process args n. (ok (record { value = some plugin_response; failure = none }), n);
  query_info = λ process args n. (ok (record { value = 3; failure = none }), n);
  query_block = λ process args n. (ok (record { value = none; failure = none }), n);
}

abbrev test_machine : Machine ℕ
test_machine = record {
  json_marshal = λ v. 1 ∷ [];
  text_of = λ b. "text";
  base64_encode = λ b. "Bw==";
  new_uuid = λ n. (ok "id-1", n);
  now = λ n. ("noon", n);
  getenv = λ name n. "/bin/substrate";
  read_all = λ r n. (ok (9 ∷ []), n);
  write = λ w bytes n. (ok tt, n);
}

abbrev good_host : Host
good_host = test_host none

abbrev bad_host : Host
bad_host = test_host (some "no ledger")

abbrev options : List MockOption
options = with_plugin_path "/bin/x" ∷ with_snapshot_reader (some 5) ∷ []

abbrev plain_client : MockShiroClient good_host test_machine
plain_client = record {
  base_config = [];
  conn = record { client = 0 };
  tag = "tag";
  mock_phylum = "test";
}

new_mock_iff_example :
    (new_mock good_host test_machine [] options 0 ≡ (ok plain_client, 1))
    ↔ Made good_host test_machine [] options plain_client 0 1
new_mock_iff_example = new_mock_iff good_host test_machine [] options plain_client 0 1

abbrev refused : Error
refused = wrapped "failed to create mock client: " (plugin_error "no ledger")

new_mock_leaks_run :
    new_mock (traced bad_host) (traced_machine test_machine) [] options (0, [])
    ≡ (err refused, (1, launched 0 ∷ []))
unfolding new_mock shiroclient_sdk_go.Exec.◌>>=◌ mock_config with_snapshot_reader with_plugin_path
    shiroclient_sdk_go.Plugin.Connection.new_substrate_connection
    shiroclient_sdk_go.Plugin.Connection.connect_with_command
    shiroclient_sdk_go.Plugin.Connection.connect_with_log_level
    shiroclient_sdk_go.Plugin.Connection.connect_with_attach_stdamp
    shiroclient_sdk_go.Plugin.Rpc.rpc_new_mock_from shiroclient_sdk_go.Plugin.Trace.noted
new_mock_leaks_run = refl

new_mock_leaks_example : launched 0 ∷ [] ≡ [] ++ launched 0 ∷ []
unfolding shiroclient_sdk_go.Mock.Start.plugin_path mock_config with_snapshot_reader
    with_plugin_path
new_mock_leaks_example =
    new_mock_leaks bad_host test_machine [] options (0, []) "/bin/x" 0 refused (1, launched 0 ∷ [])
      refl refl new_mock_leaks_run

abbrev client : TracedClient good_host test_machine
client = record {
  base_config = [];
  conn = record { client = 0 };
  tag = "tag";
  mock_phylum = "test";
}

opened :
    new_mock (traced good_host) (traced_machine test_machine) [] options (0, [])
    ≡ (ok client, (1, launched 0 ∷ []))
unfolding new_mock shiroclient_sdk_go.Exec.◌>>=◌ mock_config with_snapshot_reader with_plugin_path
    shiroclient_sdk_go.Plugin.Connection.new_substrate_connection
    shiroclient_sdk_go.Plugin.Connection.connect_with_command
    shiroclient_sdk_go.Plugin.Connection.connect_with_log_level
    shiroclient_sdk_go.Plugin.Connection.connect_with_attach_stdamp
    shiroclient_sdk_go.Plugin.Rpc.rpc_new_mock_from shiroclient_sdk_go.Plugin.Trace.noted
opened = refl

abbrev closed_program : Program good_host test_machine
closed_program = record {
  state = (close (traced good_host) (traced_machine test_machine) client (1, launched 0 ∷ [])).1;
  clients = [];
  lost = [];
}

-- One client is made and closed.
reached :
    Reach good_host test_machine
      (record { state = (0, []); clients = []; lost = [] })
      closed_program
unfolding close shiroclient_sdk_go.Plugin.Rpc.rpc_close_mock shiroclient_sdk_go.Exec.◌>>=◌
    shiroclient_sdk_go.Plugin.Connection.close_connection
reached =
    next (next here (opens _ [] options client (1, launched 0 ∷ []) opened))
      (closes (1, launched 0 ∷ []) [] [] [] client tt)

processes-IsBalanced_example :
    count 0 (starts closed_program.state.1)
    ≡ count 0 (kills closed_program.state.1) + count 0 (processes good_host test_machine []) + 0
processes-IsBalanced_example =
    processes-IsBalanced good_host test_machine 0 closed_program reached 0

abbrev phylum_client : Client (traced good_host) (traced_machine test_machine)
phylum_client = record {
  log = [];
  rpc = over_mock (record client { base_config = with_logrus_fields [] ∷ [] });
  close_func = some (
      close (traced good_host) (traced_machine test_machine)
        (record client { base_config = with_logrus_fields [] ∷ [] }));
}

made_phylum_client :
    new_mock_from (traced good_host) (traced_machine test_machine) "(defun)" [] none (0, [])
    ≡ (ok phylum_client, (1, launched 0 ∷ []))
unfolding new_mock_from shiroclient_sdk_go.Exec.◌>>=◌ new_mock mock_config with_snapshot_reader
    shiroclient_sdk_go.Plugin.Connection.new_substrate_connection
    shiroclient_sdk_go.Plugin.Connection.connect_with_command
    shiroclient_sdk_go.Plugin.Connection.connect_with_log_level
    shiroclient_sdk_go.Plugin.Connection.connect_with_attach_stdamp
    shiroclient_sdk_go.Plugin.Rpc.rpc_new_mock_from shiroclient_sdk_go.Mock.init
    shiroclient_sdk_go.Mock.flatten shiroclient_sdk_go.Types.Options.apply_configs
    shiroclient_sdk_go.Configs.with_logrus_fields shiroclient_sdk_go.Plugin.Rpc.rpc_init
    shiroclient_sdk_go.Plugin.Trace.noted
made_phylum_client = refl

close-new_mock_from_example :
    (n : ℕ) × ((close_client
        (traced good_host)
        (traced_machine test_machine)
        phylum_client
        (1, launched 0 ∷ [])).1.1
      ≡ launched n ∷ killed n ∷ [])
unfolding shiroclient_sdk_go.Phylum.close close shiroclient_sdk_go.Plugin.Rpc.rpc_close_mock
    shiroclient_sdk_go.Exec.◌>>=◌ shiroclient_sdk_go.Plugin.Connection.close_connection
close-new_mock_from_example =
    close-new_mock_from good_host test_machine "(defun)" [] none (0, []) phylum_client
      (1, launched 0 ∷ []) made_phylum_client tt
