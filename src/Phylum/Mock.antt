-- ===== src/Phylum/Mock.antt =====
-- shiroclient/phylum/phylum.go: clients of a phylum that runs in a plugin process, and the methods
-- that tell them from the others.
pub mod Processes
use shiroclient_sdk_go.Prelude.{ℕ, String, Option, none, some, List, [], ◌∷◌, utf8}
use shiroclient_sdk_go.Prelude.Dict.{Dict}
use shiroclient_sdk_go.Errors.{errors_new}
use shiroclient_sdk_go.Exec.{Exec, pure, raise, ◌>>=◌}
use shiroclient_sdk_go.Json.{Value}
use shiroclient_sdk_go.Types.{ShiroClient}
use shiroclient_sdk_go.Types.Options.{Ctx, Config}
use shiroclient_sdk_go.Configs.{with_logrus_fields}
use shiroclient_sdk_go.Platform.{Platform}
use shiroclient_sdk_go.Rpc.Client.{RpcClient}
use shiroclient_sdk_go.Rpc.Health.{SmartHealthCheck}
use shiroclient_sdk_go.Plugin.Connection.{Host}
use shiroclient_sdk_go.Mock.{Machine, MockShiroClient}
use shiroclient_sdk_go.Mock
use shiroclient_sdk_go.Mock.Options.{with_snapshot_reader}
use shiroclient_sdk_go.Shiroclient.{new_mock, encode_phylum_bytes, remote_health_check}
use shiroclient_sdk_go.Phylum.{new_rpc, HealthCheckReport, convert_health_response}
use shiroclient_sdk_go.Phylum

-- `context.Background()`
abbrev pub background : Ctx
background = record { handle = 0 }

module _ (h : Host) (m : Machine h.State) where
  open h use {State}

  -- The two clients that the package makes, as a type assertion tells them apart.
  pub data ClientRpc : Type 0 where
    over_rpc : RpcClient → ClientRpc
    over_mock : MockShiroClient h m → ClientRpc

  -- `Client`
  pub record Client : Type 0 where
    pub log : Dict Value
    pub rpc : ClientRpc
    pub close_func : Option (Exec State (Unit {0}))

  -- `New`
  unfoldable pub new : Option ℕ → String → Dict Value → Client
  new default_log endpoint log = record {
    log = log;
    rpc = over_rpc (new_rpc endpoint log default_log);
    close_func = none;
  }

  -- A new ledger is given the phylum; a restored one holds it.
  unfoldable pub init_unless_restored :
      Option ℕ → String → MockShiroClient h m → Exec State (Unit {0})
  init_unless_restored none phylum_path mock =
      Mock.init h m mock background (encode_phylum_bytes m.base64_encode (utf8 phylum_path)) []
  init_unless_restored (some r) phylum_path mock = pure tt

  unfoldable pub new_mock_from : String → Dict Value → Option ℕ → Exec State Client
  unfolding init_unless_restored
  new_mock_from phylum_path log r = do
    mock ← new_mock h m (with_logrus_fields log ∷ []) (with_snapshot_reader r ∷ [])
    _ ← init_unless_restored r phylum_path mock
    pure (record { log = log; rpc = over_mock mock; close_func = some (Mock.close h m mock) })

  -- `NewMock`
  unfoldable pub new_mock_client : String → Dict Value → Exec State Client
  unfolding new_mock_from
  new_mock_client phylum_path log = new_mock_from phylum_path log none

  unfoldable pub mock_snapshot : Client → ℕ → Exec State (Unit {0})
  mock_snapshot client w = elim client.rpc [
    | over_rpc c ↦ raise (errors_new "client rpc does not not support snapshots")
    | over_mock c ↦ Mock.snapshot h m c w
  ]

  -- `Close`
  abbrev pub close_client : Client → Exec State (Unit {0})
  close_client client = Phylum.close client.close_func

-- `GetHealthCheck`, over any client
unfoldable pub get_health_check :
    (p : Platform) (client : ShiroClient)
    → Option (SmartHealthCheck p client)
    → Ctx
    → List String
    → List Config
    → Exec client.State (List HealthCheckReport)
get_health_check p client smart ctx services configs = do
  resp ← remote_health_check p client smart ctx services configs
  pure (convert_health_response resp)
