-- ===== src/Shiroclient.antt =====
-- shiroclient/shiroclient.go: the functions of the package, which pass on to the internal ones.
use shiroclient_sdk_go.Prelude.{ℕ, String, Bool, Option, List, Bytes}
use shiroclient_sdk_go.Errors.{Error, Result}
use shiroclient_sdk_go.Exec.{Exec}
use shiroclient_sdk_go.Types.{ShiroClient}
use shiroclient_sdk_go.Types.Options.{Ctx, Config}
use shiroclient_sdk_go.Types.Response.{Dst}
use shiroclient_sdk_go.Types.Response
use shiroclient_sdk_go.Platform.{Platform}
use shiroclient_sdk_go.Rpc.Reply
use shiroclient_sdk_go.Rpc.Client.{RpcClient}
use shiroclient_sdk_go.Rpc.Health.{HealthCheck, SmartHealthCheck}
use shiroclient_sdk_go.Rpc.Health
use shiroclient_sdk_go.Plugin.Connection.{Host}
use shiroclient_sdk_go.Mock.{Machine, MockShiroClient}
use shiroclient_sdk_go.Mock.Start
use shiroclient_sdk_go.Mock.Options.{MockOption}

-- `IsTimeoutError`
abbrev pub is_timeout_error : Error → Bool
is_timeout_error e = Reply.is_timeout_error e

-- `NewRPC`
abbrev pub new_rpc : Option ℕ → List Config → RpcClient
new_rpc default_log client_configs = record {
  default_log = default_log;
  base_config = client_configs;
}

-- `NewMock`
abbrev pub new_mock :
    (h : Host) (m : Machine h.State)
    → List Config
    → List MockOption
    → Exec h.State (MockShiroClient h m)
new_mock h m client_configs opts = Start.new_mock h m client_configs opts

-- `EncodePhylumBytes`, for a given `base64.StdEncoding.EncodeToString`
abbrev pub encode_phylum_bytes : (Bytes → String) → Bytes → String
encode_phylum_bytes base64_encode decoded = base64_encode decoded

-- `UnmarshalProto`
abbrev pub unmarshal_proto : {A : Type 0} → Bytes → Dst A → Result A
unmarshal_proto src dst = Response.unmarshal_proto src dst

-- `RemoteHealthCheck`
abbrev pub remote_health_check :
    (p : Platform) (client : ShiroClient)
    → Option (SmartHealthCheck p client)
    → Ctx
    → List String
    → List Config
    → Exec client.State HealthCheck
remote_health_check p client smart ctx services configs =
    Health.remote_health_check p client smart ctx services configs
