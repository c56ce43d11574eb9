-- ===== src/Plugin/Rpc.antt =====
-- x/plugin/plugin.go: `PluginRPCServer` and `PluginRPC`.
use shiroclient_sdk_go.Prelude.{ℕ, String, Option, none, some, [], Bytes}
use shiroclient_sdk_go.Prelude.Int.{ℤ, negsuc}
use shiroclient_sdk_go.Prelude.Dict.{Dict}
use shiroclient_sdk_go.Errors.{Result, ok, err, panic, plugin_error, error_text}
use shiroclient_sdk_go.Exec.{Exec, lift, ◌>>=◌}
use shiroclient_sdk_go.Plugin.Substrate.{ConcreteRequestOptions, Response, Block, Substrate}

-- The arguments of each method.
pub record ArgsHealthCheck : Type 0 where
  pub nat : ℤ

pub record ArgsNewMockFrom : Type 0 where
  pub name : String
  pub version : String
  pub snapshot : Bytes

pub record ArgsSetCreatorWithAttributesMock : Type 0 where
  pub tag : String
  pub creator : String
  pub attrs : Dict String

pub record ArgsSnapshotMock : Type 0 where
  pub tag : String

pub record ArgsCloseMock : Type 0 where
  pub tag : String

pub record ArgsInit : Type 0 where
  pub tag : String
  pub phylum : String
  pub options : ConcreteRequestOptions

pub record ArgsCall : Type 0 where
  pub tag : String
  pub command : String
  pub options : ConcreteRequestOptions

pub record ArgsQueryInfo : Type 0 where
  pub tag : String
  pub options : ConcreteRequestOptions

pub record ArgsQueryBlock : Type 0 where
  pub tag : String
  pub height : ℕ
  pub options : ConcreteRequestOptions

-- A `Resp…` struct: a value, which is the zero value beside an error, and the field `Err` with its
-- diagnostic.
pub record Resp (A : Type 0) : Type 0 where
  pub value : A
  pub failure : Option String

pub record RespHealthCheck : Type 0 where
  pub suc : ℤ

module _ (text_of : Bytes → String) where
  -- The common shape of the server's methods: an error of the implementation becomes the field
  -- `Err`, by `newError`, and the method itself succeeds.
  abbrev pub respond : {A : Type 0} → A → Result A → Result (Resp A)
  respond zero_value (ok a) = ok (record { value = a; failure = none })
  respond zero_value (err e) =
      ok (record { value = zero_value; failure = some (error_text text_of e) })
  respond zero_value (panic t) = panic t

  -- An error of the health check is the answer -1.
  unfoldable pub respond_health : Result ℤ → Result RespHealthCheck
  respond_health (ok val) = ok (record { suc = val })
  respond_health (err e) = ok (record { suc = negsuc 0 })
  respond_health (panic t) = panic t

  module _ (impl : Substrate) where
    open impl use {State}

    -- A method of the server: it runs the implementation, and responds.
    abbrev pub served : {A B : Type 0} → (Result A → Result B) → Exec State A → Exec State B
    served f m s = let (r, s') = m s in (f r, s')

    unfoldable pub serve_health_check : ArgsHealthCheck → Exec State RespHealthCheck
    unfolding respond_health
    serve_health_check args = served respond_health (impl.health_check args.nat)

    unfoldable pub serve_new_mock_from : ArgsNewMockFrom → Exec State (Resp String)
    serve_new_mock_from args =
        served (respond "") (impl.new_mock_from args.name args.version args.snapshot)

    unfoldable pub serve_set_creator :
        ArgsSetCreatorWithAttributesMock → Exec State (Resp (Unit {0}))
    serve_set_creator args =
        served (respond tt) (impl.set_creator_with_attributes_mock args.tag args.creator args.attrs)

    unfoldable pub serve_snapshot_mock : ArgsSnapshotMock → Exec State (Resp Bytes)
    serve_snapshot_mock args = served (respond []) (impl.snapshot_mock args.tag)

    unfoldable pub serve_close_mock : ArgsCloseMock → Exec State (Resp (Unit {0}))
    serve_close_mock args = served (respond tt) (impl.close_mock args.tag)

    unfoldable pub serve_init : ArgsInit → Exec State (Resp (Unit {0}))
    serve_init args = served (respond tt) (impl.init args.tag args.phylum args.options)

    unfoldable pub serve_call : ArgsCall → Exec State (Resp (Option Response))
    serve_call args = served (respond none) (impl.call args.tag args.command args.options)

    unfoldable pub serve_query_info : ArgsQueryInfo → Exec State (Resp ℕ)
    serve_query_info args = served (respond 0) (impl.query_info args.tag args.options)

    unfoldable pub serve_query_block : ArgsQueryBlock → Exec State (Resp (Option Block))
    serve_query_block args =
        served (respond none) (impl.query_block args.tag args.height args.options)

-- The far end of the connection: what `client.Call("Plugin.<method>", args, &resp)` does, which is
-- an error of the connection or a response.
pub record Remote : Type 1 where
  pub State : Type 0
  pub health_check : ArgsHealthCheck → Exec State RespHealthCheck
  pub new_mock_from : ArgsNewMockFrom → Exec State (Resp String)
  pub set_creator : ArgsSetCreatorWithAttributesMock → Exec State (Resp (Unit {0}))
  pub snapshot_mock : ArgsSnapshotMock → Exec State (Resp Bytes)
  pub close_mock : ArgsCloseMock → Exec State (Resp (Unit {0}))
  pub init : ArgsInit → Exec State (Resp (Unit {0}))
  pub call : ArgsCall → Exec State (Resp (Option Response))
  pub query_info : ArgsQueryInfo → Exec State (Resp ℕ)
  pub query_block : ArgsQueryBlock → Exec State (Resp (Option Block))

-- `PluginRPCServer` as a far end.
abbrev pub server : (Bytes → String) → Substrate → Remote
server text_of impl = record {
  State = impl.State;
  health_check = serve_health_check text_of impl;
  new_mock_from = serve_new_mock_from text_of impl;
  set_creator = serve_set_creator text_of impl;
  snapshot_mock = serve_snapshot_mock text_of impl;
  close_mock = serve_close_mock text_of impl;
  init = serve_init text_of impl;
  call = serve_call text_of impl;
  query_info = serve_query_info text_of impl;
  query_block = serve_query_block text_of impl;
}

-- `if resp.Err != nil { return …, resp.Err }`
abbrev pub unpack : {A : Type 0} → Resp A → Result A
unpack r = elim r.failure [ none ↦ ok r.value | some diagnostic ↦ err (plugin_error diagnostic) ]

-- `PluginRPC`
module _ (remote : Remote) where
  open remote use {State}

  unfoldable pub rpc_health_check : ℤ → Exec State ℤ
  rpc_health_check nat = do resp ← remote.health_check (record { nat = nat }); lift (ok resp.suc)

  unfoldable pub rpc_new_mock_from : String → String → Bytes → Exec State String
  rpc_new_mock_from name version snapshot = do
    resp ← remote.new_mock_from (record { name = name; version = version; snapshot = snapshot })
    lift (unpack resp)

  unfoldable pub rpc_set_creator : String → String → Dict String → Exec State (Unit {0})
  rpc_set_creator tag creator attrs = do
    resp ← remote.set_creator (record { tag = tag; creator = creator; attrs = attrs })
    lift (unpack resp)

  unfoldable pub rpc_snapshot_mock : String → Exec State Bytes
  rpc_snapshot_mock tag = do resp ← remote.snapshot_mock (record { tag = tag }); lift (unpack resp)

  unfoldable pub rpc_close_mock : String → Exec State (Unit {0})
  rpc_close_mock tag = do resp ← remote.close_mock (record { tag = tag }); lift (unpack resp)

  unfoldable pub rpc_init : String → String → ConcreteRequestOptions → Exec State (Unit {0})
  rpc_init tag phylum options = do
    resp ← remote.init (record { tag = tag; phylum = phylum; options = options })
    lift (unpack resp)

  unfoldable pub rpc_call : String → String → ConcreteRequestOptions → Exec State (Option Response)
  rpc_call tag command options = do
    resp ← remote.call (record { tag = tag; command = command; options = options })
    lift (unpack resp)

  unfoldable pub rpc_query_info : String → ConcreteRequestOptions → Exec State ℕ
  rpc_query_info tag options = do
    resp ← remote.query_info (record { tag = tag; options = options })
    lift (unpack resp)

  unfoldable pub rpc_query_block : String → ℕ → ConcreteRequestOptions → Exec State (Option Block)
  rpc_query_block tag height options = do
    resp ← remote.query_block (record { tag = tag; height = height; options = options })
    lift (unpack resp)

  -- `PluginRPC` as an implementation of the interface.
  abbrev pub plugin_rpc : Substrate
  plugin_rpc = record {
    State = State;
    health_check = rpc_health_check;
    new_mock_from = rpc_new_mock_from;
    set_creator_with_attributes_mock = rpc_set_creator;
    snapshot_mock = rpc_snapshot_mock;
    close_mock = rpc_close_mock;
    init = rpc_init;
    call = rpc_call;
    query_info = rpc_query_info;
    query_block = rpc_query_block;
  }
