-- ===== src/Mock/Quiet.antt =====
-- The operations of the mock client that start and kill no plugin process.
use shiroclient_sdk_go.Prelude.{ℕ, String, Option, none, some, List, refl, Bytes, arith}
use shiroclient_sdk_go.Prelude.Dict.{Dict}
use shiroclient_sdk_go.Exec.{Exec, lift, ◌>>=◌}
use shiroclient_sdk_go.Types.Options.{Ctx, Config}
use shiroclient_sdk_go.Plugin.Substrate.{ConcreteRequestOptions}
use shiroclient_sdk_go.Plugin.Rpc.{
  Resp, unpack, rpc_new_mock_from, rpc_set_creator, rpc_snapshot_mock, rpc_close_mock, rpc_init,
  rpc_call, rpc_query_info, rpc_query_block,
}
use shiroclient_sdk_go.Plugin.Connection.{Host, SubstrateConnection, get_substrate}
use shiroclient_sdk_go.Plugin.Trace.{
  Traced, over, Quiet, over-Quiet, lift-Quiet, bind-Quiet, traced,
}
use shiroclient_sdk_go.Mock.{
  Machine, MockShiroClient, flatten, drawn_options, timestamp_of, init, call, query_info,
  query_block, snapshot, set_creator_with_attributes,
}
use shiroclient_sdk_go.Mock.Start.{plugin_path, read_snapshot}
use shiroclient_sdk_go.Mock.Options.{MockConfig, phylum_name, phylum_version}

abbrev pub traced_machine : {S : Type 0} → Machine S → Machine (Traced S)
traced_machine m = record {
  json_marshal = m.json_marshal;
  text_of = m.text_of;
  base64_encode = m.base64_encode;
  new_uuid = over m.new_uuid;
  now = λ st. let (time, t) = m.now st.0 in (time, (t, st.1));
  getenv = λ name st. m.getenv name st.0;
  read_all = λ r. over (m.read_all r);
  write = λ w bytes. over (m.write w bytes);
}

rpc-Quiet : {S A : Type 0} (m : Exec S (Resp A)) → Quiet (over m >>= λ resp. lift (unpack resp))
rpc-Quiet m = bind-Quiet (over m) _ (over-Quiet m) (λ resp. lift-Quiet (unpack resp))

module _ (h : Host) (m : Machine h.State) where
  -- A mock client over the host with its trace.
  abbrev pub TracedClient : Type 0
  TracedClient = MockShiroClient (traced h) (traced_machine m)

  timestamp_of-Quiet :
      (ctx : Ctx) (tg : Option (Ctx → String))
      → Quiet (timestamp_of (traced h) (traced_machine m) ctx tg)
  timestamp_of-Quiet ctx none st = refl
  timestamp_of-Quiet ctx (some tg) st = refl

  module _ (c : TracedClient) where
    flatten-Quiet :
        (ctx : Ctx) (configs : List Config)
        → Quiet (flatten (traced h) (traced_machine m) c ctx configs)
    unfolding flatten drawn_options
    flatten-Quiet ctx configs =
        bind-Quiet _ _ (λ st. refl)
          λ opt.
            bind-Quiet _ _ (λ st. refl)
              λ params.
                bind-Quiet _ _ (timestamp_of-Quiet ctx opt.timestamp_generator) λ timestamp st. refl

    flattened-Quiet :
        {A : Type 0} (ctx : Ctx) (configs : List Config)
        (f : ConcreteRequestOptions → Exec (Traced h.State) A)
        → ((cro : ConcreteRequestOptions) → Quiet (f cro))
        → Quiet (flatten (traced h) (traced_machine m) c ctx configs >>= f)
    flattened-Quiet ctx configs f q = bind-Quiet _ f (flatten-Quiet ctx configs) q

    pub init-Quiet :
        (ctx : Ctx) (phylum : String) (configs : List Config)
        → Quiet (init (traced h) (traced_machine m) c ctx phylum configs)
    unfolding init rpc_init
    init-Quiet ctx phylum configs =
        flattened-Quiet ctx configs _ λ cro. rpc-Quiet (h.init c.conn.client _)

    pub call-Quiet :
        (ctx : Ctx) (method : String) (configs : List Config)
        → Quiet (call (traced h) (traced_machine m) c ctx method configs)
    unfolding call rpc_call
    call-Quiet ctx method configs =
        flattened-Quiet ctx configs _
          λ cro. bind-Quiet _ _ (rpc-Quiet (h.call c.conn.client _)) λ resp st. refl

    pub query_info-Quiet :
        (ctx : Ctx) (configs : List Config)
        → Quiet (query_info (traced h) (traced_machine m) c ctx configs)
    unfolding query_info rpc_query_info
    query_info-Quiet ctx configs =
        flattened-Quiet ctx configs _ λ cro. rpc-Quiet (h.query_info c.conn.client _)

    pub query_block-Quiet :
        (ctx : Ctx) (block_number : ℕ) (configs : List Config)
        → Quiet (query_block (traced h) (traced_machine m) c ctx block_number configs)
    unfolding query_block rpc_query_block
    query_block-Quiet ctx block_number configs =
        flattened-Quiet ctx configs _
          λ cro. bind-Quiet _ _ (rpc-Quiet (h.query_block c.conn.client _)) λ blk st. refl

    pub snapshot-Quiet : (w : ℕ) → Quiet (snapshot (traced h) (traced_machine m) c w)
    unfolding snapshot rpc_snapshot_mock
    snapshot-Quiet w =
        bind-Quiet _ _ (rpc-Quiet (h.snapshot_mock c.conn.client _))
          λ bytes. over-Quiet (m.write w bytes)

    pub set_creator-Quiet :
        (creator : String) (attrs : Dict String)
        → Quiet (set_creator_with_attributes (traced h) (traced_machine m) c creator attrs)
    unfolding set_creator_with_attributes rpc_set_creator
    set_creator-Quiet creator attrs = rpc-Quiet (h.set_creator c.conn.client _)

    pub close_mock-Quiet : Quiet ((get_substrate m.text_of (traced h) c.conn).close_mock c.tag)
    unfolding rpc_close_mock
    close_mock-Quiet = rpc-Quiet (h.close_mock c.conn.client _)

  pub plugin_path-Quiet :
      (config : MockConfig) → Quiet (plugin_path (traced h) (traced_machine m) config)
  unfolding plugin_path
  plugin_path-Quiet config st = ground arith

  pub read_snapshot-Quiet : (r : Option ℕ) → Quiet (read_snapshot (traced h) (traced_machine m) r)
  unfolding read_snapshot
  read_snapshot-Quiet none st = refl
  read_snapshot-Quiet (some r) st = over-Quiet (m.read_all r) st

  pub new_mock_from-Quiet :
      (conn : SubstrateConnection m.text_of (traced h)) (bytes : Bytes)
      → Quiet
          ((get_substrate m.text_of (traced h) conn).new_mock_from phylum_name phylum_version bytes)
  unfolding rpc_new_mock_from
  new_mock_from-Quiet conn bytes = rpc-Quiet (h.new_mock_from conn.client _)
