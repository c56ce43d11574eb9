-- ===== src/Mock/Served.antt =====
-- A mock client whose plugin process serves an implementation.
use shiroclient_sdk_go.Prelude.{ℕ, String, List, none, [], ◌≡◌, ap, fun_ext, ◌∙◌}
use shiroclient_sdk_go.Exec.{Exec, lift, ◌>>=◌}
use shiroclient_sdk_go.Types.Options.{Ctx, Config}
use shiroclient_sdk_go.Plugin.Substrate.{Substrate}
use shiroclient_sdk_go.Plugin.Rpc.{
  ArgsInit, ArgsCall, ArgsQueryInfo, ArgsQueryBlock, ArgsSnapshotMock, Resp, respond, served,
  unpack, serve_init, serve_call, serve_query_info, serve_query_block, serve_snapshot_mock,
  rpc_init, rpc_call, rpc_query_info, rpc_query_block, rpc_snapshot_mock,
}
use shiroclient_sdk_go.Plugin.Connection.{Host}
use shiroclient_sdk_go.Plugin.Refinement.{flattened, unpack-respond}
use shiroclient_sdk_go.Mock.{
  Machine, MockShiroClient, flatten, init, call, call_response, query_info, query_block, block_of,
  snapshot,
}

module _ (h : Host) (m : Machine h.State) (impl : Substrate) where
  -- An action of the implementation, on the part of the host's state that it keeps.
  abbrev pub within :
      {A : Type 0}
      → (h.State → impl.State)
      → (impl.State → h.State → h.State)
      → Exec impl.State A
      → Exec h.State A
  within get put f s = let (r, t) = f (get s) in (r, put t s)

  -- What `client.Call` is for: a call over the connection to the process runs the method of
  -- `PluginRPCServer` on the implementation there, and brings back its response.
  pub record Serves (process : ℕ) : Type 0 where
    pub get : h.State → impl.State
    pub put : impl.State → h.State → h.State
    pub inits :
        (args : ArgsInit) → h.init process args ≡ within get put (serve_init m.text_of impl args)
    pub calls :
        (args : ArgsCall) → h.call process args ≡ within get put (serve_call m.text_of impl args)
    pub asks_info :
        (args : ArgsQueryInfo)
        → h.query_info process args ≡ within get put (serve_query_info m.text_of impl args)
    pub asks_block :
        (args : ArgsQueryBlock)
        → h.query_block process args ≡ within get put (serve_query_block m.text_of impl args)
    pub snapshots :
        (args : ArgsSnapshotMock)
        → h.snapshot_mock process args ≡ within get put (serve_snapshot_mock m.text_of impl args)

  module _ (process : ℕ) (v : Serves process) where
    -- The action of the implementation as the client sees it: errors are plugin errors.
    abbrev pub seen : {A : Type 0} → Exec impl.State A → Exec h.State A
    seen f = within v.get v.put (flattened m.text_of f)

    seen-rpc :
        {A : Type 0} (zero_value : A) (f : Exec impl.State A) (g : Exec h.State (Resp A))
        → g ≡ within v.get v.put (served m.text_of impl (respond m.text_of zero_value) f)
        → (g >>= λ resp. lift (unpack resp)) ≡ seen f
    unfolding ◌>>=◌
    seen-rpc z f g e =
        ap (λ g. g >>= λ resp. lift (unpack resp)) e
        ∙ fun_ext λ s. unpack-respond m.text_of z (f (v.get s)).0 (v.put (f (v.get s)).1 s)

  module _ (c : MockShiroClient h m) (v : Serves c.conn.client) where
    -- Over a connection that does not fail, Init, Call, QueryInfo, QueryBlock and Snapshot of the mock
    -- client flatten their configs and then do what the implementation in the plugin does under the
    -- client's tag, with its errors made plugin errors.
    pub mock-refines :
        (ctx : Ctx) (text : String) (n : ℕ) (configs : List Config)
        → (init h m c ctx text configs ≡ (
            flatten h m c ctx configs >>= λ cro. seen c.conn.client v (impl.init c.tag text cro)))
          × (call h m c ctx text configs ≡ (
              flatten h m c ctx configs >>= λ cro.
              seen c.conn.client v (impl.call c.tag text cro) >>= λ resp.
              lift (call_response h m resp)))
          × (query_info h m c ctx configs ≡ (
              flatten h m c ctx configs >>= λ cro.
              seen c.conn.client v (impl.query_info c.tag cro)))
          × (query_block h m c ctx n configs ≡ (
              flatten h m c ctx configs >>= λ cro.
              seen c.conn.client v (impl.query_block c.tag n cro) >>= λ blk.
              lift (block_of h m blk)))
          × (snapshot h m c n
              ≡ (seen c.conn.client v (impl.snapshot_mock c.tag) >>= λ bytes. m.write n bytes))
    unfolding init call query_info query_block snapshot rpc_init rpc_call rpc_query_info
        rpc_query_block rpc_snapshot_mock serve_init serve_call serve_query_info serve_query_block
        serve_snapshot_mock
    mock-refines ctx text n configs =
        let process = c.conn.client in
        (
          ap (λ k. flatten h m c ctx configs >>= k)
              (fun_ext λ cro. seen-rpc process v tt (impl.init c.tag text cro) _ (v.inits _)),
          ap
              (λ k.
                flatten h m c ctx configs
                >>= (λ cro. k cro >>= λ resp. lift (call_response h m resp)))
              (fun_ext λ cro. seen-rpc process v none (impl.call c.tag text cro) _ (v.calls _)),
          ap (λ k. flatten h m c ctx configs >>= k)
              (fun_ext λ cro. seen-rpc process v 0 (impl.query_info c.tag cro) _ (v.asks_info _)),
          ap (λ k. flatten h m c ctx configs >>= (λ cro. k cro >>= λ blk. lift (block_of h m blk)))
              (fun_ext
                λ cro. seen-rpc process v none (impl.query_block c.tag n cro) _ (v.asks_block _)),
          ap (λ k. k >>= λ bytes. m.write n bytes)
              (seen-rpc process v [] (impl.snapshot_mock c.tag) _ (v.snapshots _)),
        )
