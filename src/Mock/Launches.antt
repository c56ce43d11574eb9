-- ===== src/Mock/Launches.antt =====
-- Which plugin processes `NewMock` starts, and `Close` kills.
use shiroclient_sdk_go.Prelude.{
  ℕ, String, List, [], ◌∷◌, ◌++◌, ◌≡◌, refl, sym, ap, ◌∙◌, arith, append-nil,
}
use shiroclient_sdk_go.Errors.{Error, Result, ok, err, panic}
use shiroclient_sdk_go.Exec.{Exec, wrap_exec, ◌>>=◌}
use shiroclient_sdk_go.Exec.Laws.{bind-eq-ok}
use shiroclient_sdk_go.Types.Options.{Config}
use shiroclient_sdk_go.Plugin.Connection.{
  Host, SubstrateConnection, connect_with_command, connect_with_log_level,
  connect_with_attach_stdamp, ConnectOptions, new_substrate_connection, close_connection,
  client_config, run_connect_options,
}
use shiroclient_sdk_go.Plugin.Trace.{
  ProcessEvent, launched, killed, Traced, Quiet, bind-Quiet, bind-trace, traced, noted,
}
use shiroclient_sdk_go.Mock.{Machine, close}
use shiroclient_sdk_go.Mock.Start.{plugin_path, plugin_options, mock_on, new_mock}
use shiroclient_sdk_go.Mock.Options.{MockConfig, MockOption, mock_config, hcp_log_level}
use shiroclient_sdk_go.Mock.Quiet.{
  traced_machine, TracedClient, close_mock-Quiet, read_snapshot-Quiet, new_mock_from-Quiet,
}

module _ (h : Host) (m : Machine h.State) where
  abbrev Client : Type 0
  Client = TracedClient h m

  abbrev Connection : Type 0
  Connection = SubstrateConnection m.text_of (traced h)

  -- What `NewMock` passes to `plugin.NewClient`.
  abbrev pub launch_options : MockConfig → String → ConnectOptions
  launch_options config path = record {
    level = hcp_log_level config.log_level;
    command = path;
    attach_stdamp = config.log_writer;
  }

  abbrev pub launch_of : MockConfig → String → Exec h.State ℕ
  launch_of config path s =
      h.launch (client_config m.text_of (traced h) (launch_options config path)) s

  -- The trace of an attempt to start the process, if there is a path.
  abbrev pub launch_trace : MockConfig → Result String → h.State → List ProcessEvent
  launch_trace config (ok path) s = noted (launch_of config path s).0
  launch_trace config (err e) s = []
  launch_trace config (panic t) s = []

  abbrev path_of : MockConfig → Exec (Traced h.State) String
  path_of config = plugin_path (traced h) (traced_machine m) config

  path_of-state : (config : MockConfig) (st : Traced h.State) → (path_of config st).1 ≡ st
  unfolding plugin_path
  path_of-state config st = ground arith

  mock_on-Quiet :
      (configs : List Config) (config : MockConfig) (conn : Connection)
      → Quiet (mock_on (traced h) (traced_machine m) configs config conn)
  unfolding mock_on
  mock_on-Quiet configs config conn =
      bind-Quiet _ _ (read_snapshot-Quiet h m config.snapshot_reader)
        λ bytes. bind-Quiet _ _ (new_mock_from-Quiet h m conn bytes) λ tag st. refl

  connected : MockConfig → String → Exec (Traced h.State) Connection
  connected config path = wrap_exec "unable to connect to plugin: " (
      new_substrate_connection m.text_of (traced h)
        (plugin_options (traced h) (traced_machine m) config path))

  connected-trace :
      (config : MockConfig) (path : String) (st : Traced h.State)
      → (connected config path st).1.1 ≡ st.1 ++ noted (launch_of config path st.0).0
  unfolding connected new_substrate_connection run_connect_options ◌>>=◌ noted connect_with_command
      connect_with_log_level connect_with_attach_stdamp
  connected-trace config path st = ground (arith, append-nil st.1)

  connected-client :
      (config : MockConfig) (path : String) (st : Traced h.State) (conn : Connection)
      (u : Traced h.State)
      → connected config path st ≡ (ok conn, u)
      → (launch_of config path st.0).0 ≡ ok conn.client
  unfolding connected new_substrate_connection run_connect_options ◌>>=◌ connect_with_command
      connect_with_log_level connect_with_attach_stdamp
  connected-client config path st conn u e = ground arith

  module _ (configs : List Config) (opts : List MockOption) (st : Traced h.State) where
    abbrev config : MockConfig
    config = mock_config opts

    abbrev pub path_result : Result String
    path_result = (path_of config st).0

    new_mock-with_path :
        (path : String) (st' : Traced h.State)
        → path_of config st ≡ (ok path, st')
        → new_mock (traced h) (traced_machine m) configs opts st
          ≡ (connected config path >>= mock_on (traced h) (traced_machine m) configs config) st'
    unfolding new_mock connected ◌>>=◌
    new_mock-with_path path st' e = rw e refl

    new_mock-by_path :
        (r : Result String) (st' : Traced h.State)
        → path_of config st ≡ (r, st')
        → (new_mock (traced h) (traced_machine m) configs opts st).1.1
          ≡ st'.1 ++ launch_trace config r st'.0
    unfolding new_mock ◌>>=◌
    new_mock-by_path (ok path) st' e =
        ap (λ x. x.1.1) (new_mock-with_path path st' e)
        ∙ bind-trace (connected config path) _ (mock_on-Quiet configs config) st'
        ∙ connected-trace config path st'
    new_mock-by_path (err x) st' e = rw e (sym (append-nil st'.1))
    new_mock-by_path (panic x) st' e = rw e (sym (append-nil st'.1))

    -- Whatever `NewMock` returns, it has started a process or has failed to, and has killed none.
    pub new_mock-trace :
        (new_mock (traced h) (traced_machine m) configs opts st).1.1
        ≡ st.1 ++ launch_trace config path_result st.0
    new_mock-trace =
        new_mock-by_path path_result (path_of config st).1 refl
        ∙ ap (λ x. x.1 ++ launch_trace config path_result x.0) (path_of-state config st)

    mock_on-conn :
        (conn : Connection) (s : Traced h.State) {c : Client} {t : Traced h.State}
        → mock_on (traced h) (traced_machine m) configs config conn s ≡ (ok c, t)
        → c.conn ≡ conn
    unfolding mock_on
    mock_on-conn conn s e =
        let (bytes, u, e1, k) = bind-eq-ok _ _ s e in
        let (tag, v, e2, j) = bind-eq-ok _ _ u k in ground (arith, j)

    connected-launched :
        (path : String) (st' : Traced h.State) (c : Client) (t : Traced h.State)
        → (connected config path >>= mock_on (traced h) (traced_machine m) configs config) st'
          ≡ (ok c, t)
        → noted (launch_of config path st'.0).0 ≡ launched c.conn.client ∷ []
    unfolding noted
    connected-launched path st' c t e =
        let (conn, u, e1, k) = bind-eq-ok _ _ st' e in
        ap noted (connected-client config path st' conn u e1)
        ∙ ap (λ (d : Connection). launched d.client ∷ []) (sym (mock_on-conn conn u k))

    new_mock-launched :
        (r : Result String) (st' : Traced h.State) (c : Client) (t : Traced h.State)
        → path_of config st ≡ (r, st')
        → new_mock (traced h) (traced_machine m) configs opts st ≡ (ok c, t)
        → launch_trace config r st'.0 ≡ launched c.conn.client ∷ []
    unfolding new_mock ◌>>=◌
    new_mock-launched (ok path) st' c t p e =
        connected-launched path st' c t (sym (new_mock-with_path path st' p) ∙ e)
    new_mock-launched (err x) st' c t p e = let f = rw p at e in cc
    new_mock-launched (panic x) st' c t p e = let f = rw p at e in cc

    -- A client that it returns is connected to the one process that it has started.
    pub new_mock-client :
        (c : Client) (t : Traced h.State)
        → new_mock (traced h) (traced_machine m) configs opts st ≡ (ok c, t)
        → t.1 ≡ st.1 ++ launched c.conn.client ∷ []
    new_mock-client c t e =
        sym (ap (λ x. x.1.1) e)
        ∙ new_mock-by_path path_result (path_of config st).1 refl
        ∙ ap (λ es. (path_of config st).1.1 ++ es)
            (new_mock-launched path_result (path_of config st).1 c t refl e)
        ∙ ap (λ x. x.1 ++ launched c.conn.client ∷ []) (path_of-state config st)

    -- If `NewMock` fails after it has started a process, for its snapshot cannot be read or the plugin
    -- refuses to make a mock, it returns no client and leaves the process running.
    pub new_mock_leaks :
        (path : String) (n : ℕ) (e : Error) (t : Traced h.State)
        → path_result ≡ ok path
        → (launch_of config path st.0).0 ≡ ok n
        → new_mock (traced h) (traced_machine m) configs opts st ≡ (err e, t)
        → t.1 ≡ st.1 ++ launched n ∷ []
    unfolding noted
    new_mock_leaks path n e t has_path starts failed =
        sym (ap (λ x. x.1.1) failed) ∙ new_mock-trace ∙ rw (has_path, starts) refl

  -- A `Close` that returns, even with an error, has killed the client's process, and no other.
  abbrev pub Returned : {A : Type 0} → Result A → Type 0
  Returned (ok a) = Unit
  Returned (err e) = Unit
  Returned (panic t) = ⊥

  pub close-trace :
      (c : Client) (st : Traced h.State)
      → Returned (close (traced h) (traced_machine m) c st).0
      → (close (traced h) (traced_machine m) c st).1.1 ≡ st.1 ++ killed c.conn.client ∷ []
  unfolding close close_connection
  close-trace c st r = ground (arith, close_mock-Quiet h m c st)
