-- ===== src/Mock/Laws.antt =====
-- What a successful `NewMock` has done.
use shiroclient_sdk_go.Prelude.{
  ◌≢◌, ◌⊎◌, inl, inr, eq_iff, none, some, Option, [], refl, ℕ, String, List, Bytes, ◌≡◌, sym, ap,
  ◌∙◌, ◌↔◌, arith,
}
use shiroclient_sdk_go.Errors.{ok}
use shiroclient_sdk_go.Exec.{Exec, ◌>>=◌}
use shiroclient_sdk_go.Exec.Laws.{bind-eq-ok, lift-eq-ok, wrap-bind-eq-ok, wrap_exec-eq-ok}
use shiroclient_sdk_go.Types.Options.{Config}
use shiroclient_sdk_go.Plugin.Connection.{
  Host, SubstrateConnection, new_substrate_connection, run_connect_options, fatally, client_config,
  get_substrate, connect_with_command, connect_with_log_level, connect_with_attach_stdamp,
}
use shiroclient_sdk_go.Mock.{Machine, MockShiroClient}
use shiroclient_sdk_go.Mock.Start.{plugin_path, plugin_options, read_snapshot, mock_on, new_mock}
use shiroclient_sdk_go.Mock.Options.{
  default_plugin_env, MockConfig, MockOption, mock_config, phylum_name, phylum_version,
  hcp_log_level,
}

module _ (h : Host) (m : Machine h.State) where
  open h use {State}

  -- The process that `NewMock` starts.
  abbrev pub launched_by : MockConfig → String → Exec State ℕ
  launched_by config path s =
      h.launch
        (client_config m.text_of h (record {
          level = hcp_log_level config.log_level;
          command = path;
          attach_stdamp = config.log_writer;
        }))
        s

  -- A path for the plugin: that of the options, or, if they give none, that of the environment.
  abbrev pub FindsPath : MockConfig → State → String → Type 0
  FindsPath config s path =
      (config.plugin_path ≢ "") × (path ≡ config.plugin_path)
      ⊎ (config.plugin_path ≡ "")
        × (m.getenv default_plugin_env s ≢ "")
        × (path ≡ m.getenv default_plugin_env s)

  -- The bytes of a reader, or none without a reader.
  abbrev pub Reads : Option ℕ → State → Bytes → State → Type 0
  Reads none s bytes t = (bytes ≡ []) × (s ≡ t)
  Reads (some r) s bytes t = m.read_all r s ≡ (ok bytes, t)

  plugin_path-FindsPath :
      (config : MockConfig) (s : State) (path : String)
      → plugin_path h m config s ≡ (ok path, s)
      → FindsPath config s path
  unfolding plugin_path
  plugin_path-FindsPath config s path e =
      ground (arith, eq_iff config.plugin_path "", eq_iff (m.getenv default_plugin_env s) "")

  FindsPath-plugin_path :
      (config : MockConfig) (s : State) (path : String)
      → FindsPath config s path
      → plugin_path h m config s ≡ (ok path, s)
  unfolding plugin_path
  FindsPath-plugin_path config s path (inl (given, e)) =
      ground (arith, eq_iff config.plugin_path "")
  FindsPath-plugin_path config s path (inr (missing, found, e)) =
      ground (arith, eq_iff config.plugin_path "", eq_iff (m.getenv default_plugin_env s) "")

  read_snapshot-Reads :
      (r : Option ℕ) (s : State) (bytes : Bytes) (t : State)
      → read_snapshot h m r s ≡ (ok bytes, t)
      → Reads r s bytes t
  unfolding read_snapshot
  read_snapshot-Reads none s bytes t e = (ground arith, ap (λ x. x.1) e)
  read_snapshot-Reads (some r) s bytes t e =
      wrap_exec-eq-ok "failed to read snapshot: " (m.read_all r) s e

  Reads-read_snapshot :
      (r : Option ℕ) (s : State) (bytes : Bytes) (t : State)
      → Reads r s bytes t
      → read_snapshot h m r s ≡ (ok bytes, t)
  unfolding read_snapshot
  Reads-read_snapshot none s bytes t (e, f) = rw (e, f) refl
  Reads-read_snapshot (some r) s bytes t e = rw e refl

  -- What lies behind a new mock client: a path, a process that serves a substrate, the snapshot of
  -- the options' reader, if there is one, and the tag of a mock made from it.
  pub record Made (configs : List Config) (opts : List MockOption) (c : MockShiroClient h m)
      (s t : State) : Type 0 where
    pub path : String
    pub has_path : FindsPath (mock_config opts) s path
    pub after_launch : State
    pub launches : launched_by (mock_config opts) path s ≡ (ok c.conn.client, after_launch)
    pub after_dispense : State
    pub dispenses : h.dispense c.conn.client "substrate" after_launch ≡ (ok tt, after_dispense)
    pub snapshot : Bytes
    pub after_read : State
    pub reads : Reads (mock_config opts).snapshot_reader after_dispense snapshot after_read
    pub makes :
        (get_substrate m.text_of h c.conn).new_mock_from phylum_name phylum_version snapshot
          after_read
        ≡ (ok c.tag, t)
    pub client_base : c.base_config ≡ configs
    pub client_phylum : c.mock_phylum ≡ phylum_name

  plugin_path-state : (config : MockConfig) (s : State) → (plugin_path h m config s).1 ≡ s
  unfolding plugin_path
  plugin_path-state config s = ground arith

  fatally-eq-ok :
      {A : Type 0} (f : Exec State A) (s t : State) {a : A}
      → fatally m.text_of f s ≡ (ok a, t)
      → f s ≡ (ok a, t)
  fatally-eq-ok f s t e = ground arith

  connection-eq-ok :
      (config : MockConfig) (path : String) (s t : State) (conn : SubstrateConnection m.text_of h)
      → new_substrate_connection m.text_of h (plugin_options h m config path) s ≡ (ok conn, t)
      → (u : State) × (launched_by config path s ≡ (ok conn.client, u))
        × (h.dispense conn.client "substrate" u ≡ (ok tt, t))
  unfolding new_substrate_connection run_connect_options ◌>>=◌ connect_with_command
      connect_with_log_level connect_with_attach_stdamp
  connection-eq-ok config path s t conn e =
      ((launched_by config path s).1, ground arith, ground arith)

  module _ (configs : List Config) (opts : List MockOption) (c : MockShiroClient h m)
      (s t : State) where
    made :
        (path : String) (conn : SubstrateConnection m.text_of h) (tag : String) (bytes : Bytes)
        (u v w x : State)
        → plugin_path h m (mock_config opts) s ≡ (ok path, s)
        → launched_by (mock_config opts) path s ≡ (ok conn.client, u)
        → h.dispense conn.client "substrate" u ≡ (ok tt, v)
        → read_snapshot h m (mock_config opts).snapshot_reader v ≡ (ok bytes, w)
        → (get_substrate m.text_of h conn).new_mock_from phylum_name phylum_version bytes w
          ≡ (ok tag, x)
        → (ok (record { base_config = configs; conn = conn; tag = tag; mock_phylum = phylum_name })
            ≡ ok c)
          × (x ≡ t)
        → Made configs opts c s t
    made path conn tag bytes u v w x e1 e2 e3 e4 e5 (ec, ex) =
        let same : record {
          base_config = configs;
          conn = conn;
          tag = tag;
          mock_phylum = phylum_name;
        }
            ≡ c =
          cc in
        record {
          path = path;
          has_path = plugin_path-FindsPath (mock_config opts) s path e1;
          after_launch = u;
          launches = e2 ∙ ap (λ (d : MockShiroClient h m). (ok d.conn.client, u)) same;
          after_dispense = v;
          dispenses =
              ap (λ (d : MockShiroClient h m). h.dispense d.conn.client "substrate" u) (sym same)
              ∙ e3;
          snapshot = bytes;
          after_read = w;
          reads = read_snapshot-Reads (mock_config opts).snapshot_reader v bytes w e4;
          makes =
              ap
                (λ (d : MockShiroClient h m).
                  (get_substrate m.text_of h d.conn).new_mock_from phylum_name phylum_version bytes
                    w)
                (sym same)
              ∙ e5
              ∙ (λ i. (ok (same i).tag, ex i));
          client_base = ap (λ (d : MockShiroClient h m). d.base_config) (sym same);
          client_phylum = ap (λ (d : MockShiroClient h m). d.mock_phylum) (sym same);
        }

    new_mock-Made : new_mock h m configs opts s ≡ (ok c, t) → Made configs opts c s t
    unfolding new_mock mock_on
    new_mock-Made e =
        let (path, s0, e1, k1) = bind-eq-ok _ _ s e in
        let (conn, v, e2, k2) = wrap-bind-eq-ok _ s0 "unable to connect to plugin: " _ k1 in
        let (bytes, w, e4, k4) = bind-eq-ok _ _ v k2 in
        let (tag, x, e5, k5) = wrap-bind-eq-ok _ w "failed to create mock client: " _ k4 in
        let same_state : s0 ≡ s = sym (ap (λ x. x.1) e1) ∙ plugin_path-state (mock_config opts) s in
        let (u, e3, e6) = connection-eq-ok (mock_config opts) path s v conn (
          ap
            (λ s.
              new_substrate_connection m.text_of h (plugin_options h m (mock_config opts) path) s)
            (sym same_state)
          ∙ e2) in
        made path conn tag bytes u v w x (e1 ∙ ap (λ s. (ok path, s)) same_state) e3 e6 e4 e5
          (lift-eq-ok _ x k5)

    Made-new_mock : Made configs opts c s t → new_mock h m configs opts s ≡ (ok c, t)
    unfolding new_mock mock_on ◌>>=◌ new_substrate_connection run_connect_options
        connect_with_command connect_with_log_level connect_with_attach_stdamp
    Made-new_mock d =
        rw
          (
            FindsPath-plugin_path (mock_config opts) s d.path d.has_path,
            d.launches,
            d.dispenses,
            Reads-read_snapshot (mock_config opts).snapshot_reader d.after_dispense d.snapshot
                d.after_read d.reads,
            d.makes,
          )
          (λ i. (
            ok (record {
              base_config = sym d.client_base i;
              conn = c.conn;
              tag = c.tag;
              mock_phylum = sym d.client_phylum i;
            }),
            t,
          ))

    -- `NewMock` makes a client exactly if there is a path for the plugin, from the options or else from
    -- the environment, the process started from it with the level and the writer of the options
    -- serves the substrate, and the plugin makes a mock "test" from the snapshot of the options'
    -- reader, or from no bytes without one. The client keeps the configs, the process and the tag.
    pub new_mock_iff : (new_mock h m configs opts s ≡ (ok c, t)) ↔ Made configs opts c s t
    new_mock_iff = (new_mock-Made, Made-new_mock)
