-- ===== src/Phylum/Mock/Processes.antt =====
-- The plugin process of a phylum client.
use shiroclient_sdk_go.Prelude.{
  ℕ, String, Option, none, some, List, [], ◌∷◌, ◌++◌, ◌≡◌, refl, sym, ap, ◌∙◌, append_assoc,
}
use shiroclient_sdk_go.Prelude.Dict.{Dict}
use shiroclient_sdk_go.Errors.{ok}
use shiroclient_sdk_go.Exec.Laws.{bind-eq-ok}
use shiroclient_sdk_go.Json.{Value}
use shiroclient_sdk_go.Types.Options.{Config}
use shiroclient_sdk_go.Configs.{with_logrus_fields}
use shiroclient_sdk_go.Plugin.Connection.{Host}
use shiroclient_sdk_go.Plugin.Trace.{
  launched, killed, Traced, Quiet, bind-Quiet, bind-trace, traced,
}
use shiroclient_sdk_go.Mock.{Machine, MockShiroClient}
use shiroclient_sdk_go.Mock.Start.{new_mock}
use shiroclient_sdk_go.Mock
use shiroclient_sdk_go.Mock.Options.{MockOption, with_snapshot_reader}
use shiroclient_sdk_go.Mock.Quiet.{traced_machine, TracedClient, init-Quiet}
use shiroclient_sdk_go.Mock.Launches.{new_mock-client, Returned, close-trace}
use shiroclient_sdk_go.Phylum.{close}
use shiroclient_sdk_go.Phylum.Mock.{Client, new_mock_from, init_unless_restored, close_client}

module _ (h : Host) (m : Machine h.State) where
  init_unless_restored-Quiet :
      (r : Option ℕ) (phylum_path : String) (mock : TracedClient h m)
      → Quiet (init_unless_restored (traced h) (traced_machine m) r phylum_path mock)
  unfolding init_unless_restored
  init_unless_restored-Quiet none phylum_path mock st = init-Quiet h m mock _ _ [] st
  init_unless_restored-Quiet (some r) phylum_path mock st = refl

  module _ (phylum_path : String) (log : Dict Value) (r : Option ℕ) (st : Traced h.State) where
    abbrev configs : List Config
    configs = with_logrus_fields log ∷ []

    abbrev options : List MockOption
    options = with_snapshot_reader r ∷ []

    -- `NewMockFrom` starts and kills what its call of `NewMock` does.
    new_mock_from-trace :
        (new_mock_from (traced h) (traced_machine m) phylum_path log r st).1.1
        ≡ (new_mock (traced h) (traced_machine m) configs options st).1.1
    unfolding new_mock_from
    new_mock_from-trace =
        bind-trace (new_mock (traced h) (traced_machine m) configs options) _
          (λ mock. bind-Quiet _ _ (init_unless_restored-Quiet r phylum_path mock) λ _ st. refl) st

    new_mock_from-closes :
        (client : Client (traced h) (traced_machine m)) (t : Traced h.State)
        → new_mock_from (traced h) (traced_machine m) phylum_path log r st ≡ (ok client, t)
        → (mock : TracedClient h m) × (t.1 ≡ st.1 ++ launched mock.conn.client ∷ [])
          × (client.close_func ≡ some (Mock.close (traced h) (traced_machine m) mock))
    unfolding new_mock_from
    new_mock_from-closes client t e =
        let (mock, u, e1, k) = bind-eq-ok _ _ st e in
        let (x, v, e2, j) = bind-eq-ok _ _ u k in
        let trace =
          sym (ap (λ x. x.1.1) e)
          ∙ new_mock_from-trace
          ∙ ap (λ x. x.1.1) e1
          ∙ new_mock-client h m configs options st mock u e1 in
        (mock, trace, cc)

    -- The process that a successful `NewMockFrom` has started, and no other, is killed by the `Close` of
    -- its client, if that returns, with or without an error.
    pub close-new_mock_from :
        (client : Client (traced h) (traced_machine m)) (t : Traced h.State)
        → new_mock_from (traced h) (traced_machine m) phylum_path log r st ≡ (ok client, t)
        → Returned h m (close_client (traced h) (traced_machine m) client t).0
        → (n : ℕ) × ((close_client (traced h) (traced_machine m) client t).1.1
            ≡ st.1 ++ launched n ∷ killed n ∷ [])
    unfolding close
    close-new_mock_from client t e returned =
        let (mock, trace, closes) = new_mock_from-closes client t e in
        let killing = close-trace h m mock t (rw closes at returned) in
        (
          mock.conn.client,
          rw closes (
              killing
              ∙ ap (λ es. es ++ killed mock.conn.client ∷ []) trace
              ∙ append_assoc st.1 (launched mock.conn.client ∷ []) (killed mock.conn.client ∷ [])),
        )
