-- ===== src/Plugin/Refinement.antt =====
-- The plugin's RPC client over its RPC server is the implementation, with its errors made texts.
use shiroclient_sdk_go.Prelude.{String, Bytes, none, [], ◌≡◌, refl, fun_ext}
use shiroclient_sdk_go.Prelude.Int.{ℤ, negsuc}
use shiroclient_sdk_go.Errors.{Result, ok, err, panic, plugin_error, error_text}
use shiroclient_sdk_go.Exec.{Exec, lift, continue, ◌>>=◌}
use shiroclient_sdk_go.Plugin.Substrate.{Substrate}
use shiroclient_sdk_go.Plugin.Rpc.{
  respond, served, unpack, plugin_rpc, server, rpc_health_check, rpc_new_mock_from, rpc_set_creator,
  rpc_snapshot_mock, rpc_close_mock, rpc_init, rpc_call, rpc_query_info, rpc_query_block,
  serve_health_check, serve_new_mock_from, serve_set_creator, serve_snapshot_mock, serve_close_mock,
  serve_init, serve_call, serve_query_info, serve_query_block, respond_health, RespHealthCheck,
}

module _ (text_of : Bytes → String) where
  -- An error reaches the host as a `*plugin.Error` with the same text.
  abbrev pub flatten_err : {A : Type 0} → Result A → Result A
  flatten_err (ok a) = ok a
  flatten_err (err e) = err (plugin_error (error_text text_of e))
  flatten_err (panic t) = panic t

  abbrev pub flattened : {S A : Type 0} → Exec S A → Exec S A
  flattened m s = let (r, s') = m s in (flatten_err r, s')

  -- A health check that fails is the answer -1.
  abbrev pub health_or_minus_one : Result ℤ → Result ℤ
  health_or_minus_one (ok val) = ok val
  health_or_minus_one (err e) = ok (negsuc 0)
  health_or_minus_one (panic t) = panic t

  abbrev pub masked : {S : Type 0} → Exec S ℤ → Exec S ℤ
  masked m s = let (r, s') = m s in (health_or_minus_one r, s')

  -- What the host sees of an implementation.
  abbrev pub seen_by_host : Substrate → Substrate
  seen_by_host impl = record {
    State = impl.State;
    health_check = λ nat. masked (impl.health_check nat);
    new_mock_from = λ name version snapshot. flattened (impl.new_mock_from name version snapshot);
    set_creator_with_attributes_mock =
        λ tag creator attrs. flattened (impl.set_creator_with_attributes_mock tag creator attrs);
    snapshot_mock = λ tag. flattened (impl.snapshot_mock tag);
    close_mock = λ tag. flattened (impl.close_mock tag);
    init = λ tag phylum options. flattened (impl.init tag phylum options);
    call = λ tag command options. flattened (impl.call tag command options);
    query_info = λ tag options. flattened (impl.query_info tag options);
    query_block = λ tag height options. flattened (impl.query_block tag height options);
  }

  pub unpack-respond :
      {S A : Type 0} (zero_value : A) (r : Result A) (s : S)
      → continue (respond text_of zero_value r) (λ resp. lift (unpack resp)) s ≡ (flatten_err r, s)
  unpack-respond z (ok a) s = refl
  unpack-respond z (err e) s = refl
  unpack-respond z (panic t) s = refl

  respond-health :
      {S : Type 0} (r : Result ℤ) (s : S)
      → continue (respond_health text_of r) (λ (resp : RespHealthCheck). lift (ok resp.suc)) s
        ≡ (health_or_minus_one r, s)
  unfolding respond_health
  respond-health (ok a) s = refl
  respond-health (err e) s = refl
  respond-health (panic t) s = refl

  module _ (impl : Substrate) where
    served-flattened :
        {A : Type 0} (zero_value : A) (m : Exec impl.State A)
        → (served text_of impl (respond text_of zero_value) m >>= λ resp. lift (unpack resp))
          ≡ flattened m
    unfolding ◌>>=◌
    served-flattened z m = fun_ext λ s. unpack-respond z (m s).0 (m s).1

    served-masked :
        (m : Exec impl.State ℤ)
        → (served text_of impl (respond_health text_of) m >>= λ resp. lift (ok resp.suc)) ≡ masked m
    unfolding ◌>>=◌
    served-masked m = fun_ext λ s. respond-health (m s).0 (m s).1

    -- Over a connection that does not fail, the host's `PluginRPC` does, method by method, what the
    -- plugin's implementation does, with the same state changes and results. Its errors arrive as
    -- plugin errors with the same texts, except that a failing health check answers -1.
    pub plugin_rpc-refines : plugin_rpc (server text_of impl) ≡ seen_by_host impl
    unfolding rpc_health_check rpc_new_mock_from rpc_set_creator rpc_snapshot_mock rpc_close_mock
        rpc_init rpc_call rpc_query_info rpc_query_block serve_health_check serve_new_mock_from
        serve_set_creator serve_snapshot_mock serve_close_mock serve_init serve_call
        serve_query_info serve_query_block
    plugin_rpc-refines = λ i. record {
      State = impl.State;
      health_check = λ nat. served-masked (impl.health_check nat) i;
      new_mock_from =
          λ name version snapshot. served-flattened "" (impl.new_mock_from name version snapshot) i;
      set_creator_with_attributes_mock = λ tag creator attrs.
          served-flattened tt (impl.set_creator_with_attributes_mock tag creator attrs) i;
      snapshot_mock = λ tag. served-flattened [] (impl.snapshot_mock tag) i;
      close_mock = λ tag. served-flattened tt (impl.close_mock tag) i;
      init = λ tag phylum options. served-flattened tt (impl.init tag phylum options) i;
      call = λ tag command options. served-flattened none (impl.call tag command options) i;
      query_info = λ tag options. served-flattened 0 (impl.query_info tag options) i;
      query_block =
          λ tag height options. served-flattened none (impl.query_block tag height options) i;
    }
