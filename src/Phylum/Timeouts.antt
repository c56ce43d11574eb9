-- ===== src/Phylum/Timeouts.antt =====
-- The errors of `sdkCall`: which details of a failure reach the caller, and which do not.
use shiroclient_sdk_go.Prelude.{String, Bool, true, List, [], ◌++◌, Bytes, ◌≡◌, refl, ap, ◌∙◌}
use shiroclient_sdk_go.Errors.{Error, FailureError, Result, ok, err, unavailable}
use shiroclient_sdk_go.Exec.{Exec, ◌>>=◌}
use shiroclient_sdk_go.Json.{Value}
use shiroclient_sdk_go.Types.{ShiroClient}
use shiroclient_sdk_go.Types.Options.{Ctx, Config, RequestOptions, apply_configs}
use shiroclient_sdk_go.Types.Response.{failure_response}
use shiroclient_sdk_go.Platform.{Platform}
use shiroclient_sdk_go.Rpc.Codes.{shiro_client, level_of}
use shiroclient_sdk_go.Rpc.Transport.{Session}
use shiroclient_sdk_go.Rpc.Reply.{Rpcres, get_shiro_client_error, is_timeout_error}
use shiroclient_sdk_go.Rpc.Reply.Laws.{SaysTimeout, timeout_iff}
use shiroclient_sdk_go.Rpc.Request.{call_request}
use shiroclient_sdk_go.Rpc.Client.{RpcClient, reqres, client_options, call_switch}
use shiroclient_sdk_go.Rpc.Client
use shiroclient_sdk_go.Rpc.Interface.{rpc_shiro_client}
use shiroclient_sdk_go.Phylum.{Codec, phylum_failure, answer, sdk_call, masked_timeout}
use shiroclient_sdk_go.Phylum.Laws.{sdk_call-seeded, call_configs}

abbrev pub unavailable_error : Error
unavailable_error = unavailable "timeout in blockchain network"

module _ (p : Platform) {A : Type 0} (codec : Codec A) where
  module _ (client : ShiroClient) (seed_gen : Exec client.State Bytes) (ctx : Ctx) (cmd : String)
      (params : Result Value) (nil_rep : Bool) (configs : List Config) (s u t : client.State) where
    sdk_call-failed :
        (seed : Bytes) (e : Error)
        → seed_gen s ≡ (ok seed, u)
        → client.call ctx cmd (call_configs p codec client seed_gen params seed configs) u
          ≡ (err e, t)
        → sdk_call p codec client seed_gen ctx cmd params nil_rep configs s
          ≡ (err (masked_timeout e), t)
    unfolding ◌>>=◌
    sdk_call-failed seed e draws fails =
        rw (sdk_call-seeded p codec client seed_gen ctx cmd params nil_rep configs s u draws, fails)
          refl

    sdk_call-refused :
        (seed : Bytes) (e : FailureError)
        → seed_gen s ≡ (ok seed, u)
        → client.call ctx cmd (call_configs p codec client seed_gen params seed configs) u
          ≡ (ok (failure_response e), t)
        → sdk_call p codec client seed_gen ctx cmd params nil_rep configs s
          ≡ (err (phylum_failure codec.unmarshal_string e), t)
    unfolding ◌>>=◌ answer
    sdk_call-refused seed e draws refused =
        rw
          (
            sdk_call-seeded p codec client seed_gen ctx cmd params nil_rep configs s u draws,
            refused,
          )
          refl

  failure-data :
      (e f : FailureError)
      → e.data_json ≡ f.data_json
      → phylum_failure codec.unmarshal_string e ≡ phylum_failure codec.unmarshal_string f
  unfolding phylum_failure
  failure-data e f h = rw h refl

  -- A failure's message and code do not reach the caller of `sdkCall`: two failures with the same
  -- data, of any two clients, make the same error.
  pub failure_masked :
      (c d : ShiroClient) (c_seed : Exec c.State Bytes) (d_seed : Exec d.State Bytes) (ctx : Ctx)
      (cmd : String) (params : Result Value) (nil_rep : Bool) (configs : List Config)
      (s u t : c.State) (s' u' t' : d.State) (seed seed' : Bytes) (e f : FailureError)
      → c_seed s ≡ (ok seed, u)
      → d_seed s' ≡ (ok seed', u')
      → c.call ctx cmd (call_configs p codec c c_seed params seed configs) u
        ≡ (ok (failure_response e), t)
      → d.call ctx cmd (call_configs p codec d d_seed params seed' configs) u'
        ≡ (ok (failure_response f), t')
      → e.data_json ≡ f.data_json
      → (sdk_call p codec c c_seed ctx cmd params nil_rep configs s).0
        ≡ (sdk_call p codec d d_seed ctx cmd params nil_rep configs s').0
  failure_masked c d c_seed d_seed ctx cmd params nil_rep configs s u t s' u' t' seed seed' e f
        draws draws' refused refused' same =
      rw
        (
          sdk_call-refused c c_seed ctx cmd params nil_rep configs s u t seed e draws refused,
          sdk_call-refused d d_seed ctx cmd params nil_rep configs s' u' t' seed' f draws' refused',
        )
        (ap (λ x. err x) (failure-data e f same))

  masked-timeout : (e : Error) → is_timeout_error e ≡ true → masked_timeout e ≡ unavailable_error
  masked-timeout e h = rw h refl

  module _ (c : RpcClient) (seed_gen : Exec (Session p) Bytes) (ctx : Ctx) (cmd : String)
      (params : Result Value) (nil_rep : Bool) (configs : List Config) where
    -- The configs and the options of the call that `sdkCall` makes over the RPC client.
    abbrev pub sdk_configs : Bytes → List Config
    sdk_configs seed = call_configs p codec (rpc_shiro_client p c) seed_gen params seed configs

    abbrev pub sdk_options : String → Bytes → RequestOptions
    sdk_options uuid seed = apply_configs uuid c.default_log (c.base_config ++ sdk_configs seed)

    client_error :
        (r : Rpcres) (opt : RequestOptions) (s : Session p)
        → level_of r.error_level ≡ shiro_client
        → call_switch p (level_of r.error_level) opt r s ≡ (err (get_shiro_client_error p r), s)
    unfolding call_switch
    client_error r opt s h = rw h refl

    call-client_error :
        (s t : Session p) (uuid : String) (w : p.World) (r : Rpcres) (cs : List Config)
        → p.new_uuid s.world ≡ (ok uuid, w)
        → let opt = apply_configs uuid c.default_log (c.base_config ++ cs) in
          (reqres p ctx (call_request cmd opt ctx) opt (record s { world = w }) ≡ (ok r, t))
          → level_of r.error_level ≡ shiro_client
          → Client.call p c ctx cmd cs s ≡ (err (get_shiro_client_error p r), t)
    unfolding Client.call client_options ◌>>=◌
    call-client_error s t uuid w r cs fresh answered level =
        rw (fresh, answered) (client_error r _ t level)

    -- When the gateway answers the call of `sdkCall` with a client error of the timeout code, `sdkCall`
    -- over the RPC client returns the status "unavailable", whatever the text of that error.
    pub rpc_timeout-unavailable :
        (s u t : Session p) (seed : Bytes) (uuid : String) (w : p.World) (r : Rpcres)
        → seed_gen s ≡ (ok seed, u)
        → p.new_uuid u.world ≡ (ok uuid, w)
        → reqres p ctx
            (call_request cmd (sdk_options uuid seed) ctx)
            (sdk_options uuid seed)
            (record u { world = w })
          ≡ (ok r, t)
        → level_of r.error_level ≡ shiro_client
        → SaysTimeout p r
        → sdk_call p codec (rpc_shiro_client p c) seed_gen ctx cmd params nil_rep configs s
          ≡ (err unavailable_error, t)
    rpc_timeout-unavailable s u t seed uuid w r draws fresh answered level says =
        sdk_call-failed (rpc_shiro_client p c) seed_gen ctx cmd params nil_rep configs s u t seed
          (get_shiro_client_error p r) draws
          (call-client_error u t uuid w r (sdk_configs seed) fresh answered level)
        ∙ ap (λ e. (err e, t)) (masked-timeout _ ((timeout_iff p [] r).1 says))
