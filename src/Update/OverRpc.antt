-- ===== src/Update/OverRpc.antt =====
-- What Enable sends over the RPC client.
use shiroclient_sdk_go.Prelude.{String, List, [], ◌∷◌, ◌++◌, ◌≡◌, refl, sym, ap, ◌∙◌, append_assoc}
use shiroclient_sdk_go.Errors.{ok, value_or}
use shiroclient_sdk_go.Json.{Value, strings}
use shiroclient_sdk_go.Types.Options.{Ctx, Config, RequestOptions, apply_configs, run_configs}
use shiroclient_sdk_go.Types.Response.{ShiroResponse, SuccessResponse, success_response}
use shiroclient_sdk_go.Types.Laws.{apply_configs-append}
use shiroclient_sdk_go.Configs.{with_params}
use shiroclient_sdk_go.Platform.{Platform}
use shiroclient_sdk_go.Rpc.Codes.{no_error, level_of}
use shiroclient_sdk_go.Rpc.Transport.{Session}
use shiroclient_sdk_go.Rpc.Reply.{Rpcres}
use shiroclient_sdk_go.Rpc.Client.{RpcClient}
use shiroclient_sdk_go.Rpc.Client.Answers.{AnswerOf, success, failure, Answered, call-Answered}
use shiroclient_sdk_go.Rpc.Interface.{rpc_shiro_client}
use shiroclient_sdk_go.Update.{enable}
use shiroclient_sdk_go.Update.Laws.{Succeeds, one_param, updates_iff}

module _ (p : Platform) where
  -- One exchange of a call of the method with the parameters, whose reply says error level 0.
  pub record Posted (ctx : Ctx) (method : String) (args : Value) (opt : RequestOptions)
      (s t : Session p) : Type 0 where
    pub response : ShiroResponse
    pub call : Answered p ctx method opt s response t
    pub params : call.sends.args ≡ args
    pub accepted : level_of call.reply.error_level ≡ no_error

  success-level :
      (r : Rpcres) (b : SuccessResponse)
      → AnswerOf p r (success_response b)
      → level_of r.error_level ≡ no_error
  success-level r b (success level e) = level
  success-level r b (failure code message level ec em e) = cc

  Answered-Posted :
      (ctx : Ctx) (method : String) (args : Value) (opt : RequestOptions) (s t : Session p)
      (b : SuccessResponse)
      → opt.params ≡ ok args
      → Answered p ctx method opt s (success_response b) t
      → Posted ctx method args opt s t
  Answered-Posted ctx method args opt s t b e a = record {
    response = success_response b;
    call = a;
    params = ap (λ r. value_or args r) (sym a.sends.marshals ∙ e);
    accepted = success-level a.reply b a.answer;
  }

  module _ (c : RpcClient) (ctx : Ctx) (version : String) (configs : List Config) where
    -- The options of the call: the base configs, then the caller's, then the version.
    abbrev pub update_options : String → RequestOptions
    update_options uuid =
        apply_configs uuid c.default_log
          (c.base_config ++ (configs ++ one_param p (rpc_shiro_client p c) version ∷ []))

    update_options-params :
        (uuid : String) → (update_options uuid).params ≡ ok (strings (version ∷ []))
    unfolding with_params run_configs
    update_options-params uuid =
        rw
          (
            sym (
                append_assoc c.base_config configs
                  (one_param p (rpc_shiro_client p c) version ∷ [])),
            apply_configs-append uuid c.default_log (c.base_config ++ configs)
                (one_param p (rpc_shiro_client p c) version ∷ []),
          )
          refl

    succeeded-Posted :
        (method : String) (s t : Session p) (uuid : String) (w : p.World)
        → p.new_uuid s.world ≡ (ok uuid, w)
        → Succeeds p
            (rpc_shiro_client p c)
            ctx
            method
            (configs ++ one_param p (rpc_shiro_client p c) version ∷ [])
            s
            t
        → Posted ctx method
            (strings (version ∷ []))
            (update_options uuid)
            (record s { world = w })
            t
    succeeded-Posted method s t uuid w fresh (b, h) =
        Answered-Posted ctx method (strings (version ∷ [])) (update_options uuid)
          (record s { world = w }) t b (update_options-params uuid)
          (call-Answered p c ctx method (configs ++ one_param p (rpc_shiro_client p c) version ∷ [])
            s uuid w fresh h)

    -- If Enable succeeds over the RPC client, with `uuid` for the random ID, it has sent one request:
    -- a POST to the endpoint of a call of "enable" with the version for its one parameter, whatever
    -- parameters the caller's configs set; and the gateway's answer to that request decodes to a
    -- reply at error level 0.
    pub enable-Posted :
        (s t : Session p) (uuid : String) (w : p.World)
        → p.new_uuid s.world ≡ (ok uuid, w)
        → enable p (rpc_shiro_client p c) ctx version configs s ≡ (ok tt, t)
        → Posted ctx "enable"
            (strings (version ∷ []))
            (update_options uuid)
            (record s { world = w })
            t
    enable-Posted s t uuid w fresh h =
        succeeded-Posted "enable" s t uuid w fresh
          ((updates_iff p (rpc_shiro_client p c) ctx version [] configs s t).0.0 h)
