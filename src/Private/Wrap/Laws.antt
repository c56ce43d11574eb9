-- ===== src/Private/Wrap/Laws.antt =====
-- What a successful wrapped call has gone through.
use shiroclient_sdk_go.Prelude.{
  String, Option, some, List, [], ◌∷◌, ◌++◌, Bytes, ◌≡◌, ◌≢◌, refl, sym, ap, ◌∙◌, ◌⊎◌, eq_iff,
  arith,
}
use shiroclient_sdk_go.Errors.{Result, ok, value_or}
use shiroclient_sdk_go.Exec.{Exec, ◌>>=◌}
use shiroclient_sdk_go.Exec.Laws.{lift-bind-eq-ok, wrap-bind-eq-ok}
use shiroclient_sdk_go.Json.{Value}
use shiroclient_sdk_go.Types.{ShiroClient}
use shiroclient_sdk_go.Types.Options.{Ctx, Config}
use shiroclient_sdk_go.Types.Response.{
  ShiroResponse, SuccessResponse, Dst, success_response, failure_response, unmarshal_to,
}
use shiroclient_sdk_go.Configs.{with_dependent_tx_id}
use shiroclient_sdk_go.Platform.{Platform}
use shiroclient_sdk_go.Private.Message.{Transform, EncodedResponse, Codec, decode_response}
use shiroclient_sdk_go.Private.Encode.{encode_helper, decode}
use shiroclient_sdk_go.Private.Wrap.{CallResult, depend_on, finish_call, wrap_call}

abbrev pub result_of : SuccessResponse → CallResult
result_of b = record {
  transaction_id = b.tx_id;
  max_sim_block_num = b.sim_block_num;
  commit_block_num = b.com_block_num;
}

depend_on-cases :
    (tx_id : String) (configs : List Config)
    → ((tx_id ≡ "") × (depend_on tx_id configs ≡ configs))
      ⊎ ((tx_id ≢ "") × (depend_on tx_id configs ≡ configs ++ with_dependent_tx_id tx_id ∷ []))
depend_on-cases tx_id configs = ground (arith, eq_iff tx_id "")

module _ (p : Platform) (codec : Codec) (client : ShiroClient) (seed_gen : Exec client.State Bytes)
    {A : Type 0} (output : Dst A) (method : String) (transforms : List Transform) (ctx : Ctx)
    (message : Option (Result Value)) (configs : List Config) where
  -- The three stages of a wrapped call, each from the state where the one before it ends.
  pub record Wrapped (s : client.State) (result : CallResult) (a : A) (t : client.State)
      : Type 0 where
    pub encoding : Option EncodedResponse
    pub new_configs : List Config
    pub encoded : client.State
    pub encodes :
        encode_helper p codec client seed_gen ctx message transforms configs s
        ≡ (ok (encoding, new_configs), encoded)
    pub body : SuccessResponse
    pub called : client.State
    pub calls :
        client.call ctx method (configs ++ new_configs) encoded
        ≡ (ok (success_response body), called)
    pub reply : EncodedResponse
    pub replies : decode_response codec body.result ≡ ok reply
    pub decode_configs : List Config
    pub depends :
        ((body.tx_id ≡ "") × (decode_configs ≡ configs))
        ⊎ ((body.tx_id ≢ "") × (decode_configs ≡ configs ++ with_dependent_tx_id body.tx_id ∷ []))
    pub decodes :
        decode p codec client seed_gen output ctx (some reply) decode_configs called ≡ (ok a, t)
    pub reports : result ≡ result_of body

  -- The same of what follows the call.
  record Finished (b : SuccessResponse) (u : client.State) (result : CallResult) (a : A)
      (t : client.State) : Type 0 where
    reply : EncodedResponse
    replies : decode_response codec b.result ≡ ok reply
    decodes :
        decode p codec client seed_gen output ctx (some reply) (depend_on b.tx_id configs) u
        ≡ (ok a, t)
    reports : result ≡ result_of b

  success-Finished :
      (b : SuccessResponse) (u t : client.State) (result : CallResult) (a : A)
      → finish_call p codec client seed_gen output ctx configs (success_response b) u
        ≡ (ok (result, a), t)
      → Finished b u result a t
  unfolding finish_call unmarshal_to
  success-Finished b u t result a h =
      let (x, _, j) = lift-bind-eq-ok _ u (ok tt) h in
      let (reply, replies, k) = lift-bind-eq-ok _ u (decode_response codec b.result) j in
      let (decoded, v, e, l) = wrap-bind-eq-ok _ u "wrap decode error: " _ k in
      record {
        reply = reply;
        replies = replies;
        decodes = e ∙ (λ i. (ok (value_or {A = CallResult × A} (result, a) (l i).0).1, (l i).1));
        reports = sym (ap (λ x. (value_or {A = CallResult × A} (result, a) x.0).0) l);
      }

  finish_call-eq-ok :
      (resp : ShiroResponse) (u t : client.State) (result : CallResult) (a : A)
      → finish_call p codec client seed_gen output ctx configs resp u ≡ (ok (result, a), t)
      → (b : SuccessResponse) × (resp ≡ success_response b) × Finished b u result a t
  unfolding finish_call ◌>>=◌
  finish_call-eq-ok (failure_response e) u t result a h = cc
  finish_call-eq-ok (success_response b) u t result a h =
      (b, refl, success-Finished b u t result a h)

  -- If the function that `WrapCall` returns succeeds, then the message was encoded, one call of the
  -- method was made with the caller's configs and then those of the encoding, and its result was
  -- decoded. Encoding and decoding get the caller's configs too, and decoding gets one more that makes
  -- it depend on the call's transaction, if that has an ID. The transaction ID and the block numbers
  -- are those of the call.
  pub wrap_call-Wrapped :
      (s : client.State) (result : CallResult) (a : A) (t : client.State)
      → wrap_call p codec client seed_gen output method transforms ctx message configs s
        ≡ (ok (result, a), t)
      → Wrapped s result a t
  unfolding wrap_call
  wrap_call-Wrapped s result a t h =
      let (enc, u, encodes, j) = wrap-bind-eq-ok _ s "wrap encode error: " _ h in
      let (resp, v, calls, k) = wrap-bind-eq-ok _ u "wrap call error: " _ j in
      let (b, eb, finished) = finish_call-eq-ok resp v t result a k in
      record {
        encoding = enc.0;
        new_configs = enc.1;
        encoded = u;
        encodes = encodes;
        body = b;
        called = v;
        calls = calls ∙ ap (λ r. (ok r, v)) eb;
        reply = finished.reply;
        replies = finished.replies;
        decode_configs = depend_on b.tx_id configs;
        depends = depend_on-cases b.tx_id configs;
        decodes = finished.decodes;
        reports = finished.reports;
      }
