-- ===== src/Private/Encode/Params.antt =====
-- What `encodeHelper` asks the next call to carry.
use shiroclient_sdk_go.Prelude
use shiroclient_sdk_go.Prelude.{
  String, Bool, true, false, Option, none, some, List, [], ◌∷◌, ◌++◌, Bytes, ◌≡◌, refl, sym, ◌∙◌,
  ap, arith, if◌then◌else◌, append_assoc,
}
use shiroclient_sdk_go.Errors.{Result, ok}
use shiroclient_sdk_go.Exec.{Exec}
use shiroclient_sdk_go.Exec.Laws.{bind-eq-ok}
use shiroclient_sdk_go.Json.{Value}
use shiroclient_sdk_go.Types.{ShiroClient}
use shiroclient_sdk_go.Types.Options.{Ctx, Config, RequestOptions, fn, run_configs}
use shiroclient_sdk_go.Types.Laws.{run_configs-append}
use shiroclient_sdk_go.Types.Response.{transaction_id}
use shiroclient_sdk_go.Configs.{with_params, with_dependent_tx_id}
use shiroclient_sdk_go.Platform.{Platform}
use shiroclient_sdk_go.Private.Message.{Transform, EncodedResponse, Codec, encoded_response_value}
use shiroclient_sdk_go.Private.Seed.{do_skip_encode_tx, with_param}
use shiroclient_sdk_go.Private.Encode.{
  encode_helper, skip_encode_request, encode_raw, encode_transforms, encode_tx, encode_skip,
}

-- A last config has the last word.
run_configs-last :
    (xs : List Config) (c : Config) (r : RequestOptions)
    → run_configs (xs ++ c ∷ []) r ≡ fn c (run_configs xs r)
unfolding run_configs
run_configs-last xs c r = run_configs-append xs (c ∷ []) r

-- The message that stands for the argument: the encoding, or what says that it comes with the call.
abbrev pub argument_of : List Transform → List Config → EncodedResponse → EncodedResponse
argument_of [] configs enc = enc
argument_of (t ∷ ts) configs enc = if do_skip_encode_tx configs then skip_encode_request else enc

module _ (p : Platform) (codec : Codec) (client : ShiroClient)
    (seed_gen : Exec client.State Bytes) where
  -- The parameters that consist of one encoded message.
  abbrev pub CarriesArgument : List Config → EncodedResponse → Type 0
  CarriesArgument configs arg =
      (r : RequestOptions)
      → (run_configs configs r).params
        ≡ (fn (with_param (encoded_response_value codec arg)) r).params

  last-CarriesArgument :
      (xs : List Config) (arg : EncodedResponse)
      → CarriesArgument (xs ++ with_param (encoded_response_value codec arg) ∷ []) arg
  unfolding with_param with_params
  last-CarriesArgument xs arg r = ap (λ o. o.params) (run_configs-last xs _ r)

  assoc-CarriesArgument :
      (xs ys : List Config) (arg : EncodedResponse)
      → CarriesArgument (xs ++ (ys ++ with_param (encoded_response_value codec arg) ∷ [])) arg
  assoc-CarriesArgument xs ys arg =
      rw (sym (append_assoc xs ys (with_param (encoded_response_value codec arg) ∷ [])))
        (last-CarriesArgument (xs ++ ys) arg)

  -- The shape of a result, from its equation.
  result_shape :
      {x enc : EncodedResponse} {c new : List Config} {s t : client.State}
      → Prelude.◌≡◌ {A = Result (Option EncodedResponse × List Config) × client.State}
          (ok (some x, c), s)
          (ok (some enc, new), t)
      → (x ≡ enc) × (c ≡ new)
  result_shape h = (cc, cc)

  module _ (ctx : Ctx) (message : Result Value) (configs : List Config) (s : client.State)
      {enc : EncodedResponse} {new : List Config} {t : client.State} where
    raw-CarriesArgument :
        encode_raw p codec client seed_gen message s ≡ (ok (some enc, new), t)
        → CarriesArgument (configs ++ new) enc
    unfolding encode_raw
    raw-CarriesArgument h =
        let (v, u, e, k) = bind-eq-ok _ _ s h in
        let (x, u', e', k') = bind-eq-ok _ _ u k in
        let (ex, en) = result_shape k' in rw (sym en, ex) (last-CarriesArgument configs enc)

    tx-CarriesArgument :
        (transient_configs : List Config)
        → encode_tx p codec client seed_gen ctx configs transient_configs s
          ≡ (ok (some enc, new), t)
        → CarriesArgument (configs ++ new) enc
    unfolding encode_tx
    tx-CarriesArgument transient_configs h =
        let (resp, u, e, k) = bind-eq-ok _ _ s h in
        let (x, u', e', k') = bind-eq-ok _ _ u k in
        let (ex, en) = result_shape k' in
        rw (sym en, ex)
          (assoc-CarriesArgument configs (with_dependent_tx_id (transaction_id resp) ∷ []) enc)

    skip-CarriesArgument :
        (transient_configs : List Config)
        → encode_skip p codec client seed_gen transient_configs s ≡ (ok (some enc, new), t)
        → CarriesArgument (configs ++ new) skip_encode_request
    unfolding encode_skip
    skip-CarriesArgument transient_configs h =
        let (ex, en) = result_shape h in
        rw (sym en) (assoc-CarriesArgument configs transient_configs skip_encode_request)

  module _ (ctx : Ctx) (message : Result Value) (configs : List Config) (s : client.State)
      {t : client.State} {enc : EncodedResponse} {new : List Config} where
    transforms-CarriesArgument :
        (ts : List Transform) (skip : Bool)
        → do_skip_encode_tx configs ≡ skip
        → encode_transforms p codec client seed_gen ctx message ts configs s
          ≡ (ok (some enc, new), t)
        → CarriesArgument (configs ++ new) (if skip then skip_encode_request else enc)
    unfolding encode_transforms
    transforms-CarriesArgument ts true d h =
        let (tc, u, e, k) = bind-eq-ok _ _ s h in
        skip-CarriesArgument ctx message configs u tc (rw d at k)
    transforms-CarriesArgument ts false d h =
        let (tc, u, e, k) = bind-eq-ok _ _ s h in
        tx-CarriesArgument ctx message configs u tc (rw d at k)

    -- If `encodeHelper` succeeds for a message, the configs that it returns, put after the caller's,
    -- give the next call one parameter, whatever parameters the caller's configs set: the encoding,
    -- or, if there are transforms and the encode transaction is skipped, what stands for it.
    pub encode_helper-CarriesArgument :
        (transforms : List Transform)
        → encode_helper p codec client seed_gen ctx (some message) transforms configs s
          ≡ (ok (some enc, new), t)
        → CarriesArgument (configs ++ new) (argument_of transforms configs enc)
    unfolding encode_helper
    encode_helper-CarriesArgument [] h = raw-CarriesArgument ctx message configs s h
    encode_helper-CarriesArgument (x ∷ xs) h =
        transforms-CarriesArgument (x ∷ xs) (do_skip_encode_tx configs) refl h
