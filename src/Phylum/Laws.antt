-- ===== src/Phylum/Laws.antt =====
-- What `sdkCall` and `Call` come to, and what they let through to their caller.
use shiroclient_sdk_go.Prelude.{
  String, Bool, true, false, Option, some, List, [], ◌∷◌, Bytes, ◌≡◌, refl, sym, ap, ◌∙◌, ◌↔◌, ◌⊎◌,
  inl, inr, map, arith,
}
use shiroclient_sdk_go.Errors.{Error, Result, ok, err, panic, wrapped}
use shiroclient_sdk_go.Exec.{Exec, pure, lift, ◌>>=◌}
use shiroclient_sdk_go.Exec.Laws.{bind-eq-ok, lift-eq-ok}
use shiroclient_sdk_go.Json.{Value}
use shiroclient_sdk_go.Types.{ShiroClient}
use shiroclient_sdk_go.Types.Options.{Ctx, Config}
use shiroclient_sdk_go.Types.Response.{
  ShiroResponse, SuccessResponse, success_response, failure_response,
}
use shiroclient_sdk_go.Configs.{with_params, with_transient_data}
use shiroclient_sdk_go.Platform.{Platform}
use shiroclient_sdk_go.Private.Seed.{with_seed, seed_key}
use shiroclient_sdk_go.Phylum.{
  Codec, answer, call_masked, default_configs, sdk_call, call, cmd_params, mask_timeout,
  has_no_data, decode_rep, or_unchanged,
}
use shiroclient_sdk_go.Phylum.Joins.{
  join_config, join_config-draws, draw_all, all_set, default_prefix,
}

all_set-some : (cs : List Config) → all_set (map some cs) ≡ ok cs
unfolding all_set
all_set-some [] = refl
all_set-some (c ∷ cs) = rw (all_set-some cs) refl

module _ (p : Platform) {A : Type 0} (codec : Codec A) (client : ShiroClient)
    (seed_gen : Exec client.State Bytes) where
  -- The configs of the call: the parameters, the seed, and what the caller gives.
  abbrev pub call_configs : Result Value → Bytes → List Config → List Config
  call_configs params seed configs =
      with_params params ∷ with_transient_data seed_key seed ∷ configs

  joined_configs :
      (configs : List Config) (s u : client.State) {seed : Bytes}
      → seed_gen s ≡ (ok seed, u)
      → join_config
          (default_configs p codec client seed_gen)
          (default_configs p codec client seed_gen)
          configs
          s
        ≡ (ok (map some (with_transient_data seed_key seed ∷ configs)), u)
  unfolding draw_all with_seed ◌>>=◌
  joined_configs configs s u h =
      join_config-draws (default_configs p codec client seed_gen) configs s ∙ rw h refl

  -- A drawn seed goes into the call, and the call's outcome decides.
  pub sdk_call-seeded :
      (ctx : Ctx) (cmd : String) (params : Result Value) (nil_rep : Bool) (configs : List Config)
      (s u : client.State) {seed : Bytes}
      → seed_gen s ≡ (ok seed, u)
      → sdk_call p codec client seed_gen ctx cmd params nil_rep configs s
        ≡ (call_masked p codec client seed_gen ctx cmd (call_configs params seed configs)
              >>= λ resp. lift (answer p codec nil_rep resp))
            u
  unfolding sdk_call ◌>>=◌
  sdk_call-seeded ctx cmd params nil_rep configs s u {seed} h =
      rw (joined_configs configs s u h, all_set-some (with_transient_data seed_key seed ∷ configs))
        refl

  sdk_call-err :
      (ctx : Ctx) (cmd : String) (params : Result Value) (nil_rep : Bool) (configs : List Config)
      (s u : client.State) {e : Error}
      → seed_gen s ≡ (err e, u)
      → sdk_call p codec client seed_gen ctx cmd params nil_rep configs s
        ≡ (err (wrapped (default_prefix 0) e), u)
  unfolding sdk_call ◌>>=◌ draw_all with_seed
  sdk_call-err ctx cmd params nil_rep configs s u h =
      rw (join_config-draws (default_configs p codec client seed_gen) configs s, h) refl

  sdk_call-panic :
      (ctx : Ctx) (cmd : String) (params : Result Value) (nil_rep : Bool) (configs : List Config)
      (s u : client.State) {e : String}
      → seed_gen s ≡ (panic e, u)
      → sdk_call p codec client seed_gen ctx cmd params nil_rep configs s ≡ (panic e, u)
  unfolding sdk_call ◌>>=◌ draw_all with_seed
  sdk_call-panic ctx cmd params nil_rep configs s u h =
      rw (join_config-draws (default_configs p codec client seed_gen) configs s, h) refl

  -- What a run of `Call` that returns `a` comes from: a drawn seed, and a call that succeeds and
  -- whose result, if there is one, decodes to `a`; without a result the passed message comes back.
  pub record Answers (ctx : Ctx) (method : String) (req : Result Value) (resp : A)
      (configs : List Config) (a : A) (s t : client.State) : Type 0 where
    pub seed : Bytes
    pub seeded : client.State
    pub draws : seed_gen s ≡ (ok seed, seeded)
    pub body : SuccessResponse
    pub calls :
        client.call ctx method (call_configs (cmd_params (req ∷ [])) seed configs) seeded
        ≡ (ok (success_response body), t)
    pub decodes :
        (has_no_data p codec false body.result ≡ true) × (a ≡ resp)
        ⊎ (has_no_data p codec false body.result ≡ false) × (codec.unmarshal_rep body.result ≡ ok a)

  Decoded : Bool → Result A → A → A → Type 0
  Decoded test m resp a = (test ≡ true) × (a ≡ resp) ⊎ (test ≡ false) × (m ≡ ok a)

  answered :
      (test : Bool) (b : Bytes) (m : Result A) (o : Option A) (resp a : A)
      → codec.unmarshal_rep b ≡ m
      → decode_rep p codec test b ≡ ok o
      → or_unchanged p codec client seed_gen resp o ≡ a
      → Decoded test (codec.unmarshal_rep b) resp a
  unfolding Decoded
  answered true b m o resp a e h k = inl (refl, ground arith)
  answered false b (ok x) o resp a e h k = inr (refl, ground arith)
  answered false b (err x) o resp a e h k = ground arith
  answered false b (panic x) o resp a e h k = ground arith

  mask_timeout-eq-ok : {B : Type 0} (r : Result B) {b : B} → mask_timeout r ≡ ok b → r ≡ ok b
  mask_timeout-eq-ok (ok b) h = h
  mask_timeout-eq-ok (err e) h = cc
  mask_timeout-eq-ok (panic x) h = cc

  call_masked-eq-ok :
      (ctx : Ctx) (cmd : String) (cs : List Config) (u t : client.State) {r : ShiroResponse}
      → call_masked p codec client seed_gen ctx cmd cs u ≡ (ok r, t)
      → client.call ctx cmd cs u ≡ (ok r, t)
  call_masked-eq-ok ctx cmd cs u t h =
      let e = mask_timeout-eq-ok (client.call ctx cmd cs u).0 (ap (λ x. x.0) h) in
      let f = ap (λ x. x.1) h in λ i. (e i, f i)

  answer-eq-ok :
      (r : ShiroResponse) {o : Option A}
      → answer p codec false r ≡ ok o
      → (b : SuccessResponse) × (r ≡ success_response b)
        × (decode_rep p codec (has_no_data p codec false b.result) b.result ≡ ok o)
  unfolding answer
  answer-eq-ok (failure_response e) h = cc
  answer-eq-ok (success_response b) h = (b, refl, h)

  module _ (ctx : Ctx) (method : String) (req : Result Value) (resp a : A) (configs : List Config)
      (s t : client.State) where
    finished :
        (b : Bytes)
        → (has_no_data p codec false b ≡ true) × (a ≡ resp)
          ⊎ (has_no_data p codec false b ≡ false) × (codec.unmarshal_rep b ≡ ok a)
        → (lift (decode_rep p codec (has_no_data p codec false b) b) >>= λ o.
              pure (or_unchanged p codec client seed_gen resp o))
            t
          ≡ (ok a, t)
    unfolding ◌>>=◌
    finished b (inl h) = rw (h.0, h.1) refl
    finished b (inr h) = rw (h.0, h.1) refl

    seeded-Answers :
        (seed : Bytes) (u : client.State)
        → seed_gen s ≡ (ok seed, u)
        → (o : Option A)
        → (call_masked p codec client seed_gen ctx method
                (call_configs (cmd_params (req ∷ [])) seed configs)
              >>= λ resp. lift (answer p codec false resp))
            u
          ≡ (ok o, t)
        → or_unchanged p codec client seed_gen resp o ≡ a
        → Answers ctx method req resp configs a s t
    unfolding Decoded
    seeded-Answers seed u draws o h k =
        let (r, v, e, j) = bind-eq-ok _ _ u h in
        let (er, ev) = lift-eq-ok (answer p codec false r) v j in
        let (b, eb, d) = answer-eq-ok r er in
        record {
          seed = seed;
          seeded = u;
          draws = draws;
          body = b;
          calls = call_masked-eq-ok ctx method _ u v e ∙ (λ i. (ok (eb i), ev i));
          decodes = answered _ b.result _ o resp a refl d k;
        }

    drawn-Answers :
        (r : Result Bytes) (u : client.State)
        → seed_gen s ≡ (r, u)
        → (o : Option A)
        → sdk_call p codec client seed_gen ctx method (cmd_params (req ∷ [])) false configs s
          ≡ (ok o, t)
        → or_unchanged p codec client seed_gen resp o ≡ a
        → Answers ctx method req resp configs a s t
    drawn-Answers (ok seed) u e o h k =
        seeded-Answers seed u e o (sym (sdk_call-seeded ctx method _ false configs s u e) ∙ h) k
    drawn-Answers (err x) u e o h k =
        let f = sdk_call-err ctx method (cmd_params (req ∷ [])) false configs s u e in cc
    drawn-Answers (panic x) u e o h k =
        let f = sdk_call-panic ctx method (cmd_params (req ∷ [])) false configs s u e in cc

    call-Answers :
        call p codec client seed_gen ctx method req resp configs s ≡ (ok a, t)
        → Answers ctx method req resp configs a s t
    unfolding call
    call-Answers h =
        let (o, u, e, j) = bind-eq-ok _ _ s h in
        let et = ap (λ x. x.1) j in
        drawn-Answers (seed_gen s).0 (seed_gen s).1 refl o (e ∙ ap (λ u. (ok o, u)) et)
          (ground (arith, ap (λ x. x.0) j))

    call-success :
        Answers ctx method req resp configs a s t
        → call p codec client seed_gen ctx method req resp configs s ≡ (ok a, t)
    unfolding call ◌>>=◌ answer
    call-success h =
        rw
          (
            sdk_call-seeded ctx method (cmd_params (req ∷ [])) false configs s h.seeded h.draws,
            h.calls,
          )
          (finished h.body.result h.decodes)

    -- `Call` returns a message exactly if a seed is drawn and then one call of the method, with the
    -- request for its parameter, the seed in the transient data and the caller's configs after both,
    -- succeeds, and either has no result, then the message is the one passed in, or a result that
    -- decodes to the message.
    pub call_iff :
        (call p codec client seed_gen ctx method req resp configs s ≡ (ok a, t))
        ↔ Answers ctx method req resp configs a s t
    call_iff = (call-Answers, call-success)
