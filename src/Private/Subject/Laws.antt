-- ===== src/Private/Subject/Laws.antt =====
-- When `Purge`, `Export` and `ProfileToDSID` succeed.
use shiroclient_sdk_go.Prelude.{
  String, some, List, [], ◌∷◌, ◌++◌, Bytes, ◌≡◌, ◌≢◌, refl, arith, ◌∙◌, sym, ap, ◌↔◌, eq_iff,
  eq_refl, ◌==◌, false,
}
use shiroclient_sdk_go.Prelude.Dict.{Dict, lookup, lookup-insert}
use shiroclient_sdk_go.Errors.{Result, ok, err, panic, errors_new}
use shiroclient_sdk_go.Exec.{Exec, lift, pure, continue, ◌>>=◌}
use shiroclient_sdk_go.Exec.Laws.{bind-eq-ok, lift-eq-ok}
use shiroclient_sdk_go.Json.{Value, str, arr, of_elems}
use shiroclient_sdk_go.Types.{ShiroClient}
use shiroclient_sdk_go.Types.Options.{Ctx, Config, RequestOptions, run_configs}
use shiroclient_sdk_go.Types.Laws.{run_configs-append}
use shiroclient_sdk_go.Types.Response.{
  Dst, ShiroResponse, SuccessResponse, success_response, unmarshal_to, unmarshal_proto,
}
use shiroclient_sdk_go.Configs.{with_params, with_transient_data}
use shiroclient_sdk_go.Platform.{Platform}
use shiroclient_sdk_go.Update.{call_accept}
use shiroclient_sdk_go.Update.Laws.{call_accept-eq-ok, call_accept-success}
use shiroclient_sdk_go.Private.Seed.{with_param, with_seed, seed_key}
use shiroclient_sdk_go.Private.Subject.{export, purge, expect_dsid, expect_same}

module _ (p : Platform) (client : ShiroClient) where
  -- A call that succeeds, and whose result decodes.
  abbrev pub Decodes :
      {A : Type 0} → Dst A → Ctx → String → List Config → A → client.State → client.State → Type 0
  Decodes dst ctx method configs a s t =
      (b : SuccessResponse) × (client.call ctx method configs s ≡ (ok (success_response b), t))
      × (unmarshal_proto b.result dst ≡ ok a)

  -- The configs of the call that `Purge` makes.
  abbrev pub purge_configs : String → Bytes → List Config → List Config
  purge_configs dsid seed configs =
      (configs ++ with_param (ok (str dsid)) ∷ []) ++ with_transient_data seed_key seed ∷ []

  -- What a run of `Purge` that succeeds comes from.
  pub record Purges (seed_gen : Exec client.State Bytes) (dst : Dst String) (ctx : Ctx)
      (dsid : String) (configs : List Config) (s t : client.State) : Type 0 where
    pub non_empty : dsid ≢ ""
    pub seed : Bytes
    pub seeded : client.State
    pub draws : seed_gen s ≡ (ok seed, seeded)
    pub same : Decodes dst ctx "private_purge" (purge_configs dsid seed configs) dsid seeded t

  neq-test : (s t : String) → s ≢ t → (s == t) ≡ false
  neq-test s t h = ground (arith, eq_iff s t)

  module _ {A : Type 0} (s : client.State) {a : A} {t : client.State} where
    -- What follows the guard runs from the same state.
    guarded-eq-ok :
        (dsid : String) (f : Unit {0} → Exec client.State A)
        → (expect_dsid p client dsid >>= f) s ≡ (ok a, t)
        → (dsid ≢ "") × (f tt s ≡ (ok a, t))
    unfolding ◌>>=◌
    guarded-eq-ok dsid f h = (ground (arith, eq_iff dsid ""), ground (arith, eq_iff dsid ""))

    -- The config that `withSeed` makes carries the seed that is drawn.
    drawn :
        (seed_gen : Exec client.State Bytes) (f : Config → Exec client.State A) (r : Result Bytes)
        (u : client.State)
        → seed_gen s ≡ (r, u)
        → (continue r (λ seed. pure (with_transient_data seed_key seed)) >>= f) u ≡ (ok a, t)
        → (seed : Bytes) × (u : client.State) × (seed_gen s ≡ (ok seed, u))
          × (f (with_transient_data seed_key seed) u ≡ (ok a, t))
    unfolding ◌>>=◌
    drawn seed_gen f (ok seed) u e h = (seed, u, e, h)
    drawn seed_gen f (err x) u e h = cc
    drawn seed_gen f (panic x) u e h = cc

    seeded-eq-ok :
        (seed_gen : Exec client.State Bytes) (f : Config → Exec client.State A)
        → (with_seed p seed_gen >>= f) s ≡ (ok a, t)
        → (seed : Bytes) × (u : client.State) × (seed_gen s ≡ (ok seed, u))
          × (f (with_transient_data seed_key seed) u ≡ (ok a, t))
    unfolding with_seed ◌>>=◌
    seeded-eq-ok seed_gen f h = drawn seed_gen f (seed_gen s).0 (seed_gen s).1 refl h

  -- A successful call before something that decodes its result.
  accepted-Decodes :
      {A : Type 0} (dst : Dst A) (ctx : Ctx) (method : String) (configs : List Config) (a : A)
      (s t u : client.State) {resp : ShiroResponse}
      → call_accept p client ctx method configs s ≡ (ok resp, t)
      → lift (unmarshal_to resp dst) t ≡ (ok a, u)
      → Decodes dst ctx method configs a s u
  unfolding unmarshal_to
  accepted-Decodes dst ctx method configs a s t u {resp} h k =
      let (b, eb, ec) = call_accept-eq-ok p client ctx method configs s h in
      let (er, es) = lift-eq-ok (unmarshal_to resp dst) t k in
      (
        b,
        ec ∙ ap (λ u. (ok (success_response b), u)) es,
        sym (ap (λ r. unmarshal_to r dst) eb) ∙ er,
      )

  same-eq-ok :
      (dst : Dst String) (got dsid : String) (resp : ShiroResponse) (s u t : client.State)
      → lift (unmarshal_to resp dst) s ≡ (ok got, u)
      → expect_same p client got dsid u ≡ (ok tt, t)
      → lift (unmarshal_to resp dst) s ≡ (ok dsid, t)
  same-eq-ok dst got dsid resp s u t h k = ground (arith, eq_iff got dsid)

  checked-Decodes :
      (dst : Dst String) (ctx : Ctx) (method : String) (configs : List Config) (dsid : String)
      (s t : client.State)
      → (call_accept p client ctx method configs >>= λ resp.
            lift (unmarshal_to resp dst) >>= λ got. expect_same p client got dsid)
          s
        ≡ (ok tt, t)
      → Decodes dst ctx method configs dsid s t
  checked-Decodes dst ctx method configs dsid s t h =
      let (resp, u, e, k) = bind-eq-ok _ _ s h in
      let (got, v, e', k') = bind-eq-ok _ _ u k in
      accepted-Decodes dst ctx method configs dsid s u t e
        (same-eq-ok dst got dsid resp u v t e' k')

  module _ (seed_gen : Exec client.State Bytes) (dst : Dst String) (ctx : Ctx) (dsid : String)
      (configs : List Config) (s t : client.State) where
    purge-eq-ok :
        purge p client seed_gen dst ctx dsid configs s ≡ (ok tt, t)
        → Purges seed_gen dst ctx dsid configs s t
    unfolding purge
    purge-eq-ok h =
        let (non_empty, k) = guarded-eq-ok s dsid _ h in
        let (seed, u, draws, j) = seeded-eq-ok s seed_gen _ k in
        record {
          non_empty = non_empty;
          seed = seed;
          seeded = u;
          draws = draws;
          same = checked-Decodes dst ctx _ _ dsid u t j;
        }

    purge-success :
        Purges seed_gen dst ctx dsid configs s t
        → purge p client seed_gen dst ctx dsid configs s ≡ (ok tt, t)
    unfolding purge with_seed ◌>>=◌ unmarshal_to
    purge-success h =
        let (b, c, d) = h.same in
        rw
          (
            neq-test dsid "" h.non_empty,
            h.draws,
            call_accept-success p client ctx _ _ h.seeded c,
            d,
            eq_refl dsid,
          )
          refl

    -- `Purge` succeeds exactly if the DSID is not empty, a seed is drawn, and then one call of
    -- "private_purge", with the DSID for the parameter and the seed in the transient data, succeeds
    -- with a result that decodes to the same DSID.
    pub purge_iff :
        (purge p client seed_gen dst ctx dsid configs s ≡ (ok tt, t))
        ↔ Purges seed_gen dst ctx dsid configs s t
    purge_iff = (purge-eq-ok, purge-success)

  module _ (dst : Dst (Dict Value)) (ctx : Ctx) (dsid : String) (configs : List Config)
      (exported : Dict Value) (s t : client.State) where
    -- What a run of `Export` that returns `exported` comes from.
    abbrev pub Exports : Type 0
    Exports =
        (dsid ≢ "")
        × Decodes dst ctx "private_export" (configs ++ with_param (ok (str dsid)) ∷ []) exported s t

    export-eq-ok : export p client dst ctx dsid configs s ≡ (ok exported, t) → Exports
    unfolding export
    export-eq-ok h =
        let (non_empty, k) = guarded-eq-ok s dsid _ h in
        let (resp, u, e, j) = bind-eq-ok _ _ s k in
        (non_empty, accepted-Decodes dst ctx _ _ exported s u t e j)

    export-success : Exports → export p client dst ctx dsid configs s ≡ (ok exported, t)
    unfolding export ◌>>=◌ unmarshal_to
    export-success (non_empty, decoded) =
        let (b, c, d) = decoded in
        rw (neq-test dsid "" non_empty, call_accept-success p client ctx _ _ s c, d) refl

    -- `Export` returns the data of a user exactly if the DSID is not empty and one call of
    -- "private_export", with the DSID for the parameter, succeeds with a result that decodes to
    -- those data.
    pub export_iff : (export p client dst ctx dsid configs s ≡ (ok exported, t)) ↔ Exports
    export_iff = (export-eq-ok, export-success)

  -- For an empty DSID, `Purge` and `Export` fail, draw no seed and make no call.
  empty_dsid_refused :
      (seed_gen : Exec client.State Bytes) (purge_dst : Dst String) (export_dst : Dst (Dict Value))
      (ctx : Ctx) (configs : List Config) (s : client.State)
      → (purge p client seed_gen purge_dst ctx "" configs s
          ≡ (err (errors_new "invalid empty DSID"), s))
        × (export p client export_dst ctx "" configs s ≡ (err (errors_new "invalid empty DSID"), s))
  unfolding purge export ◌>>=◌
  empty_dsid_refused seed_gen purge_dst export_dst ctx configs s = (refl, refl)

-- The call of `Purge` carries the DSID for its one parameter, whatever parameters the caller's configs
-- set, and the seed in its transient data.
pub purge_configs-carry :
    (p : Platform) (client : ShiroClient) (dsid : String) (seed : Bytes) (configs : List Config)
    (r : RequestOptions)
    → let sent = run_configs (purge_configs p client dsid seed configs) r in
      (sent.params ≡ ok (arr (of_elems (str dsid ∷ []))))
      × (lookup seed_key sent.transient ≡ some seed)
unfolding run_configs with_param with_params with_transient_data
purge_configs-carry p client dsid seed configs r =
    rw
      (
        run_configs-append (configs ++ with_param (ok (str dsid)) ∷ [])
            (with_transient_data seed_key seed ∷ []) r,
        run_configs-append configs (with_param (ok (str dsid)) ∷ []) r,
      )
      (refl, lookup-insert seed_key seed_key seed _)
