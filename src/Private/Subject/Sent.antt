-- ===== src/Private/Subject/Sent.antt =====
-- shiroclient/private/private.go: the call that `Purge` makes.
use shiroclient_sdk_go.Prelude.{String, some, List, [], ◌∷◌, ◌++◌, Bytes, ◌≡◌, sym, ap, ◌∙◌}
use shiroclient_sdk_go.Prelude.Dict.{lookup}
use shiroclient_sdk_go.Errors.{ok}
use shiroclient_sdk_go.Exec.{Exec}
use shiroclient_sdk_go.Json.{str, arr, of_elems}
use shiroclient_sdk_go.Types.{ShiroClient}
use shiroclient_sdk_go.Types.Options.{Ctx, Config, RequestOptions, run_configs}
use shiroclient_sdk_go.Types.Response.{Dst}
use shiroclient_sdk_go.Types.Recorded.{over, recorded}
use shiroclient_sdk_go.Platform.{Platform}
use shiroclient_sdk_go.Private.Seed.{seed_key}
use shiroclient_sdk_go.Private.Subject.{purge}
use shiroclient_sdk_go.Private.Subject.Laws.{purge_configs, purge_iff, purge_configs-carry}

module _ (p : Platform) (client : ShiroClient) (seed_gen : Exec client.State Bytes)
    (dst : Dst String) (ctx : Ctx) (dsid : String) (configs : List Config) where
  -- One call, whose configs give the DSID for the one parameter and put the seed that was drawn in the
  -- transient data, from whatever options they start.
  pub record Carries (s t : (recorded client).State) : Type 0 where
    pub seed : Bytes
    pub seeded : client.State
    pub draws : seed_gen s.0 ≡ (ok seed, seeded)
    pub sent_configs : List Config
    pub one_call :
        t.1 ≡ s.1 ++ record { ctx = ctx; method = "private_purge"; configs = sent_configs } ∷ []
    pub params :
        (r : RequestOptions)
        → (run_configs sent_configs r).params ≡ ok (arr (of_elems (str dsid ∷ [])))
    pub transient :
        (r : RequestOptions) → lookup seed_key (run_configs sent_configs r).transient ≡ some seed

  -- If `Purge` succeeds, it has made one call, of "private_purge", and the options of that call have the
  -- DSID for the one parameter and the seed that was drawn in the transient data, whatever the caller's
  -- configs set.
  pub purge-Carries :
      (s t : (recorded client).State)
      → purge p (recorded client) (over seed_gen) dst ctx dsid configs s ≡ (ok tt, t)
      → Carries s t
  purge-Carries s t h =
      let run = (purge_iff p (recorded client) (over seed_gen) dst ctx dsid configs s t).0 h in
      let (b, call, decodes) = run.same in
      let trace = ap (λ x. x.1.1) run.draws in
      record {
        seed = run.seed;
        seeded = run.seeded.0;
        draws = λ i. ((run.draws i).0, (run.draws i).1.0);
        sent_configs = purge_configs p client dsid run.seed configs;
        one_call =
            sym (ap (λ x. x.1.1) call)
            ∙ ap
                (λ es.
                  es
                  ++ record {
                    ctx = ctx;
                    method = "private_purge";
                    configs = purge_configs p client dsid run.seed configs;
                  }
                    ∷ [])
                (sym trace);
        params = λ r. (purge_configs-carry p client dsid run.seed configs r).0;
        transient = λ r. (purge_configs-carry p client dsid run.seed configs r).1;
      }
