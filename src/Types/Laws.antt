-- ===== src/Types/Laws.antt =====
-- How `ApplyConfigs` runs its configs.
use shiroclient_sdk_go.Prelude.{ℕ, String, Option, List, [], ◌∷◌, ◌++◌, ◌≡◌, refl}
use shiroclient_sdk_go.Types.Options.{Config, RequestOptions, run_configs, apply_configs}

pub run_configs-append :
    (xs ys : List Config) (r : RequestOptions)
    → run_configs (xs ++ ys) r ≡ run_configs ys (run_configs xs r)
unfolding run_configs
run_configs-append [] ys r = refl
run_configs-append (c ∷ xs) ys r = run_configs-append xs ys _

pub apply_configs-append :
    (uuid : String) (log : Option ℕ) (xs ys : List Config)
    → apply_configs uuid log (xs ++ ys) ≡ run_configs ys (apply_configs uuid log xs)
unfolding apply_configs
apply_configs-append uuid log xs ys = run_configs-append xs ys _
