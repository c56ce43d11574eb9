-- ===== src/Configs/Laws.antt =====
-- What a list of configs does to the transient data of a request.
use shiroclient_sdk_go.Prelude.{
  ℕ, String, Option, some, List, [], ◌∷◌, ◌++◌, ◌≡◌, refl, Bytes, ◌∙◌, eq_refl,
}
use shiroclient_sdk_go.Prelude.Dict.{lookup, lookup-insert}
use shiroclient_sdk_go.Types.Options.{Config, RequestOptions, fn, run_configs, apply_configs}
use shiroclient_sdk_go.Types.Laws.{apply_configs-append}
use shiroclient_sdk_go.Configs.{with_transient_data}

-- A config that leaves the entry for `k` alone.
abbrev pub KeepsTransient : String → Config → Type 0
KeepsTransient k c = (r : RequestOptions) → lookup k (fn c r).transient ≡ lookup k r.transient

abbrev pub AllKeep : String → List Config → Type 0
AllKeep k [] = Unit
AllKeep k (c ∷ cs) = KeepsTransient k c × AllKeep k cs

pub run_configs-KeepsTransient :
    (k : String) (cs : List Config) (r : RequestOptions)
    → AllKeep k cs
    → lookup k (run_configs cs r).transient ≡ lookup k r.transient
unfolding run_configs
run_configs-KeepsTransient k [] r h = refl
run_configs-KeepsTransient k (c ∷ cs) r (here, rest) =
    run_configs-KeepsTransient k cs (fn c r) rest ∙ here r

-- The last config that sets a transient key decides its value: whatever the configs before it are,
-- and whatever those after it do to other fields and other keys.
pub transient_last_wins :
    (uuid : String) (log : Option ℕ) (before after : List Config) (k : String) (v : Bytes)
    → AllKeep k after
    → lookup k (apply_configs uuid log (before ++ with_transient_data k v ∷ after)).transient
      ≡ some v
unfolding with_transient_data run_configs
transient_last_wins uuid log before after k v h =
    rw apply_configs-append (run_configs-KeepsTransient k after _ h ∙ simp (lookup-insert, eq_refl))
