-- ===== src/Types/Recorded.antt =====
-- A client that keeps a trace of the calls made of it.
use shiroclient_sdk_go.Prelude.{String, List, [], ◌∷◌, ◌++◌}
use shiroclient_sdk_go.Exec.{Exec}
use shiroclient_sdk_go.Types.{ShiroClient}
use shiroclient_sdk_go.Types.Options.{Ctx, Config}

pub record Request : Type 0 where
  pub ctx : Ctx
  pub method : String
  pub configs : List Config

-- An action that leaves the trace alone.
abbrev pub over : {E S A : Type 0} → Exec S A → Exec (S × List E) A
over m st = let (r, t) = m st.0 in (r, (t, st.1))

-- The client, with a trace beside its state in which each request of `Call` is noted, the first one
-- first.
abbrev pub traced : {E : Type 0} → (Request → E) → ShiroClient → ShiroClient
traced {E} note client = record {
  State = client.State × List E;
  seed = λ ctx version configs. over (client.seed ctx version configs);
  shiro_phylum = λ ctx configs. over (client.shiro_phylum ctx configs);
  init = λ ctx code configs. over (client.init ctx code configs);
  call = λ ctx method configs st.
      let (r, t) = client.call ctx method configs st.0 in
      (r, (t, st.1 ++ note (record { ctx = ctx; method = method; configs = configs }) ∷ []));
  query_info = λ ctx configs. over (client.query_info ctx configs);
  query_block = λ ctx n configs. over (client.query_block ctx n configs);
}

abbrev pub recorded : ShiroClient → ShiroClient
recorded client = traced (λ r. r) client
