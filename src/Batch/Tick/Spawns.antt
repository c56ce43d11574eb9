-- ===== src/Batch/Tick/Spawns.antt =====
-- Which envelopes of a poll get a task.
use shiroclient_sdk_go.Prelude.{
  ℕ, String, Bool, true, false, arith, List, [], ◌∷◌, ◌++◌, ◌≡◌, ◌≢◌, refl, ap, ◌⊎◌, inl, inr, All,
  Bytes, eq_iff, is_empty, ◌==◌, ◌||◌,
}
use shiroclient_sdk_go.Batch.Driver.{RequestEnvelope}
use shiroclient_sdk_go.Batch.Tick.{is_blank, spawned}

-- The envelope has its two IDs and a message; or it lacks one of the three.
abbrev pub IsComplete : RequestEnvelope → Type 0
IsComplete env = (env.batch_id ≢ "") × (env.request_id ≢ "") × (env.message ≢ [])

abbrev pub LacksField : RequestEnvelope → Type 0
LacksField env = (env.batch_id ≡ "") ⊎ (env.request_id ≡ "") ⊎ (env.message ≡ [])

-- What is left out: nothing, or all from an envelope on that lacks a field.
abbrev pub StopsAtBlank : List RequestEnvelope → Type 0
StopsAtBlank rest =
    (rest ≡ [])
    ⊎ ((env : RequestEnvelope) × (more : List RequestEnvelope) × (rest ≡ env ∷ more)
        × LacksField env)

pub record IsSpawn (envs : List RequestEnvelope) : Type 0 where
  pub rest : List RequestEnvelope
  pub splits : envs ≡ spawned envs ++ rest
  pub complete : All IsComplete (spawned envs)
  pub stops : StopsAtBlank rest

cons_not_nil : (b : ℕ) (bs : Bytes) → (b ∷ bs) ≢ []
cons_not_nil b bs e = cc

fields_complete :
    (batch request : String) (message : Bytes)
    → (batch == "" || request == "" || is_empty message) ≡ false
    → (batch ≢ "") × (request ≢ "") × (message ≢ [])
fields_complete batch request [] e = ground (arith, eq_iff batch "", eq_iff request "")
fields_complete batch request (b ∷ bs) e = (
  λ f. ground (arith, eq_iff batch ""),
  λ f. ground (arith, eq_iff request ""),
  cons_not_nil b bs,
)

fields_lacking :
    (batch request : String) (message : Bytes)
    → (batch == "" || request == "" || is_empty message) ≡ true
    → (batch ≡ "") ⊎ (request ≡ "") ⊎ (message ≡ [])
fields_lacking batch request [] e = inr (inr refl)
fields_lacking batch request (b ∷ bs) e = ground (arith, eq_iff batch "", eq_iff request "")

IsSpawn-cons :
    (env : RequestEnvelope) (envs : List RequestEnvelope) (b : Bool)
    → is_blank env ≡ b
    → IsSpawn envs
    → IsSpawn (env ∷ envs)
unfolding spawned
IsSpawn-cons env envs true e h = record {
  rest = env ∷ envs;
  splits = rw e refl;
  complete = rw e tt;
  stops = inr (env, envs, refl, fields_lacking env.batch_id env.request_id env.message e);
}
IsSpawn-cons env envs false e h = record {
  rest = h.rest;
  splits = rw e (ap (λ m. env ∷ m) h.splits);
  complete = rw e (fields_complete env.batch_id env.request_id env.message e, h.complete);
  stops = h.stops;
}

-- The envelopes that get a task are the first ones, up to the first with a blank field: all of them
-- have a batch ID, a request ID and a message, and what follows them, if anything does, starts with
-- one that lacks one of the three.
pub spawned-IsSpawn : (envs : List RequestEnvelope) → IsSpawn envs
unfolding spawned
spawned-IsSpawn [] = record { rest = []; splits = refl; complete = tt; stops = inl refl }
spawned-IsSpawn (env ∷ envs) = IsSpawn-cons env envs (is_blank env) refl (spawned-IsSpawn envs)
