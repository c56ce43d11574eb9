-- ===== src/Plugin/Trace.antt =====
-- A host that keeps a trace of the plugin processes started and killed.
use shiroclient_sdk_go.Prelude.{ℕ, List, [], ◌∷◌, ◌++◌, ◌≡◌, refl, ◌∙◌}
use shiroclient_sdk_go.Errors.{Result, ok, err, panic}
use shiroclient_sdk_go.Exec.{Exec, lift, continue, ◌>>=◌}
use shiroclient_sdk_go.Plugin.Connection.{Host}

pub data ProcessEvent : Type 0 where
  launched killed : ℕ → ProcessEvent

-- A state beside the trace so far.
abbrev pub Traced : Type 0 → Type 0
Traced S = S × List ProcessEvent

module _ {S A : Type 0} where
  -- An action that starts and kills no process.
  abbrev pub over : Exec S A → Exec (Traced S) A
  over m st = let (r, t) = m st.0 in (r, (t, st.1))

  abbrev pub Quiet : Exec (Traced S) A → Type 0
  Quiet m = (st : Traced S) → (m st).1.1 ≡ st.1

  pub over-Quiet : (m : Exec S A) → Quiet (over m)
  over-Quiet m st = refl

  pub lift-Quiet : (r : Result A) → Quiet (lift r)
  lift-Quiet r st = refl

module _ {S A B : Type 0} where
  continue-Quiet :
      (r : Result A) (f : A → Exec (Traced S) B) → ((a : A) → Quiet (f a)) → Quiet (continue r f)
  continue-Quiet (ok a) f h st = h a st
  continue-Quiet (err e) f h st = refl
  continue-Quiet (panic t) f h st = refl

  -- If what follows is quiet, only the first action counts.
  pub bind-trace :
      (m : Exec (Traced S) A) (f : A → Exec (Traced S) B)
      → ((a : A) → Quiet (f a))
      → (st : Traced S) → ((m >>= f) st).1.1 ≡ (m st).1.1
  unfolding ◌>>=◌
  bind-trace m f h st = continue-Quiet (m st).0 f h (m st).1

  pub bind-Quiet :
      (m : Exec (Traced S) A) (f : A → Exec (Traced S) B)
      → Quiet m
      → ((a : A) → Quiet (f a))
      → Quiet (m >>= f)
  bind-Quiet m f hm hf st = bind-trace m f hf st ∙ hm st

-- The host with its trace: a process is noted when it has been started, and when it is killed.
unfoldable pub noted : Result ℕ → List ProcessEvent
noted (ok n) = launched n ∷ []
noted (err e) = []
noted (panic t) = []

abbrev pub traced : Host → Host
traced h = record {
  State = Traced h.State;
  launch = λ config st. let (r, t) = h.launch config st.0 in (r, (t, st.1 ++ noted r));
  dispense = λ process name. over (h.dispense process name);
  kill = λ process st. (h.kill process st.0, st.1 ++ killed process ∷ []);
  health_check = λ process args. over (h.health_check process args);
  new_mock_from = λ process args. over (h.new_mock_from process args);
  set_creator = λ process args. over (h.set_creator process args);
  snapshot_mock = λ process args. over (h.snapshot_mock process args);
  close_mock = λ process args. over (h.close_mock process args);
  init = λ process args. over (h.init process args);
  call = λ process args. over (h.call process args);
  query_info = λ process args. over (h.query_info process args);
  query_block = λ process args. over (h.query_block process args);
}
