-- ===== src/Mock/Lifecycle.antt =====
-- The plugin processes of a program that makes, uses and closes mock clients.
use shiroclient_sdk_go.Prelude.{
  ℕ, ◌+◌, String, List, [], ◌∷◌, ◌++◌, ◌≡◌, refl, sym, ap, ◌∙◌, map, arith, count, count-append,
}
use shiroclient_sdk_go.Prelude.Dict.{Dict}
use shiroclient_sdk_go.Errors.{Error, Result, ok, err, panic}
use shiroclient_sdk_go.Types.Options.{Ctx, Config}
use shiroclient_sdk_go.Plugin.Connection.{Host}
use shiroclient_sdk_go.Plugin.Trace.{ProcessEvent, launched, killed, Traced, traced, noted}
use shiroclient_sdk_go.Mock.{
  Machine, init, call, query_info, query_block, snapshot, set_creator_with_attributes, close,
}
use shiroclient_sdk_go.Mock.Start.{new_mock}
use shiroclient_sdk_go.Mock.Options.{MockConfig, MockOption, mock_config}
use shiroclient_sdk_go.Mock.Quiet.{
  traced_machine, TracedClient, init-Quiet, call-Quiet, query_info-Quiet, query_block-Quiet,
  snapshot-Quiet, set_creator-Quiet,
}
use shiroclient_sdk_go.Mock.Launches.{
  new_mock-client, new_mock-trace, launch_trace, path_result, Returned, close-trace,
}

-- The processes that a trace starts, and those that it kills.
abbrev pub starts : List ProcessEvent → List ℕ
starts [] = []
starts (launched n ∷ es) = n ∷ starts es
starts (killed n ∷ es) = starts es

abbrev pub kills : List ProcessEvent → List ℕ
kills [] = []
kills (launched n ∷ es) = kills es
kills (killed n ∷ es) = n ∷ kills es

starts-append : (xs ys : List ProcessEvent) → starts (xs ++ ys) ≡ starts xs ++ starts ys
starts-append [] ys = refl
starts-append (launched n ∷ xs) ys = ap (λ ns. n ∷ ns) (starts-append xs ys)
starts-append (killed n ∷ xs) ys = starts-append xs ys

kills-append : (xs ys : List ProcessEvent) → kills (xs ++ ys) ≡ kills xs ++ kills ys
kills-append [] ys = refl
kills-append (launched n ∷ xs) ys = kills-append xs ys
kills-append (killed n ∷ xs) ys = ap (λ ns. n ∷ ns) (kills-append xs ys)

count-starts :
    (i : ℕ) (xs ys : List ProcessEvent)
    → count i (starts (xs ++ ys)) ≡ count i (starts xs) + count i (starts ys)
count-starts i xs ys = rw starts-append (count-append i (starts xs) (starts ys))

count-kills :
    (i : ℕ) (xs ys : List ProcessEvent)
    → count i (kills (xs ++ ys)) ≡ count i (kills xs) + count i (kills ys)
count-kills i xs ys = rw kills-append (count-append i (kills xs) (kills ys))

module _ (h : Host) (m : Machine h.State) where
  Client : Type 0
  Client = TracedClient h m

  -- A use of a client: one of its methods that reach the plugin.
  pub data Use (c : TracedClient h m) : Traced h.State → Traced h.State → Type 0 where
    inits :
        (ctx : Ctx) (phylum : String) (configs : List Config) (st : Traced h.State)
        → Use c st (init (traced h) (traced_machine m) c ctx phylum configs st).1
    calls :
        (ctx : Ctx) (method : String) (configs : List Config) (st : Traced h.State)
        → Use c st (call (traced h) (traced_machine m) c ctx method configs st).1
    asks_info :
        (ctx : Ctx) (configs : List Config) (st : Traced h.State)
        → Use c st (query_info (traced h) (traced_machine m) c ctx configs st).1
    asks_block :
        (ctx : Ctx) (block_number : ℕ) (configs : List Config) (st : Traced h.State)
        → Use c st (query_block (traced h) (traced_machine m) c ctx block_number configs st).1
    snapshots :
        (w : ℕ) (st : Traced h.State) → Use c st (snapshot (traced h) (traced_machine m) c w st).1
    sets_creator :
        (creator : String) (attrs : Dict String) (st : Traced h.State)
        → Use c st (set_creator_with_attributes (traced h) (traced_machine m) c creator attrs st).1

  Use-trace : {c : TracedClient h m} {st st' : Traced h.State} → Use c st st' → st'.1 ≡ st.1
  Use-trace {c} (inits ctx phylum configs st) = init-Quiet h m c ctx phylum configs st
  Use-trace {c} (calls ctx method configs st) = call-Quiet h m c ctx method configs st
  Use-trace {c} (asks_info ctx configs st) = query_info-Quiet h m c ctx configs st
  Use-trace {c} (asks_block ctx n configs st) = query_block-Quiet h m c ctx n configs st
  Use-trace {c} (snapshots w st) = snapshot-Quiet h m c w st
  Use-trace {c} (sets_creator creator attrs st) = set_creator-Quiet h m c creator attrs st

  -- A program: its clients that are not closed yet, and the trace of the calls of
  -- `NewMock` that failed.
  pub record Program : Type 0 where
    pub state : Traced h.State
    pub clients : List (TracedClient h m)
    pub lost : List ProcessEvent

  -- What a program does: it makes a client, or fails to, uses a client, open or not, or closes an
  -- open one. A call that panics ends it.
  pub data Step : Program → Program → Type 0 where
    opens :
        (p : Program) (configs : List Config) (opts : List MockOption) (c : TracedClient h m)
        (st : Traced h.State)
        → new_mock (traced h) (traced_machine m) configs opts p.state ≡ (ok c, st)
        → Step p (record p { state = st; clients = c ∷ p.clients })
    fails :
        (p : Program) (configs : List Config) (opts : List MockOption) (e : Error) (s : h.State)
        (es : List ProcessEvent)
        → new_mock (traced h) (traced_machine m) configs opts p.state
          ≡ (err e, (s, p.state.1 ++ es))
        → Step p (record p { state = (s, p.state.1 ++ es); lost = p.lost ++ es })
    uses :
        (p : Program) (c : TracedClient h m) (st : Traced h.State)
        → Use c p.state st
        → Step p (record p { state = st })
    closes :
        (s : Traced h.State) (before after : List (TracedClient h m)) (lost : List ProcessEvent)
        (c : TracedClient h m)
        → Returned h m (close (traced h) (traced_machine m) c s).0
        → Step
            (record { state = s; clients = before ++ c ∷ after; lost = lost })
            (record {
              state = (close (traced h) (traced_machine m) c s).1;
              clients = before ++ after;
              lost = lost;
            })

  pub data Reach (p : Program) : Program → Type 0 where
    here : Reach p p
    next : {q r : Program} → Reach p q → Step q r → Reach p r

  abbrev pub processes : List (TracedClient h m) → List ℕ
  processes cs = map (λ (c : TracedClient h m). c.conn.client) cs

  -- For each process, as many starts as kills, clients that are not closed, and starts by calls of
  -- `NewMock` that failed.
  abbrev pub IsBalanced : Program → Type 0
  IsBalanced p =
      (i : ℕ)
      → count i (starts p.state.1)
        ≡ count i (kills p.state.1) + count i (processes p.clients) + count i (starts p.lost)

  noted-kills : (i : ℕ) (r : Result ℕ) → count i (kills (noted r)) ≡ 0
  unfolding noted
  noted-kills i (ok n) = refl
  noted-kills i (err e) = refl
  noted-kills i (panic t) = refl

  launch_trace-kills :
      (i : ℕ) (config : MockConfig) (r : Result String) (s : h.State)
      → count i (kills (launch_trace h m config r s)) ≡ 0
  launch_trace-kills i config (ok path) s = noted-kills i _
  launch_trace-kills i config (err e) s = refl
  launch_trace-kills i config (panic t) s = refl

  -- A call of `NewMock` kills no process.
  new_mock-kills :
      (configs : List Config) (opts : List MockOption) (st : Traced h.State)
      (es : List ProcessEvent)
      → (new_mock (traced h) (traced_machine m) configs opts st).1.1 ≡ st.1 ++ es
      → (i : ℕ) → count i (kills es) ≡ 0
  new_mock-kills configs opts st es e i =
      let trace = launch_trace h m (mock_config opts) (path_result h m configs opts st) st.0 in
      let same_kills = ap (λ x. count i (kills x)) (sym e ∙ new_mock-trace h m configs opts st) in
      omega (
        arith,
        same_kills,
        count-kills i st.1 es,
        count-kills i st.1 trace,
        launch_trace-kills i (mock_config opts) (path_result h m configs opts st) st.0,
      )

  count-processes :
      (i : ℕ) (xs ys : List (TracedClient h m))
      → count i (processes (xs ++ ys)) ≡ count i (processes xs) + count i (processes ys)
  count-processes i [] ys = omega arith
  count-processes i (x ∷ xs) ys = omega (arith, count-processes i xs ys)

  Step-IsBalanced : {p q : Program} → Step p q → IsBalanced p → IsBalanced q
  Step-IsBalanced (opens p configs opts c st e) v i =
      let es = new_mock-client h m configs opts p.state c st e in
      rw es (
        omega (
          arith,
          v i,
          count-starts i p.state.1 (launched c.conn.client ∷ []),
          count-kills i p.state.1 (launched c.conn.client ∷ []),
        ))
  Step-IsBalanced (fails p configs opts x s es e) v i = omega (
    arith,
    v i,
    count-starts i p.state.1 es,
    count-kills i p.state.1 es,
    count-starts i p.lost es,
    new_mock-kills configs opts p.state es (ap (λ x. x.1.1) e) i,
  )
  Step-IsBalanced (uses p c st u) v i = rw (Use-trace u) (v i)
  Step-IsBalanced (closes s before after lost c r) v i = rw (close-trace h m c s r) (
      omega (
        arith,
        v i,
        count-starts i s.1 (killed c.conn.client ∷ []),
        count-kills i s.1 (killed c.conn.client ∷ []),
        count-processes i before after,
        count-processes i before (c ∷ after),
      ))

  -- Whatever a program does with mock clients, from a start without clients and with an empty trace: each
  -- plugin process has been started as often as it has been killed, plus the number of clients
  -- connected to it that are not closed, plus the number of failed calls of `NewMock` that had started it.
  pub processes-IsBalanced :
      (s : h.State) (p : Program)
      → Reach (record { state = (s, []); clients = []; lost = [] }) p
      → IsBalanced p
  processes-IsBalanced s p here = λ i. refl
  processes-IsBalanced s p (next {q} r step) = Step-IsBalanced step (processes-IsBalanced s q r)
