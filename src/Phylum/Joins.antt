-- ===== src/Phylum/Joins.antt =====
-- shiroclient/phylum/phylum.go: `joinConfig`.
use shiroclient_sdk_go.Prelude.{
  ℕ, zero, suc, ◌+◌, String, Option, none, some, List, [], ◌∷◌, ◌++◌, ◌≡◌, refl, map, length,
  concat, print_ℕ, arith, length-append, append_assoc, sym, ap, ◌∙◌,
}
use shiroclient_sdk_go.Errors.{Result, ok, err, panic, value_or}
use shiroclient_sdk_go.Errors
use shiroclient_sdk_go.Exec.{Exec, pure, lift, wrap_exec, continue, ◌>>=◌}
use shiroclient_sdk_go.Exec.Laws.{bind-eq-ok}
use shiroclient_sdk_go.Types.Options.{Config}

-- `make([]Config, n)`: nil entries.
unfoldable pub nils : ℕ → List (Option Config)
nils zero = []
nils (suc n) = none ∷ nils n

-- `conf[i] = c`
unfoldable pub set_at : ℕ → Config → List (Option Config) → Result (List (Option Config))
set_at i c [] = panic "index out of range"
set_at zero c (x ∷ conf) = ok (some c ∷ conf)
set_at (suc i) c (x ∷ conf) = Errors.◌>>=◌ (set_at i c conf) λ rest. ok (x ∷ rest)

-- `copy(conf[n:], add)`: as many entries as both have.
copy_over : List Config → List (Option Config) → List (Option Config)
copy_over [] conf = conf
copy_over (c ∷ add) [] = []
copy_over (c ∷ add) (x ∷ conf) = some c ∷ copy_over add conf

unfoldable pub copy_from : ℕ → List Config → List (Option Config) → List (Option Config)
unfolding copy_over
copy_from zero add conf = copy_over add conf
copy_from (suc n) add [] = []
copy_from (suc n) add (x ∷ conf) = x ∷ copy_from n add conf

-- No entry is nil; a client that is given one calls a method of it, and panics.
unfoldable pub all_set : List (Option Config) → Result (List Config)
all_set [] = ok []
all_set (none ∷ cs) = panic "nil config"
all_set (some c ∷ cs) = Errors.◌>>=◌ (all_set cs) λ rest. ok (c ∷ rest)

abbrev pub default_prefix : ℕ → String
default_prefix i = concat ("default shiroclient config " ∷ print_ℕ i ∷ ": " ∷ [])

module _ {S : Type 0} where
  -- The loop over the package's defaults.
  unfoldable pub set_defaults :
      List (Exec S Config) → ℕ → List (Option Config) → Exec S (List (Option Config))
  unfolding set_at
  set_defaults [] i conf = pure conf
  set_defaults (d ∷ ds) i conf = do
    c ← wrap_exec (default_prefix i) d
    conf ← lift (set_at i c conf)
    set_defaults ds (suc i) conf

  -- `joinConfig`; the loop runs over `defaultConfigs`, not over `base`.
  unfoldable pub join_config :
      List (Exec S Config) → List (Exec S Config) → List Config → Exec S (List (Option Config))
  unfolding set_defaults nils copy_from
  join_config default_configs base add = do
    conf ← set_defaults default_configs 0 (nils (length base + length add))
    pure (copy_from (length base) add conf)

  -- The defaults in their order, without an array.
  unfoldable pub draw_all : List (Exec S Config) → ℕ → Exec S (List Config)
  draw_all [] i = pure []
  draw_all (d ∷ ds) i = do
    c ← wrap_exec (default_prefix i) d
    cs ← draw_all ds (suc i)
    pure (c ∷ cs)

set_at-append :
    (k : ℕ) (pre : List (Option Config)) (c : Config) (post : List (Option Config))
    → k ≡ length pre
    → set_at k c (pre ++ none ∷ post) ≡ ok (pre ++ some c ∷ post)
unfolding set_at
set_at-append zero [] c post e = refl
set_at-append zero (x ∷ pre) c post e = elim (impossible e) [ ]
  where
    impossible : zero ≡ length (x ∷ pre) → ⊥
    impossible e = omega (arith, e)
set_at-append (suc k) [] c post e = elim (impossible e) [ ]
  where
    impossible : suc k ≡ zero → ⊥
    impossible e = omega (arith, e)
set_at-append (suc k) (x ∷ pre) c post e =
    let f : k ≡ length pre = omega (arith, e) in rw (set_at-append k pre c post f) refl

copy_over-nils : (add : List Config) → copy_over add (nils (length add)) ≡ map some add
unfolding copy_over nils
copy_over-nils [] = refl
copy_over-nils (c ∷ add) = ap (λ m. some c ∷ m) (copy_over-nils add)

copy_from-append :
    (pre add : List Config)
    → copy_from (length pre) add (map some pre ++ nils (length add)) ≡ map some (pre ++ add)
unfolding copy_from
copy_from-append [] add = copy_over-nils add
copy_from-append (c ∷ pre) add = ap (λ m. some c ∷ m) (copy_from-append pre add)

nils-plus : (m n : ℕ) → nils (m + n) ≡ nils m ++ nils n
unfolding nils
nils-plus zero n = let e : zero + n ≡ n = omega arith in ap nils e
nils-plus (suc m) n =
    let e : suc m + n ≡ suc (m + n) = omega arith in ap nils e ∙ ap (λ m. none ∷ m) (nils-plus m n)

module _ {S : Type 0} where
  -- The drawn configs, between what stands before and after them.
  place :
      List (Option Config)
      → List (Option Config)
      → Result (List Config)
      → S
      → Result (List (Option Config)) × S
  place pre tail (ok cs) t = (ok (pre ++ (map some cs ++ tail)), t)
  place pre tail (err e) t = (err e, t)
  place pre tail (panic x) t = (panic x, t)

  -- From a filled part on, the loop fills as many entries as there are defaults.
  abbrev Draws : List (Exec S Config) → Type 0
  Draws ds =
      (k : ℕ) (pre tail : List (Option Config)) (s : S)
      → k ≡ length pre
      → set_defaults ds k (pre ++ (nils (length ds) ++ tail)) s
        ≡ place pre tail (draw_all ds k s).0 (draw_all ds k s).1

  place-cons :
      (c : Config) (pre tail : List (Option Config)) (r : Result (List Config)) (t : S)
      → place (pre ++ some c ∷ []) tail r t
        ≡ place pre tail
            (continue r (λ cs. pure (c ∷ cs)) t).0
            (continue r (λ cs. pure (c ∷ cs)) t).1
  unfolding place
  place-cons c pre tail (ok cs) t = rw (append_assoc pre (some c ∷ []) (map some cs ++ tail)) refl
  place-cons c pre tail (err e) t = refl
  place-cons c pre tail (panic x) t = refl

  set_defaults-step :
      (d : Exec S Config) (ds : List (Exec S Config)) (k : ℕ) (pre tail : List (Option Config))
      (s : S) (r : Result Config) (t : S)
      → Draws ds
      → k ≡ length pre
      → d s ≡ (r, t)
      → set_defaults (d ∷ ds) k (pre ++ (none ∷ (nils (length ds) ++ tail))) s
        ≡ place pre tail (draw_all (d ∷ ds) k s).0 (draw_all (d ∷ ds) k s).1
  unfolding set_defaults draw_all ◌>>=◌ place
  set_defaults-step d ds k pre tail s (ok c) t ih en e =
      let suc_length : suc k ≡ length (pre ++ some c ∷ []) =
        omega (arith, en, length-append pre (some c ∷ [])) in
      let rest = ih (suc k) (pre ++ some c ∷ []) tail t suc_length in
      rw (e, set_at-append k pre c (nils (length ds) ++ tail) en)
        ((rw (append_assoc pre (some c ∷ []) (nils (length ds) ++ tail)) at rest)
          ∙ place-cons c pre tail _ _)
  set_defaults-step d ds k pre tail s (err x) t ih en e = rw e refl
  set_defaults-step d ds k pre tail s (panic x) t ih en e = rw e refl

  set_defaults-Draws : (ds : List (Exec S Config)) → Draws ds
  unfolding nils set_defaults draw_all place
  set_defaults-Draws [] k pre tail s en = refl
  set_defaults-Draws (d ∷ ds) k pre tail s en =
      set_defaults-step d ds k pre tail s (d s).0 (d s).1 (set_defaults-Draws ds) en refl

  draw_all-length :
      (ds : List (Exec S Config)) (k : ℕ) (s : S) {cs : List Config} {t : S}
      → draw_all ds k s ≡ (ok cs, t)
      → length cs ≡ length ds
  unfolding draw_all
  draw_all-length [] k s h = ap (λ r. length (value_or [] r.0)) (sym h)
  draw_all-length (d ∷ ds) k s h =
      let (c, u, e, j) = bind-eq-ok _ _ s h in
      let (cs, v, f, i) = bind-eq-ok _ _ u j in
      let both = ap (λ r. length (value_or [] r.0)) (sym i) in
      omega (arith, both, draw_all-length ds (suc k) u f)

  finish :
      (ds : List (Exec S Config)) (add : List Config) (s : S) (r : Result (List Config)) (t : S)
      → draw_all ds 0 s ≡ (r, t)
      → continue
          (place [] (nils (length add)) r t).0
          (λ conf. pure (copy_from (length ds) add conf))
          (place [] (nils (length add)) r t).1
        ≡ continue r (λ cs. pure (map some (cs ++ add))) t
  unfolding place
  finish ds add s (ok cs) t h = rw (sym (draw_all-length ds 0 s h), copy_from-append cs add) refl
  finish ds add s (err e) t h = refl
  finish ds add s (panic x) t h = refl

  -- `joinConfig` at the package's defaults, as it is called, gives what the defaults draw, one after
  -- the other, and then the given configs; no entry stays nil, and nothing is out of range.
  pub join_config-draws :
      (ds : List (Exec S Config)) (add : List Config) (s : S)
      → join_config ds ds add s ≡ (draw_all ds 0 >>= λ cs. pure (map some (cs ++ add))) s
  unfolding join_config ◌>>=◌
  join_config-draws ds add s =
      rw (nils-plus (length ds) (length add), set_defaults-Draws ds 0 [] (nils (length add)) s refl)
        (finish ds add s (draw_all ds 0 s).0 (draw_all ds 0 s).1 refl)
