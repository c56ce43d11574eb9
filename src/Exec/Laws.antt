-- ===== src/Exec/Laws.antt =====
-- What a successful chain of actions went through.
use shiroclient_sdk_go.Prelude.{String, ◌≡◌, refl, ap}
use shiroclient_sdk_go.Errors.{Result, ok, err, panic, wrap_err}
use shiroclient_sdk_go.Exec.{Exec, lift, wrap_exec, continue, ◌>>=◌}

module _ {ℓ} {S A B : Type ℓ} where
  continue-eq-ok :
      (m : Exec S A) (f : A → Exec S B) (s : S) {b : B} {u : S} (r : Result A) (t : S)
      → m s ≡ (r, t)
      → continue r f t ≡ (ok b, u)
      → (a : A) × (t : S) × (m s ≡ (ok a, t)) × (f a t ≡ (ok b, u))
  continue-eq-ok m f s (ok a) t e h = (a, t, e, h)
  continue-eq-ok m f s (err x) t e h = cc
  continue-eq-ok m f s (panic x) t e h = cc

  -- If a chain succeeds, its first action does, and the rest from where that one ends.
  pub bind-eq-ok :
      (m : Exec S A) (f : A → Exec S B) (s : S) {b : B} {u : S}
      → (m >>= f) s ≡ (ok b, u)
      → (a : A) × (t : S) × (m s ≡ (ok a, t)) × (f a t ≡ (ok b, u))
  unfolding ◌>>=◌
  bind-eq-ok m f s h = continue-eq-ok m f s (m s).0 (m s).1 refl h

module _ {ℓ} {A : Type ℓ} where
  wrap_err-eq-ok : (prefix : String) (r : Result A) {a : A} → wrap_err prefix r ≡ ok a → r ≡ ok a
  wrap_err-eq-ok prefix (ok a) h = h
  wrap_err-eq-ok prefix (err e) h = cc
  wrap_err-eq-ok prefix (panic e) h = cc

module _ {ℓ} {S A : Type ℓ} where
  pub lift-eq-ok :
      (r : Result A) (s : S) {a : A} {t : S} → lift r s ≡ (ok a, t) → (r ≡ ok a) × (s ≡ t)
  lift-eq-ok r s h = (ap (λ x. x.0) h, ap (λ x. x.1) h)

  -- Wrapping the error changes no success.
  pub wrap_exec-eq-ok :
      (prefix : String) (m : Exec S A) (s : S) {a : A} {t : S}
      → wrap_exec prefix m s ≡ (ok a, t)
      → m s ≡ (ok a, t)
  wrap_exec-eq-ok prefix m s h =
      let e = wrap_err-eq-ok prefix (m s).0 (ap (λ x. x.0) h) in
      let f = ap (λ x. x.1) h in λ i. (e i, f i)

module _ {ℓ} {S A B : Type ℓ} (f : A → Exec S B) (s : S) {b : B} {t : S} where
  -- The same for a first action that reads no state, and for one whose error is wrapped.
  pub lift-bind-eq-ok :
      (r : Result A) → (lift r >>= f) s ≡ (ok b, t) → (a : A) × (r ≡ ok a) × (f a s ≡ (ok b, t))
  unfolding ◌>>=◌
  lift-bind-eq-ok (ok a) h = (a, refl, h)
  lift-bind-eq-ok (err e) h = cc
  lift-bind-eq-ok (panic e) h = cc

  pub wrap-bind-eq-ok :
      (prefix : String) (m : Exec S A)
      → (wrap_exec prefix m >>= f) s ≡ (ok b, t)
      → (a : A) × (u : S) × (m s ≡ (ok a, u)) × (f a u ≡ (ok b, t))
  wrap-bind-eq-ok prefix m h =
      let (a, u, e, k) = bind-eq-ok (wrap_exec prefix m) f s h in
      (a, u, wrap_exec-eq-ok prefix m s e, k)
