-- ===== src/Exec.antt =====
-- Code that reads and writes a state and may fail. What was done before an error stays done, so the
-- state comes back beside the error too.
pub mod Laws
use shiroclient_sdk_go.Prelude.{String}
use shiroclient_sdk_go.Errors.{Error, Result, ok, err, panic, wrap_err}

abbrev pub Exec {ℓ} : Type ℓ → Type ℓ → Type ℓ
Exec S A = S → Result A × S

module _ {ℓ} {S A : Type ℓ} where
  abbrev pub pure : A → Exec S A
  pure a s = (ok a, s)

  abbrev pub raise : Error → Exec S A
  raise e s = (err e, s)

  abbrev pub lift : Result A → Exec S A
  lift r s = (r, s)

  -- `fmt.Errorf("<prefix>%w", err)` on the error path
  abbrev pub wrap_exec : String → Exec S A → Exec S A
  wrap_exec prefix m s = let (r, s') = m s in (wrap_err prefix r, s')

module _ {ℓ} {S A B : Type ℓ} where
  abbrev pub continue : Result A → (A → Exec S B) → Exec S B
  continue (ok a) f s = f a s
  continue (err e) f s = (err e, s)
  continue (panic t) f s = (panic t, s)

  infixl 5 ◌>>=◌
  unfoldable pub ◌>>=◌ : Exec S A → (A → Exec S B) → Exec S B
  ◌>>=◌ m f s = let (r, s') = m s in continue r f s'
