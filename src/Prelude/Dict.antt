-- ===== src/Prelude/Dict.antt =====
-- A Go map with string keys, as an association list with at most one entry for each key. A `range`
-- over a map visits the entries in the order of the list.
use shiroclient_sdk_go.Prelude.Tests.{if◌then◌else◌}
use Prim.Native.String.{String}
use mathlib.Core.Path.{◌≡◌, refl}
use mathlib.Core.Option.{Option, none, some}
use mathlib.Core.List.{List, [], ◌∷◌}
use native.Mathlib.Omega.{arith}
use text.Mathlib.Text.{◌==◌}
use text.Mathlib.TextEquality.{eq_iff}

abbrev pub Dict {ℓ} : Type ℓ → Type ℓ
Dict V = List (String × V)

module _ {ℓ} {V : Type ℓ} where
  -- `v, ok := m[k]`
  unfoldable pub lookup : String → Dict V → Option V
  lookup k [] = none
  lookup k ((key, val) ∷ rest) = if key == k then some val else lookup k rest

  -- `m[k] = v`
  unfoldable pub insert : String → V → Dict V → Dict V
  insert k v [] = (k, v) ∷ []
  insert k v ((key, old) ∷ rest) = if key == k then (k, v) ∷ rest else (key, old) ∷ insert k v rest

  -- `for k, v := range new { m[k] = v }`
  unfoldable pub insert_all : Dict V → Dict V → Dict V
  unfolding insert
  insert_all [] m = m
  insert_all ((k, v) ∷ new) m = insert_all new (insert k v m)

  -- At most one entry for each key.
  abbrev pub NodupKeys : Dict V → Type ℓ
  NodupKeys [] = Unit
  NodupKeys ((k, v) ∷ m) = (lookup k m ≡ none) × NodupKeys m

  abbrev pub or_else : Option V → Option V → Option V
  or_else none o = o
  or_else (some v) o = some v

  -- Reading a key after writing one.
  pub lookup-insert :
      (written read : String) (v : V) (m : Dict V)
      → lookup read (insert written v m) ≡ (if written == read then some v else lookup read m)
  unfolding lookup insert
  lookup-insert written read v [] = refl
  lookup-insert written read v ((key, old) ∷ rest) = ground (
    arith,
    eq_iff written read,
    eq_iff key written,
    eq_iff key read,
    lookup-insert written read v rest,
  )

  pub insert-NodupKeys : (k : String) (v : V) (m : Dict V) → NodupKeys m → NodupKeys (insert k v m)
  unfolding insert lookup
  insert-NodupKeys k v [] h = (refl, tt)
  insert-NodupKeys k v ((j, w) ∷ m) (fresh, h) =
      ground (arith, insert-NodupKeys k v m h, lookup-insert k j v m, eq_iff j k, eq_iff k j)

  pub insert_all-NodupKeys : (new m : Dict V) → NodupKeys m → NodupKeys (insert_all new m)
  unfolding insert_all
  insert_all-NodupKeys [] m h = h
  insert_all-NodupKeys ((k, v) ∷ new) m h =
      insert_all-NodupKeys new (insert k v m) (insert-NodupKeys k v m h)

  -- The new entries go before the old ones.
  pub lookup-insert_all :
      (j : String) (new m : Dict V)
      → NodupKeys new
      → lookup j (insert_all new m) ≡ or_else (lookup j new) (lookup j m)
  unfolding lookup insert_all
  lookup-insert_all j [] m h = refl
  lookup-insert_all j ((k, v) ∷ new) m (fresh, h) =
      ground (arith, lookup-insert_all j new (insert k v m) h, lookup-insert k j v m, eq_iff k j)

  pub lookup-nil : (k : String) → lookup k [] ≡ none
  unfolding lookup
  lookup-nil k = refl

  pub lookup-cons :
      (k j : String) (v : V) (m : Dict V)
      → lookup j ((k, v) ∷ m) ≡ (if k == j then some v else lookup j m)
  unfolding lookup
  lookup-cons k j v m = refl

pub ruleset dict_laws = (lookup-nil, lookup-insert, lookup-insert_all, lookup-cons)
