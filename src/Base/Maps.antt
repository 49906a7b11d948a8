-- ===== src/Base/Maps.antt =====
-- A Go map with string keys, as an association list without repeated keys. `insert` writes the
-- entry in place, or appends it. Go leaves the order of a `range` open: the loops over a map are
-- proved independent of the order where that matters.
use mathlib.Core.Path.{◌≡◌, refl, subst}
use mathlib.Core.Logic.{inl, inr}
use mathlib.Core.Option.{Option, none, some}
use mathlib.Core.List.{List, [], ◌∷◌}
use native.Mathlib.Omega.{arith}
use Prim.Native.String.{String}
use go_lib_my_carrier.Base.Tests.{if◌then◌else◌, Bool-cases}
use go_lib_my_carrier.Base.Text.{◌==◌, eq_iff}

abbrev pub Assoc {ℓ} : Type ℓ → Type ℓ
Assoc V = List (String × V)

module _ {ℓ} {V : Type ℓ} where
  unfoldable pub lookup : String → Assoc V → Option V
  lookup key [] = none
  lookup key ((name, value) ∷ rest) = if name == key then some value else lookup key rest

  -- `m[k]`, with the zero value of a missing key.
  unfoldable pub get_or : String → V → Assoc V → V
  get_or key zero_value [] = zero_value
  get_or key zero_value ((name, value) ∷ rest) =
      if name == key then value else get_or key zero_value rest

  unfoldable pub insert : String → V → Assoc V → Assoc V
  insert key value [] = (key, value) ∷ []
  insert key value ((name, old) ∷ rest) =
      if name == key then (key, value) ∷ rest else (name, old) ∷ insert key value rest

  unfoldable pub erase : String → Assoc V → Assoc V
  erase key [] = []
  erase key ((name, value) ∷ rest) =
      let kept = erase key rest in if name == key then kept else (name, value) ∷ kept

  pub lookup-insert :
      (key asked : String) (value : V) (entries : Assoc V)
      → lookup asked (insert key value entries)
        ≡ (if key == asked then some value else lookup asked entries)
  unfolding lookup insert
  lookup-insert key asked value [] = refl
  lookup-insert key asked value ((name, old) ∷ rest) =
      let later = lookup-insert key asked value rest in
      ground (arith, later, eq_iff key asked, eq_iff name asked, eq_iff name key)

  pub lookup-erase :
      (k j : String) (m : Assoc V) → lookup j (erase k m) ≡ (if k == j then none else lookup j m)
  unfolding lookup erase
  lookup-erase k j [] = ground arith
  lookup-erase k j ((i, w) ∷ m) =
      ground (arith, eq_iff k j, eq_iff i k, eq_iff i j, lookup-erase k j m)

  pub get_or-lookup :
      (k : String) (d : V) (m : Assoc V)
      → get_or k d m ≡ elim (lookup k m) [ none ↦ d | some v ↦ v ]
  unfolding lookup get_or
  get_or-lookup k d [] = refl
  get_or-lookup k d ((i, w) ∷ m) = ground (arith, get_or-lookup k d m)

  pub get_or-insert :
      (key asked : String) (value zero_value : V) (entries : Assoc V)
      → get_or asked zero_value (insert key value entries)
        ≡ (if key == asked then value else get_or asked zero_value entries)
  unfolding get_or insert
  get_or-insert key asked value zero_value [] = refl
  get_or-insert key asked value zero_value ((name, old) ∷ rest) = ground (
    arith,
    get_or-insert key asked value zero_value rest,
    eq_iff key asked,
    eq_iff name asked,
    eq_iff name key,
  )

-- Every value of the map has the property.
abbrev pub Values {ℓ} : {V : Type ℓ} → (V → Type 0) → Assoc V → Type 0
Values P [] = Unit
Values P ((k, v) ∷ m) = P v × Values P m

module _ {ℓ} {V : Type ℓ} (P : V → Type 0) where
  pub Values-insert :
      (k : String) (v : V) (m : Assoc V) → P v → Values P m → Values P (insert k v m)
  unfolding insert
  Values-insert k v [] p h = (p, tt)
  Values-insert k v ((j, w) ∷ m) p h = ground (arith, Values-insert k v m p h.1)

  pub Values-erase : (k : String) (m : Assoc V) → Values P m → Values P (erase k m)
  unfolding erase
  Values-erase k [] h = h
  Values-erase k ((j, w) ∷ m) h = ground (arith, Values-erase k m h.1)

  pub Values-lookup : (k : String) (m : Assoc V) {v : V} → Values P m → lookup k m ≡ some v → P v
  unfolding lookup
  Values-lookup k [] h e = cc
  Values-lookup k ((j, w) ∷ m) {v} h e = elim (Bool-cases (j == k)) [
    | inl same ↦ let q : w ≡ v = ground arith in subst P q h.0
    | inr other ↦ Values-lookup k m h.1 (rw other at e)
  ]
