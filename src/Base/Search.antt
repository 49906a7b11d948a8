-- ===== src/Base/Search.antt =====
-- `strings.Contains`, on code points, with its laws.
use Prim.Native.Nat.{ℕ}
use Prim.Native.Char.{code}
use Prim.Native.String.{String, ◌++◌}
use mathlib.Core.Path.{◌≡◌, refl, ap}
use mathlib.Core.Bool.{Bool, true, false, ◌&&◌, ◌||◌}
use mathlib.Core.List.{List, [], ◌∷◌}
use mathlib.Core.List.{◌++◌ as append}
use text.Mathlib.TextLemmas.{nil-append, cons-append}
use native.Mathlib.Omega.{arith}
use go_lib_my_carrier.Base.Tests.{nat_eq}
use go_lib_my_carrier.Base.Text.{codes}

abbrev pub begins_with : List ℕ → List ℕ → Bool
begins_with xs [] = true
begins_with [] (y ∷ ys) = false
begins_with (x ∷ xs) (y ∷ ys) = nat_eq x y && begins_with xs ys

abbrev pub holds : List ℕ → List ℕ → Bool
holds [] ys = begins_with [] ys
holds (x ∷ xs) ys = begins_with (x ∷ xs) ys || holds xs ys

-- `strings.Contains(s, t)`.
unfoldable pub contains : String → String → Bool
contains s t = holds (codes s) (codes t)

begins_with-append :
    (xs ys zs : List ℕ) → begins_with xs ys ≡ true → begins_with (append xs zs) ys ≡ true
begins_with-append [] [] zs h = refl
begins_with-append (x ∷ xs) [] zs h = refl
begins_with-append [] (y ∷ ys) zs h = cc
begins_with-append (x ∷ xs) (y ∷ ys) zs h = ground (arith, begins_with-append xs ys zs)

begins_with_nil : (xs : List ℕ) → begins_with xs [] ≡ true
begins_with_nil [] = refl
begins_with_nil (x ∷ xs) = refl

holds_nil : (xs : List ℕ) → holds xs [] ≡ true
holds_nil [] = refl
holds_nil (x ∷ xs) = refl

holds-append_left : (xs ys zs : List ℕ) → holds xs ys ≡ true → holds (append xs zs) ys ≡ true
holds-append_left [] [] zs h = holds_nil zs
holds-append_left [] (y ∷ ys) zs h = cc
holds-append_left (x ∷ xs) ys zs h =
    ground (arith, begins_with-append (x ∷ xs) ys zs, holds-append_left xs ys zs)

holds-append_right : (xs ys zs : List ℕ) → holds ys zs ≡ true → holds (append xs ys) zs ≡ true
holds-append_right [] ys zs h = h
holds-append_right (x ∷ xs) ys zs h = ground (arith, holds-append_right xs ys zs h)

codes-append : (s t : String) → codes (s ++ t) ≡ append (codes s) (codes t)
codes-append String.[] t = rw nil-append
codes-append (String.◌∷◌ c s) t = rw cons-append (ap (λ r. code c ∷ r) (codes-append s t))

-- What a part of a text contains, the whole text contains.
pub contains-append_left : (s t u : String) → contains s u ≡ true → contains (s ++ t) u ≡ true
unfolding contains
contains-append_left s t u h =
    rw (codes-append s t) (holds-append_left (codes s) (codes u) (codes t) h)

pub contains-append_right : (s t u : String) → contains t u ≡ true → contains (s ++ t) u ≡ true
unfolding contains
contains-append_right s t u h =
    rw (codes-append s t) (holds-append_right (codes s) (codes t) (codes u) h)
