-- ===== src/Base/Perms.antt =====
-- A loop that only tests its elements does not see their order.
use mathlib.Core.List.{Perm, Permᴰ}
use mathlib.Core.Logic.{∥∥₁_elim}
use mathlib.Core.Bool.{Bool, Bool-set}
use mathlib.Core.Path.{◌≡◌, refl, ◌∙◌}
use mathlib.Core.List.{List}
use native.Mathlib.Omega.{arith}
use go_lib_my_carrier.Base.Lists.{any, all}

module _ {ℓ} {A : Type ℓ} where
  any-permᴰ : (p : A → Bool) {xs ys : List A} → Permᴰ xs ys → any p xs ≡ any p ys
  any-permᴰ p Permᴰ.nil = refl
  any-permᴰ p (Permᴰ.cons e d) = cc (e, any-permᴰ p d)
  any-permᴰ p (Permᴰ.swap {a = a} {b = b} {l = l} e f) = rw (← e, ← f) (ground arith)
  any-permᴰ p (Permᴰ.trans d e) = any-permᴰ p d ∙ any-permᴰ p e

  all-permᴰ : (p : A → Bool) {xs ys : List A} → Permᴰ xs ys → all p xs ≡ all p ys
  all-permᴰ p Permᴰ.nil = refl
  all-permᴰ p (Permᴰ.cons e d) = cc (e, all-permᴰ p d)
  all-permᴰ p (Permᴰ.swap {a = a} {b = b} {l = l} e f) = rw (← e, ← f) (ground arith)
  all-permᴰ p (Permᴰ.trans d e) = all-permᴰ p d ∙ all-permᴰ p e

  pub any-perm : (p : A → Bool) (xs ys : List A) → Perm xs ys → any p xs ≡ any p ys
  any-perm p xs ys h = ∥∥₁_elim h (Bool-set _ _) (any-permᴰ p)

  pub all-perm : (p : A → Bool) (xs ys : List A) → Perm xs ys → all p xs ≡ all p ys
  all-perm p xs ys h = ∥∥₁_elim h (Bool-set _ _) (all-permᴰ p)
