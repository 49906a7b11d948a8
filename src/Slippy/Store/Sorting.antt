-- ===== src/Slippy/Store/Sorting.antt =====
-- slippytest/mock_store.go: the sorting of rows keeps them, and puts a live one first.
use go_lib_my_carrier.Base.{
  ◌≡◌, refl, Bool, true, false, not, ◌||◌, List, [], ◌∷◌, arith, any, All, Bool-cases, inl, inr,
}
use go_lib_my_carrier.Slippy.Status.{slip_is_live}
use go_lib_my_carrier.Slippy.Types.{Slip}
use go_lib_my_carrier.Slippy.Store.Rows.{superseded_terminal, load_less, insert_sorted, sort}

module _ (less : Slip → Slip → Bool) where
  pub insert_sorted-any :
      (p : Slip → Bool) (x : Slip) (ys : List Slip)
      → any p (insert_sorted less x ys) ≡ (p x || any p ys)
  unfolding insert_sorted
  insert_sorted-any p x [] = refl
  insert_sorted-any p x (y ∷ ys) = ground (arith, insert_sorted-any p x ys)

  -- Sorting neither adds nor drops rows: the same tests find one.
  pub sort-any : (p : Slip → Bool) (xs : List Slip) → any p (sort less xs) ≡ any p xs
  unfolding sort
  sort-any p [] = refl
  sort-any p (x ∷ xs) = ground (arith, insert_sorted-any p x (sort less xs), sort-any p xs)

module _ (P : Slip → Type 0) (less : Slip → Slip → Bool) where
  insert_sorted-All : (x : Slip) (ys : List Slip) → P x → All P ys → All P (insert_sorted less x ys)
  unfolding insert_sorted
  insert_sorted-All x [] h t = (h, t)
  insert_sorted-All x (y ∷ ys) h t = elim (Bool-cases (less y x)) [
    | inl before ↦ rw before (t.0, insert_sorted-All x ys h t.1)
    | inr after ↦ rw after (h, t)
  ]

  pub sort-All : (xs : List Slip) → All P xs → All P (sort less xs)
  unfolding sort
  sort-All [] t = t
  sort-All (x ∷ xs) t = insert_sorted-All x (sort less xs) t.0 (sort-All xs t.1)

abbrev pub is_live : Slip → Bool
is_live slip = slip_is_live slip.status

abbrev pub is_current : Slip → Bool
is_current slip = not (superseded_terminal slip.status)

abbrev pub head_is_live : List Slip → Bool
head_is_live [] = false
head_is_live (x ∷ xs) = is_live x

insert_sorted-live :
    (x : Slip) (ys : List Slip)
    → (any is_live ys ≡ true → head_is_live ys ≡ true)
    → any is_live (x ∷ ys) ≡ true
    → head_is_live (insert_sorted load_less x ys) ≡ true
unfolding insert_sorted load_less
insert_sorted-live x [] h a = ground arith
insert_sorted-live x (y ∷ ys) h a = ground (arith, h)

-- A live row, if there is one, is sorted to the front.
pub load_order-live :
    (xs : List Slip) → any is_live xs ≡ true → head_is_live (sort load_less xs) ≡ true
unfolding sort
load_order-live [] a = cc
load_order-live (x ∷ xs) a =
    insert_sorted-live x (sort load_less xs)
      (λ h. load_order-live xs (rw (← sort-any load_less is_live xs) h))
      (ground (arith, a, sort-any load_less is_live xs))
