-- ===== src/Slippy/Client/History/Recent.antt =====
-- slippy/history.go: which entries `GetRecentHistory` returns.
use go_lib_my_carrier.Base.{
  ℕ, zero, suc, ◌-◌, ◌≡◌, refl, ap, false, List, [], ◌∷◌, ◌++◌, drop, length, length-drop, leb,
  nat_eq, arith, if◌then◌else◌, Bool-cases, inl, inr,
}
use go_lib_my_carrier.Slippy.Types.{StateHistoryEntry}
use go_lib_my_carrier.Slippy.Client.History.{recent}

-- What is dropped stands before what is left.
drop-suffix {ℓ} :
    {A : Type ℓ} (n : ℕ) (xs : List A) → (before : List A) × (xs ≡ before ++ drop n xs)
drop-suffix zero xs = ([], refl)
drop-suffix (suc n) [] = ([], refl)
drop-suffix (suc n) (x ∷ xs) =
    let (before, same) = drop-suffix n xs in (x ∷ before, ap (λ ys. x ∷ ys) same)

-- For a limit that is positive, the recent history is an end of the whole history, in its order, as
-- long as the history if that is within the limit, and as long as the limit otherwise.
pub recent_lem :
    (limit : ℕ) (history : List StateHistoryEntry)
    → nat_eq limit 0 ≡ false
    → (before : List StateHistoryEntry) × (history ≡ before ++ recent limit history)
      × (length (recent limit history)
          ≡ (if leb (length history) limit then length history else limit))
unfolding recent
recent_lem limit history positive = elim (Bool-cases (leb (length history) limit)) [
  | inl short ↦ rw short (rw positive ([], refl, refl))
  | inr long ↦
      let (before, same) = drop-suffix (length history - limit) history in
      let size = length-drop (length history - limit) history in
      rw long (rw positive (before, same, ground (arith, size, long)))
]
