-- ===== src/Slippy/Store/Invariant.antt =====
-- slippytest/mock_store.go and claim.go: the claim column and the markers in the history tell the
-- same story.
use go_lib_my_carrier.Base.{
  ◌≡◌, refl, ◌⊎◌, Bool, true, false, Option, none, some, String, ◌==◌, List, [], ◌∷◌, ◌++◌, arith,
  lookup, Values, Values-insert, Values-lookup, if◌then◌else◌, inl, inr, eq_iff,
}
use go_lib_my_carrier.Slippy.Errors.{Error}
use go_lib_my_carrier.Slippy.Types.{Slip, StateHistoryEntry}
use go_lib_my_carrier.Slippy.Claim.Marker.{
  claim_marker_step, release_marker_step, reserved_marker_step, guard_reserved_step_write,
}
use go_lib_my_carrier.Slippy.Store.State.{MockStore, change_found, change_row, unless}
use go_lib_my_carrier.Slippy.Store.Claims.{is_claimed}

-- Whether the newest marker of a history is a claim; `held` is the answer for an empty history.
abbrev pub claim_open : Bool → List StateHistoryEntry → Bool
claim_open held [] = held
claim_open held (e ∷ es) =
    claim_open
      (if e.step == claim_marker_step
        then true
        else if e.step == release_marker_step
        then false
        else held)
      es

-- The row is claimed exactly when the newest marker of its history is a claim.
abbrev pub Agrees : Slip → Type 0
Agrees slip = claim_open false slip.state_history ≡ is_claimed slip

pub claim_open-append :
    (es : List StateHistoryEntry) (held : Bool) (e : StateHistoryEntry)
    → claim_open held (es ++ e ∷ []) ≡ (
        if e.step == claim_marker_step
        then true
        else if e.step == release_marker_step
        then false
        else claim_open held es)
claim_open-append [] held e = refl
claim_open-append (d ∷ es) held e = claim_open-append es _ e

-- Both marker names are reserved, and neither is empty.
reserved_names :
    (s : String)
    → ((s == claim_marker_step) ≡ true) ⊎ ((s == release_marker_step) ≡ true)
    → (reserved_marker_step s ≡ true) × ((s == "") ≡ false)
unfolding reserved_marker_step
reserved_names s (inl e) = rw ((eq_iff s claim_marker_step).0 e) (refl, refl)
reserved_names s (inr e) = rw ((eq_iff s release_marker_step).0 e) (refl, refl)

-- An entry that the guard lets pass is no marker.
pub guarded_entry :
    (step_name : String) (e : StateHistoryEntry)
    → guard_reserved_step_write step_name (some e) ≡ none
    → ((e.step == claim_marker_step) ≡ false) × ((e.step == release_marker_step) ≡ false)
unfolding guard_reserved_step_write
guarded_entry step_name e h =
    (ground (arith, reserved_names e.step), ground (arith, reserved_names e.step))

module _ (P : Slip → Type 0) where
  pub change_found-Values :
      (id : String) (f : Slip → Slip) (m : MockStore) (o : Option Slip)
      → ((slip : Slip) → o ≡ some slip → P (f slip))
      → Values P m.slips
      → Values P (change_found id f m o).0.slips
  change_found-Values id f m none keeps h = h
  change_found-Values id f m (some slip) keeps h =
      Values-insert P id (f slip) m.slips (keeps slip refl) h

  -- A call that changes one row keeps what holds of every row, if the change does.
  pub change_row-Values :
      (id : String) (f : Slip → Slip) (m : MockStore)
      → ((slip : Slip) → P slip → P (f slip))
      → Values P m.slips
      → Values P (change_row id f m).0.slips
  change_row-Values id f m keeps h =
      change_found-Values id f m (lookup id m.slips)
        (λ slip found. keeps slip (Values-lookup P id m.slips h found)) h

  -- So does a call that an injected error can stop before it.
  pub unless-Values :
      (o : Option Error) (m : MockStore) (k : MockStore × Option Error)
      → (o ≡ none → Values P k.0.slips)
      → Values P m.slips
      → Values P (unless o m k).0.slips
  unless-Values none m k keeps h = keeps refl
  unless-Values (some e) m k keeps h = h
