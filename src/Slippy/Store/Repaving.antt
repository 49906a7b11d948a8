-- ===== src/Slippy/Store/Repaving.antt =====
-- slippytest/mock_store.go: what a caller of a whole-row write must bring, and the repave.
use go_lib_my_carrier.Base.{
  ℕ, ◌≡◌, refl, Bool, true, false, ◌||◌, Option, none, some, String, ◌==◌, List, [], ◌∷◌, lookup,
  lookup-erase, erase, Values-insert, Values-erase, Values-lookup, Bool-cases, inl, inr, ◌∙◌,
}
use go_lib_my_carrier.Slippy.Errors.{Error}
use go_lib_my_carrier.Slippy.Status.{SlipStatus, slip_is_live}
use go_lib_my_carrier.Slippy.Types.{Slip}
use go_lib_my_carrier.Slippy.Store.State.{MockStore}
use go_lib_my_carrier.Slippy.Store.Writes.{kept_claim}
use go_lib_my_carrier.Slippy.Store.Claims.{
  is_claim, is_claimed, successor, repave_found, repave_checked, repave_injected, set_status_of,
  repave_unless,
}
use go_lib_my_carrier.Slippy.Store.Calls.{Call, perform}
use go_lib_my_carrier.Slippy.Store.Invariant.{claim_open, Agrees, claim_open-append}
use go_lib_my_carrier.Slippy.Store.Agreement.{AllAgree}

-- The history of a row that a caller writes whole tells the claim that the store will keep for it.
abbrev pub Tells : MockStore → Slip → Type 0
Tells m slip =
    claim_open false slip.state_history ≡ is_claim (kept_claim (lookup slip.correlation_id m.slips))

-- What a call must bring: a whole row with a history that tells its claim. The other calls bring
-- nothing.
abbrev pub Honest : Call → MockStore → Type 0
Honest (Call.create slip) m = Tells m slip
Honest (Call.update slip) m = Tells m slip
Honest (Call.reset_slip_in_place (some slip)) m = claim_open false slip.state_history ≡ false
Honest (Call.repave now old_id (some slip)) m = Tells m slip
Honest _ m = Unit

-- Every call of a list is honest in the store that it finds.
abbrev pub AllHonest : List Call → MockStore → Type 0
AllHonest [] m = Unit
AllHonest (c ∷ cs) m = Honest c m × AllHonest cs (perform c m)

successor-Agrees :
    (now : ℕ) (old_id : String) (removed : Bool) (slip : Slip) (m : MockStore)
    → Tells m slip
    → Agrees (successor now old_id removed slip m)
successor-Agrees now old_id false slip m t = t
successor-Agrees now old_id true slip m t = claim_open-append slip.state_history false _ ∙ t

module _ (m : MockStore) (h : AllAgree m) where
  set_status_of-AllAgree :
      (id : String) (status : SlipStatus) (o : Option Slip)
      → ((slip : Slip) → o ≡ some slip → Agrees slip)
      → AllAgree (set_status_of id status m o)
  set_status_of-AllAgree id status none row = h
  set_status_of-AllAgree id status (some slip) row =
      Values-insert Agrees id (record slip { status = status }) m.slips (row slip refl) h

repave_injected-AllAgree :
    (old_id : String) (m : MockStore) (o : Option SlipStatus)
    → AllAgree m
    → AllAgree (repave_injected old_id m o)
repave_injected-AllAgree old_id m none h = h
repave_injected-AllAgree old_id m (some status) h =
    set_status_of-AllAgree
      (record m { repave_went_live_status = erase old_id m.repave_went_live_status }) h old_id
      status (lookup old_id m.slips) (λ slip found. Values-lookup Agrees old_id m.slips h found)

repave_found-AllAgree :
    (now : ℕ) (old_id : String) (slip : Slip) (m : MockStore) (o : Option Slip)
    → (old_id == slip.correlation_id) ≡ false
    → Tells m slip
    → AllAgree m
    → AllAgree (repave_found now old_id slip m o).0
repave_found-AllAgree now old_id slip m none ne t h =
    Values-insert Agrees slip.correlation_id (successor now old_id false slip m) m.slips
      (successor-Agrees now old_id false slip m t) h
repave_found-AllAgree now old_id slip m (some old) ne t h =
    elim (Bool-cases (slip_is_live old.status || is_claimed old)) [
      | inl kept ↦ rw kept h
      | inr gone ↦
          let without : MockStore = record m { slips = erase old_id m.slips } in
          rw gone (
            Values-insert Agrees slip.correlation_id (successor now old_id true slip without)
              without.slips
              (successor-Agrees now old_id true slip without
                (rw (lookup-erase old_id slip.correlation_id m.slips, ne) t))
              (Values-erase Agrees old_id m.slips h))
    ]

repave_checked-AllAgree :
    (now : ℕ) (old_id : String) (o : Option Slip) (m : MockStore)
    → Honest (Call.repave now old_id o) m
    → AllAgree m
    → AllAgree (repave_checked now old_id o m).0
repave_checked-AllAgree now old_id none m t h = h
repave_checked-AllAgree now old_id (some slip) m t h =
    elim (Bool-cases (old_id == slip.correlation_id)) [
      | inl same ↦ rw same h
      | inr other ↦
          rw other (repave_found-AllAgree now old_id slip m (lookup old_id m.slips) other t h)
    ]

pub repave_unless-AllAgree :
    (now : ℕ) (old_id : String) (o : Option Slip) (m : MockStore) (e : Option Error)
    → Honest (Call.repave now old_id o) m
    → AllAgree m
    → AllAgree (repave_unless now old_id o m e).0
repave_unless-AllAgree now old_id o m none t h = repave_checked-AllAgree now old_id o m t h
repave_unless-AllAgree now old_id o m (some e) t h =
    repave_injected-AllAgree old_id m (lookup old_id m.repave_went_live_status) h
