-- ===== src/Slippy/Store/History.antt =====
-- slippytest/mock_store.go: over any interleaving of calls, a row is claimed exactly when the newest
-- marker of its history is a claim.
use go_lib_my_carrier.Base.{
  ◌≡◌, false, Option, none, some, String, List, [], ◌∷◌, lookup, Values-insert, Values-lookup,
  Result,
}
use go_lib_my_carrier.Slippy.Errors.{Error}
use go_lib_my_carrier.Slippy.Types.{Slip}
use go_lib_my_carrier.Slippy.Claim.Marker.{guard_reserved_step_write}
use go_lib_my_carrier.Slippy.Store.State.{
  MockStore, injected, put, change_found, change_row, deep_copy_slip, unless, unless_result,
}
use go_lib_my_carrier.Slippy.Store.Writes
use go_lib_my_carrier.Slippy.Store.Writes.{
  tag_found, kept_claim, step_written, component_written, step_recorded, append_entry, pluralize,
}
use go_lib_my_carrier.Slippy.Store.Claims
use go_lib_my_carrier.Slippy.Store.Claims.{
  is_claim, is_claimed, reset_found, status_written, successor, repave_found, repave_checked,
  repave_injected, set_status_of, repave_unless,
}
use go_lib_my_carrier.Slippy.Store.Calls.{Call, perform, perform_all}
use go_lib_my_carrier.Slippy.Store.Invariant.{claim_open, Agrees, change_row-Values, unless-Values}
use go_lib_my_carrier.Slippy.Store.Agreement.{
  AllAgree, component_written-Agrees, append_entry-Agrees, status_written-Agrees,
  claim_found-AllAgree, release_found-AllAgree, reset_found-AllAgree, tag_found-AllAgree,
}
use go_lib_my_carrier.Slippy.Store.Repaving.{Tells, Honest, AllHonest, repave_unless-AllAgree}

-- The other whole-row write: the row keeps its claim, which the snapshot's history tells.
update_row-AllAgree :
    (slip : Slip) (m : MockStore) (o : Option Slip)
    → (claim_open false slip.state_history ≡ is_claim (kept_claim o))
    → AllAgree m
    → AllAgree
        (change_found slip.correlation_id
          (λ existing. record (deep_copy_slip slip) { claimed_from = existing.claimed_from })
          m
          o).0
update_row-AllAgree slip m none t h = h
update_row-AllAgree slip m (some existing) t h =
    Values-insert Agrees slip.correlation_id _ m.slips t h

-- A method that changes one row, after its injected errors.
changes-AllAgree :
    (o : Option Error) (id : String) (f : Slip → Slip) (m : MockStore)
    → ((slip : Slip) → Agrees slip → Agrees (f slip))
    → AllAgree m
    → AllAgree (unless o m (change_row id f m)).0
changes-AllAgree o id f m keeps h =
    unless-Values Agrees o m (change_row id f m) (λ go. change_row-Values Agrees id f m keeps h) h

-- The same behind the guard of the reserved names.
guarded-AllAgree :
    (g o : Option Error) (id : String) (f : Slip → Slip) (m : MockStore)
    → (g ≡ none → (slip : Slip) → Agrees slip → Agrees (f slip))
    → AllAgree m
    → AllAgree (unless g m (unless o m (change_row id f m))).0
guarded-AllAgree g o id f m keeps h =
    unless-Values Agrees g m (unless o m (change_row id f m))
      (λ go. changes-AllAgree o id f m (keeps go) h) h

unless_result-AllAgree :
    {A : Type 0} (o : Option Error) (m : MockStore) (k : MockStore × Result Error A)
    → AllAgree k.0
    → AllAgree m
    → AllAgree (unless_result o m k).0
unless_result-AllAgree none m k hk h = hk
unless_result-AllAgree (some e) m k hk h = h

create-AllAgree :
    (slip : Slip) (m : MockStore) → Tells m slip → AllAgree m → AllAgree (Writes.create slip m).0
unfolding Writes.create
create-AllAgree slip m t h =
    let row : Slip = record (deep_copy_slip slip) {
      claimed_from = kept_claim (lookup slip.correlation_id m.slips);
    } in
    unless-Values Agrees
      (injected m.faults.create_error m.faults.create_error_for slip.correlation_id) m
      (put slip.correlation_id row m, none)
      (λ go. Values-insert Agrees slip.correlation_id row m.slips t h) h

update-AllAgree :
    (slip : Slip) (m : MockStore) → Tells m slip → AllAgree m → AllAgree (Writes.update slip m).0
unfolding Writes.update
update-AllAgree slip m t h =
    let f : Slip → Slip =
      λ existing. record (deep_copy_slip slip) { claimed_from = existing.claimed_from } in
    unless-Values Agrees m.faults.update_error m (change_row slip.correlation_id f m)
      (λ go. update_row-AllAgree slip m (lookup slip.correlation_id m.slips) t h) h

reset-AllAgree :
    (o : Option Slip) (m : MockStore)
    → Honest (Call.reset_slip_in_place o) m
    → AllAgree m
    → AllAgree (Claims.reset_slip_in_place o m).0
unfolding Claims.reset_slip_in_place
reset-AllAgree none m t h = h
reset-AllAgree (some slip) m t h =
    let o : Option Slip = lookup slip.correlation_id m.slips in
    unless-Values Agrees m.faults.reset_in_place_error m (reset_found slip m o)
      (λ go. reset_found-AllAgree m h slip t o) h

set_component_image_tag-AllAgree :
    (id step component tag : String) (m : MockStore)
    → AllAgree m
    → AllAgree (Writes.set_component_image_tag id step component tag m).0
unfolding Writes.set_component_image_tag
set_component_image_tag-AllAgree id step component tag m h =
    let o : Option Slip = lookup id m.slips in
    unless-Values Agrees m.faults.set_image_tag_error m (tag_found id step component tag m o)
      (λ go.
        tag_found-AllAgree m h id step component tag o
          (λ slip found. Values-lookup Agrees id m.slips h found))
      h

-- One honest call, with any injected errors, keeps the rows and their histories in agreement.
pub perform-AllAgree : (c : Call) (m : MockStore) → Honest c m → AllAgree m → AllAgree (perform c m)
unfolding perform Writes.update_step Writes.update_component_status Writes.append_history
    Writes.update_step_with_history Claims.update_slip_status Claims.claim_slip Claims.release_claim
    Claims.repave
perform-AllAgree (Call.create slip) m t h = create-AllAgree slip m t h
perform-AllAgree (Call.update slip) m t h = update-AllAgree slip m t h
perform-AllAgree (Call.update_step id step component status) m t h =
    guarded-AllAgree (guard_reserved_step_write step none) _ id (step_written step component status)
      m (λ go slip a. a) h
perform-AllAgree (Call.update_component_status id component step_type status) m t h =
    guarded-AllAgree (guard_reserved_step_write step_type none) _ id
      (component_written component (pluralize step_type) status) m
      (λ go. component_written-Agrees component (pluralize step_type) status) h
perform-AllAgree (Call.append_history id entry) m t h =
    guarded-AllAgree (guard_reserved_step_write "" (some entry)) _ id (append_entry entry) m
      (λ go slip. append_entry-Agrees "" entry slip go) h
perform-AllAgree (Call.update_step_with_history id step component status entry) m t h =
    guarded-AllAgree (guard_reserved_step_write step (some entry)) _ id
      (step_recorded step component status entry) m
      (λ go slip a. append_entry-Agrees step entry slip go a) h
perform-AllAgree (Call.set_component_image_tag id step component tag) m t h =
    set_component_image_tag-AllAgree id step component tag m h
perform-AllAgree (Call.update_slip_status now id status) m t h =
    changes-AllAgree m.faults.update_slip_status_error id (status_written now status) m
      (status_written-Agrees now status) h
perform-AllAgree (Call.claim_slip now id expected by reason) m t h =
    unless_result-AllAgree m.faults.claim_slip_error m _
      (claim_found-AllAgree m h now id expected by reason (lookup id m.slips)) h
perform-AllAgree (Call.release_claim now id by reason) m t h =
    unless_result-AllAgree m.faults.release_claim_error m _
      (release_found-AllAgree m h now id by reason (lookup id m.slips)) h
perform-AllAgree (Call.reset_slip_in_place o) m t h = reset-AllAgree o m t h
perform-AllAgree (Call.repave now old_id o) m t h =
    repave_unless-AllAgree now old_id o m m.repave_error t h

-- Over any list of calls, each honest where it is made and with any injected errors, every row
-- stays claimed exactly when the newest marker of its history is a claim.
pub perform_all-AllAgree :
    (cs : List Call) (m : MockStore) → AllHonest cs m → AllAgree m → AllAgree (perform_all cs m)
unfolding perform_all
perform_all-AllAgree [] m t h = h
perform_all-AllAgree (c ∷ cs) m t h =
    perform_all-AllAgree cs (perform c m) t.1 (perform-AllAgree c m t.0 h)
