-- ===== src/Slippy/Client/InMemory.antt =====
-- slippytest/mock_store.go as the store of the client: `var _ slippy.SlipStore = (*MockStore)(nil)`.
use go_lib_my_carrier.Base.{
  ℕ, ◌≡◌, refl, Bool, true, false, Option, none, some, String, ◌==◌, arith, lookup, lookup-insert,
  Result, if◌then◌else◌, eq_iff,
}
use go_lib_my_carrier.Slippy.Errors.{Error}
use go_lib_my_carrier.Slippy.Status.{SlipStatus, StepStatus}
use go_lib_my_carrier.Slippy.Types.{Slip, StateHistoryEntry}
use go_lib_my_carrier.Slippy.Claim.Marker.{guard_reserved_step_write}
use go_lib_my_carrier.Slippy.Store.State.{
  MockStore, deep_copy_slip, change_found, change_row, unless, injected,
}
use go_lib_my_carrier.Slippy.Store.Writes
use go_lib_my_carrier.Slippy.Store.Writes.{step_recorded}
use go_lib_my_carrier.Slippy.Store.Claims
use go_lib_my_carrier.Slippy.Store.Claims.{status_written}
use go_lib_my_carrier.Slippy.Store.Reads
use go_lib_my_carrier.Slippy.Store.Reads.{reading, copy_or_not_found}
use go_lib_my_carrier.Slippy.Client.Interface.{SlipStore, IsSlipStore, on_slip, reads_after}

abbrev pub in_memory : SlipStore
in_memory = record {
  State = MockStore;
  load = Reads.load;
  load_by_commit = Reads.load_by_commit;
  find_by_commits = Reads.find_by_commits;
  find_all_by_commits = Reads.find_all_by_commits;
  create = Writes.create;
  append_history = Writes.append_history;
  update_step_with_history = Writes.update_step_with_history;
  set_component_image_tag = Writes.set_component_image_tag;
  update_slip_status = Claims.update_slip_status;
  claim_slip = Claims.claim_slip;
  release_claim = Claims.release_claim;
  reset_slip_in_place = Claims.reset_slip_in_place;
  repave = λ now old_id slip parent m. Claims.repave now old_id slip m;
  insert_ancestry_link = λ slip parent m. Writes.insert_ancestry_link m;
}

-- A read of a copied row sees a change that does not look at the ancestry.
copy_changed :
    (f : Slip → Slip) (b : Bool) (x : Slip) (o : Option Slip)
    → ((y : Slip) → deep_copy_slip (f y) ≡ f (deep_copy_slip y))
    → (b ≡ true → o ≡ some x)
    → copy_or_not_found (if b then some (f x) else o)
      ≡ (if b then on_slip f (copy_or_not_found o) else copy_or_not_found o)
copy_changed f true x o commutes found = rw (found refl) (rw (commutes x))
copy_changed f false x o commutes found = refl

reading-on_slip :
    (e : Option Error) (f : Slip → Slip) (b : Bool) (r q : Result Error Slip)
    → q ≡ (if b then on_slip f r else r)
    → reading e q ≡ (if b then on_slip f (reading e r) else reading e r)
reading-on_slip none f b r q h = h
reading-on_slip (some e) f true r q h = refl
reading-on_slip (some e) f false r q h = refl

-- The row of a change is read changed, and the others as they were.
change_found-reads :
    (id j : String) (f : Slip → Slip) (m : MockStore) (o : Option Slip)
    → ((y : Slip) → deep_copy_slip (f y) ≡ f (deep_copy_slip y))
    → lookup id m.slips ≡ o
    → Reads.load j (change_found id f m o).0
      ≡ reads_after (change_found id f m o).1 (id == j) f (Reads.load j m)
unfolding Reads.load
change_found-reads id j f m none commutes found = refl
change_found-reads id j f m (some slip) commutes found =
    reading-on_slip (injected m.faults.load_error m.faults.load_error_for j) f (id == j)
      (copy_or_not_found (lookup j m.slips)) _
      (rw (lookup-insert id j (f slip) m.slips) (
        copy_changed f (id == j) slip (lookup j m.slips) commutes
          (λ same. rw (← (eq_iff id j).0 same) found)))

unless-reads :
    (e : Option Error) (m : MockStore) (k : MockStore × Option Error) (j : String) (b : Bool)
    (f : Slip → Slip)
    → Reads.load j k.0 ≡ reads_after k.1 b f (Reads.load j m)
    → Reads.load j (unless e m k).0 ≡ reads_after (unless e m k).1 b f (Reads.load j m)
unless-reads none m k j b f h = h
unless-reads (some e) m k j b f h = refl

status_written-copy :
    (now : ℕ) (status : SlipStatus) (y : Slip)
    → deep_copy_slip (status_written now status y) ≡ status_written now status (deep_copy_slip y)
status_written-copy now status y = ground arith

load-update_slip_status :
    (now : ℕ) (id j : String) (status : SlipStatus) (m : MockStore)
    → Reads.load j (Claims.update_slip_status now id status m).0
      ≡ reads_after
          (Claims.update_slip_status now id status m).1
          (id == j)
          (status_written now status)
          (Reads.load j m)
unfolding Claims.update_slip_status
load-update_slip_status now id j status m =
    unless-reads m.faults.update_slip_status_error m (change_row id (status_written now status) m) j
      (id == j) (status_written now status)
      (change_found-reads id j (status_written now status) m (lookup id m.slips)
        (status_written-copy now status) refl)

load-update_step_with_history :
    (id j step component : String) (status : StepStatus) (entry : StateHistoryEntry) (m : MockStore)
    → Reads.load j (Writes.update_step_with_history id step component status entry m).0
      ≡ reads_after
          (Writes.update_step_with_history id step component status entry m).1
          (id == j)
          (step_recorded step component status entry)
          (Reads.load j m)
unfolding Writes.update_step_with_history
load-update_step_with_history id j step component status entry m =
    let f : Slip → Slip = step_recorded step component status entry in
    let o : Option Error = injected m.faults.update_step_error m.faults.update_step_error_for id in
    unless-reads (guard_reserved_step_write step (some entry)) m (unless o m (change_row id f m)) j
      (id == j) f
      (unless-reads o m (change_row id f m) j (id == j) f
        (change_found-reads id j f m (lookup id m.slips) (λ y. refl) refl))

-- The in-memory store, with any injected errors, keeps the laws that the client relies on: a status
-- write or a step write that succeeds changes what a read of its own slip gives, exactly as the row
-- functions state, leaves every other read as it was, and one that fails leaves all of them.
pub in_memory-IsSlipStore : IsSlipStore in_memory
in_memory-IsSlipStore = record {
  load-update_slip_status = load-update_slip_status;
  load-update_step_with_history = load-update_step_with_history;
}
