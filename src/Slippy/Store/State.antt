-- ===== src/Slippy/Store/State.antt =====
-- slippytest/mock_store.go: the state of the store and the errors that a test injects. The lists of
-- recorded calls, which no operation reads, are left out.
use go_lib_my_carrier.Base.{Option, none, some, String, [], Assoc, lookup, insert, Result, err}
use go_lib_my_carrier.Slippy.Errors.{Error, sentinel, Sentinel}
use go_lib_my_carrier.Slippy.Status.{SlipStatus}
use go_lib_my_carrier.Slippy.Types.{Slip}

-- The injected errors: one for every call of a method, and one for a correlation ID.
pub record Faults : Type 0 where
  pub create_error : Option Error
  pub load_error : Option Error
  pub load_by_commit_error : Option Error
  pub load_live_by_commit_error : Option Error
  pub find_by_commits_error : Option Error
  pub find_all_by_commits_error : Option Error
  pub update_error : Option Error
  pub update_step_error : Option Error
  pub update_component_error : Option Error
  pub append_history_error : Option Error
  pub set_image_tag_error : Option Error
  pub update_slip_status_error : Option Error
  pub claim_slip_error : Option Error
  pub release_claim_error : Option Error
  pub reset_in_place_error : Option Error
  pub probe_schema_error : Option Error
  pub create_error_for : Assoc Error
  pub load_error_for : Assoc Error
  pub update_step_error_for : Assoc Error
  pub update_component_error_for : Assoc Error
  pub append_history_error_for : Assoc Error

abbrev pub no_faults : Faults
no_faults = record {
  create_error = none;
  load_error = none;
  load_by_commit_error = none;
  load_live_by_commit_error = none;
  find_by_commits_error = none;
  find_all_by_commits_error = none;
  update_error = none;
  update_step_error = none;
  update_component_error = none;
  append_history_error = none;
  set_image_tag_error = none;
  update_slip_status_error = none;
  claim_slip_error = none;
  release_claim_error = none;
  reset_in_place_error = none;
  probe_schema_error = none;
  create_error_for = [];
  load_error_for = [];
  update_step_error_for = [];
  update_component_error_for = [];
  append_history_error_for = [];
}

pub record MockStore : Type 0 where
  pub slips : Assoc Slip
  pub repave_error : Option Error
  pub repave_went_live_status : Assoc SlipStatus
  pub faults : Faults

-- `NewMockStore`.
unfoldable pub new_mock_store : MockStore
new_mock_store = record {
  slips = [];
  repave_error = none;
  repave_went_live_status = [];
  faults = no_faults;
}

-- The error that a method injects for a correlation ID, if any.
abbrev pub injected : Option Error → Assoc Error → String → Option Error
injected (some e) per_id id = some e
injected none per_id id = lookup id per_id

abbrev pub put : String → Slip → MockStore → MockStore
put id slip m = record m { slips = insert id slip m.slips }

-- The end of a method that changes one row: the row is changed in place, or is not there.
abbrev pub change_found :
    String → (Slip → Slip) → MockStore → Option Slip → MockStore × Option Error
change_found id f m none = (m, some (sentinel Sentinel.slip_not_found))
change_found id f m (some slip) = (put id (f slip) m, none)

abbrev pub change_row : String → (Slip → Slip) → MockStore → MockStore × Option Error
change_row id f m = change_found id f m (lookup id m.slips)

-- A method that returns the injected error, if there is one, and else goes on.
abbrev pub unless : Option Error → MockStore → MockStore × Option Error → MockStore × Option Error
unless (some e) m k = (m, some e)
unless none m k = k

-- The same for a method that returns a value or an error.
abbrev pub unless_result {ℓ} :
    {A : Type ℓ}
    → Option Error
    → MockStore
    → MockStore × Result Error A
    → MockStore × Result Error A
unless_result (some e) m k = (m, err e)
unless_result none m k = k

-- `DeepCopySlip`, which leaves the ancestry out.
abbrev pub deep_copy_slip : Slip → Slip
deep_copy_slip slip = record slip { ancestry = [] }
