-- ===== src/Slippy/Client/History.antt =====
-- slippy/history.go: the client's methods on the history of a slip.
pub mod Recent
use go_lib_my_carrier.Base.{
  ℕ, ◌-◌, ◌||◌, Option, String, ◌==◌, List, keep, drop, length, leb, ltb, nat_eq, Result, ok, err,
  if◌then◌else◌,
}
use go_lib_my_carrier.Slippy.Errors.{Error, slip_error}
use go_lib_my_carrier.Slippy.Status.{StepStatus}
use go_lib_my_carrier.Slippy.Types.{Slip, StateHistoryEntry}
use go_lib_my_carrier.Slippy.Claim.Marker.{library_actor}
use go_lib_my_carrier.Slippy.Client.Interface.{SlipStore}
use go_lib_my_carrier.Slippy.Client.Base.{wrapping}

-- The defaults of an entry: the time, and the actor.
abbrev pub filled : ℕ → StateHistoryEntry → StateHistoryEntry
filled now entry = record entry {
  timestamp = if nat_eq entry.timestamp 0 then now else entry.timestamp;
  actor = if entry.actor == "" then library_actor else entry.actor;
}

-- The last `limit` entries; a limit of 0 stands for one that is not positive.
unfoldable pub recent : ℕ → List StateHistoryEntry → List StateHistoryEntry
recent limit history =
    if nat_eq limit 0 || leb (length history) limit
    then history
    else drop (length history - limit) history

module _ (S : SlipStore) where
  open S use {State, load as store_load, append_history as store_append}

  -- `AppendHistoryEntry`.
  unfoldable pub append_history_entry :
      ℕ → String → StateHistoryEntry → State → State × Option Error
  append_history_entry now id entry s =
      let (s', e) = store_append id (filled now entry) s in
      (s', wrapping (slip_error "append history" id) e)

  -- `RecordTransition`.
  unfoldable pub record_transition :
      ℕ → String → String → String → StepStatus → String → State → State × Option Error
  unfolding append_history_entry
  record_transition now id step_name component_name status message s =
      append_history_entry now id
        (record {
          step = step_name;
          component = component_name;
          status = status;
          timestamp = now;
          actor = library_actor;
          message = message;
          claimed_by = "";
        })
        s

  -- A read of the history, through a selection.
  abbrev pub select :
      String
      → (List StateHistoryEntry → List StateHistoryEntry)
      → String
      → Result Error Slip
      → Result Error (List StateHistoryEntry)
  select op f id (err e) = err (slip_error op id e)
  select op f id (ok slip) = ok (f slip.state_history)

  -- `GetHistory`.
  unfoldable pub get_history : String → State → Result Error (List StateHistoryEntry)
  get_history id s = select "get history" (λ h. h) id (store_load id s)

  -- `GetStepHistory`.
  unfoldable pub get_step_history : String → String → State → Result Error (List StateHistoryEntry)
  get_step_history id step_name s =
      select "get step history" (keep (λ e. e.step == step_name)) id (store_load id s)

  -- `GetComponentHistory`.
  unfoldable pub get_component_history :
      String → String → State → Result Error (List StateHistoryEntry)
  get_component_history id component_name s =
      select "get component history" (keep (λ e. e.component == component_name)) id
        (store_load id s)

  -- `GetRecentHistory`.
  unfoldable pub get_recent_history : String → ℕ → State → Result Error (List StateHistoryEntry)
  unfolding recent
  get_recent_history id limit s = select "get recent history" (recent limit) id (store_load id s)

  -- `GetHistorySince`.
  unfoldable pub get_history_since : String → ℕ → State → Result Error (List StateHistoryEntry)
  get_history_since id since s =
      select "get history since" (keep (λ e. ltb since e.timestamp)) id (store_load id s)
