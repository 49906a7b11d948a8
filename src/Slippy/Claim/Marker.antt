-- ===== src/Slippy/Claim/Marker.antt =====
-- slippy/claim.go: the marker entries of a claim and a release, and the reserved step names. A
-- text is cut by `clamp_runes`; `time.Now()` is an argument.
use Prim.Native.String.{count, len}
use go_lib_my_carrier.Base.{
  ℕ, zero, suc, ◌-◌, Bool, true, false, ◌&&◌, ◌||◌, not, [], ◌∷◌, Option, none, some, String, ◌==◌,
  concat, quoted, leb, ltb, lower_codes, codes_eq, codes, if◌then◌else◌,
}
use go_lib_my_carrier.Slippy.Errors.{Error, sentinel, wrap, Sentinel}
use go_lib_my_carrier.Slippy.Status.{SlipStatus, StepStatus, slip_status_text}
use go_lib_my_carrier.Slippy.Types.{StateHistoryEntry}

abbrev pub claim_marker_step : String
claim_marker_step = "slip_claimed"

abbrev pub release_marker_step : String
release_marker_step = "slip_released"

abbrev pub push_parsed_step : String
push_parsed_step = "push_parsed"

abbrev pub library_actor : String
library_actor = "slippy-library"

abbrev pub max_marker_reason_len : ℕ
max_marker_reason_len = 512

abbrev pub max_marker_actor_len : ℕ
max_marker_actor_len = 128

abbrev pub max_marker_field_bytes : ℕ
max_marker_field_bytes = 1024

-- `runes[:n]`
unfoldable pub take_runes : ℕ → String → String
take_runes zero s = ""
take_runes (suc n) String.[] = ""
take_runes (suc n) (String.◌∷◌ c s) = String.◌∷◌ c (take_runes n s)

-- The loop that drops the last rune while the text is too long in bytes; each round leaves one
-- rune less, so as many rounds as there are runes are enough.
unfoldable pub drop_last_while : ℕ → ℕ → String → String
unfolding take_runes
drop_last_while zero bytes s = s
drop_last_while (suc fuel) bytes s = elim (ltb bytes (len s)) [
  | true ↦ drop_last_while fuel bytes (take_runes (count s - 1) s)
  | false ↦ s
]

-- `clampRunes`: `limit - 1` stands under `limit < runes`, and the limits are 512 and 128.
unfoldable pub clamp_runes : String → ℕ → String
unfolding take_runes drop_last_while
clamp_runes s limit =
    if leb (count s) limit && leb (len s) max_marker_field_bytes
    then s
    else let runes = if ltb limit (count s) then take_runes (limit - 1) s else s in
      concat (drop_last_while (count runes) (max_marker_field_bytes - 3) runes ∷ "…" ∷ [])

-- `markerActor`, on the clamped actor.
unfoldable pub marker_actor : String → String
unfolding clamp_runes
marker_actor actor =
    let clamped = clamp_runes actor max_marker_actor_len in
    if clamped == "" then library_actor else clamped

-- The end of a marker's message.
abbrev pub with_reason : String → String → String
with_reason msg reason =
    let clamped = clamp_runes reason max_marker_reason_len in
    if clamped == "" then msg else concat (msg ∷ ": " ∷ clamped ∷ [])

-- `ClaimMarker`.
unfoldable pub claim_marker : ℕ → SlipStatus → String → String → StateHistoryEntry
claim_marker now prior claimed_by reason = record {
  step = claim_marker_step;
  component = "";
  status = StepStatus.running;
  timestamp = now;
  actor = marker_actor claimed_by;
  message =
      with_reason (concat ("adopted " ∷ slip_status_text prior ∷ " slip before dispatching" ∷ []))
        reason;
  claimed_by = "";
}

-- `ReleaseMarker`.
unfoldable pub release_marker : ℕ → SlipStatus → String → String → StateHistoryEntry
release_marker now status released_by reason = record {
  step = release_marker_step;
  component = "";
  status = StepStatus.completed;
  timestamp = now;
  actor = marker_actor released_by;
  message = with_reason (concat ("released claim; slip is " ∷ slip_status_text status ∷ [])) reason;
  claimed_by = "";
}

-- `reservedMarkerStep`: the name of a marker, in any case.
unfoldable pub reserved_marker_step : String → Bool
reserved_marker_step name =
    codes_eq (lower_codes name) (codes claim_marker_step)
    || codes_eq (lower_codes name) (codes release_marker_step)

-- `GuardReservedStepWrite`: none lets the write pass.
unfoldable pub guard_reserved_step_write : String → Option StateHistoryEntry → Option Error
unfolding reserved_marker_step
guard_reserved_step_write step_name none =
    if not (step_name == "") && reserved_marker_step step_name
    then some (
        wrap
          (concat
            ("step " ∷ quoted step_name ∷ " is a state_history marker the library owns: " ∷ []))
          (sentinel Sentinel.reserved_step_name) "")
    else none
guard_reserved_step_write step_name (some entry) =
    if not (step_name == "") && reserved_marker_step step_name
    then some (
        wrap
          (concat
            ("step " ∷ quoted step_name ∷ " is a state_history marker the library owns: " ∷ []))
          (sentinel Sentinel.reserved_step_name) "")
    else if not (entry.step == "") && reserved_marker_step entry.step
    then some (
        wrap
          (concat (
            "history entry step "
            ∷ quoted entry.step
            ∷ " is a state_history marker the library owns: "
            ∷ []))
          (sentinel Sentinel.reserved_step_name) "")
    else none
