-- ===== src/Slippy/Errors.antt =====
-- slippy/errors.go: the sentinel errors, the wrapping error types, `errors.Is` and `Error()`.
use go_lib_my_carrier.Base.{
  ℕ, Bool, false, String, [], ◌∷◌, ◌==◌, concat, short_sha, nat_eq, if◌then◌else◌,
}

-- The `errors.New` variables. Two of them are equal only if they are the same variable.
pub data Sentinel : Type 0 where
  slip_not_found hold_timeout prerequisite_failed invalid_configuration invalid_repository
        invalid_correlation_id store_connection github_api no_installation context_cancelled
        ancestry_resolution_failed ancestor_update_failed history_append_failed
        slip_status_update_failed max_retries_exceeded terminal_already_exists
        skip_over_failed_canary duplicate_slip slip_went_live repave_unsupported
        claim_precondition_failed not_claimed claim_unsupported reserved_step_name slip_claimed
        reset_unsupported schema_behind invalid_rollback :
      Sentinel

-- The variable that a sentinel is, by its position.
abbrev pub index : Sentinel → ℕ
index slip_not_found = 0
index hold_timeout = 1
index prerequisite_failed = 2
index invalid_configuration = 3
index invalid_repository = 4
index invalid_correlation_id = 5
index store_connection = 6
index github_api = 7
index no_installation = 8
index context_cancelled = 9
index ancestry_resolution_failed = 10
index ancestor_update_failed = 11
index history_append_failed = 12
index slip_status_update_failed = 13
index max_retries_exceeded = 14
index terminal_already_exists = 15
index skip_over_failed_canary = 16
index duplicate_slip = 17
index slip_went_live = 18
index repave_unsupported = 19
index claim_precondition_failed = 20
index not_claimed = 21
index claim_unsupported = 22
index reserved_step_name = 23
index slip_claimed = 24
index reset_unsupported = 25
index schema_behind = 26
index invalid_rollback = 27

abbrev pub text : Sentinel → String
text slip_not_found = "routing slip not found"
text hold_timeout = "hold timeout exceeded"
text prerequisite_failed = "prerequisite failed"
text invalid_configuration = "invalid configuration"
text invalid_repository = "invalid repository format (expected owner/repo)"
text invalid_correlation_id = "invalid correlation ID format"
text store_connection = "storage connection error"
text github_api = "GitHub API error"
text no_installation = "no GitHub App installation found for organization"
text context_cancelled = "operation cancelled"
text ancestry_resolution_failed = "ancestry resolution failed"
text ancestor_update_failed = "failed to update ancestor slip status"
text history_append_failed = "failed to append state history"
text slip_status_update_failed = "failed to update slip status"
text max_retries_exceeded = "maximum retry attempts exceeded"
text terminal_already_exists = "terminal status already recorded for step"
text skip_over_failed_canary = "refusing to skip a failed canary or prod deploy step"
text duplicate_slip = "a slip already exists for this repository and commit"
text slip_went_live = "slip went live between the repave decision and the repave"
text repave_unsupported =
    "store does not support Repave; caller should fall back to abandon semantics"
text claim_precondition_failed = "slip status did not match the claim precondition"
text not_claimed = "slip is not currently claimed"
text claim_unsupported = "store does not support ClaimSlip/ReleaseClaim"
text reserved_step_name = "step name is reserved by the slippy library"
text slip_claimed = "slip is claimed and its run has work in flight; the in-place reset was refused"
text reset_unsupported =
    "store does not support ResetSlipInPlace; caller should fall back to a plain Create"
text schema_behind = "routing_slips schema is behind this library; apply migrations before serving"
text invalid_rollback = "invalid rollback record"

-- An error value. `plain` is an error that wraps nothing, `wrap` is `fmt.Errorf` with one `%w`
-- between two texts, and the others are the package's error types. The phase of an
-- `AncestryError` decides what it unwraps to.
pub data Error : Type 0 where
  plain : String → Error
  sentinel : Sentinel → Error
  wrap : String → Error → String → Error
  slip_error : String → String → Error → Error
  step_error : String → String → String → String → Error → Error
  resolve_error : String → String → Error → Error
  ancestry_error : String → String → String → String → Error → Error

-- `AncestryError.Unwrap`.
abbrev pub ancestry_unwrap : String → Sentinel
ancestry_unwrap phase =
    if phase == "abandon"
    then ancestor_update_failed
    else if phase == "promote"
    then ancestor_update_failed
    else ancestry_resolution_failed

-- `errors.Is(err, target)` for a sentinel target, through each `Unwrap`.
unfoldable pub is : Sentinel → Error → Bool
is s (plain m) = false
is s (sentinel t) = nat_eq (index t) (index s)
is s (wrap before e after) = is s e
is s (slip_error op id e) = is s e
is s (step_error op id step component e) = is s e
is s (resolve_error repository ref e) = is s e
is s (ancestry_error repository commit phase ancestor e) =
    nat_eq (index (ancestry_unwrap phase)) (index s)

-- `AncestryError.Error`, for the text of the error inside.
abbrev pub ancestry_message : String → String → String → String → String → String
ancestry_message repository commit phase ancestor inner =
    let place = concat (repository ∷ "@" ∷ short_sha commit ∷ []) in
    if phase == "setup"
    then concat ("ancestry resolution failed for " ∷ place ∷ ": setup error - " ∷ inner ∷ [])
    else if phase == "github_api"
    then concat (
        "ancestry resolution failed for " ∷ place ∷ ": GitHub API error - " ∷ inner
        ∷ " (check GitHub App installation and credentials)" ∷ [])
    else if phase == "slip_lookup"
    then concat
        ("ancestry resolution failed for " ∷ place ∷ ": database query failed - " ∷ inner ∷ [])
    else if phase == "abandon"
    then concat
        ("failed to abandon superseded slip " ∷ ancestor ∷ " for " ∷ place ∷ ": " ∷ inner ∷ [])
    else if phase == "promote"
    then concat
        ("failed to promote feature branch slip " ∷ ancestor ∷ " for " ∷ place ∷ ": " ∷ inner ∷ [])
    else concat ("ancestry error for " ∷ place ∷ ": " ∷ inner ∷ [])

-- `Error()`.
unfoldable pub message : Error → String
message (plain m) = m
message (sentinel t) = text t
message (wrap before e after) = concat (before ∷ message e ∷ after ∷ [])
message (slip_error op id e) =
    let inner = message e in
    if id == ""
    then concat (op ∷ ": " ∷ inner ∷ [])
    else concat (op ∷ " slip " ∷ id ∷ ": " ∷ inner ∷ [])
message (step_error op id step component e) = concat (
    op
    ∷ " step "
    ∷ step
    ∷ (if component == "" then "" else concat (" (component: " ∷ component ∷ ")" ∷ []))
    ∷ (if id == "" then "" else concat (" on slip " ∷ id ∷ []))
    ∷ ": "
    ∷ message e
    ∷ [])
message (resolve_error repository ref e) =
    concat ("resolve slip for " ∷ repository ∷ "@" ∷ ref ∷ ": " ∷ message e ∷ [])
message (ancestry_error repository commit phase ancestor e) =
    ancestry_message repository commit phase ancestor (message e)
