-- ===== src/Slippy/Push/Persist/Ends.antt =====
-- slippy/push.go: how `persistSlipForPush` ends, and what its answer rests on.
use go_lib_my_carrier.Base.{
  ℕ, ◌≡◌, refl, ap, ◌⊎◌, inl, inr, Option, none, some, String, ◌==◌, List, [], ◌∷◌, Result, ok, err,
  Bool-cases,
}
use go_lib_my_carrier.Slippy.Errors.{Error, wrap, is, Sentinel}
use go_lib_my_carrier.Slippy.Status.{StepStatus, slip_is_live}
use go_lib_my_carrier.Slippy.Types.{Slip, AncestryEntry, StateHistoryEntry}
use go_lib_my_carrier.Slippy.Claim.Marker.{push_parsed_step}
use go_lib_my_carrier.Slippy.Store.Claims.{is_claimed}
use go_lib_my_carrier.Slippy.Client.Interface.{SlipStore}
use go_lib_my_carrier.Slippy.Push.Options.{PushOptions, empty_run_guard_applies}
use go_lib_my_carrier.Slippy.Push.Fresh.{append_reset_marker}
use go_lib_my_carrier.Slippy.Push.Backstop.{
  handled, stored, retry, failed, Outcome, link_and_store, serve_loaded, reset_ended,
  reset_in_place, created_instead, abandon_superseded, duplicate_backstop, backstop_loaded, served,
  conflict_repaved,
}
use go_lib_my_carrier.Slippy.Push.Persist.{
  create_again, create_backstopped, create_ended, create_fresh, serve_retried, went_live,
  repaved_again, repave_backstopped, repave_ended, repave_existing, reset_backstopped, own_reset,
  persist_slip_for_push, handle_push_retry, retried, retry_entry,
}

-- A call of the store that returned the error.
pub data Returned (S : SlipStore) (now : ℕ) (e : Error) : Type 0 where
  by_load : (id : String) (s : S.State) → S.load id s ≡ err e → Returned S now e
  by_load_by_commit :
      (repository commit_sha : String) (s : S.State)
      → S.load_by_commit repository commit_sha s ≡ err e
      → Returned S now e
  by_create : (slip : Slip) (s : S.State) → (S.create slip s).1 ≡ some e → Returned S now e
  by_reset :
      (slip : Slip) (s : S.State)
      → (S.reset_slip_in_place (some slip) s).1 ≡ some e
      → Returned S now e
  by_repave :
      (id : String) (slip : Slip) (parent : Option AncestryEntry) (s : S.State)
      → (S.repave now id (some slip) parent s).1 ≡ some e
      → Returned S now e
  by_step :
      (id : String) (entry : StateHistoryEntry) (s : S.State)
      → (S.update_step_with_history id push_parsed_step "" StepStatus.running entry s).1 ≡ some e
      → Returned S now e

-- A call of the store that wrote the slip, without an error, and left the state.
pub data Wrote (S : SlipStore) (now : ℕ) (slip : Slip) (later : S.State) : Type 0 where
  by_create : (s : S.State) → S.create slip s ≡ (later, none) → Wrote S now slip later
  by_reset :
      (s : S.State) → S.reset_slip_in_place (some slip) s ≡ (later, none) → Wrote S now slip later
  by_repave :
      (id : String) (parent : Option AncestryEntry) (s : S.State)
      → S.repave now id (some slip) parent s ≡ (later, none)
      → Wrote S now slip later

module _ (S : SlipStore) (now : ℕ) where
  open S use {
    State, load as store_load, create as store_create, repave as store_repave,
    reset_slip_in_place as store_reset, load_by_commit as store_load_by_commit,
    update_step_with_history as store_step, insert_ancestry_link as store_link,
  }

  -- The slip was written, and nothing came after but the write of an ancestry link.
  abbrev pub IsStored : Slip → State → Type 0
  IsStored slip s =
      Wrote S now slip s
      ⊎ ((written : State) × Wrote S now slip written
          × ((parent : AncestryEntry) × ((store_link slip parent written).0 ≡ s)))

  -- The slip is what a read of the state gives, or it was written.
  abbrev pub IsServed : Slip → State → Type 0
  IsServed slip s =
      ((id : String) × (store_load id s ≡ ok slip))
      ⊎ (((repository : String) × ((commit_sha : String) × (store_load_by_commit repository
                  commit_sha s
                ≡ ok slip)))
          ⊎ IsStored slip s)

  -- The error is one that the store returned, wrapped at most once.
  abbrev pub IsReturned : Error → Type 0
  IsReturned e =
      Returned S now e
      ⊎ ((before : String) × ((inner : Error) × (e ≡ wrap before inner "") × Returned S now inner))

  -- What an outcome rests on, where a request to try again needs `R`.
  abbrev pub Rests : Type 0 → Outcome S now → Type 0
  Rests R (s, ws, handled slip) = IsServed slip s
  Rests R (s, ws, stored slip) = IsStored slip s
  Rests R (s, ws, failed e) = IsReturned e
  Rests R (s, ws, retry) = R

  -- It ends, with no request to try again left open.
  abbrev pub Ends : Outcome S now → Type 0
  Ends r = Rests ⊥ r

  wraps : (before : String) (e : Error) → Returned S now e → IsReturned (wrap before e "")
  wraps before e r = inr (before, (e, refl, r))

  link_and_store-Rests :
      (R : Type 0) (slip : Slip) (parent : Option AncestryEntry) (s : State) (ws : List Error)
      → Wrote S now slip s
      → Rests R (link_and_store S now slip parent (s, ws))
  link_and_store-Rests R slip none s ws w = inl w
  link_and_store-Rests R slip (some p) s ws w = inr (s, w, (p, refl))

  serve_loaded-Rests :
      (R : Type 0) (id : String) (before : List String) (s : State) (ws : List Error)
      (r : Result Error Slip)
      → store_load id s ≡ r
      → Rests R (serve_loaded S now before s ws r)
  serve_loaded-Rests R id before s ws (ok slip) h = inl (id, h)
  serve_loaded-Rests R id before s ws (err e) h = wraps _ e (Returned.by_load id s h)

  module _ (slip : Slip) (parent : Option AncestryEntry) (ws : List Error) where
    created_instead-Rests :
        (R : Type 0) (from : State) (r : State × Option Error)
        → store_create slip from ≡ r
        → Rests R (created_instead S now slip parent ws r)
    created_instead-Rests R from (s, none) h =
        link_and_store-Rests R slip parent s ws (Wrote.by_create from h)
    created_instead-Rests R from (s, some e) h =
        wraps _ e (Returned.by_create slip from (ap (λ r. r.1) h))

    reset_ended-Rests :
        (R : Type 0) (from : State) (r : State × Option Error)
        → store_reset (some slip) from ≡ r
        → Rests R (reset_ended S now slip parent ws r)
    reset_ended-Rests R from (s, none) h =
        link_and_store-Rests R slip parent s ws (Wrote.by_reset from h)
    reset_ended-Rests R from (s, some e) h = elim (Bool-cases (is Sentinel.slip_claimed e)) [
      | inl claimed ↦ rw claimed (
          serve_loaded-Rests R slip.correlation_id
            ("failed to reload slip " ∷ slip.correlation_id ∷ " after a refused in-place reset: "
              ∷ [])
            s ws (store_load slip.correlation_id s) refl)
      | inr not_ ↦ rw not_ (elim (Bool-cases (is Sentinel.reset_unsupported e)) [
        | inl unsupported ↦ rw unsupported (created_instead-Rests R s (store_create slip s) refl)
        | inr other ↦ rw other (wraps _ e (Returned.by_reset slip from (ap (λ r. r.1) h)))
      ])
    ]

    create_again-Ends :
        (from : State) (r : State × Option Error)
        → store_create slip from ≡ r
        → Ends (create_again S now slip parent ws r)
    create_again-Ends from (s, none) h =
        link_and_store-Rests ⊥ slip parent s ws (Wrote.by_create from h)
    create_again-Ends from (s, some e) h =
        wraps _ e (Returned.by_create slip from (ap (λ r. r.1) h))

  reset_in_place-Rests :
      (R : Type 0) (slip : Slip) (parent : Option AncestryEntry) (s : State) (ws : List Error)
      → Rests R (reset_in_place S now slip parent s ws)
  unfolding reset_in_place
  reset_in_place-Rests R slip parent s ws =
      reset_ended-Rests slip parent ws R s (store_reset (some slip) s) refl

  served-Rests : (R : Type 0) (r : Outcome S now) → Rests R r → Rests R (served S now r)
  served-Rests R (s, ws, stored slip) h = inr (inr h)
  served-Rests R (s, ws, handled slip) h = h
  served-Rests R (s, ws, retry) h = h
  served-Rests R (s, ws, failed e) h = h

  module _ (slip : Slip) (parent : Option AncestryEntry) where
    conflict_repaved-Rests :
        (conflicting : Slip) (ws : List Error) (from : State) (r : State × Option Error)
        → store_repave now conflicting.correlation_id (some slip) parent from ≡ r
        → Rests Unit (conflict_repaved S now conflicting slip ws r)
    conflict_repaved-Rests conflicting ws from (s, none) h =
        inr (inr (inl (Wrote.by_repave conflicting.correlation_id parent from h)))
    conflict_repaved-Rests conflicting ws from (s, some e) h =
        elim (Bool-cases (is Sentinel.slip_went_live e)) [
          | inl live ↦ rw live (
              serve_loaded-Rests Unit conflicting.correlation_id
                ("failed to reload conflicting slip " ∷ conflicting.correlation_id
                  ∷ " after went-live backstop abort: " ∷ [])
                s ws (store_load conflicting.correlation_id s) refl)
          | inr not_ ↦ rw not_ (elim (Bool-cases (is Sentinel.repave_unsupported e)) [
            | inl unsupported ↦ rw unsupported tt
            | inr other ↦ rw other (
                wraps _ e (
                  Returned.by_repave conflicting.correlation_id slip parent from (ap (λ r. r.1) h)))
          ])
        ]

    backstop_loaded-Rests :
        (opts : PushOptions) (s : State) (ws : List Error) (r : Result Error Slip)
        → store_load_by_commit opts.repository opts.commit_sha s ≡ r
        → Rests Unit (backstop_loaded S now opts slip parent s ws r)
    backstop_loaded-Rests opts s ws (err e) h = elim (Bool-cases (is Sentinel.slip_not_found e)) [
      | inl missing ↦ rw missing tt
      | inr other ↦
          rw other (wraps _ e (Returned.by_load_by_commit opts.repository opts.commit_sha s h))
    ]
    backstop_loaded-Rests opts s ws (ok conflicting) h =
        let read : IsServed conflicting s = inr (inl (opts.repository, (opts.commit_sha, h))) in
        let marked = append_reset_marker now slip conflicting conflicting.commit_sha in
        elim (Bool-cases (slip_is_live conflicting.status)) [
          | inl live ↦ rw live read
          | inr ended ↦
              rw ended (elim (Bool-cases (empty_run_guard_applies (some conflicting) opts)) [
                | inl guarded ↦ rw guarded read
                | inr runs ↦ rw runs (elim (Bool-cases (is_claimed conflicting)) [
                  | inl claimed ↦ rw claimed read
                  | inr free ↦
                      rw free
                        (elim (Bool-cases (conflicting.correlation_id == opts.correlation_id)) [
                          | inl own ↦ rw own (
                              served-Rests Unit (reset_in_place S now marked parent s ws)
                                (reset_in_place-Rests Unit marked parent s ws))
                          | inr other ↦ rw other (
                              conflict_repaved-Rests conflicting ws s
                                (store_repave now conflicting.correlation_id (some slip) parent s)
                                refl)
                        ])
                ])
              ])
        ]

    duplicate_backstop-Rests :
        (opts : PushOptions) (s : State) (ws : List Error)
        → Rests Unit (duplicate_backstop S now opts slip parent s ws)
    unfolding duplicate_backstop
    duplicate_backstop-Rests opts s ws =
        backstop_loaded-Rests opts s ws (store_load_by_commit opts.repository opts.commit_sha s)
          refl

    create_backstopped-Ends :
        (r : Outcome S now) → Rests Unit r → Ends (create_backstopped S now slip parent r)
    create_backstopped-Ends (s, ws, retry) h =
        create_again-Ends slip parent ws s (store_create slip s) refl
    create_backstopped-Ends (s, ws, handled live) h = h
    create_backstopped-Ends (s, ws, stored slip') h = h
    create_backstopped-Ends (s, ws, failed e) h = h

    reset_backstopped-Ends :
        (r : Outcome S now) → Rests Unit r → Ends (reset_backstopped S now slip parent r)
    reset_backstopped-Ends (s, ws, retry) h = reset_in_place-Rests ⊥ slip parent s ws
    reset_backstopped-Ends (s, ws, handled live) h = h
    reset_backstopped-Ends (s, ws, stored slip') h = h
    reset_backstopped-Ends (s, ws, failed e) h = h

    create_ended-Ends :
        (opts : PushOptions) (ws : List Error) (from : State) (r : State × Option Error)
        → store_create slip from ≡ r
        → Ends (create_ended S now opts slip parent ws r)
    create_ended-Ends opts ws from (s, none) h =
        link_and_store-Rests ⊥ slip parent s ws (Wrote.by_create from h)
    create_ended-Ends opts ws from (s, some e) h =
        elim (Bool-cases (is Sentinel.duplicate_slip e)) [
          | inl duplicate ↦ rw duplicate (
              create_backstopped-Ends (duplicate_backstop S now opts slip parent s ws)
                (duplicate_backstop-Rests opts s ws))
          | inr other ↦ rw other (wraps _ e (Returned.by_create slip from (ap (λ r. r.1) h)))
        ]

    create_fresh-Ends :
        (opts : PushOptions) (ws : List Error) (s : State)
        → Ends (create_fresh S now opts slip parent s ws)
    unfolding create_fresh
    create_fresh-Ends opts ws s = create_ended-Ends opts ws s (store_create slip s) refl

  -- What a retry gives: the slip that its last read gives, or an error of the store.
  abbrev Retried : State × Result Error Slip → Type 0
  Retried (s, ok slip) = (id : String) × (store_load id s ≡ ok slip)
  Retried (s, err e) = IsReturned e

  step-Retried :
      (id : String) (s : State) (r : Result Error Slip) → store_load id s ≡ r → Retried (s, r)
  step-Retried id s (ok slip) h = (id, h)
  step-Retried id s (err e) h = inl (Returned.by_load id s h)

  retried-Retried :
      (id : String) (from : State) (r : State × Option Error)
      → store_step id push_parsed_step "" StepStatus.running (retry_entry S now) from ≡ r
      → Retried (retried S now id r)
  retried-Retried id from (s, none) h = step-Retried id s (store_load id s) refl
  retried-Retried id from (s, some e) h =
      wraps _ e (Returned.by_step id (retry_entry S now) from (ap (λ r. r.1) h))

  handle_push_retry-Retried : (slip : Slip) (s : State) → Retried (handle_push_retry S now slip s)
  unfolding handle_push_retry
  handle_push_retry-Retried slip s =
      retried-Retried slip.correlation_id s
        (store_step slip.correlation_id push_parsed_step "" StepStatus.running (retry_entry S now)
          s)
        refl

  serve_retried-Ends :
      (ws : List Error) (r : State × Result Error Slip)
      → Retried r
      → Ends (serve_retried S now ws r)
  serve_retried-Ends ws (s, ok slip) h = inl h
  serve_retried-Ends ws (s, err e) h = h

  module _ (existing slip : Slip) where
    went_live-Ends :
        (s : State) (ws : List Error) (r : Result Error Slip)
        → store_load existing.correlation_id s ≡ r
        → Ends (went_live S now existing s ws r)
    went_live-Ends s ws (ok live) h =
        serve_retried-Ends ws (handle_push_retry S now live s) (handle_push_retry-Retried live s)
    went_live-Ends s ws (err e) h = wraps _ e (Returned.by_load existing.correlation_id s h)

    repaved_again-Ends :
        (parent : Option AncestryEntry) (ws : List Error) (from : State) (r : State × Option Error)
        → store_repave now existing.correlation_id (some slip) parent from ≡ r
        → Ends (repaved_again S now existing slip ws r)
    repaved_again-Ends parent ws from (s, none) h =
        inl (Wrote.by_repave existing.correlation_id parent from h)
    repaved_again-Ends parent ws from (s, some e) h =
        wraps _ e (Returned.by_repave existing.correlation_id slip parent from (ap (λ r. r.1) h))

    repave_backstopped-Ends :
        (parent : Option AncestryEntry) (r : Outcome S now)
        → Rests Unit r
        → Ends (repave_backstopped S now existing slip parent r)
    repave_backstopped-Ends parent (s, ws, retry) h =
        repaved_again-Ends parent ws s
          (store_repave now existing.correlation_id (some slip) parent s) refl
    repave_backstopped-Ends parent (s, ws, handled live) h = h
    repave_backstopped-Ends parent (s, ws, stored slip') h = h
    repave_backstopped-Ends parent (s, ws, failed e) h = h

  module _ (existing : Slip) (opts : PushOptions) (slip : Slip)
      (parent : Option AncestryEntry) where
    repave_ended-Ends :
        (ws : List Error) (from : State) (r : State × Option Error)
        → store_repave now existing.correlation_id (some slip) parent from ≡ r
        → Ends (repave_ended S now existing opts slip parent ws r)
    repave_ended-Ends ws from (s, none) h =
        inl (Wrote.by_repave existing.correlation_id parent from h)
    repave_ended-Ends ws from (s, some e) h =
        let again = duplicate_backstop S now opts slip parent s ws in
        let (s', ws') = abandon_superseded S now existing s ws in
        elim (Bool-cases (is Sentinel.slip_went_live e)) [
          | inl live ↦
              rw live
                (went_live-Ends existing slip s ws (store_load existing.correlation_id s) refl)
          | inr not_ ↦ rw not_ (elim (Bool-cases (is Sentinel.repave_unsupported e)) [
            | inl unsupported ↦ rw unsupported (create_fresh-Ends slip parent opts ws' s')
            | inr able ↦ rw able (elim (Bool-cases (is Sentinel.duplicate_slip e)) [
              | inl duplicate ↦ rw duplicate (
                  repave_backstopped-Ends existing slip parent again
                    (duplicate_backstop-Rests slip parent opts s ws))
              | inr other ↦ rw other (
                  wraps _ e
                    (Returned.by_repave existing.correlation_id slip parent from (ap (λ r. r.1) h)))
            ])
          ])
        ]

    repave_existing-Ends :
        (s : State) (ws : List Error) → Ends (repave_existing S now existing opts slip parent s ws)
    unfolding repave_existing
    repave_existing-Ends s ws =
        repave_ended-Ends ws s (store_repave now existing.correlation_id (some slip) parent s) refl

  module _ (opts : PushOptions) (slip : Slip) (parent : Option AncestryEntry) where
    own_reset-Ends : (r : Outcome S now) → Ends r → Ends (own_reset S now opts slip parent r)
    own_reset-Ends (s, ws, failed e) h = elim (Bool-cases (is Sentinel.duplicate_slip e)) [
      | inl duplicate ↦ rw duplicate (
          reset_backstopped-Ends slip parent (duplicate_backstop S now opts slip parent s ws)
            (duplicate_backstop-Rests slip parent opts s ws))
      | inr other ↦ rw other h
    ]
    own_reset-Ends (s, ws, handled live) h = h
    own_reset-Ends (s, ws, stored slip') h = h
    own_reset-Ends (s, ws, retry) h = h

  -- Over every store, whatever errors it returns, the persistence of a push ends without a request
  -- to try again. A slip that it serves is what a read of the state that it leaves gives, or was
  -- written; a slip that it stores was written: a create, a reset in place or a repave of it
  -- returned no error, and after that only its ancestry link was written. It fails only with an
  -- error that a call of the store returned, wrapped or as it is.
  pub persist_slip_for_push-Ends :
      (existing : Option Slip) (opts : PushOptions) (slip : Slip) (parent : Option AncestryEntry)
      (s : State) (ws : List Error)
      → Ends (persist_slip_for_push S now existing opts slip parent s ws)
  unfolding persist_slip_for_push
  persist_slip_for_push-Ends none opts slip parent s ws = create_fresh-Ends slip parent opts ws s
  persist_slip_for_push-Ends (some existing) opts slip parent s ws =
      let marked = append_reset_marker now slip existing opts.commit_sha in
      let reset = reset_in_place S now marked parent s ws in
      elim (Bool-cases (existing.correlation_id == opts.correlation_id)) [
        | inl own ↦
            rw own
              (own_reset-Ends opts marked parent reset (reset_in_place-Rests ⊥ marked parent s ws))
        | inr other ↦ rw other (repave_existing-Ends existing opts slip parent s ws)
      ]
