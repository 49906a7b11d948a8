-- ===== src/Slippy/Client/Hold/Rounds.antt =====
-- slippy/hold.go: how a wait ends.
use go_lib_my_carrier.Base.{
  ℕ, ◌≡◌, ◌⊎◌, refl, Bool, true, Option, none, some, String, ◌==◌, List, [], ◌∷◌, arith, Result, ok,
  err, any, ltb, Bool-cases, inl, inr,
}
use go_lib_my_carrier.Slippy.Errors.{Error}
use go_lib_my_carrier.Slippy.Status.{PrereqStatus}
use go_lib_my_carrier.Slippy.Types.{Slip}
use go_lib_my_carrier.Slippy.Client.Interface.{SlipStore}
use go_lib_my_carrier.Slippy.Client.Base.{Config}
use go_lib_my_carrier.Slippy.Client.Prereqs.{PrereqResult, check_prerequisites}
use go_lib_my_carrier.Slippy.Client.Hold.{
  HoldOptions, ShowDuration, Poll, Round, finish, again, time_out_waiting, timed_out_with,
  decide_round, round_loaded, round, wait_loop, wait_next,
}

-- The prerequisites are completed in what the store holds.
abbrev pub AreMet : (S : SlipStore) → Config → HoldOptions → S.State → Type 0
AreMet S config opts s =
    (slip : Slip) × (S.load opts.correlation_id s ≡ ok slip)
    × ((check_prerequisites config.pipeline_config slip opts.prerequisites
          opts.component_name).status
        ≡ PrereqStatus.completed)

module _ (S : SlipStore) (config : Config) (show : ShowDuration) (opts : HoldOptions)
    (deadline : ℕ) where
  open S use {State, load as store_load}

  -- What a round that proceeds has seen.
  abbrev Proceeds : Round State → Type 0
  Proceeds (finish s none) = AreMet S config opts s
  Proceeds (finish s (some e)) = Unit
  Proceeds (again s) = Unit

  timed_out-Proceeds :
      (msg : String) (r : State × Option Error) → Proceeds (timed_out_with S config show msg r)
  timed_out-Proceeds msg (s, none) = tt
  timed_out-Proceeds msg (s, some e) = tt

  time_out-Proceeds :
      (now : ℕ) (running : List String) (s : State)
      → Proceeds (time_out_waiting S config show opts now running s)
  time_out-Proceeds now running s = elim (Bool-cases (opts.step_name == "")) [
    | inl unnamed ↦ rw unnamed tt
    | inr named ↦ rw named (timed_out-Proceeds _ _)
  ]

  decide_round-Proceeds :
      (poll : Poll State) (status : PrereqStatus) (r : PrereqResult) (s : State)
      → (status ≡ PrereqStatus.completed → AreMet S config opts s)
      → Proceeds (decide_round S config show opts deadline poll status r s)
  decide_round-Proceeds poll PrereqStatus.completed r s met = met refl
  decide_round-Proceeds poll PrereqStatus.failed r s met = tt
  decide_round-Proceeds poll PrereqStatus.running r s met =
      elim (Bool-cases (ltb deadline poll.now)) [
        | inl late ↦ rw late (time_out-Proceeds poll.now r.running_prereqs s)
        | inr early ↦ rw early (elim (Bool-cases poll.cancelled_waiting) [
          | inl stopped ↦ rw stopped tt
          | inr not_ ↦ rw not_ tt
        ])
      ]

  round_loaded-Proceeds :
      (poll : Poll State) (s : State) (r : Result Error Slip)
      → store_load opts.correlation_id s ≡ r
      → Proceeds (round_loaded S config show opts deadline poll s r)
  round_loaded-Proceeds poll s (err e) loaded = tt
  round_loaded-Proceeds poll s (ok slip) loaded =
      let r =
        check_prerequisites config.pipeline_config slip opts.prerequisites opts.component_name in
      decide_round-Proceeds poll r.status r s (λ met. (slip, loaded, met))

  round-Proceeds :
      (poll : Poll State) (s : State) → Proceeds (round S config show opts deadline poll s)
  unfolding round
  round-Proceeds poll s = elim (Bool-cases poll.cancelled) [
    | inl stopped ↦ rw stopped tt
    | inr not_ ↦ rw not_ (
        round_loaded-Proceeds poll (poll.others s) (store_load opts.correlation_id (poll.others s))
          refl)
  ]

  wait_next-met :
      (rest : State → State × Option (Option Error)) (r : Round State)
      → Proceeds r
      → ((s : State) → (rest s).1 ≡ some none → AreMet S config opts (rest s).0)
      → (wait_next S config show rest r).1 ≡ some none
      → AreMet S config opts (wait_next S config show rest r).0
  wait_next-met rest (finish s none) met later h = met
  wait_next-met rest (finish s (some e)) met later h = cc
  wait_next-met rest (again s) met later h = later s h

  -- A wait that ends without an error leaves a store in which the slip can be loaded and all of the
  -- prerequisites named have succeeded, whatever other callers did between its polls.
  pub wait_loop-met :
      (polls : List (Poll State)) (s : State)
      → (wait_loop S config show opts deadline polls s).1 ≡ some none
      → AreMet S config opts (wait_loop S config show opts deadline polls s).0
  unfolding wait_loop
  wait_loop-met [] s h = cc
  wait_loop-met (poll ∷ polls) s h =
      wait_next-met (wait_loop S config show opts deadline polls)
        (round S config show opts deadline poll s) (round-Proceeds poll s) (wait_loop-met polls) h

  -- A round that is the last one.
  abbrev IsLast : Round State → Type 0
  IsLast (finish s e) = Unit
  IsLast (again s) = ⊥

  abbrev pub is_late : Poll State → Bool
  is_late poll = ltb deadline poll.now

  timed_out-IsLast :
      (msg : String) (r : State × Option Error) → IsLast (timed_out_with S config show msg r)
  timed_out-IsLast msg (s, none) = tt
  timed_out-IsLast msg (s, some e) = tt

  time_out-IsLast :
      (now : ℕ) (running : List String) (s : State)
      → IsLast (time_out_waiting S config show opts now running s)
  time_out-IsLast now running s = elim (Bool-cases (opts.step_name == "")) [
    | inl unnamed ↦ rw unnamed tt
    | inr named ↦ rw named (timed_out-IsLast _ _)
  ]

  decide_round-IsLast :
      (poll : Poll State) (status : PrereqStatus) (r : PrereqResult) (s : State)
      → is_late poll ≡ true
      → IsLast (decide_round S config show opts deadline poll status r s)
  decide_round-IsLast poll PrereqStatus.completed r s late = tt
  decide_round-IsLast poll PrereqStatus.failed r s late = tt
  decide_round-IsLast poll PrereqStatus.running r s late =
      rw late (time_out-IsLast poll.now r.running_prereqs s)

  round_loaded-IsLast :
      (poll : Poll State) (s : State) (r : Result Error Slip)
      → is_late poll ≡ true
      → IsLast (round_loaded S config show opts deadline poll s r)
  round_loaded-IsLast poll s (err e) late = tt
  round_loaded-IsLast poll s (ok slip) late =
      let r =
        check_prerequisites config.pipeline_config slip opts.prerequisites opts.component_name in
      decide_round-IsLast poll r.status r s late

  round-IsLast :
      (poll : Poll State) (s : State)
      → is_late poll ≡ true
      → IsLast (round S config show opts deadline poll s)
  unfolding round
  round-IsLast poll s late = elim (Bool-cases poll.cancelled) [
    | inl stopped ↦ rw stopped tt
    | inr not_ ↦ rw not_ (
        round_loaded-IsLast poll (poll.others s) (store_load opts.correlation_id (poll.others s))
          late)
  ]

  abbrev pub HasEnded : State × Option (Option Error) → Type 0
  HasEnded r = (e : Option Error) × (r.1 ≡ some e)

  wait_next-HasEnded :
      (rest : State → State × Option (Option Error)) (r : Round State)
      → IsLast r ⊎ ((s : State) → HasEnded (rest s))
      → HasEnded (wait_next S config show rest r)
  wait_next-HasEnded rest (finish s e) h = (e, refl)
  wait_next-HasEnded rest (again s) (inl last) = absurd last
  wait_next-HasEnded rest (again s) (inr later) = later s

  -- A wait ends, in one way or another, by the first poll that is made past the deadline.
  pub wait_loop-HasEnded :
      (polls : List (Poll State)) (s : State)
      → any is_late polls ≡ true
      → HasEnded (wait_loop S config show opts deadline polls s)
  unfolding wait_loop
  wait_loop-HasEnded [] s h = cc
  wait_loop-HasEnded (poll ∷ polls) s h =
      wait_next-HasEnded (wait_loop S config show opts deadline polls)
        (round S config show opts deadline poll s)
        (elim (Bool-cases (is_late poll)) [
          | inl late ↦ inl (round-IsLast poll s late)
          | inr early ↦ inr (λ s'. wait_loop-HasEnded polls s' (ground (arith, early, h)))
        ])
