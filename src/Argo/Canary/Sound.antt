-- ===== src/Argo/Canary/Sound.antt =====
-- argocdclient/canary_evidence.go: what an answer of true rests on.
use mathlib.Core.Path.{subst}
use go_lib_my_carrier.Base.{
  ℕ, zero, suc, ◌+◌, ◌<◌, ◌≤◌, ◌≡◌, refl, &&-eq-true, ||-eq-true, sym, ap, ◌∙◌, ◌⊎◌, inl, inr, true,
  false, ◌&&◌, not, Option, none, some, List, [], ◌∷◌, ◌++◌, drop, length, all, Any, contains,
  arith, Bool-cases,
}
use go_lib_my_carrier.Argo.Integer.{ℤ, lt_int, int32, minus_one}
use go_lib_my_carrier.Argo.Rollout.{CanaryStep, or_int}
use go_lib_my_carrier.Argo.Canary.{
  CanaryEvidence, Barriers, read_entries, gives_traffic, weighted_before, weighted_before_wait,
  after, paused_after, step_analysis_abort, stopped_later, no_barriers, moved_past_traffic_step,
}
use go_lib_my_carrier.Argo.Canary.Evidence.{Evidence, is_before_pause, is_unpassed}
use go_lib_my_carrier.Argo.Canary.Entries.{
  read_entries-reached, read_entries-last, read_entries-ends, read_entries-finished,
}

int32_small : (i : ℕ) → i < 2147483648 → int32 i ≡ ℤ.pos i
unfolding int32
int32_small i h = ground arith

-- A step that the first loop finds.
weighted_before-split :
    (reached : ℤ) (i : ℕ) (steps : List CanaryStep)
    → i + length steps ≤ 2147483648
    → weighted_before reached i steps ≡ true
    → (front rest : List CanaryStep) × (step : CanaryStep) × (steps ≡ front ++ (step ∷ rest))
      × (gives_traffic step ≡ true)
      × (lt_int (ℤ.pos (i + length front)) reached ≡ true)
unfolding weighted_before
weighted_before-split reached i [] small h = cc
weighted_before-split reached i (s ∷ ss) small h =
    elim (Bool-cases (gives_traffic s && lt_int (int32 i) reached)) [
      | inl here ↦
          let both = (&&-eq-true (gives_traffic s) (lt_int (int32 i) reached)).0 here in
          let same : i ≡ i + 0 = omega arith in
          let before =
            subst (λ j. lt_int (ℤ.pos j) reached ≡ true) same
              (subst (λ z. lt_int z reached ≡ true) (int32_small i (omega arith)) both.1) in
          ([], ss, s, refl, both.0, before)
      | inr there ↦
          let (front, rest, step, split, gives, before) =
            weighted_before-split reached (suc i) ss (omega arith) (rw there at h) in
          let same : suc i + length front ≡ i + suc (length front) = omega arith in
          (
            s ∷ front,
            rest,
            step,
            ap (λ xs. s ∷ xs) split,
            gives,
            subst (λ j. lt_int (ℤ.pos j) reached ≡ true) same before,
          )
    ]

drop-split :
    (k : ℕ) (xs : List CanaryStep)
    → (drop k xs ≡ [])
      ⊎ ((front : List CanaryStep) × (xs ≡ front ++ drop k xs) × (length front ≡ k))
drop-split zero xs = inr ([], refl, refl)
drop-split (suc k) [] = inl refl
drop-split (suc k) (x ∷ xs) = elim (drop-split k xs) [
  | inl over ↦ inl over
  | inr (front, split, size) ↦ inr (x ∷ front, ap (λ ys. x ∷ ys) split, ap suc size)
]

weighted_before_wait-split :
    (steps : List CanaryStep)
    → weighted_before_wait steps ≡ true
    → (between rest : List CanaryStep) × (step : CanaryStep) × (steps ≡ between ++ (step ∷ rest))
      × (gives_traffic step ≡ true)
      × (all (λ s. not s.waits) between ≡ true)
unfolding weighted_before_wait
weighted_before_wait-split [] h = cc
weighted_before_wait-split (s ∷ ss) h = elim (Bool-cases (gives_traffic s)) [
  | inl gives ↦ ([], ss, s, refl, gives, refl)
  | inr none_here ↦
      let waiting : s.waits ≡ false = ground (arith, none_here, h) in
      let (between, rest, step, split, gives, quiet) =
        weighted_before_wait-split ss (ground (arith, none_here, waiting, h)) in
      (s ∷ between, rest, step, ap (λ xs. s ∷ xs) split, gives, rw waiting quiet)
]

after-below : (m : ℤ) → lt_int m (ℤ.pos (after m)) ≡ true
after-below m = ground arith

index-later :
    (index : Option ℤ) (i : ℕ)
    → lt_int (ℤ.pos i) (or_int minus_one index) ≡ true
    → (c : ℤ) × (index ≡ some c) × (lt_int (ℤ.pos i) c ≡ true)
index-later none i h = cc
index-later (some c) i h = (c, refl, h)

paused_after-none : (pause : Option ℕ) → paused_after pause none ≡ true → ⊥
unfolding paused_after
paused_after-none none h = cc
paused_after-none (some t) h = cc

module _ (e : CanaryEvidence) where
  abbrev read : Barriers
  read = read_entries e.barrier_plugin e.step_plugin_statuses (no_barriers e.current_step_index)

  reached-Evidence :
      length e.steps ≤ 2147483648 → weighted_before read.reached 0 e.steps ≡ true → Evidence e
  reached-Evidence small h =
      let (front, rest, step, split, gives, before) =
        weighted_before-split read.reached 0 e.steps (omega arith) h in
      let same : 0 + length front ≡ length front = omega arith in
      let start = no_barriers e.current_step_index in
      elim (read_entries-reached e.barrier_plugin e.step_plugin_statuses start (length front)
        (rw same at before)) [
          | inl old ↦
              let (c, here, later) = index-later e.current_step_index (length front) old in
              Evidence.later_index front rest step split gives c here later
          | inr entry ↦ Evidence.later_entry front rest step split gives entry
        ]

  stopped_later-reason :
      stopped_later e read ≡ true
      → (contains e.message step_analysis_abort ≡ true)
        ⊎ Any
            (λ p. is_before_pause e.barrier_plugin e.paused_at (after read.last) p ≡ true)
            e.step_plugin_statuses
  unfolding stopped_later
  stopped_later-reason h =
      let start = no_barriers e.current_step_index in
      elim ((||-eq-true (contains e.message step_analysis_abort)
          (paused_after e.paused_at (read.finished read.last))).0
        h) [
          | inl abort ↦ inl abort
          | inr pause ↦
              elim (read_entries-finished e.barrier_plugin e.step_plugin_statuses start e.paused_at
                read.last pause) [
                  | inl unfinished ↦ absurd (paused_after-none e.paused_at unfinished)
                  | inr entry ↦ inr entry
                ]
        ]

  waited-Evidence :
      stopped_later e read ≡ true
      → weighted_before_wait (drop (after read.last) e.steps) ≡ true
      → Evidence e
  unfolding weighted_before_wait
  waited-Evidence over h =
      let (between, rest, step, split, gives, quiet) =
        weighted_before_wait-split (drop (after read.last) e.steps) h in
      elim (drop-split (after read.last) e.steps) [
        | inl none_left ↦ cc (rw none_left at h)
        | inr (front, whole, size) ↦
            let start = no_barriers e.current_step_index in
            let k = after read.last in
            let unpassed =
              (read_entries-last e.barrier_plugin e.step_plugin_statuses start k
                (after-below read.last)).1 in
            let all_steps : e.steps ≡ front ++ (between ++ (step ∷ rest)) =
              whole ∙ ap (λ xs. front ++ xs) split in
            Evidence.stopped front between rest step all_steps gives quiet
              (subst (λ n. all (is_unpassed e.barrier_plugin n) e.step_plugin_statuses ≡ true)
                (sym size) unpassed)
              (elim (read_entries-ends e.barrier_plugin e.step_plugin_statuses start (length front)
                (sym size)) [ inl none_passed ↦ inl (sym none_passed) | inr entry ↦ inr entry ])
              (subst
                (λ n.
                  (contains e.message step_analysis_abort ≡ true)
                  ⊎ Any (λ p. is_before_pause e.barrier_plugin e.paused_at n p ≡ true)
                      e.step_plugin_statuses)
                (sym size) (stopped_later-reason over))
      ]

-- An answer of true rests on evidence that the status shows, if an int32 can number the steps: a
-- step that gives traffic is before a step with an entry of a barrier, or before the current
-- index, or follows the last barrier that has passed without a step between them that waits,
-- after the abort of a step analysis or a pause that began after that barrier.
pub moved_past_traffic_step-Evidence :
    (e : CanaryEvidence)
    → length e.steps ≤ 2147483648
    → moved_past_traffic_step e ≡ true
    → Evidence e
unfolding moved_past_traffic_step
moved_past_traffic_step-Evidence e small h =
    elim (Bool-cases (weighted_before (read e).reached 0 e.steps)) [
      | inl before ↦ reached-Evidence e small before
      | inr not_before ↦ elim (Bool-cases (stopped_later e (read e))) [
        | inl over ↦ waited-Evidence e over (rw over at (rw not_before at h))
        | inr going ↦ cc (rw going at (rw not_before at h))
      ]
    ]
