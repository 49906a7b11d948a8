-- ===== src/Argo/Canary/Entries.antt =====
-- argocdclient/canary_evidence.go: what the loop over the entries of plugins keeps.
use go_lib_my_carrier.Base.{
  none, some, sym, ◌∙◌, refl, ℕ, ◌≡◌, refl, sym, ap, ◌∙◌, ◌⊎◌, inl, inr, true, Option, String, ◌==◌,
  List, [], ◌∷◌, all, Any, nat_eq, arith, Bool-cases,
}
use go_lib_my_carrier.Argo.Integer.{ℤ, lt_int, int_eq, max_int}
use go_lib_my_carrier.Argo.Rollout.{StepPluginStatus}
use go_lib_my_carrier.Argo.Canary.{
  Barriers, is_barrier, is_passed, read_entry, read_entries, after, paused_after,
}
use go_lib_my_carrier.Argo.Canary.Evidence.{
  is_later, is_before_pause, began_after, is_ending, is_unpassed,
}

nat_eq_refl : (k : ℕ) → nat_eq k k ≡ true
nat_eq_refl k = ground arith

max_int-above :
    (i : ℕ) (m n : ℤ)
    → lt_int (ℤ.pos i) (max_int m n) ≡ true
    → (lt_int (ℤ.pos i) m ≡ true) ⊎ (lt_int (ℤ.pos i) n ≡ true)
max_int-above i m n h = ground arith

max_int-below :
    (k : ℕ) (m n : ℤ)
    → lt_int (max_int m n) (ℤ.pos k) ≡ true
    → (lt_int m (ℤ.pos k) ≡ true) × (lt_int n (ℤ.pos k) ≡ true)
max_int-below k m n h = ground arith

module _ (plugin : String) where
  read_entry-reached :
      (p : StepPluginStatus) (b : Barriers) (i : ℕ)
      → lt_int (ℤ.pos i) (read_entry plugin p b).reached ≡ true
      → (lt_int (ℤ.pos i) b.reached ≡ true) ⊎ (is_later plugin i p ≡ true)
  unfolding read_entry
  read_entry-reached p b i h = ground (arith, max_int-above i b.reached p.index)

  read_entry-last :
      (p : StepPluginStatus) (b : Barriers) (k : ℕ)
      → lt_int (read_entry plugin p b).last (ℤ.pos k) ≡ true
      → (lt_int b.last (ℤ.pos k) ≡ true) × (is_unpassed plugin k p ≡ true)
  unfolding read_entry
  read_entry-last p b k h = ground (arith, max_int-below k b.last p.index)

  int_eq-after : (i j : ℤ) → int_eq i j ≡ true → nat_eq (after i) (after j) ≡ true
  int_eq-after i j h = ground arith

  paused_after-began : (pause f : Option ℕ) → paused_after pause f ≡ began_after pause f
  unfolding paused_after began_after
  paused_after-began none none = refl
  paused_after-began none (some f) = refl
  paused_after-began (some t) none = refl
  paused_after-began (some t) (some f) = refl

  read_entry-finished :
      (p : StepPluginStatus) (b : Barriers) (pause : Option ℕ) (j : ℤ)
      → paused_after pause ((read_entry plugin p b).finished j) ≡ true
      → (paused_after pause (b.finished j) ≡ true)
        ⊎ (is_before_pause plugin pause (after j) p ≡ true)
  unfolding read_entry is_before_pause
  read_entry-finished p b pause j h = elim (Bool-cases (is_barrier plugin p)) [
    | inr other ↦ inl (rw other at h)
    | inl barrier ↦ elim (Bool-cases (p.phase == "Successful")) [
      | inr waiting ↦ inl (rw (barrier, waiting) at h)
      | inl successful ↦ elim (Bool-cases (int_eq p.index j)) [
        | inr apart ↦ inl (rw (barrier, successful, apart) at h)
        | inl same ↦ inr (
            rw (barrier, successful, int_eq-after p.index j same)
              (sym (paused_after-began pause p.finished_at)
                ∙ (rw (barrier, successful, same) at h)))
      ]
    ]
  ]

  pub read_entries-reached :
      (ps : List StepPluginStatus) (b : Barriers) (i : ℕ)
      → lt_int (ℤ.pos i) (read_entries plugin ps b).reached ≡ true
      → (lt_int (ℤ.pos i) b.reached ≡ true) ⊎ Any (λ p. is_later plugin i p ≡ true) ps
  unfolding read_entries
  read_entries-reached [] b i h = inl h
  read_entries-reached (p ∷ ps) b i h = elim (read_entries-reached ps (read_entry plugin p b) i h) [
    | inl before ↦ elim (read_entry-reached p b i before) [
      | inl old ↦ inl old
      | inr new ↦ inr (inl new)
    ]
    | inr later ↦ inr (inr later)
  ]

  pub read_entries-last :
      (ps : List StepPluginStatus) (b : Barriers) (k : ℕ)
      → lt_int (read_entries plugin ps b).last (ℤ.pos k) ≡ true
      → (lt_int b.last (ℤ.pos k) ≡ true) × (all (is_unpassed plugin k) ps ≡ true)
  unfolding read_entries
  read_entries-last [] b k h = (h, refl)
  read_entries-last (p ∷ ps) b k h =
      let later = read_entries-last ps (read_entry plugin p b) k h in
      let here = read_entry-last p b k later.0 in (here.0, rw here.1 later.1)

  read_entry-ends :
      (p : StepPluginStatus) (b : Barriers)
      → ((read_entry plugin p b).last ≡ b.last)
        ⊎ ((is_passed plugin p ≡ true) × ((read_entry plugin p b).last ≡ p.index))
  unfolding read_entry
  read_entry-ends p b = elim (Bool-cases (is_barrier plugin p)) [
    | inr other ↦ inl (rw other refl)
    | inl barrier ↦ elim (Bool-cases (p.phase == "Successful")) [
      | inr waiting ↦ inl (rw (barrier, waiting) refl)
      | inl successful ↦ elim (Bool-cases (lt_int b.last p.index)) [
        | inr smaller ↦ inl (rw (barrier, successful, smaller) refl)
        | inl larger ↦ inr (rw (barrier, successful) refl, rw (barrier, successful, larger) refl)
      ]
    ]
  ]

  -- The last barrier at the end is the one of the start, or that of an entry.
  pub read_entries-ends :
      (ps : List StepPluginStatus) (b : Barriers) (k : ℕ)
      → after (read_entries plugin ps b).last ≡ k
      → (after b.last ≡ k) ⊎ Any (λ p. is_ending plugin k p ≡ true) ps
  unfolding read_entries
  read_entries-ends [] b k h = inl h
  read_entries-ends (p ∷ ps) b k h = elim (read_entries-ends ps (read_entry plugin p b) k h) [
    | inr later ↦ inr (inr later)
    | inl here ↦ elim (read_entry-ends p b) [
      | inl kept ↦ inl (ap after (sym kept) ∙ here)
      | inr (passed, moved) ↦
          let same : after p.index ≡ k = ap after (sym moved) ∙ here in
          inr (inl (rw (passed, same) (nat_eq_refl k)))
    ]
  ]

  -- A time that the map of times holds at the end, and a pause came after.
  pub read_entries-finished :
      (ps : List StepPluginStatus) (b : Barriers) (pause : Option ℕ) (j : ℤ)
      → paused_after pause ((read_entries plugin ps b).finished j) ≡ true
      → (paused_after pause (b.finished j) ≡ true)
        ⊎ Any (λ p. is_before_pause plugin pause (after j) p ≡ true) ps
  unfolding read_entries
  read_entries-finished [] b pause j h = inl h
  read_entries-finished (p ∷ ps) b pause j h =
      elim (read_entries-finished ps (read_entry plugin p b) pause j h) [
        | inl before ↦ elim (read_entry-finished p b pause j before) [
          | inl old ↦ inl old
          | inr new ↦ inr (inl new)
        ]
        | inr later ↦ inr (inr later)
      ]
