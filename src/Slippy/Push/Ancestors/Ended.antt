-- ===== src/Slippy/Push/Ancestors/Ended.antt =====
-- slippy/push.go: what the loop of `resolveAndAbandonAncestors` does to the store and to the list.
use go_lib_my_carrier.Base.{
  ℕ, ◌≡◌, refl, ◌∙◌, sym, ap, inl, inr, Result, ok, err, Bool-cases, Bool, true, false, Option,
  none, some, String, ◌==◌, eq_iff, List, [], ◌∷◌, ◌++◌, map, append_assoc, append-nil, arith, ◌⊎◌,
  ◌≢◌,
}
use go_lib_my_carrier.Slippy.Errors.{Error}
use go_lib_my_carrier.Slippy.Status.{SlipStatus, slip_is_terminal}
use go_lib_my_carrier.Slippy.Types.{Slip, SlipWithCommit, AncestryEntry}
use go_lib_my_carrier.Slippy.Client.Interface.{SlipStore, IsSlipStore, reads_after}
use go_lib_my_carrier.Slippy.Client.Base.{abandon_slip, promote_slip, end_loaded}
use go_lib_my_carrier.Slippy.Client.Resolve.{GitHub}
use go_lib_my_carrier.Slippy.Push.Options.{PushOptions}
use go_lib_my_carrier.Slippy.Push.Ancestors.{
  Treatment, promote, abandon, leave, treatment, Progress, ended, treat, treat_all,
}

abbrev pub ids_of_ancestry : List AncestryEntry → List String
ids_of_ancestry entries = map (λ (e : AncestryEntry). e.correlation_id) entries

abbrev pub ids_of_slips : List SlipWithCommit → List String
ids_of_slips as_ = map (λ (a : SlipWithCommit). a.slip.correlation_id) as_

ids-append :
    (xs ys : List AncestryEntry)
    → ids_of_ancestry (xs ++ ys) ≡ ids_of_ancestry xs ++ ids_of_ancestry ys
ids-append [] ys = refl
ids-append (x ∷ xs) ys = cc (ids-append xs ys)

reads_other :
    (e : Option Error) (b : Bool) (f : Slip → Slip) (r : Result Error Slip)
    → b ≡ false
    → reads_after e b f r ≡ r
reads_other e b f r h = ground arith

end_loaded-other :
    (S : SlipStore) (L : IsSlipStore S) (op : String) (status : SlipStatus) (now : ℕ)
    (id j : String) (s : S.State) (r : Result Error Slip)
    → (id == j) ≡ false
    → S.load j (end_loaded S op status now id s r).0 ≡ S.load j s
end_loaded-other S L op status now id j s (err e) other = refl
end_loaded-other S L op status now id j s (ok slip) other =
    elim (Bool-cases (slip_is_terminal slip.status)) [
      | inl ended ↦ rw ended refl
      | inr open_ ↦ rw open_ (
          L.load-update_slip_status now id j status s
          ∙ reads_other (S.update_slip_status now id status s).1 (id == j) _ (S.load j s) other)
    ]

abbrev target_or : Treatment → SlipWithCommit → Option String → Option String
target_or leave a rest = rest
target_or promote a rest = some a.slip.correlation_id
target_or abandon a rest = some a.slip.correlation_id

-- The ID of the first slip that the loop does not leave as it is.
abbrev target : PushOptions → Bool → List SlipWithCommit → Option String
target opts squash [] = none
target opts squash (a ∷ as_) =
    target_or (treatment opts squash false a.slip) a (target opts squash as_)

abbrev is_id : Option String → String → Bool
is_id none j = false
is_id (some id) j = id == j

-- A push may end the slip: it is not terminal, and it is the source of a squash merge, or of the
-- branch of the push, where both branches are known.
abbrev pub MayEnd : PushOptions → Bool → Slip → Type 0
MayEnd opts squash slip =
    (slip_is_terminal slip.status ≡ false)
    × ((squash ≡ true) ⊎ ((slip.branch ≡ opts.branch) ⊎ ((slip.branch ≡ "") ⊎ (opts.branch ≡ ""))))

-- The ID is that of the first slip listed that the push may end.
abbrev pub IsFirst : PushOptions → Bool → List SlipWithCommit → String → Type 0
IsFirst opts squash [] j = ⊥
IsFirst opts squash (a ∷ as_) j =
    (MayEnd opts squash a.slip × (a.slip.correlation_id ≡ j))
    ⊎ ((¬ MayEnd opts squash a.slip) × IsFirst opts squash as_ j)

treatment_lem :
    (opts : PushOptions) (squash : Bool) (slip : Slip)
    → (MayEnd opts squash slip × (treatment opts squash false slip ≢ leave))
      ⊎ ((¬ MayEnd opts squash slip) × (treatment opts squash false slip ≡ leave))
treatment_lem opts squash slip =
    ground (arith, eq_iff slip.branch opts.branch, eq_iff slip.branch "", eq_iff opts.branch "")

ended_id :
    (t : Treatment) (a : SlipWithCommit) (rest : Option String) (j : String)
    → t ≢ leave
    → is_id (target_or t a rest) j ≡ true
    → a.slip.correlation_id ≡ j
ended_id leave a rest j ends h = absurd (ends refl)
ended_id promote a rest j ends h = (eq_iff a.slip.correlation_id j).0 h
ended_id abandon a rest j ends h = (eq_iff a.slip.correlation_id j).0 h

target-IsFirst :
    (opts : PushOptions) (squash : Bool) (as_ : List SlipWithCommit) (j : String)
    → is_id (target opts squash as_) j ≡ true
    → IsFirst opts squash as_ j
target-IsFirst opts squash [] j h = cc
target-IsFirst opts squash (a ∷ as_) j h = elim (treatment_lem opts squash a.slip) [
  | inl (may, ends) ↦ inl (may, ended_id (treatment opts squash false a.slip) a _ j ends h)
  | inr (not_, left) ↦ inr (not_, target-IsFirst opts squash as_ j (rw left at h))
]

module _ (S : SlipStore) (L : IsSlipStore S) (G : GitHub) (now : ℕ) (opts : PushOptions) where
  open S use {State, load as store_load}

  ended-ids :
      (slip : Slip) (status : SlipStatus) (warning : Error → Error) (p : Progress)
      (r : State × Option Error)
      → ids_of_ancestry (ended S G now slip status warning p r).1.ancestry
        ≡ ids_of_ancestry p.ancestry ++ slip.correlation_id ∷ []
  ended-ids slip status warning p (s, none) = ids-append p.ancestry _
  ended-ids slip status warning p (s, some e) = ids-append p.ancestry _

  treat-ids :
      (slip : Slip) (t : Treatment) (s : State) (p : Progress)
      → ids_of_ancestry (treat S G now opts slip t (s, p)).1.ancestry
        ≡ ids_of_ancestry p.ancestry ++ slip.correlation_id ∷ []
  treat-ids slip leave s p = ids-append p.ancestry _
  treat-ids slip promote s p = ended-ids slip SlipStatus.promoted _ p _
  treat-ids slip abandon s p = ended-ids slip SlipStatus.abandoned _ p _

  -- The list of ancestors that the loop returns names every slip that was found, in that order,
  -- whichever of them could be ended and whatever failed.
  pub treat_all-ids :
      (squash : Bool) (as_ : List SlipWithCommit) (s : State) (p : Progress)
      → ids_of_ancestry (treat_all S G now opts squash as_ (s, p)).1.ancestry
        ≡ ids_of_ancestry p.ancestry ++ ids_of_slips as_
  unfolding treat_all
  treat_all-ids squash [] s p = sym (append-nil (ids_of_ancestry p.ancestry))
  treat_all-ids squash (a ∷ as_) s p =
      let (s', p') = treat S G now opts a.slip (treatment opts squash p.handled a.slip) (s, p) in
      treat_all-ids squash as_ s' p'
      ∙ rw (treat-ids a.slip (treatment opts squash p.handled a.slip) s p) (
          append_assoc (ids_of_ancestry p.ancestry) (a.slip.correlation_id ∷ []) (ids_of_slips as_))

  -- Once an ancestor was ended, the rest of the loop writes nothing.
  treat_all-done :
      (squash : Bool) (as_ : List SlipWithCommit) (s : State) (ancestry : List AncestryEntry)
      (warnings : List Error)
      → (treat_all S G now opts squash as_
          (s, record { ancestry = ancestry; warnings = warnings; handled = true })).0
        ≡ s
  unfolding treat_all
  treat_all-done squash [] s ancestry warnings = refl
  treat_all-done squash (a ∷ as_) s ancestry warnings = treat_all-done squash as_ s _ warnings

  treat_all-handled :
      (squash : Bool) (as_ : List SlipWithCommit) (s : State) (p : Progress)
      → p.handled ≡ true
      → (treat_all S G now opts squash as_ (s, p)).0 ≡ s
  treat_all-handled squash as_ s p h =
      let q : p ≡ record { ancestry = p.ancestry; warnings = p.warnings; handled = true } =
        ap (λ b. record p { handled = b }) h in
      ap (λ r. (treat_all S G now opts squash as_ (s, r)).0) q
      ∙ treat_all-done squash as_ s p.ancestry p.warnings

  ended-state :
      (slip : Slip) (status : SlipStatus) (warning : Error → Error) (p : Progress)
      (r : State × Option Error)
      → (ended S G now slip status warning p r).0 ≡ r.0
  ended-state slip status warning p (s, none) = refl
  ended-state slip status warning p (s, some e) = refl

  ended-handled :
      (slip : Slip) (status : SlipStatus) (warning : Error → Error) (p : Progress)
      (r : State × Option Error)
      → (ended S G now slip status warning p r).1.handled ≡ true
  ended-handled slip status warning p (s, none) = refl
  ended-handled slip status warning p (s, some e) = refl

  -- The loop after a write that ends an ancestor has the state of that write.
  ended_rest :
      (squash : Bool) (as_ : List SlipWithCommit) (slip : Slip) (status : SlipStatus)
      (warning : Error → Error) (p : Progress) (r : State × Option Error)
      → (treat_all S G now opts squash as_ (ended S G now slip status warning p r)).0 ≡ r.0
  ended_rest squash as_ slip status warning p r =
      let (s', p') = ended S G now slip status warning p r in
      treat_all-handled squash as_ s' p' (ended-handled slip status warning p r)
      ∙ ended-state slip status warning p r

  -- What the loop leaves of one slip `j`, from a state and a progress with no ancestor ended yet.
  abbrev Leaves : String → Bool → List SlipWithCommit → Type 0
  Leaves j squash as_ =
      (s : State) (p : Progress)
      → p.handled ≡ false
      → is_id (target opts squash as_) j ≡ false
      → store_load j (treat_all S G now opts squash as_ (s, p)).0 ≡ store_load j s

  treated :
      (squash : Bool) (a : SlipWithCommit) (as_ : List SlipWithCommit) (t : Treatment) (s : State)
      (p : Progress) (j : String)
      → p.handled ≡ false
      → is_id (target_or t a (target opts squash as_)) j ≡ false
      → Leaves j squash as_
      → store_load j (treat_all S G now opts squash as_ (treat S G now opts a.slip t (s, p))).0
        ≡ store_load j s
  unfolding abandon_slip promote_slip
  treated squash a as_ leave s p j fresh other later =
      let (s', p') = treat S G now opts a.slip leave (s, p) in later s' p' fresh other
  treated squash a as_ promote s p j fresh other later =
      ap (store_load j) (
        ended_rest squash as_ a.slip SlipStatus.promoted _ p
          (promote_slip S now a.slip.correlation_id s))
      ∙ end_loaded-other S L "promote" SlipStatus.promoted now a.slip.correlation_id j s
          (store_load a.slip.correlation_id s) other
  treated squash a as_ abandon s p j fresh other later =
      ap (store_load j) (
        ended_rest squash as_ a.slip SlipStatus.abandoned _ p
          (abandon_slip S now a.slip.correlation_id s))
      ∙ end_loaded-other S L "abandon" SlipStatus.abandoned now a.slip.correlation_id j s
          (store_load a.slip.correlation_id s) other

  treat_all-other :
      (squash : Bool) (as_ : List SlipWithCommit) (s : State) (p : Progress) (j : String)
      → p.handled ≡ false
      → is_id (target opts squash as_) j ≡ false
      → store_load j (treat_all S G now opts squash as_ (s, p)).0 ≡ store_load j s
  unfolding treat_all
  treat_all-other squash [] s p j fresh other = refl
  treat_all-other squash (a ∷ as_) s p j fresh other =
      let q : is_id (target_or (treatment opts squash p.handled a.slip) a (target opts squash as_))
            j
          ≡ false =
        ap (λ b. is_id (target_or (treatment opts squash b a.slip) a (target opts squash as_)) j)
          fresh
        ∙ other in
      treated squash a as_ (treatment opts squash p.handled a.slip) s p j fresh q
        (λ s' p' fresh' other'. treat_all-other squash as_ s' p' j fresh' other')

  -- The loop changes at most one slip of the store: the first of those found that is not terminal
  -- and, outside a squash merge, of the branch of the push or of a branch that is not known, as any
  -- slip is for a push whose branch is not known. What a read of any other slip gives stays as it
  -- was, in every store that keeps the laws.
  pub treat_all-one :
      (squash : Bool) (as_ : List SlipWithCommit) (s : State) (p : Progress) (j : String)
      → p.handled ≡ false
      → ¬ IsFirst opts squash as_ j
      → store_load j (treat_all S G now opts squash as_ (s, p)).0 ≡ store_load j s
  treat_all-one squash as_ s p j fresh other =
      elim (Bool-cases (is_id (target opts squash as_) j)) [
        | inl first ↦ absurd (other (target-IsFirst opts squash as_ j first))
        | inr apart ↦ treat_all-other squash as_ s p j fresh apart
      ]
