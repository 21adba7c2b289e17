-- ===== src/Work/Workflow.antt =====
-- packages/shared/src/workflow.ts: what each delivery method requires, and the next action on a work.
use kootha.Prelude.{
  ℕ, suc, length, ◌≤◌, subst, subst₂, sym, ◌≡◌, refl, Bool, true, false, not, ◌&&◌, ◌||◌, Option,
  none, some, List, [], ◌∷◌, String, arith, if◌then◌else◌, every, any, includes, str_eq, ltb,
}
use kootha.Prelude.Json.{Text}
use kootha.Work.Execution.{is_given, has_text}

pub data DeliveryMethod : Type 0 where
  vehicle_announcement field_promotion print_placement digital_media event_campaign custom :
      DeliveryMethod

pub data ExecutionMode : Type 0 where
  driver_app admin_managed : ExecutionMode

pub record AdWorkRequirements : Type 0 where
  pub execution_mode : ExecutionMode
  pub driver_required : Bool
  pub vehicle_required : Bool
  pub speaker_required : Bool
  pub areas_required : Bool
  pub photo_proof_required : Bool
  pub customer_updates_required : Bool

abbrev pub admin_managed_defaults : AdWorkRequirements
admin_managed_defaults = record {
  execution_mode = admin_managed;
  driver_required = false;
  vehicle_required = false;
  speaker_required = false;
  areas_required = false;
  photo_proof_required = true;
  customer_updates_required = true;
}

unfoldable pub get_delivery_method_requirements : DeliveryMethod → AdWorkRequirements
get_delivery_method_requirements vehicle_announcement = record {
  execution_mode = driver_app;
  driver_required = true;
  vehicle_required = true;
  speaker_required = true;
  areas_required = true;
  photo_proof_required = true;
  customer_updates_required = true;
}
get_delivery_method_requirements field_promotion = record {
  execution_mode = driver_app;
  driver_required = true;
  vehicle_required = false;
  speaker_required = false;
  areas_required = true;
  photo_proof_required = true;
  customer_updates_required = true;
}
get_delivery_method_requirements print_placement = record admin_managed_defaults {
  areas_required = true;
}
get_delivery_method_requirements digital_media = admin_managed_defaults
get_delivery_method_requirements event_campaign = record admin_managed_defaults {
  areas_required = true;
}
get_delivery_method_requirements custom = admin_managed_defaults

pub data AdWorkNextAction : Type 0 where
  complete_setup choose_resources send_to_driver start_work : AdWorkNextAction
  monitor_work review_proof finish_work finished : AdWorkNextAction

pub data AdWorkProgressPhase : Type 0 where
  prepare do_work finish : AdWorkProgressPhase

pub record AdWorkWorkflowState : Type 0 where
  pub title : Option Text
  pub start_date : Option Text
  pub areas_to_cover : Option Text
  pub delivery_method : Option DeliveryMethod
  pub requirements : AdWorkRequirements
  pub assignment_ready : Bool
  pub release_status : Option String
  pub day_statuses : List String
  pub pending_proof_count : ℕ
  pub closure_status : Option String

-- The `phase` of `actionCopy`.
unfoldable pub phase_of : AdWorkNextAction → AdWorkProgressPhase
phase_of action = elim action [
  | complete_setup ↦ prepare
  | choose_resources ↦ prepare
  | send_to_driver ↦ prepare
  | start_work ↦ do_work
  | monitor_work ↦ do_work
  | _ ↦ finish
]

abbrev pub is_closed : AdWorkWorkflowState → Bool
is_closed input = elim input.closure_status [
  | none ↦ false
  | some status ↦ includes status ("closed" ∷ "closed_with_issues" ∷ "cancelled" ∷ [])
]

abbrev pub is_setup_complete : AdWorkWorkflowState → Bool
is_setup_complete input =
    elim input.delivery_method [ none ↦ false | some m ↦ true ]
    && (has_text input.title
        && (is_given input.start_date
            && (not input.requirements.areas_required || has_text input.areas_to_cover)))

abbrev pub is_released : AdWorkWorkflowState → Bool
is_released input = elim input.release_status [
  | none ↦ false
  | some status ↦ str_eq status "released_to_driver"
]

abbrev pub has_started : AdWorkWorkflowState → Bool
has_started input =
    any (λ status. includes status ("running" ∷ "on_break" ∷ "completed" ∷ "issue_reported" ∷ []))
      input.day_statuses

abbrev pub all_completed : AdWorkWorkflowState → Bool
all_completed input =
    not (elim input.day_statuses [ [] ↦ true | s ∷ ss ↦ false ])
    && every (λ status. str_eq status "completed") input.day_statuses

abbrev pub is_driver_app : ExecutionMode → Bool
is_driver_app driver_app = true
is_driver_app admin_managed = false

unfoldable pub derive_ad_work_next_action : AdWorkWorkflowState → AdWorkNextAction
derive_ad_work_next_action input =
    if is_closed input
    then finished
    else if not (is_setup_complete input)
    then complete_setup
    else if input.requirements.driver_required && not input.assignment_ready
    then choose_resources
    else if is_driver_app input.requirements.execution_mode && not (is_released input)
    then send_to_driver
    else if not (has_started input) && not (is_driver_app input.requirements.execution_mode)
    then start_work
    else if not (all_completed input)
    then monitor_work
    else if input.requirements.photo_proof_required && ltb 0 input.pending_proof_count
    then review_proof
    else finish_work

-- The place of an action in the order of the work.
unfoldable pub rank : AdWorkNextAction → ℕ
rank action = elim action [
  | complete_setup ↦ 0
  | choose_resources ↦ 1
  | send_to_driver ↦ 2
  | start_work ↦ 3
  | monitor_work ↦ 4
  | review_proof ↦ 5
  | finish_work ↦ 6
  | finished ↦ 7
]

-- The second state is as far as the first or farther, in every respect.
pub record IsProgress (before after : AdWorkWorkflowState) : Type 0 where
  pub same_requirements : before.requirements ≡ after.requirements
  pub setup : is_setup_complete before ≡ true → is_setup_complete after ≡ true
  pub assignment : before.assignment_ready ≡ true → after.assignment_ready ≡ true
  pub release : is_released before ≡ true → is_released after ≡ true
  pub started : has_started before ≡ true → has_started after ≡ true
  pub completed : all_completed before ≡ true → all_completed after ≡ true
  pub proofs : after.pending_proof_count ≤ before.pending_proof_count
  pub closure : is_closed before ≡ true → is_closed after ≡ true

-- What must hold before each action is done with, in the order of the work.
abbrev conditions : AdWorkWorkflowState → List Bool
conditions s =
    is_setup_complete s
    ∷ (not s.requirements.driver_required || s.assignment_ready)
    ∷ (not (is_driver_app s.requirements.execution_mode) || is_released s)
    ∷ (has_started s || is_driver_app s.requirements.execution_mode)
    ∷ all_completed s
    ∷ (not s.requirements.photo_proof_required || not (ltb 0 s.pending_proof_count))
    ∷ []

abbrev first_failing : List Bool → ℕ
first_failing [] = 0
first_failing (b ∷ bs) = if b then suc (first_failing bs) else 0

-- The tests of the one list imply those of the other, one by one.
abbrev Implies : List Bool → List Bool → Type 0
Implies (b ∷ bs) (c ∷ cs) = (b ≡ true → c ≡ true) × Implies bs cs
Implies _ _ = Unit

first_failing_monotone :
    (bs cs : List Bool)
    → length bs ≡ length cs
    → Implies bs cs
    → first_failing bs ≤ first_failing cs
first_failing_monotone [] cs l h = omega arith
first_failing_monotone (b ∷ bs) [] l h = omega arith
first_failing_monotone (b ∷ bs) (c ∷ cs) l h =
    ground (arith, h.0, first_failing_monotone bs cs (omega arith) h.1)

first_failing_bounded : (bs : List Bool) → first_failing bs ≤ length bs
first_failing_bounded [] = omega arith
first_failing_bounded (b ∷ bs) = ground (arith, first_failing_bounded bs)

rank_ladder :
    (s : AdWorkWorkflowState)
    → rank (derive_ad_work_next_action s)
      ≡ (if is_closed s then 7 else first_failing (conditions s))
unfolding derive_ad_work_next_action rank
rank_ladder s =
    ladder (is_closed s) (is_setup_complete s) s.requirements.driver_required s.assignment_ready
      (is_driver_app s.requirements.execution_mode) (is_released s) (has_started s)
      (all_completed s) s.requirements.photo_proof_required (ltb 0 s.pending_proof_count)
  where
    ladder :
        (closed setup driver assigned app released started completed photo pending : Bool)
        → rank (
            if closed
            then finished
            else if not setup
            then complete_setup
            else if driver && not assigned
            then choose_resources
            else if app && not released
            then send_to_driver
            else if not started && not app
            then start_work
            else if not completed
            then monitor_work
            else if photo && pending
            then review_proof
            else finish_work)
          ≡ (if closed
              then 7
              else first_failing (
                  setup
                  ∷ (not driver || assigned)
                  ∷ (not app || released)
                  ∷ (started || app)
                  ∷ completed
                  ∷ (not photo || not pending)
                  ∷ []))
    ladder closed setup driver assigned app released started completed photo pending = ground arith

or_monotone :
    (a b c d : Bool) → (a ≡ true → c ≡ true) → (b ≡ true → d ≡ true) → a || b ≡ true → c || d ≡ true
or_monotone a b c d h k e = ground (arith, h, k)

same_test :
    (test : AdWorkRequirements → Bool) (r q : AdWorkRequirements)
    → r ≡ q
    → test r ≡ true
    → test q ≡ true
same_test test r q e h = subst (λ x. test x ≡ true) e h

no_more_pending : (m n : ℕ) → n ≤ m → not (ltb 0 m) ≡ true → not (ltb 0 n) ≡ true
no_more_pending m n l h = ground arith

conditions-Implies :
    (before after : AdWorkWorkflowState)
    → IsProgress before after
    → Implies (conditions before) (conditions after)
conditions-Implies before after p =
    let same = λ (test : AdWorkRequirements → Bool).
      same_test test before.requirements after.requirements p.same_requirements in
    (
      p.setup,
      (
        or_monotone _ _ _ _ (same (λ r. not r.driver_required)) p.assignment,
        (
          or_monotone _ _ _ _ (same (λ r. not (is_driver_app r.execution_mode))) p.release,
          (
            or_monotone _ _ _ _ p.started (same (λ r. is_driver_app r.execution_mode)),
            (
              p.completed,
              (
                or_monotone _ _ _ _ (same (λ r. not r.photo_proof_required))
                    (no_more_pending _ _ p.proofs),
                tt,
              ),
            ),
          ),
        ),
      ),
    )

-- While the requirements of a work stay the same, the next action never goes back: if the work moves on,
-- or stays as it is, in each respect (setup, assignment, release, days, pending proofs, closure), its next
-- action is the same or a later one.
pub rank_monotone :
    (before after : AdWorkWorkflowState)
    → IsProgress before after
    → rank (derive_ad_work_next_action before) ≤ rank (derive_ad_work_next_action after)
rank_monotone before after p = subst₂ ◌≤◌ (sym (rank_ladder before)) (sym (rank_ladder after)) (
    ground (
      arith,
      p.closure,
      first_failing_bounded (conditions before),
      first_failing_monotone (conditions before) (conditions after) refl
          (conditions-Implies before after p),
    ))
