-- ===== src/Workflow/Cases/Allowed.antt =====
-- `isTransitionAllowed` of services/workflow-service/internal/application/case_service.go, and the
-- assignments of `TransitionCase`, against independent descriptions.
use ops_nexus.Prelude.Time.{Time}
use ops_nexus.Workflow.Cases.{
  is_transition_allowed, moved, Time, Transition, status_resolved, status_closed,
}
use ops_nexus.Workflow.Domain.{CaseStatus, Case, Transition, status_resolved, status_closed}
use ops_nexus.Prelude.{
  true, [], ◌∷◌, List, ◌≡◌, arith, ◌↔◌, Bool-cases, eq_iff, ◌==◌, some, ◌≢◌, ◌&&◌, inl, ◌<◌, none,
  inr,
}

-- The template lists a transition between the two statuses.
pub data Allows (from to : CaseStatus) : List Transition → Type 0 where
  here :
      (t : Transition) (ts : List Transition) → t.from ≡ from → t.to ≡ to → Allows from to (t ∷ ts)
  there : (t : Transition) (ts : List Transition) → Allows from to ts → Allows from to (t ∷ ts)

pub Allows-of_test :
    (ts : List Transition) (from to : CaseStatus)
    → is_transition_allowed ts from to ≡ true
    → Allows from to ts
unfolding is_transition_allowed
Allows-of_test [] from to e = cc
Allows-of_test (t ∷ ts) from to e = elim (Bool-cases (t.from == from && t.to == to)) [
  | inl h ↦ here t ts ((eq_iff t.from from).0 (ground arith)) ((eq_iff t.to to).0 (ground arith))
  | inr h ↦ there t ts (Allows-of_test ts from to (rw h at e))
]

test_of_Allows :
    (from to : CaseStatus) (ts : List Transition)
    → Allows from to ts
    → is_transition_allowed ts from to ≡ true
unfolding is_transition_allowed
test_of_Allows from to _ (here t ts p q) = ground (arith, eq_iff t.from from, eq_iff t.to to)
test_of_Allows from to _ (there t ts h) = ground (arith, test_of_Allows from to ts h)

-- The scan of `isTransitionAllowed` finds exactly the transitions that are listed.
pub is_transition_allowed_iff :
    (ts : List Transition) (from to : CaseStatus)
    → (is_transition_allowed ts from to ≡ true) ↔ Allows from to ts
is_transition_allowed_iff ts from to = (Allows-of_test ts from to, test_of_Allows from to ts)

-- What a transition at the time `t` makes of a case, field by field.
pub record IsMoved (c : Case) (to : CaseStatus) (t : Time) (c' : Case) : Type 0 where
  pub status : c'.status ≡ to
  pub updated : c'.updated_at ≡ t
  pub resolved : to ≡ status_resolved → c'.resolved_at ≡ some t
  pub not_resolved : to ≢ status_resolved → c'.resolved_at ≡ c.resolved_at
  pub closed : to ≡ status_closed → c'.closed_at ≡ some t
  pub not_closed : to ≢ status_closed → c'.closed_at ≡ c.closed_at
  pub late : (due : Time) → c.sla.due_at ≡ some due → due < t → c'.sla.breached ≡ true
  pub in_time :
      (due : Time) → c.sla.due_at ≡ some due → ¬ (due < t) → c'.sla.breached ≡ c.sla.breached
  pub no_due : c.sla.due_at ≡ none → c'.sla.breached ≡ c.sla.breached
  pub kept :
      (c'.id ≡ c.id)
      × (c'.title ≡ c.title)
      × (c'.description ≡ c.description)
      × (c'.priority ≡ c.priority)
      × (c'.assignee_id ≡ c.assignee_id)
      × (c'.tags ≡ c.tags)
      × (c'.sla.due_at ≡ c.sla.due_at)
      × (c'.tenant_id ≡ c.tenant_id)
      × (c'.case_number ≡ c.case_number)
      × (c'.reporter_id ≡ c.reporter_id)
      × (c'.workflow_id ≡ c.workflow_id)
      × (c'.created_at ≡ c.created_at)

pub moved-IsMoved : (c : Case) (to : CaseStatus) (t : Time) → IsMoved c to t (moved c to t)
unfolding moved
moved-IsMoved c to t = record {
  status = ground arith;
  updated = ground arith;
  resolved = ground (arith, eq_iff to status_resolved);
  not_resolved = ground (arith, eq_iff to status_resolved);
  closed = ground (arith, eq_iff to status_closed);
  not_closed = ground (arith, eq_iff to status_closed);
  late = λ due e lt. ground arith;
  in_time = λ due e ge. ground arith;
  no_due = ground arith;
  kept = (
    ground arith,
    ground arith,
    ground arith,
    ground arith,
    ground arith,
    ground arith,
    ground arith,
    ground arith,
    ground arith,
    ground arith,
    ground arith,
    ground arith,
  );
}
