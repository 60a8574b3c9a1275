-- ===== src/Workflow/Cases/Life.antt =====
-- The life of one case: what always holds of it, and what an operation may change.
use ops_nexus.Prelude.{
  ap, String, ◌≡◌, ◌≢◌, refl, ◌∙◌, true, false, Option, none, some, or_else, arith, eq_iff,
  Option-cases, inl, inr, Result, ok, err,
}
use ops_nexus.Prelude.Time.{Time}
use ops_nexus.Workflow.Domain.{Case, CaseStatus, status_resolved, status_closed}
use ops_nexus.Workflow.Ports.{UpdateCaseRequest, touch_case, column_option, kept_case}
use ops_nexus.Workflow.Cases.{
  is_blank, patched, moved, is_overdue, breach, with_sla, Error, WorkflowTemplate, sla_of,
  blank_title,
}

-- What holds of every stored case.
pub record IsSound (c : Case) : Type 0 where
  pub titled : is_blank c.title ≡ false
  pub owned : c.tenant_id ≢ ""
  pub reported : c.reporter_id ≢ ""
  pub resolved_stamped : c.status ≡ status_resolved → c.resolved_at ≢ none
  pub closed_stamped : c.status ≡ status_closed → c.closed_at ≢ none
  pub breach_due : c.sla.breached ≡ true → c.sla.due_at ≢ none

-- What an operation keeps of a case.
pub record Step (c c' : Case) : Type 0 where
  pub same_id : c'.id ≡ c.id
  pub same_tenant : c'.tenant_id ≡ c.tenant_id
  pub same_number : c'.case_number ≡ c.case_number
  pub same_reporter : c'.reporter_id ≡ c.reporter_id
  pub same_workflow : c'.workflow_id ≡ c.workflow_id
  pub same_created : c'.created_at ≡ c.created_at
  pub same_due : c'.sla.due_at ≡ c.sla.due_at
  pub stays_breached : c.sla.breached ≡ true → c'.sla.breached ≡ true
  pub stays_resolved : c.resolved_at ≢ none → c'.resolved_at ≢ none
  pub stays_closed : c.closed_at ≢ none → c'.closed_at ≢ none
  pub stays_sound : IsSound c → IsSound c'

pub Step-refl : (c : Case) → Step c c
Step-refl c = record {
  same_id = refl;
  same_tenant = refl;
  same_number = refl;
  same_reporter = refl;
  same_workflow = refl;
  same_created = refl;
  same_due = refl;
  stays_breached = λ h. h;
  stays_resolved = λ h. h;
  stays_closed = λ h. h;
  stays_sound = λ h. h;
}

pub Step-trans : {a b c : Case} → Step a b → Step b c → Step a c
Step-trans f g = record {
  same_id = g.same_id ∙ f.same_id;
  same_tenant = g.same_tenant ∙ f.same_tenant;
  same_number = g.same_number ∙ f.same_number;
  same_reporter = g.same_reporter ∙ f.same_reporter;
  same_workflow = g.same_workflow ∙ f.same_workflow;
  same_created = g.same_created ∙ f.same_created;
  same_due = g.same_due ∙ f.same_due;
  stays_breached = λ h. g.stays_breached (f.stays_breached h);
  stays_resolved = λ h. g.stays_resolved (f.stays_resolved h);
  stays_closed = λ h. g.stays_closed (f.stays_closed h);
  stays_sound = λ h. g.stays_sound (f.stays_sound h);
}

pub IsSound-touch : (t : Time) {c : Case} → IsSound c → IsSound (touch_case t c)
IsSound-touch t h = record {
  titled = h.titled;
  owned = h.owned;
  reported = h.reported;
  resolved_stamped = h.resolved_stamped;
  closed_stamped = h.closed_stamped;
  breach_due = h.breach_due;
}

pub Step-touch : (t : Time) {c c' : Case} → Step c c' → Step c (touch_case t c')
Step-touch t f = record {
  same_id = f.same_id;
  same_tenant = f.same_tenant;
  same_number = f.same_number;
  same_reporter = f.same_reporter;
  same_workflow = f.same_workflow;
  same_created = f.same_created;
  same_due = f.same_due;
  stays_breached = f.stays_breached;
  stays_resolved = f.stays_resolved;
  stays_closed = f.stays_closed;
  stays_sound = λ h. IsSound-touch t (f.stays_sound h);
}

pub column_option-ne :
    (column : Time → Time) (o : Option Time) → o ≢ none → column_option column o ≢ none
column_option-ne column none h e = h refl
column_option-ne column (some t) h e = cc

-- What the columns keep of a sound case is sound.
pub IsSound-kept : (column : Time → Time) {c : Case} → IsSound c → IsSound (kept_case column c)
IsSound-kept column {c} h = record {
  titled = h.titled;
  owned = h.owned;
  reported = h.reported;
  resolved_stamped = λ p. column_option-ne column c.resolved_at (h.resolved_stamped p);
  closed_stamped = λ p. column_option-ne column c.closed_at (h.closed_stamped p);
  breach_due = λ p. column_option-ne column c.sla.due_at (h.breach_due p);
}

-- A case that has been through the columns may go through them again.
pub Step-kept :
    (column : Time → Time) {c c' : Case}
    → kept_case column c ≡ c
    → Step c c'
    → Step c (kept_case column c')
Step-kept column {c} {c'} e f = record {
  same_id = f.same_id;
  same_tenant = f.same_tenant;
  same_number = f.same_number;
  same_reporter = f.same_reporter;
  same_workflow = f.same_workflow;
  same_created = ap column f.same_created ∙ ap (λ x. x.created_at) e;
  same_due = ap (column_option column) f.same_due ∙ ap (λ x. x.sla.due_at) e;
  stays_breached = f.stays_breached;
  stays_resolved = λ h. column_option-ne column c'.resolved_at (f.stays_resolved h);
  stays_closed = λ h. column_option-ne column c'.closed_at (f.stays_closed h);
  stays_sound = λ h. IsSound-kept column (f.stays_sound h);
}

pub not_blank :
    (o : Option String) → blank_title o ≡ false → (s : String) → o ≡ some s → is_blank s ≡ false
not_blank none e s p = cc
not_blank (some x) e s p = cc

pub patched_title :
    (o : Option String) (title : String)
    → ((s : String) → o ≡ some s → is_blank s ≡ false)
    → is_blank title ≡ false
    → is_blank (or_else o title) ≡ false
patched_title none title f h = h
patched_title (some s) title f h = f s refl

module _ (c : Case) where
  moved-IsSound : (to : CaseStatus) (t : Time) → IsSound c → IsSound (moved c to t)
  unfolding moved
  moved-IsSound to t h = record {
    titled = ground (arith, h.titled);
    owned = ground (arith, h.owned);
    reported = ground (arith, h.reported);
    resolved_stamped = ground (arith, eq_iff to status_resolved);
    closed_stamped = ground (arith, eq_iff to status_closed);
    breach_due = ground (arith, h.breach_due);
  }

  pub Step-moved : (to : CaseStatus) (t : Time) → Step c (moved c to t)
  unfolding moved
  Step-moved to t = record {
    same_id = ground arith;
    same_tenant = ground arith;
    same_number = ground arith;
    same_reporter = ground arith;
    same_workflow = ground arith;
    same_created = ground arith;
    same_due = ground arith;
    stays_breached = ground arith;
    stays_resolved = ground arith;
    stays_closed = ground arith;
    stays_sound = moved-IsSound to t;
  }

  pub Step-patched :
      (req : UpdateCaseRequest) (t : Time)
      → ((s : String) → req.title ≡ some s → is_blank s ≡ false)
      → Step c (patched c req t)
  unfolding patched
  Step-patched req t ok_title = record {
    same_id = refl;
    same_tenant = refl;
    same_number = refl;
    same_reporter = refl;
    same_workflow = refl;
    same_created = refl;
    same_due = refl;
    stays_breached = λ h. h;
    stays_resolved = λ h. h;
    stays_closed = λ h. h;
    stays_sound = λ h. record {
      titled = patched_title req.title c.title ok_title h.titled;
      owned = h.owned;
      reported = h.reported;
      resolved_stamped = h.resolved_stamped;
      closed_stamped = h.closed_stamped;
      breach_due = h.breach_due;
    };
  }

  Step-breach : (due : Time) → c.sla.due_at ≡ some due → Step c (breach c)
  Step-breach due e = record {
    same_id = refl;
    same_tenant = refl;
    same_number = refl;
    same_reporter = refl;
    same_workflow = refl;
    same_created = refl;
    same_due = refl;
    stays_breached = λ h. refl;
    stays_resolved = λ h. h;
    stays_closed = λ h. h;
    stays_sound = λ h. record {
      titled = h.titled;
      owned = h.owned;
      reported = h.reported;
      resolved_stamped = h.resolved_stamped;
      closed_stamped = h.closed_stamped;
      breach_due = λ p. cc;
    };
  }

  pub Step-overdue : (t : Time) → is_overdue c.sla t ≡ true → Step c (breach c)
  unfolding is_overdue
  Step-overdue t h = elim (Option-cases c.sla.due_at) [
    | inl e ↦ ground arith
    | inr (due, e) ↦ Step-breach due e
  ]

  pub Step-assigned :
      (a : String) (t : Time) → Step c (record c { assignee_id = some a; updated_at = t })
  Step-assigned a t = record {
    same_id = refl;
    same_tenant = refl;
    same_number = refl;
    same_reporter = refl;
    same_workflow = refl;
    same_created = refl;
    same_due = refl;
    stays_breached = λ h. h;
    stays_resolved = λ h. h;
    stays_closed = λ h. h;
    stays_sound = λ h. record {
      titled = h.titled;
      owned = h.owned;
      reported = h.reported;
      resolved_stamped = h.resolved_stamped;
      closed_stamped = h.closed_stamped;
      breach_due = h.breach_due;
    };
  }

  pub IsSound-with_sla : (wf : WorkflowTemplate) (t : Time) → IsSound c → IsSound (with_sla c wf t)
  unfolding with_sla
  IsSound-with_sla wf t h = record {
    titled = ground (arith, h.titled);
    owned = ground (arith, h.owned);
    reported = ground (arith, h.reported);
    resolved_stamped = ground (arith, h.resolved_stamped);
    closed_stamped = ground (arith, h.closed_stamped);
    breach_due = ground (arith, h.breach_due);
  }

  pub IsSound-sla_of :
      (t : Time) (r : Result Error WorkflowTemplate) → IsSound c → IsSound (sla_of c t r)
  IsSound-sla_of t (ok wf) h = IsSound-with_sla wf t h
  IsSound-sla_of t (err e) h = h
