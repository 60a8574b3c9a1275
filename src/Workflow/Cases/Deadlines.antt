-- ===== src/Workflow/Cases/Deadlines.antt =====
-- The due time that `CreateCase` of services/workflow-service/internal/application/case_service.go
-- takes from the hours of a template.
use ops_nexus.Prelude.{true, some, refl, ℕ, ◌≤◌, ◌<◌, ◌≡◌, ◌+◌, ◌*◌, ◌^◌, arith, ap, ◌∙◌}
use ops_nexus.Prelude.Int.{pos, ltb_ℤ}
use ops_nexus.Prelude.Time.{Time, add_duration, hours}
use ops_nexus.Workflow.Domain.{Case, WorkflowTemplate}
use ops_nexus.Workflow.Cases.{with_sla}
use ops_nexus.Workflow.Cases.Creation.{due_of_small, due_of_large}

above_zero : (h : ℕ) → 1 ≤ h → ltb_ℤ (pos 0) (pos h) ≡ true
above_zero h p = ground arith

with_sla_due :
    (c : Case) (wf : WorkflowTemplate) (t : Time) (h : ℕ)
    → wf.sla_hours ≡ pos h
    → 1 ≤ h
    → (with_sla c wf t).sla.due_at ≡ some (add_duration t (hours h))
unfolding with_sla
with_sla_due c wf t h e p = rw (e, above_zero h p) refl

-- A template with 1 to 2562047 hours makes a case due that many hours after its creation.
pub with_sla_of_small :
    (c : Case) (wf : WorkflowTemplate) (t : Time) (h : ℕ)
    → wf.sla_hours ≡ pos h
    → 1 ≤ h
    → h ≤ 2562047
    → (with_sla c wf t).sla.due_at ≡ some (t + h * 3600000000000)
with_sla_of_small c wf t h e p small =
    with_sla_due c wf t h e p ∙ ap (λ d. some d) (due_of_small t h small)

-- From 2562048 hours, some 292 years, up to twice that, at a clock reading of at least 2 ^ 63
-- nanoseconds since the year 1, the product of the hours wraps around: the case is due before its
-- creation.
pub with_sla_of_large :
    (c : Case) (wf : WorkflowTemplate) (t : Time) (h : ℕ)
    → wf.sla_hours ≡ pos h
    → 2 ^ 63 ≤ t
    → 2562048 ≤ h
    → h ≤ 5124095
    → (due : Time) × ((with_sla c wf t).sla.due_at ≡ some due) × (due < t)
with_sla_of_large c wf t h e clock lo hi =
    (add_duration t (hours h), with_sla_due c wf t h e (ground arith), due_of_large t h clock lo hi)
