-- ===== src/Workflow/Cases/Tests.antt =====
-- Runs of the case service on repositories in memory.
use ops_nexus.Prelude.Int.{pos}
use ops_nexus.Storage.{Same}
use ops_nexus.Storage.Evolution.{Evolves}
use ops_nexus.Storage.Gorm.{repository}
use ops_nexus.Prelude.Text.{trim_space, ne_of_test}
use ops_nexus.Prelude.Time.{Time}
use ops_nexus.Workflow.Domain.{Case, invalid_transition, WorkflowTemplate}
use ops_nexus.Workflow.Ports.{CreateCaseRequest, TransitionRequest, World}
use ops_nexus.Workflow.Calls.{find_case, find_template}
use ops_nexus.Workflow.Cases.{
  create_case, resolve_sla, with_sla, is_blank, transition_case, transition_found, check_transition,
  perform, is_transition_allowed, moved, checked, is_overdue, WorkflowTemplate, pos,
}
use ops_nexus.Workflow.Cases.Allowed.{Allows, is_transition_allowed_iff}
use ops_nexus.Workflow.Cases.Creation.{IsCreated, create_case_ok}
use ops_nexus.Workflow.Cases.Deadlines.{with_sla_of_small, with_sla_of_large}
use ops_nexus.Workflow.Cases.Transitions.{Transitioned, transition_case_ok, transition_case_refused}
use ops_nexus.Workflow.Cases.Lifecycle.{case_life, Op, create, transition, get, run, run-Evolves}
use ops_nexus.Workflow.Example.{ports, env, initial, template, start}
use ops_nexus.Prelude.{
  none, some, true, false, ok, err, [], ◌∷◌, refl, ◌>>=◌, ◌≡◌, ◌<◌, ◌+◌, ◌*◌, List, ◌↔◌, arith,
}

abbrev request : CreateCaseRequest
request = record {
  title = "Disk full";
  description = "";
  priority = "";
  workflow_id = some "wf";
  tags = none;
}

abbrev created : Case
created = record {
  id = "id-0";
  tenant_id = "acme";
  case_number = "acme";
  title = "Disk full";
  description = "";
  status = "new";
  priority = "medium";
  assignee_id = none;
  reporter_id = "eve";
  workflow_id = some "wf";
  sla = record { due_at = some 63000014400000000000; breached = false };
  tags = none;
  created_at = start;
  updated_at = start;
  resolved_at = none;
  closed_at = none;
}

created_run : (create_case env ports "acme" "eve" request initial).0 ≡ ok created
unfolding create_case resolve_sla with_sla ◌>>=◌ repository is_blank trim_space
created_run = refl

create_case_ok_example :
    IsCreated env ports initial
      (create_case env ports "acme" "eve" request initial).1
      "acme"
      "eve"
      request
      created
create_case_ok_example = create_case_ok env ports "acme" "eve" request initial created created_run

abbrev opened : World ports
unfolding repository
opened = record initial { case_store = created ∷ [] }

abbrev resolving : TransitionRequest
resolving = record { to_status = "resolved"; reason = "cleaned"; performed_by = "eve" }

abbrev closing : TransitionRequest
closing = record { to_status = "closed"; reason = ""; performed_by = "eve" }

abbrev resolved : Case
resolved = record created { status = "resolved"; resolved_at = some start }

resolved_run : (transition_case env ports "id-0" resolving opened).0 ≡ ok resolved
unfolding transition_case transition_found check_transition perform is_transition_allowed moved
    checked is_overdue ◌>>=◌ repository
resolved_run = refl

transition_case_ok_example :
    (c : Case) × ((find_case env ports "id-0" opened).0 ≡ ok c)
    × Transitioned env ports
        (find_case env ports "id-0" opened).1
        (transition_case env ports "id-0" resolving opened).1
        c
        resolving
        resolved
transition_case_ok_example =
    transition_case_ok env ports "id-0" resolving opened resolved resolved_run

created_found : (find_case env ports "id-0" opened).0 ≡ ok created
unfolding repository
created_found = refl

template_found : (find_template env ports "wf" opened).0 ≡ ok template
unfolding repository
template_found = refl

closing_unlisted : ¬ Allows "new" "closed" template.transitions
unfolding is_transition_allowed
closing_unlisted a = cc ((is_transition_allowed_iff template.transitions "new" "closed").1 a)

transition_case_refused_example :
    let (r, w') = transition_case env ports "id-0" closing opened in
    (r ≡ err invalid_transition)
    × Same (ports.cases.view opened.case_store) (ports.cases.view w'.case_store)
    × Same
        (ports.transitions.view opened.transition_store)
        (ports.transitions.view w'.transition_store)
transition_case_refused_example =
    transition_case_refused env ports "id-0" "wf" closing opened created template created_found
      (ne_of_test "new" "closed" refl) refl template_found closing_unlisted

is_transition_allowed_iff_example :
    (is_transition_allowed template.transitions "new" "resolved" ≡ true)
    ↔ Allows "new" "resolved" template.transitions
is_transition_allowed_iff_example = is_transition_allowed_iff template.transitions "new" "resolved"

abbrev requests : List Op
requests =
    create "acme" "eve" request
    ∷ transition "id-0" resolving
    ∷ transition "id-0" closing
    ∷ get "id-0"
    ∷ []

run-Evolves_example :
    Evolves
      (case_life ports)
      (ports.cases.view initial.case_store)
      (ports.cases.view (run env ports requests initial).case_store)
run-Evolves_example = run-Evolves env ports requests initial

abbrev endless : WorkflowTemplate
endless = record template { sla_hours = pos 2562048 }

with_sla_of_small_example :
    (with_sla created template start).sla.due_at ≡ some (start + 4 * 3600000000000)
with_sla_of_small_example =
    with_sla_of_small created template start 4 refl (ground arith) (ground arith)

with_sla_of_large_example :
    (due : Time) × ((with_sla created endless start).sla.due_at ≡ some due) × (due < start)
with_sla_of_large_example =
    with_sla_of_large created endless start 2562048 refl (ground arith) (ground arith)
      (ground arith)
