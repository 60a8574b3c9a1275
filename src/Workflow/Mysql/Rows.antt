-- ===== src/Workflow/Mysql/Rows.antt =====
-- The gorm models of services/workflow-service/internal/adapters/mysql and the conversions to and
-- from the domain. Statuses and priorities are texts on both sides.
use ops_nexus.Prelude.Text.{test_of_ne}
use ops_nexus.Workflow.Domain.{Case, WorkflowTemplate, Transition}
use ops_nexus.Prelude.Time.{Time}
use ops_nexus.Prelude.Int.{ℤ}
use ops_nexus.Prelude.{
  none, some, [], ◌∷◌, refl, String, Option, ◌≡◌, List, if◌then◌else◌, Bool, ◌≢◌, ◌==◌, map, ap,
  ap₂, ◌∙◌,
}

-- `encoding/json` on the values that these repositories store: what `Marshal` writes, which is
-- never empty, `Unmarshal` reads back.
pub record Json (A : Type 0) : Type 0 where
  pub marshal : A → String
  pub unmarshal : String → Option A
  pub unmarshal_marshal : (a : A) → unmarshal (marshal a) ≡ some a
  pub marshal-ne : (a : A) → marshal a ≢ ""

pub record CaseRow : Type 0 where
  pub id : String
  pub tenant_id : String
  pub case_number : String
  pub title : String
  pub description : String
  pub status : String
  pub priority : String
  pub assignee_id : Option String
  pub reporter_id : String
  pub workflow_id : Option String
  pub sla_due_at : Option Time
  pub sla_breached : Bool
  pub tags : String
  pub resolved_at : Option Time
  pub closed_at : Option Time
  pub created_at : Time
  pub updated_at : Time

pub record TemplateRow : Type 0 where
  pub id : String
  pub tenant_id : String
  pub name : String
  pub description : String
  pub states : String
  pub transitions : String
  pub default_priority : String
  pub sla_hours : ℤ
  pub created_at : Time
  pub updated_at : Time

-- `transitionJSON`
pub record TransitionJson : Type 0 where
  pub from : String
  pub to : String
  pub label : String

-- `if m.Tags != "" { if err := json.Unmarshal(…); err != nil { tags = []string{} } }`, of a slice
-- that is nil at first
abbrev pub read_slice : {A : Type 0} → Json (Option (List A)) → String → Option (List A)
read_slice json text =
    if text == "" then none else elim (json.unmarshal text) [ none ↦ some [] | some a ↦ a ]

pub read_marshal :
    {A : Type 0} (json : Json (Option (List A))) (a : Option (List A))
    → read_slice json (json.marshal a) ≡ a
read_marshal json a = rw (test_of_ne _ _ (json.marshal-ne a), json.unmarshal_marshal a)

module _ (tags_json : Json (Option (List String))) where
  -- `domainCaseToModel`
  unfoldable pub domain_case_to_model : Case → CaseRow
  domain_case_to_model c = record {
    id = c.id;
    tenant_id = c.tenant_id;
    case_number = c.case_number;
    title = c.title;
    description = c.description;
    status = c.status;
    priority = c.priority;
    assignee_id = c.assignee_id;
    reporter_id = c.reporter_id;
    workflow_id = c.workflow_id;
    sla_due_at = c.sla.due_at;
    sla_breached = c.sla.breached;
    tags = tags_json.marshal c.tags;
    resolved_at = c.resolved_at;
    closed_at = c.closed_at;
    created_at = c.created_at;
    updated_at = c.updated_at;
  }

  -- `modelToDomainCase`
  unfoldable pub model_to_domain_case : CaseRow → Case
  model_to_domain_case m = record {
    id = m.id;
    tenant_id = m.tenant_id;
    case_number = m.case_number;
    title = m.title;
    description = m.description;
    status = m.status;
    priority = m.priority;
    assignee_id = m.assignee_id;
    reporter_id = m.reporter_id;
    workflow_id = m.workflow_id;
    sla = record { due_at = m.sla_due_at; breached = m.sla_breached };
    tags = read_slice tags_json m.tags;
    resolved_at = m.resolved_at;
    closed_at = m.closed_at;
    created_at = m.created_at;
    updated_at = m.updated_at;
  }

  -- A case that is written as a row and read back is the same case, also in a nil slice of tags.
  pub case_roundtrip : (c : Case) → model_to_domain_case (domain_case_to_model c) ≡ c
  unfolding model_to_domain_case domain_case_to_model
  case_roundtrip c =
      ap (λ (ts : Option (List String)). record c { tags = ts }) (read_marshal tags_json c.tags)

module _ (states_json : Json (Option (List String)))
    (transitions_json : Json (List TransitionJson)) where
  -- `domainWFToModel`
  pub to_json : Transition → TransitionJson
  to_json t = record { from = t.from; to = t.to; label = t.label }

  pub of_json : TransitionJson → Transition
  of_json t = record { from = t.from; to = t.to; label = t.label }

  unfoldable pub domain_wf_to_model : WorkflowTemplate → TemplateRow
  domain_wf_to_model w = record {
    id = w.id;
    tenant_id = w.tenant_id;
    name = w.name;
    description = w.description;
    states = states_json.marshal w.states;
    transitions = transitions_json.marshal (map to_json w.transitions);
    default_priority = w.default_priority;
    sla_hours = w.sla_hours;
    created_at = w.created_at;
    updated_at = w.updated_at;
  }

  -- The `Unmarshal` of the transitions, with no transitions where it fails.
  abbrev pub read_transitions : String → List TransitionJson
  read_transitions text =
      if text == "" then [] else elim (transitions_json.unmarshal text) [ none ↦ [] | some a ↦ a ]

  -- `modelToDomainWF`
  unfoldable pub model_to_domain_wf : TemplateRow → WorkflowTemplate
  model_to_domain_wf m = record {
    id = m.id;
    tenant_id = m.tenant_id;
    name = m.name;
    description = m.description;
    states = read_slice states_json m.states;
    transitions = map of_json (read_transitions m.transitions);
    default_priority = m.default_priority;
    sla_hours = m.sla_hours;
    created_at = m.created_at;
    updated_at = m.updated_at;
  }

  map-of_json : (ts : List Transition) → map of_json (map to_json ts) ≡ ts
  unfolding to_json of_json
  map-of_json [] = refl
  map-of_json (t ∷ ts) = ap (λ r. t ∷ r) (map-of_json ts)

  read_transitions-marshal :
      (ts : List TransitionJson) → read_transitions (transitions_json.marshal ts) ≡ ts
  read_transitions-marshal ts =
      rw (test_of_ne _ _ (transitions_json.marshal-ne ts), transitions_json.unmarshal_marshal ts)

  -- A template that is written as a row and read back is the same template.
  pub template_roundtrip : (w : WorkflowTemplate) → model_to_domain_wf (domain_wf_to_model w) ≡ w
  unfolding model_to_domain_wf domain_wf_to_model
  template_roundtrip w =
      ap₂
        (λ (ss : Option (List String)) (ts : List Transition). record w {
          states = ss;
          transitions = ts;
        })
        (read_marshal states_json w.states)
        (ap (map of_json) (read_transitions-marshal (map to_json w.transitions))
          ∙ map-of_json w.transitions)
