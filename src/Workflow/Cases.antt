-- ===== src/Workflow/Cases.antt =====
-- services/workflow-service/internal/application/case_service.go, one function for each method.
-- Logging has no effect on a result and is left out.
pub mod Life
pub mod Lifecycle
pub mod Allowed
pub mod Transitions
pub mod Creation
pub mod Deadlines
pub mod Tests
use ops_nexus.Prelude.{
  ℕ, String, Bool, true, false, not, ◌&&◌, ◌||◌, Option, none, some, List, [], ◌∷◌, ◌==◌,
  if◌then◌else◌, is_some, or_else, or_keep, Result, ok, err, ◌>>=◌, ◌>>◌, pure, refuse_if, attempt,
}
use ops_nexus.Prelude.Int.{ℤ, pos, negsuc, ltb_ℤ}
use ops_nexus.Prelude.Text.{trim_space}
use ops_nexus.Prelude.Time.{Time, after, hours, add_duration}
use ops_nexus.Storage.World.{Env}
use ops_nexus.Workflow.Domain.{
  Error, invalid_transition, invalid_input, Case, CaseStatus, Comment, Sla, Transition,
  WorkflowTemplate, priority_medium, status_new, status_resolved, status_closed,
}
use ops_nexus.Workflow.Ports.{
  CreateCaseRequest, UpdateCaseRequest, TransitionRequest, CaseFilter, Ports,
}
use ops_nexus.Workflow.Calls.{
  Action, now, new_id, find_case, insert_case, save_case, record_transition, next_case_number,
  find_template, insert_comment,
}

-- `isTransitionAllowed`
pub is_transition_allowed : List Transition → CaseStatus → CaseStatus → Bool
is_transition_allowed [] from to = false
is_transition_allowed (t ∷ ts) from to =
    let rest = is_transition_allowed ts from to in
    if t.from == from && t.to == to then true else rest

-- `c.SLA.DueAt != nil && !c.SLA.Breached && now.After(*c.SLA.DueAt)`
pub is_overdue : Sla → Time → Bool
is_overdue sla t = elim sla.due_at [ none ↦ false | some due ↦ not sla.breached && after t due ]

abbrev pub breach : Case → Case
breach c = record c { sla = record c.sla { breached = true } }

-- What the methods assign to a case before they save it.
pub checked : Case → Time → Case
unfolding is_overdue
checked c t = if is_overdue c.sla t then breach c else c

pub patched : Case → UpdateCaseRequest → Time → Case
patched c req t = record c {
  title = or_else req.title c.title;
  description = or_else req.description c.description;
  priority = or_else req.priority c.priority;
  tags = or_keep req.tags c.tags;
  updated_at = t;
}

pub moved : Case → CaseStatus → Time → Case
unfolding checked
moved c to t =
    checked
      (record c {
        status = to;
        updated_at = t;
        resolved_at = if to == status_resolved then some t else c.resolved_at;
        closed_at = if to == status_closed then some t else c.closed_at;
      })
      t

-- `strings.TrimSpace(s) == ""`
pub is_blank : String → Bool
is_blank s = trim_space s == ""

-- The `if req.Title != nil` block of `UpdateCase`.
abbrev pub blank_title : Option String → Bool
blank_title none = false
blank_title (some s) = is_blank s

-- `req.WorkflowID != nil && *req.WorkflowID != ""`
abbrev pub given : Option String → Option String
given none = none
given (some s) = if s == "" then none else some s

-- The page and the limit that `ListCases` asks for.
pub clamp_page : ℤ → ℤ
clamp_page page = if ltb_ℤ page (pos 1) then pos 1 else page

pub clamp_limit : ℤ → ℤ
clamp_limit limit = if ltb_ℤ limit (pos 1) || ltb_ℤ (pos 100) limit then pos 20 else limit

-- The service-level agreement of a template with hours above 0.
pub with_sla : Case → WorkflowTemplate → Time → Case
with_sla c wf t = elim wf.sla_hours [
  | pos h ↦
      if ltb_ℤ (pos 0) (pos h)
      then record c {
        sla = record { due_at = some (add_duration t (hours h)); breached = false };
        priority = if c.priority == "" then wf.default_priority else c.priority;
      }
      else c
  | negsuc n ↦ c
]

abbrev pub sla_of : Case → Time → Result Error WorkflowTemplate → Case
sla_of c t (ok wf) = with_sla c wf t
sla_of c t (err e) = c

-- A lookup of the template that fails lets the transition pass.
abbrev pub allowed_by : Result Error WorkflowTemplate → CaseStatus → CaseStatus → Bool
allowed_by (ok wf) from to = is_transition_allowed wf.transitions from to
allowed_by (err e) from to = true

module _ (env : Env) (P : Ports) where
  -- The `Resolve SLA from workflow template` block of `CreateCase`.
  pub resolve_sla : Option String → Case → Time → Action env P Case
  resolve_sla none c t = pure c
  resolve_sla (some wid) c t = do found ← attempt (find_template env P wid); pure (sla_of c t found)

  pub create_case : String → String → CreateCaseRequest → Action env P Case
  unfolding resolve_sla
  create_case tenant reporter req = do
    refuse_if (is_blank req.title) invalid_input
    refuse_if (tenant == "") invalid_input
    refuse_if (reporter == "") invalid_input
    number ← next_case_number env P tenant
    t ← now env P
    id ← new_id env P
    c ←
        resolve_sla (given req.workflow_id)
          (record {
            id = id;
            tenant_id = tenant;
            case_number = number;
            title = req.title;
            description = req.description;
            status = status_new;
            priority = if req.priority == "" then priority_medium else req.priority;
            assignee_id = none;
            reporter_id = reporter;
            workflow_id = req.workflow_id;
            sla = record { due_at = none; breached = false };
            tags = req.tags;
            created_at = t;
            updated_at = t;
            resolved_at = none;
            closed_at = none;
          })
          t
    insert_case env P c
    pure c

  -- The lazy check of `GetCase`; the clock is read only behind the two other tests.
  pub mark_breached : Case → Action env P Case
  mark_breached c = do attempt (save_case env P (breach c)); pure (breach c)

  pub check_sla : Case → Action env P Case
  check_sla c =
      if is_some c.sla.due_at && not c.sla.breached
      then (do t ← now env P; if is_overdue c.sla t then mark_breached c else pure c)
      else pure c

  pub get_case : String → Action env P Case
  unfolding check_sla mark_breached
  get_case id = do c ← find_case env P id; check_sla c

  pub update_case : String → UpdateCaseRequest → Action env P Case
  update_case id req = do
    c ← find_case env P id
    refuse_if (blank_title req.title) invalid_input
    t ← now env P
    save_case env P (patched c req t)
    pure (patched c req t)

  -- The check against the workflow template, if one is attached.
  pub check_transition : Option String → CaseStatus → CaseStatus → Action env P (Unit {0})
  check_transition none from to = pure tt
  check_transition (some wid) from to = do
    found ← attempt (find_template env P wid)
    refuse_if (not (allowed_by found from to)) invalid_transition

  pub perform : Case → TransitionRequest → Action env P Case
  perform c req = do
    t ← now env P
    save_case env P (moved c req.to_status t)
    tid ← new_id env P
    attempt (
        record_transition env P (record {
          id = tid;
          case_id = c.id;
          from_status = c.status;
          to_status = req.to_status;
          reason = req.reason;
          performed_by = req.performed_by;
          performed_at = t;
        }))
    pure (moved c req.to_status t)

  pub transition_found : Case → TransitionRequest → Action env P Case
  transition_found c req =
      if c.status == req.to_status
      then pure c
      else (do check_transition (given c.workflow_id) c.status req.to_status; perform c req)

  pub transition_case : String → TransitionRequest → Action env P Case
  unfolding transition_found check_transition perform
  transition_case id req = do c ← find_case env P id; transition_found c req

  pub assign_case : String → String → Action env P Case
  assign_case id assignee = do
    c ← find_case env P id
    t ← now env P
    save_case env P (record c { assignee_id = some assignee; updated_at = t })
    pure (record c { assignee_id = some assignee; updated_at = t })

  pub list_cases : String → CaseFilter → ℤ → ℤ → Action env P (List Case × ℕ)
  list_cases tenant filter page limit w =
      (P.list_cases tenant filter (clamp_page page) (clamp_limit limit) w.case_store, w)

  pub add_comment : String → String → String → Action env P Comment
  add_comment case_id author body = do
    refuse_if (is_blank body) invalid_input
    c ← find_case env P case_id
    t ← now env P
    id ← new_id env P
    let comment : Comment = record {
      id = id;
      case_id = case_id;
      tenant_id = c.tenant_id;
      author_id = author;
      body = body;
      created_at = t;
      updated_at = t;
    }
    insert_comment env P comment
    pure comment

  pub list_comments : String → Action env P (List Comment)
  list_comments case_id w = (P.list_comments case_id w.comment_store, w)
