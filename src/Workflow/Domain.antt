-- ===== src/Workflow/Domain.antt =====
-- services/workflow-service/internal/domain. A status and a priority are Go strings with named
-- constants, and the code takes any text for one. Of an error the model keeps the sentinel that
-- `errors.Is` finds behind its wrappings, or `internal` where there is none.
use ops_nexus.Prelude.{String, Bool, Option, List}
use ops_nexus.Prelude.Int.{ℤ}
use ops_nexus.Prelude.Time.{Time}

pub data Error : Type 0 where
  case_not_found task_not_found workflow_not_found comment_not_found : Error
  invalid_transition invalid_input permission_denied internal : Error

abbrev pub CaseStatus : Type 0
CaseStatus = String

abbrev pub status_new : CaseStatus
status_new = "new"

abbrev pub status_open : CaseStatus
status_open = "open"

abbrev pub status_in_progress : CaseStatus
status_in_progress = "in_progress"

abbrev pub status_pending : CaseStatus
status_pending = "pending"

abbrev pub status_resolved : CaseStatus
status_resolved = "resolved"

abbrev pub status_closed : CaseStatus
status_closed = "closed"

abbrev pub CasePriority : Type 0
CasePriority = String

abbrev pub priority_medium : CasePriority
priority_medium = "medium"

pub record Sla : Type 0 where
  pub due_at : Option Time
  pub breached : Bool

-- `tags` is a slice that may be nil, which the code and the database keep apart from an empty one.
pub record Case : Type 0 where
  pub id : String
  pub tenant_id : String
  pub case_number : String
  pub title : String
  pub description : String
  pub status : CaseStatus
  pub priority : CasePriority
  pub assignee_id : Option String
  pub reporter_id : String
  pub workflow_id : Option String
  pub sla : Sla
  pub tags : Option (List String)
  pub created_at : Time
  pub updated_at : Time
  pub resolved_at : Option Time
  pub closed_at : Option Time

pub record CaseTransition : Type 0 where
  pub id : String
  pub case_id : String
  pub from_status : CaseStatus
  pub to_status : CaseStatus
  pub reason : String
  pub performed_by : String
  pub performed_at : Time

pub record Comment : Type 0 where
  pub id : String
  pub case_id : String
  pub tenant_id : String
  pub author_id : String
  pub body : String
  pub created_at : Time
  pub updated_at : Time

abbrev pub TaskStatus : Type 0
TaskStatus = String

abbrev pub task_todo : TaskStatus
task_todo = "todo"

abbrev pub task_in_progress : TaskStatus
task_in_progress = "in_progress"

abbrev pub task_done : TaskStatus
task_done = "done"

abbrev pub task_blocked : TaskStatus
task_blocked = "blocked"

pub record Task : Type 0 where
  pub id : String
  pub case_id : String
  pub tenant_id : String
  pub title : String
  pub description : String
  pub status : TaskStatus
  pub assignee_id : Option String
  pub due_at : Option Time
  pub completed_at : Option Time
  pub created_at : Time
  pub updated_at : Time

pub record Transition : Type 0 where
  pub from : CaseStatus
  pub to : CaseStatus
  pub label : String

pub record WorkflowTemplate : Type 0 where
  pub id : String
  pub tenant_id : String
  pub name : String
  pub description : String
  pub states : Option (List String)
  pub transitions : List Transition
  pub default_priority : CasePriority
  pub sla_hours : ℤ
  pub created_at : Time
  pub updated_at : Time
