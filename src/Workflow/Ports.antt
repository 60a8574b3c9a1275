-- ===== src/Workflow/Ports.antt =====
-- services/workflow-service/internal/ports: the requests, the repositories that the services are
-- given, and the state that a service works on. Each repository has a store of its own.
use ops_nexus.Prelude.{
  none, some, ◌%◌, ◌^◌, ℕ, String, ◌≡◌, ◌+◌, Option, List, Result, ok, err, Exec, ◌==◌,
  if◌then◌else◌, ◌⊎◌,
}
use ops_nexus.Prelude.Int.{ℤ}
use ops_nexus.Prelude.Time.{Time}
use ops_nexus.Storage.{Repository, Journal}
use ops_nexus.Workflow.Domain.{
  Error, case_not_found, task_not_found, workflow_not_found, comment_not_found, Case, CaseStatus,
  CasePriority, CaseTransition, Comment, Task, TaskStatus, Transition, WorkflowTemplate,
}

pub record CaseFilter : Type 0 where
  pub status : Option CaseStatus
  pub priority : Option CasePriority
  pub assignee_id : Option String
  pub reporter_id : Option String
  pub tags : Option (List String)

pub record CreateCaseRequest : Type 0 where
  pub title : String
  pub description : String
  pub priority : CasePriority
  pub workflow_id : Option String
  pub tags : Option (List String)

pub record UpdateCaseRequest : Type 0 where
  pub title : Option String
  pub description : Option String
  pub priority : Option CasePriority
  pub tags : Option (List String)

pub record TransitionRequest : Type 0 where
  pub to_status : CaseStatus
  pub reason : String
  pub performed_by : String

pub record CreateTaskRequest : Type 0 where
  pub title : String
  pub description : String
  pub assignee_id : Option String
  pub due_at : Option Time

pub record UpdateTaskRequest : Type 0 where
  pub title : Option String
  pub description : Option String
  pub status : Option TaskStatus
  pub assignee_id : Option String
  pub due_at : Option Time

pub record CreateWorkflowTemplateRequest : Type 0 where
  pub name : String
  pub description : String
  pub states : Option (List String)
  pub transitions : List Transition
  pub default_priority : CasePriority
  pub sla_hours : ℤ

-- gorm's time stamp on `Save`
abbrev pub touch_case : Time → Case → Case
touch_case t c = record c { updated_at = t }

abbrev pub touch_task : Time → Task → Task
touch_task t c = record c { updated_at = t }

abbrev pub touch_template : Time → WorkflowTemplate → WorkflowTemplate
touch_template t c = record c { updated_at = t }

abbrev pub touch_comment : Time → Comment → Comment
touch_comment t c = record c { updated_at = t }

-- What the tables keep of the times of an entity: their columns are `DATETIME(3)`, so that a time is
-- brought to whole milliseconds, by the driver and MySQL.
abbrev pub column_option : (Time → Time) → Option Time → Option Time
column_option column none = none
column_option column (some t) = some (column t)

abbrev pub kept_case : (Time → Time) → Case → Case
kept_case column c = record c {
  sla = record c.sla { due_at = column_option column c.sla.due_at };
  created_at = column c.created_at;
  updated_at = column c.updated_at;
  resolved_at = column_option column c.resolved_at;
  closed_at = column_option column c.closed_at;
}

abbrev pub kept_task : (Time → Time) → Task → Task
kept_task column t = record t {
  due_at = column_option column t.due_at;
  completed_at = column_option column t.completed_at;
  created_at = column t.created_at;
  updated_at = column t.updated_at;
}

abbrev pub kept_template : (Time → Time) → WorkflowTemplate → WorkflowTemplate
kept_template column w = record w {
  created_at = column w.created_at;
  updated_at = column w.updated_at;
}

abbrev pub kept_comment : (Time → Time) → Comment → Comment
kept_comment column c = record c {
  created_at = column c.created_at;
  updated_at = column c.updated_at;
}

abbrev pub kept_transition : (Time → Time) → CaseTransition → CaseTransition
kept_transition column t = record t { performed_at = column t.performed_at }

-- `m.Counter++` on the 64 bits of the counter
abbrev pub next_count : ℕ → ℕ
next_count n = (n + 1) % 2 ^ 64

-- `NextCaseNumber`: a counter for each tenant, or for the tenants that the collation of the table
-- takes for the same. A call that fails may have counted.
abbrev pub Counted : (String → String) → (String → ℕ) → (String → ℕ) → String → Type 0
Counted collate before after tenant =
    (j : String)
    → after j ≡ (if collate tenant == collate j then next_count (before j) else before j)

abbrev pub Numbered :
    (String → String)
    → (String → ℕ → String)
    → (String → ℕ)
    → (String → ℕ)
    → String
    → Result Error String
    → Type 0
Numbered collate number before after tenant (ok n) =
    (n ≡ number tenant (next_count (before tenant))) × Counted collate before after tenant
Numbered collate number before after tenant (err e) =
    ((j : String) → after j ≡ before j) ⊎ Counted collate before after tenant

pub record CaseCounter : Type 1 where
  pub Store : Type 0
  pub collate : String → String
  pub number : String → ℕ → String
  pub count : Store → String → ℕ
  pub next : String → Exec Error Store String
  pub next_numbered :
      (tenant : String) (s : Store)
      → Numbered collate number (count s) (count (next tenant s).1) tenant (next tenant s).0

-- What `NewCaseService`, `NewTaskService` and `NewWorkflowService` are given. An entity that is stored
-- has been through the columns.
pub record Ports : Type 1 where
  pub column : Time → Time
  pub cases :
      Repository Error Case case_not_found
        (λ c. c.id)
        (λ t. touch_case (column t))
        (kept_case column)
  pub transitions : Journal Error CaseTransition (λ t. t.id) (kept_transition column)
  pub counter : CaseCounter
  pub templates :
      Repository Error WorkflowTemplate workflow_not_found
        (λ w. w.id)
        (λ t. touch_template (column t))
        (kept_template column)
  pub comments :
      Repository Error Comment comment_not_found
        (λ c. c.id)
        (λ t. touch_comment (column t))
        (kept_comment column)
  pub tasks :
      Repository Error Task task_not_found
        (λ t. t.id)
        (λ t. touch_task (column t))
        (kept_task column)
  pub cases_kept :
      (s : cases.Store) (k : String) (c : Case) → cases.view s k ≡ some c → kept_case column c ≡ c
  pub tasks_kept :
      (s : tasks.Store) (k : String) (t : Task) → tasks.view s k ≡ some t → kept_task column t ≡ t
  pub list_cases : String → CaseFilter → ℤ → ℤ → cases.Store → Result Error (List Case × ℕ)
  pub list_comments : String → comments.Store → Result Error (List Comment)
  pub list_tasks : String → tasks.Store → Result Error (List Task)
  pub list_templates : String → templates.Store → Result Error (List WorkflowTemplate)

-- The stores, and how many clock readings and identifiers have been taken.
pub record World (P : Ports) : Type 0 where
  pub case_store : P.cases.Store
  pub transition_store : P.transitions.Store
  pub counter_store : P.counter.Store
  pub template_store : P.templates.Store
  pub comment_store : P.comments.Store
  pub task_store : P.tasks.Store
  pub readings : ℕ
  pub identifiers : ℕ
