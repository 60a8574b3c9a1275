-- ===== src/Workflow/Http.antt =====
-- services/workflow-service/internal/adapters/http: handler.go, and RequestID, CORS, TenantContext,
-- UserContext and NewRouter. How chi finds the route of a method and a path is not part of the
-- repository: a request comes with its route. Of an error the model keeps the status.
-- `encoding/json` decodes the body of a request: a parameter for each struct, `none` where it fails.
-- Logging and `Recovery` are left out: no handler panics.
pub mod Requests
pub mod Gate
mod Tests
use ops_nexus.Prelude.{
  none, some, ok, err, String, ℕ, List, Option, Result, Bool, if◌then◌else◌, ◌==◌, ◌+◌,
}
use ops_nexus.Prelude.Int.{ℤ, pos, ltb_ℤ}
use ops_nexus.Prelude.Scan.{atoi}
use ops_nexus.Storage.World.{Env}
use ops_nexus.Workflow.Domain.{
  Error, case_not_found, task_not_found, workflow_not_found, comment_not_found, invalid_transition,
  invalid_input, permission_denied, internal, Case, Task, Comment, WorkflowTemplate, CaseStatus,
  TaskStatus,
}
use ops_nexus.Workflow.Ports.{
  Ports, World, CreateCaseRequest, UpdateCaseRequest, CreateWorkflowTemplateRequest, CaseFilter,
}
use ops_nexus.Workflow.Calls.{Action}
use ops_nexus.Workflow.Cases
use ops_nexus.Workflow.Tasks
use ops_nexus.Workflow.Templates

-- What a reply encodes.
pub data Content : Type 0 where
  failure nothing health : Content
  one_case : Case → Content
  cases : List Case → ℕ → ℤ → ℤ → Content
  one_task : Task → Content
  tasks : List Task → Content
  one_comment : Comment → Content
  comments : List Comment → Content
  template : WorkflowTemplate → Content
  templates : List WorkflowTemplate → Content

pub record Reply : Type 0 where
  pub status : ℕ
  pub content : Content

-- `handleError`
unfoldable pub handle_error : Error → Reply
handle_error case_not_found = record { status = 404; content = failure }
handle_error task_not_found = record { status = 404; content = failure }
handle_error workflow_not_found = record { status = 404; content = failure }
handle_error comment_not_found = record { status = 404; content = failure }
handle_error invalid_input = record { status = 400; content = failure }
handle_error invalid_transition = record { status = 422; content = failure }
handle_error permission_denied = record { status = 403; content = failure }
handle_error internal = record { status = 500; content = failure }

-- The bodies: a transition is a status and a reason; a task its title, description and assignee, and
-- a change of it these and the status.
pub record Decoder : Type 0 where
  pub create_case : String → Option CreateCaseRequest
  pub update_case : String → Option UpdateCaseRequest
  pub transition : String → Option (CaseStatus × String)
  pub assignee : String → Option String
  pub create_task : String → Option (String × String × Option String)
  pub update_task :
      String → Option (Option String × Option String × Option TaskStatus × Option String)
  pub comment : String → Option String
  pub create_template : String → Option CreateWorkflowTemplateRequest

-- What is read of a request; a header or a parameter that is missing is empty.
pub record Request : Type 0 where
  pub request_header : String
  pub tenant_header : String
  pub user_header : String
  pub status : String
  pub priority : String
  pub assignee : String
  pub page : String
  pub limit : String
  pub body : String

-- The routes of `NewRouter`; an argument is the parameter of the path.
pub data Route : Type 0 where
  get_health get_cases post_case get_workflows post_workflow : Route
  get_one put_case post_transition post_assign : String → Route
  get_tasks post_task get_comments post_comment : String → Route
  put_task post_complete : String → Route

abbrev pub done : ℕ → Content → Reply
done status content = record { status = status; content = content }

abbrev pub given : String → Option String
given v = if v == "" then none else some v

abbrev pub or_at_least_one : ℤ → String → ℤ
or_at_least_one default s = let n = atoi s in if ltb_ℤ n (pos 1) then default else n

abbrev pub reply_to : {A : Type 0} → (A → Reply) → Result Error A → Reply
reply_to f (ok a) = f a
reply_to f (err e) = handle_error e

module _ (env : Env) (P : Ports) (json : Decoder) where
  abbrev pub Handler : Type 0
  Handler = World P → Reply × World P

  abbrev pub answer : Reply → Handler
  answer r w = (r, w)

  -- A call of the service, and the reply to its result.
  abbrev pub call : {A : Type 0} → Action env P A → (A → Reply) → Handler
  call m f w = let (r, w') = m w in (reply_to f r, w')

  -- `if err := json.NewDecoder(r.Body).Decode(&body); err != nil { … }`
  abbrev pub decoded : {A : Type 0} → Option A → (A → Handler) → Handler
  decoded none f = answer (done 400 failure)
  decoded (some a) f = f a

  -- The tenant and the user of the context are those of the headers.
  unfoldable pub create_case : Request → Handler
  create_case r = decoded (json.create_case r.body) λ req.
      call (Cases.create_case env P r.tenant_header r.user_header req) (λ c. done 201 (one_case c))

  unfoldable pub list_cases : Request → Handler
  list_cases r =
      let filter : CaseFilter = record {
        status = given r.status;
        priority = given r.priority;
        assignee_id = given r.assignee;
        reporter_id = none;
        tags = none;
      } in
      let page = or_at_least_one (pos 1) r.page in
      let limit = or_at_least_one (pos 20) r.limit in
      call (Cases.list_cases env P r.tenant_header filter page limit)
        (λ res. done 200 (cases res.0 res.1 page limit))

  unfoldable pub get_case : String → Handler
  get_case id = call (Cases.get_case env P id) (λ c. done 200 (one_case c))

  unfoldable pub update_case : String → Request → Handler
  update_case id r =
      decoded (json.update_case r.body)
        λ req. call (Cases.update_case env P id req) (λ c. done 200 (one_case c))

  unfoldable pub transition_case : String → Request → Handler
  transition_case id r = decoded (json.transition r.body) λ body.
      call
        (Cases.transition_case env P id
          (record { to_status = body.0; reason = body.1; performed_by = r.user_header }))
        (λ c. done 200 (one_case c))

  unfoldable pub assign_case : String → Request → Handler
  assign_case id r = decoded (json.assignee r.body) λ assignee.
      if assignee == ""
      then answer (done 400 failure)
      else call (Cases.assign_case env P id assignee) (λ c. done 200 (one_case c))

  unfoldable pub list_tasks : String → Handler
  list_tasks id = call (Tasks.list_by_case env P id) (λ ts. done 200 (tasks ts))

  unfoldable pub create_task : String → Request → Handler
  create_task id r = decoded (json.create_task r.body) λ body.
      call
        (Tasks.create_task env P id
          (record { title = body.0; description = body.1; assignee_id = body.2; due_at = none }))
        (λ t. done 201 (one_task t))

  unfoldable pub update_task : String → Request → Handler
  update_task id r = decoded (json.update_task r.body) λ body.
      call
        (Tasks.update_task env P id (record {
          title = body.0;
          description = body.1;
          status = body.2;
          assignee_id = body.3;
          due_at = none;
        }))
        (λ t. done 200 (one_task t))

  unfoldable pub complete_task : String → Handler
  complete_task id = call (Tasks.complete_task env P id) (λ t. done 200 (one_task t))

  unfoldable pub list_comments : String → Handler
  list_comments id = call (Cases.list_comments env P id) (λ cs. done 200 (comments cs))

  unfoldable pub add_comment : String → Request → Handler
  add_comment id r =
      decoded (json.comment r.body)
        λ body. call (Cases.add_comment env P id r.user_header body) (λ c. done 201 (one_comment c))

  unfoldable pub list_workflows : Request → Handler
  list_workflows r =
      call (Templates.list_templates env P r.tenant_header) (λ ts. done 200 (templates ts))

  unfoldable pub create_workflow : Request → Handler
  create_workflow r =
      decoded (json.create_template r.body) λ req.
        call (Templates.create_template env P r.tenant_header req) (λ t. done 201 (template t))

  -- `TenantContext` and `UserContext`
  unfoldable pub tenant_context : Request → Handler → Handler
  tenant_context r next = if r.tenant_header == "" then answer (done 400 failure) else next

  unfoldable pub user_context : Request → Handler → Handler
  user_context r next = if r.user_header == "" then answer (done 401 failure) else next

  unfoldable pub dispatch : Route → Request → Handler
  dispatch get_health r = answer (done 200 health)
  dispatch get_cases r = tenant_context r (user_context r (list_cases r))
  dispatch post_case r = tenant_context r (user_context r (create_case r))
  dispatch get_workflows r = tenant_context r (user_context r (list_workflows r))
  dispatch post_workflow r = tenant_context r (user_context r (create_workflow r))
  dispatch (get_one id) r = tenant_context r (user_context r (get_case id))
  dispatch (put_case id) r = tenant_context r (user_context r (update_case id r))
  dispatch (post_transition id) r = tenant_context r (user_context r (transition_case id r))
  dispatch (post_assign id) r = tenant_context r (user_context r (assign_case id r))
  dispatch (get_tasks id) r = tenant_context r (user_context r (list_tasks id))
  dispatch (post_task id) r = tenant_context r (user_context r (create_task id r))
  dispatch (get_comments id) r = tenant_context r (user_context r (list_comments id))
  dispatch (post_comment id) r = tenant_context r (user_context r (add_comment id r))
  dispatch (put_task id) r = tenant_context r (user_context r (update_task id r))
  dispatch (post_complete id) r = tenant_context r (user_context r (complete_task id))

  -- `RequestID`: a new identifier where the header is empty.
  unfoldable pub request_id : Request → World P → World P
  request_id r w =
      if r.request_header == "" then record w { identifiers = w.identifiers + 1 } else w

  -- `CORS`, and the route.
  unfoldable pub serve : Bool → Route → Request → Handler
  serve is_options route r w =
      let w' = request_id r w in if is_options then (done 204 nothing, w') else dispatch route r w'
