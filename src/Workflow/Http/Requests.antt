-- ===== src/Workflow/Http/Requests.antt =====
-- What the requests to services/workflow-service over http do to its state.
use ops_nexus.Prelude.{none, some, String, Option, if◌then◌else◌, ◌==◌}
use ops_nexus.Prelude.Int.{pos}
use ops_nexus.Storage.World.{Env}
use ops_nexus.Workflow.Ports.{
  Ports, World, CreateTaskRequest, UpdateTaskRequest, CreateWorkflowTemplateRequest, CaseFilter,
}
use ops_nexus.Workflow.Domain.{TaskStatus}
use ops_nexus.Workflow.Cases.Lifecycle
use ops_nexus.Workflow.Tasks.Lifecycle as TaskLife
use ops_nexus.Workflow.Templates
use ops_nexus.Workflow.Http
use ops_nexus.Workflow.Http.{Decoder, Request, Route, given, or_at_least_one}

-- A call of one of the three services.
pub data Call : Type 0 where
  to_cases : Lifecycle.Op → Call
  to_tasks : TaskLife.Op → Call
  to_templates : String → CreateWorkflowTemplateRequest → Call

-- A call for the body of a message, if the body can be read.
abbrev pub for_body : {A : Type 0} → (A → Option Call) → Option A → Option Call
for_body f none = none
for_body f (some a) = f a

abbrev pub filter_of : Request → CaseFilter
filter_of r = record {
  status = given r.status;
  priority = given r.priority;
  assignee_id = given r.assignee;
  reporter_id = none;
  tags = none;
}

abbrev pub task_of : String × String × Option String → CreateTaskRequest
task_of body = record { title = body.0; description = body.1; assignee_id = body.2; due_at = none }

abbrev pub change_of :
    Option String × Option String × Option TaskStatus × Option String → UpdateTaskRequest
change_of body = record {
  title = body.0;
  description = body.1;
  status = body.2;
  assignee_id = body.3;
  due_at = none;
}

-- The call that a message to a route is meant to make, with the tenant and the user of its headers.
pub data Means (json : Decoder) (r : Request) : Route → Option Call → Type 0 where
  listing : Means json r Http.get_cases (
      some (
        to_cases (
          Lifecycle.list r.tenant_header
            (filter_of r)
            (or_at_least_one (pos 1) r.page)
            (or_at_least_one (pos 20) r.limit))))
  creating : Means json r Http.post_case (
      for_body
        (λ b. some (to_cases (Lifecycle.create r.tenant_header r.user_header b)))
        (json.create_case r.body))
  reading : (id : String) → Means json r (Http.get_one id) (some (to_cases (Lifecycle.get id)))
  updating :
      (id : String)
      → Means json r
          (Http.put_case id)
          (for_body (λ b. some (to_cases (Lifecycle.update id b))) (json.update_case r.body))
  moving :
      (id : String)
      → Means json r (Http.post_transition id) (
          for_body
            (λ b. some (
              to_cases (
                Lifecycle.transition id
                  (record { to_status = b.0; reason = b.1; performed_by = r.user_header }))))
            (json.transition r.body))
  assigning :
      (id : String)
      → Means json r (Http.post_assign id) (
          for_body
            (λ b. if b == "" then none else some (to_cases (Lifecycle.assign id b)))
            (json.assignee r.body))
  commenting :
      (id : String)
      → Means json r (Http.post_comment id) (
          for_body
            (λ b. some (to_cases (Lifecycle.comment id r.user_header b)))
            (json.comment r.body))
  reading_comments :
      (id : String) → Means json r (Http.get_comments id) (some (to_cases (Lifecycle.comments id)))
  reading_tasks :
      (id : String) → Means json r (Http.get_tasks id) (some (to_tasks (TaskLife.list id)))
  creating_task :
      (id : String)
      → Means json r (Http.post_task id) (
          for_body
            (λ b. some (to_tasks (TaskLife.create id (task_of b))))
            (json.create_task r.body))
  updating_task :
      (id : String)
      → Means json r (Http.put_task id) (
          for_body
            (λ b. some (to_tasks (TaskLife.update id (change_of b))))
            (json.update_task r.body))
  completing :
      (id : String) → Means json r (Http.post_complete id) (some (to_tasks (TaskLife.complete id)))
  reading_templates : Means json r Http.get_workflows none
  creating_template :
      Means json r Http.post_workflow
        (for_body (λ b. some (to_templates r.tenant_header b)) (json.create_template r.body))

module _ (env : Env) (P : Ports) (json : Decoder) where
  -- The state after a call, or with none.
  abbrev pub after : Option Call → World P → World P
  after none w = w
  after (some (to_cases op)) w = Lifecycle.execute env P op w
  after (some (to_tasks op)) w = TaskLife.execute env P op w
  after (some (to_templates tenant req)) w = (Templates.create_template env P tenant req w).1
