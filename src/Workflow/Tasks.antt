-- ===== src/Workflow/Tasks.antt =====
-- services/workflow-service/internal/application/task_service.go, one function for each method.
pub mod Lifecycle
pub mod Tests
use ops_nexus.Workflow.Cases.{blank_title, is_blank}
use ops_nexus.Workflow.Calls.{Action, find_task, now, save_task, find_case, new_id, insert_task}
use ops_nexus.Prelude.Time.{Time}
use ops_nexus.Workflow.Ports.{UpdateTaskRequest, Ports, CreateTaskRequest}
use ops_nexus.Storage.World.{Env}
use ops_nexus.Workflow.Domain.{Task, TaskStatus, task_done, invalid_input, task_todo}
use ops_nexus.Prelude.{
  ◌>>=◌, ◌>>◌, true, false, none, some, [], ◌∷◌, refl, Option, or_else, Bool, String, or_keep, ◌==◌,
  ◌&&◌, ok, List, not, ◌+◌, is_some, refuse_if, pure,
}

-- `*req.Status == domain.TaskStatusDone && task.CompletedAt == nil`, behind `req.Status != nil`
pub completes : Option TaskStatus → Task → Bool
completes none task = false
completes (some status) task = status == task_done && not (is_some task.completed_at)

-- What `UpdateTask` assigns; `stamp` is the completion time that it has read, if any.
pub patched : Task → UpdateTaskRequest → Option Time → Time → Task
patched task req stamp t = record task {
  title = or_else req.title task.title;
  description = or_else req.description task.description;
  status = or_else req.status task.status;
  completed_at = or_keep stamp task.completed_at;
  assignee_id = or_keep req.assignee_id task.assignee_id;
  due_at = or_keep req.due_at task.due_at;
  updated_at = t;
}

pub finished : Task → Time → Task
finished task t = record task { status = task_done; completed_at = some t; updated_at = t }

module _ (env : Env) (P : Ports) where
  unfoldable pub create_task : String → CreateTaskRequest → Action env P Task
  create_task case_id req = do
    refuse_if (is_blank req.title) invalid_input
    c ← find_case env P case_id
    t ← now env P
    id ← new_id env P
    let task : Task = record {
      id = id;
      case_id = case_id;
      tenant_id = c.tenant_id;
      title = req.title;
      description = req.description;
      status = task_todo;
      assignee_id = req.assignee_id;
      due_at = req.due_at;
      completed_at = none;
      created_at = t;
      updated_at = t;
    }
    insert_task env P task
    pure task

  pub get_task : String → Action env P Task
  get_task id = find_task env P id

  -- The clock is read for a completion only.
  unfoldable pub completion : Bool → Action env P (Option Time)
  completion true w = (ok (some (env.clock w.readings)), record w { readings = w.readings + 1 })
  completion false w = (ok none, w)

  unfoldable pub update_task : String → UpdateTaskRequest → Action env P Task
  unfolding completion
  update_task id req = do
    task ← find_task env P id
    refuse_if (blank_title req.title) invalid_input
    stamp ← completion (completes req.status task)
    t ← now env P
    save_task env P (patched task req stamp t)
    pure (patched task req stamp t)

  unfoldable pub complete_task : String → Action env P Task
  complete_task id = do
    task ← find_task env P id
    t ← now env P
    save_task env P (finished task t)
    pure (finished task t)

  unfoldable pub list_by_case : String → Action env P (List Task)
  list_by_case case_id w = (P.list_tasks case_id w.task_store, w)
