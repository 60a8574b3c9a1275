-- ===== src/Workflow/Tasks/Tests.antt =====
-- Runs of the task service on repositories in memory.
use ops_nexus.Storage.Evolution.{Evolves}
use ops_nexus.Workflow.Ports.{CreateTaskRequest, UpdateTaskRequest}
use ops_nexus.Workflow.Tasks.Lifecycle.{
  Op, create, update, complete, run, run_tasks-Evolves, task_life,
}
use ops_nexus.Workflow.Example.{ports, env, initial}
use ops_nexus.Prelude.{none, some, [], ◌∷◌, List}

abbrev request : CreateTaskRequest
request = record { title = "Free space"; description = ""; assignee_id = none; due_at = none }

abbrev done : UpdateTaskRequest
done = record {
  title = none;
  description = none;
  status = some "done";
  assignee_id = none;
  due_at = none;
}

abbrev requests : List Op
requests = create "id-0" request ∷ update "id-0" done ∷ complete "id-0" ∷ []

run_tasks-Evolves_example :
    Evolves
      (task_life ports)
      (ports.tasks.view initial.task_store)
      (ports.tasks.view (run env ports requests initial).task_store)
run_tasks-Evolves_example = run_tasks-Evolves env ports requests initial
