-- ===== src/Workflow/Calls.antt =====
-- The calls that the services of services/workflow-service/internal/application make: to the
-- clock, to the source of identifiers and to the repositories.
use ops_nexus.Prelude.{String, ◌+◌, ok, Exec}
use ops_nexus.Prelude.Time.{Time}
use ops_nexus.Storage.World.{Env}
use ops_nexus.Workflow.Domain.{Error, Case, CaseTransition, Comment, Task, WorkflowTemplate}
use ops_nexus.Workflow.Ports.{Ports, World}

module _ (env : Env) (P : Ports) where
  abbrev pub Action : Type 0 → Type 0
  Action A = Exec Error (World P) A

  -- `time.Now().UTC()`
  abbrev pub now : Action Time
  now w = (ok (env.clock w.readings), record w { readings = w.readings + 1 })

  -- `uuid.NewString()`
  abbrev pub new_id : Action String
  new_id w = (ok (env.uuid w.identifiers), record w { identifiers = w.identifiers + 1 })

  abbrev pub find_case : String → Action Case
  find_case id w = let (r, s) = P.cases.find id w.case_store in (r, record w { case_store = s })

  abbrev pub insert_case : Case → Action (Unit {0})
  insert_case c w = let (r, s) = P.cases.create c w.case_store in (r, record w { case_store = s })

  abbrev pub save_case : Case → Action (Unit {0})
  save_case c w = let (r, s) = P.cases.update c w.case_store in (r, record w { case_store = s })

  abbrev pub record_transition : CaseTransition → Action (Unit {0})
  record_transition t w =
      let (r, s) = P.transitions.create t w.transition_store in
      (r, record w { transition_store = s })

  abbrev pub next_case_number : String → Action String
  next_case_number tenant w =
      let (r, s) = P.counter.next tenant w.counter_store in (r, record w { counter_store = s })

  abbrev pub find_template : String → Action WorkflowTemplate
  find_template id w =
      let (r, s) = P.templates.find id w.template_store in (r, record w { template_store = s })

  abbrev pub insert_template : WorkflowTemplate → Action (Unit {0})
  insert_template t w =
      let (r, s) = P.templates.create t w.template_store in (r, record w { template_store = s })

  abbrev pub insert_comment : Comment → Action (Unit {0})
  insert_comment c w =
      let (r, s) = P.comments.create c w.comment_store in (r, record w { comment_store = s })

  abbrev pub find_task : String → Action Task
  find_task id w = let (r, s) = P.tasks.find id w.task_store in (r, record w { task_store = s })

  abbrev pub insert_task : Task → Action (Unit {0})
  insert_task t w = let (r, s) = P.tasks.create t w.task_store in (r, record w { task_store = s })

  abbrev pub save_task : Task → Action (Unit {0})
  save_task t w = let (r, s) = P.tasks.update t w.task_store in (r, record w { task_store = s })
