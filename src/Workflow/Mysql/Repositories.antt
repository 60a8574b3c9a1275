-- ===== src/Workflow/Mysql/Repositories.antt =====
-- case_repository.go, task_repository.go and workflow_template_repository.go of
-- services/workflow-service/internal/adapters/mysql, over gorm's tables: each is the repository
-- that the services are promised. `column` is what a `DATETIME(3)` column keeps of a time, which the
-- driver and MySQL decide.
use ops_nexus.Storage.{Table, Repository}
use ops_nexus.Workflow.Ports.{
  touch_task, touch_case, touch_template, column_option, kept_case, kept_task, kept_template,
}
use ops_nexus.Prelude.Time.{Time}
use ops_nexus.Workflow.Mysql.Rows.{
  Json, TemplateRow, CaseRow, domain_case_to_model, model_to_domain_case, case_roundtrip,
  TransitionJson, domain_wf_to_model, model_to_domain_wf, template_roundtrip,
}
use ops_nexus.Workflow.Domain.{
  Task, Case, Error, case_not_found, WorkflowTemplate, task_not_found, workflow_not_found, internal,
}
use ops_nexus.Storage.Gorm.{Codec, repository, bind_option}
use ops_nexus.Prelude.{none, some, refl, String, Option, List, ap, subst, ◌≡◌}

pub record TaskRow : Type 0 where
  pub id : String
  pub case_id : String
  pub tenant_id : String
  pub title : String
  pub description : String
  pub status : String
  pub assignee_id : Option String
  pub due_at : Option Time
  pub completed_at : Option Time
  pub created_at : Time
  pub updated_at : Time

-- `domainTaskToModel`
pub domain_task_to_model : Task → TaskRow
domain_task_to_model t = record {
  id = t.id;
  case_id = t.case_id;
  tenant_id = t.tenant_id;
  title = t.title;
  description = t.description;
  status = t.status;
  assignee_id = t.assignee_id;
  due_at = t.due_at;
  completed_at = t.completed_at;
  created_at = t.created_at;
  updated_at = t.updated_at;
}

-- `modelToDomainTask`
pub model_to_domain_task : TaskRow → Task
model_to_domain_task m = record {
  id = m.id;
  case_id = m.case_id;
  tenant_id = m.tenant_id;
  title = m.title;
  description = m.description;
  status = m.status;
  assignee_id = m.assignee_id;
  due_at = m.due_at;
  completed_at = m.completed_at;
  created_at = m.created_at;
  updated_at = m.updated_at;
}

abbrev pub case_row_touch : Time → CaseRow → CaseRow
case_row_touch t r = record r { updated_at = t }

abbrev pub template_row_touch : Time → TemplateRow → TemplateRow
template_row_touch t r = record r { updated_at = t }

abbrev pub task_row_touch : Time → TaskRow → TaskRow
task_row_touch t r = record r { updated_at = t }

module _ (column : Time → Time) (column_twice : (t : Time) → column (column t) ≡ column t) where
  column_option_twice :
      (o : Option Time) → column_option column (column_option column o) ≡ column_option column o
  column_option_twice none = refl
  column_option_twice (some t) = ap some (column_twice t)

  pub kept_case_twice : (c : Case) → kept_case column (kept_case column c) ≡ kept_case column c
  kept_case_twice c =
      rw
        (
          column_option_twice c.sla.due_at,
          column_twice c.created_at,
          column_twice c.updated_at,
          column_option_twice c.resolved_at,
          column_option_twice c.closed_at,
        )
        refl

  pub kept_task_twice : (t : Task) → kept_task column (kept_task column t) ≡ kept_task column t
  kept_task_twice t =
      rw
        (
          column_option_twice t.due_at,
          column_option_twice t.completed_at,
          column_twice t.created_at,
          column_twice t.updated_at,
        )
        refl

  -- The columns bring the times of a row to whole milliseconds, which shows when it is read.
  task_codec :
      Codec Task TaskRow
        (λ t. t.id)
        (λ t. touch_task (column t))
        (kept_task column)
        (λ r. r.id)
        task_row_touch
  unfolding domain_task_to_model model_to_domain_task
  task_codec = record {
    encode = domain_task_to_model;
    decode = λ r. some (kept_task column (model_to_domain_task r));
    decode_key =
        λ r a e. cc (ap {B = String} (λ (o : Option Task). elim o [ none ↦ "" | some c ↦ c.id ]) e);
    key_encode = λ a. refl;
    decode_encode = λ a. refl;
    decode_touch = λ t a. refl;
  }

  -- What is kept of an entity that was read from some row.
  pub decoded_kept :
      {A Row : Type 0} (kept : A → A) (f : Row → A) (o : Option Row) (a : A)
      → ((x : A) → kept (kept x) ≡ kept x)
      → bind_option o (λ r. some (kept (f r))) ≡ some a
      → kept a ≡ a
  decoded_kept kept f none a twice e = cc
  decoded_kept {A} kept f (some r) a twice e =
      let same : kept (f r) ≡ a =
        ap {B = A} (λ (o : Option A). elim o [ none ↦ f r | some x ↦ x ]) e in
      subst (λ x. kept x ≡ x) same (twice (f r))

  module _ (tags_json : Json (Option (List String)))
      (db : Table CaseRow (λ r. r.id) case_row_touch) where
    case_codec :
        Codec Case CaseRow
          (λ c. c.id)
          (λ t. touch_case (column t))
          (kept_case column)
          (λ r. r.id)
          case_row_touch
    unfolding domain_case_to_model model_to_domain_case
    case_codec = record {
      encode = domain_case_to_model tags_json;
      decode = λ r. some (kept_case column (model_to_domain_case tags_json r));
      decode_key = λ r a e.
          cc (ap {B = String} (λ (o : Option Case). elim o [ none ↦ "" | some c ↦ c.id ]) e);
      key_encode = λ a. refl;
      decode_encode = λ a. ap (λ c. some (kept_case column c)) (case_roundtrip tags_json a);
      decode_touch = λ t a.
          ap (λ c. some (touch_case (column t) (kept_case column c))) (case_roundtrip tags_json a);
    }

    -- The repository of `NewCaseRepository`.
    pub case_repository :
        Repository Error Case case_not_found
          (λ c. c.id)
          (λ t. touch_case (column t))
          (kept_case column)
    case_repository = repository case_not_found internal (λ p. cc) case_codec db

    -- A case that is stored has been through the columns.
    pub case_repository_kept :
        (s : case_repository.Store) (k : String) (c : Case)
        → case_repository.view s k ≡ some c
        → kept_case column c ≡ c
    unfolding case_repository repository case_codec
    case_repository_kept s k c e =
        decoded_kept (kept_case column) (model_to_domain_case tags_json) (db.rows s k) c
          kept_case_twice e

  module _ (states_json : Json (Option (List String)))
      (transitions_json : Json (List TransitionJson))
      (db : Table TemplateRow (λ r. r.id) template_row_touch) where
    template_codec :
        Codec WorkflowTemplate TemplateRow
          (λ w. w.id)
          (λ t. touch_template (column t))
          (kept_template column)
          (λ r. r.id)
          template_row_touch
    unfolding domain_wf_to_model model_to_domain_wf
    template_codec = record {
      encode = domain_wf_to_model states_json transitions_json;
      decode = λ r. some (kept_template column (model_to_domain_wf states_json transitions_json r));
      decode_key = λ r a e. cc (
          ap {B = String} (λ (o : Option WorkflowTemplate). elim o [ none ↦ "" | some c ↦ c.id ])
            e);
      key_encode = λ a. refl;
      decode_encode = λ a.
          ap (λ w. some (kept_template column w))
            (template_roundtrip states_json transitions_json a);
      decode_touch = λ t a.
          ap (λ w. some (touch_template (column t) (kept_template column w)))
            (template_roundtrip states_json transitions_json a);
    }

    -- The repository of `NewWorkflowTemplateRepository`.
    pub template_repository :
        Repository Error WorkflowTemplate workflow_not_found
          (λ w. w.id)
          (λ t. touch_template (column t))
          (kept_template column)
    template_repository = repository workflow_not_found internal (λ p. cc) template_codec db

  module _ (db : Table TaskRow (λ r. r.id) task_row_touch) where
    -- The repository of `NewTaskRepository`.
    pub task_repository :
        Repository Error Task task_not_found
          (λ t. t.id)
          (λ t. touch_task (column t))
          (kept_task column)
    task_repository = repository task_not_found internal (λ p. cc) task_codec db

    -- A task that is stored has been through the columns.
    pub task_repository_kept :
        (s : task_repository.Store) (k : String) (t : Task)
        → task_repository.view s k ≡ some t
        → kept_task column t ≡ t
    unfolding task_repository repository task_codec
    task_repository_kept s k t e =
        decoded_kept (kept_task column) model_to_domain_task (db.rows s k) t kept_task_twice e
