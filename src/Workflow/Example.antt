-- ===== src/Workflow/Example.antt =====
-- The surroundings of the workflow service for the examples: repositories in memory, a clock that
-- counts up from the year 1997, and identifiers that are told apart.
use ops_nexus.Prelude.Int.{pos}
use ops_nexus.Workflow.Ports.{Ports, World}
use ops_nexus.Prelude.Time.{Time}
use ops_nexus.Workflow.Ports.{
  next_count, CaseCounter, touch_case, touch_template, touch_comment, touch_task, kept_case,
  kept_task, kept_template, kept_comment, kept_transition,
}
use ops_nexus.Workflow.Domain.{Error, internal}
use ops_nexus.Workflow.Domain.{
  WorkflowTemplate, CaseTransition, case_not_found, workflow_not_found, comment_not_found,
  task_not_found,
}
use ops_nexus.Storage.{Journal, Repository}
use ops_nexus.Storage.World.{Env}
use ops_nexus.Prelude.{
  ◌-◌, ◌%◌, ◌∙◌, arith, none, some, ok, [], ◌∷◌, refl, ℕ, String, ◌==◌, if◌then◌else◌, ◌+◌, ◌≡◌,
  ◌≢◌, ltb, sym, ap,
}
use ops_nexus.Storage.Gorm.{Codec, repository}
use ops_nexus.Storage.Memory.{memory_table, row_at}
use ops_nexus.Workflow.Mysql.Repositories.{decoded_kept, kept_case_twice, kept_task_twice}

abbrev pub start : Time
start = 63000000000000000000

-- Columns that drop what is below a millisecond.
abbrev pub column : Time → Time
column t = t - t % 1000000

pub column_twice : (t : Time) → column (column t) ≡ column t
column_twice t = omega arith

module _ {A : Type 0} (key : A → String) (touch : Time → A → A) (kept : A → A)
    (key_touch : (t : Time) (a : A) → key (touch t a) ≡ key a)
    (key_kept : (a : A) → key (kept a) ≡ key a)
    (kept_touch : (t : Time) (a : A) → kept (touch t a) ≡ touch (column t) (kept a)) where
  abbrev pub plain : Codec A A key (λ t. touch (column t)) kept key touch
  plain = record {
    encode = λ a. a;
    decode = λ a. some (kept a);
    decode_key = λ r a e. sym (ap (λ o. key (elim o [ none ↦ r | some b ↦ b ])) e) ∙ key_kept r;
    key_encode = λ a. refl;
    decode_encode = λ a. refl;
    decode_touch = λ t a. ap some (kept_touch t a);
  }

  -- A repository of entities in memory.
  abbrev pub in_memory :
      (not_found : Error)
      → internal ≢ not_found
      → Repository Error A not_found key (λ t. touch (column t)) kept
  in_memory not_found other =
      repository not_found internal other plain (memory_table key touch start key_touch)

abbrev pub journal : Journal Error CaseTransition (λ t. t.id) (kept_transition column)
journal =
    let r =
      in_memory {A = CaseTransition} (λ t. t.id) (λ t a. a) (kept_transition column) (λ t a. refl)
        (λ a. refl) (λ t a. refl) case_not_found (λ p. cc) in
    record { Store = r.Store; view = r.view; create = r.create; create_created = r.create_created }

abbrev pub counter : CaseCounter
counter = record {
  Store = String → ℕ;
  collate = λ tenant. tenant;
  number = λ tenant n. tenant;
  count = λ s. s;
  next = λ tenant s. (ok tenant, λ j. if tenant == j then next_count (s j) else s j);
  next_numbered = λ tenant s. (refl, λ j. refl);
}

abbrev pub ports : Ports
unfolding repository
ports = record {
  column = column;
  cases =
      in_memory (λ c. c.id) touch_case (kept_case column) (λ t a. refl) (λ a. refl) (λ t a. refl)
        case_not_found (λ p. cc);
  transitions = journal;
  counter = counter;
  templates =
      in_memory (λ c. c.id) touch_template (kept_template column) (λ t a. refl) (λ a. refl)
        (λ t a. refl) workflow_not_found (λ p. cc);
  comments =
      in_memory (λ c. c.id) touch_comment (kept_comment column) (λ t a. refl) (λ a. refl)
        (λ t a. refl) comment_not_found (λ p. cc);
  tasks =
      in_memory (λ c. c.id) touch_task (kept_task column) (λ t a. refl) (λ a. refl) (λ t a. refl)
        task_not_found (λ p. cc);
  cases_kept = λ s k c.
      decoded_kept column column_twice (kept_case column) (λ a. a)
        (row_at (λ c. c.id) touch_case start s k) c (kept_case_twice column column_twice);
  tasks_kept = λ s k t.
      decoded_kept column column_twice (kept_task column) (λ a. a)
        (row_at (λ t. t.id) touch_task start s k) t (kept_task_twice column column_twice);
  list_cases = λ tenant filter page limit s. ok (s, 0);
  list_comments = λ id s. ok s;
  list_tasks = λ id s. ok s;
  list_templates = λ tenant s. ok s;
}

abbrev pub env : Env
env = record {
  clock = λ n. start + n;
  uuid = λ n. if ltb n 1 then "id-0" else if ltb n 2 then "id-1" else "id-2";
}

abbrev pub template : WorkflowTemplate
template = record {
  id = "wf";
  tenant_id = "acme";
  name = "Incident";
  description = "";
  states = none;
  transitions = record { from = "new"; to = "resolved"; label = "fix" } ∷ [];
  default_priority = "high";
  sla_hours = pos 4;
  created_at = start;
  updated_at = start;
}

abbrev pub initial : World ports
unfolding repository
initial = record {
  case_store = [];
  transition_store = [];
  counter_store = λ j. 0;
  template_store = template ∷ [];
  comment_store = [];
  task_store = [];
  readings = 0;
  identifiers = 0;
}
