-- ===== src/Workflow/Tasks/Lifecycle.antt =====
-- Every method of the task service over the whole store of tasks.
use ops_nexus.Prelude.Text.{ne_of_test}
use ops_nexus.Workflow.Calls.{Action, new_id, find_case, save_task, insert_task, find_task, now}
use ops_nexus.Storage.Evolution.{
  Stays, Life, Safe, From, Safe-guard, From-guard, Evolves, From-bind, Evolves-Written,
  Evolves-Same, From-then, Safe-bind, Evolves-refl, Safe-find, Evolves-Created, Safe-then, Moves,
  Evolves-trans, Stays-pure,
}
use ops_nexus.Storage.World.{Env}
use ops_nexus.Workflow.Cases.Life.{patched_title, not_blank, column_option-ne}
use ops_nexus.Workflow.Cases.{is_blank}
use ops_nexus.Workflow.Ports.{
  touch_task, kept_task, UpdateTaskRequest, CreateTaskRequest, Ports, World,
}
use ops_nexus.Prelude.Time.{Time}
use ops_nexus.Workflow.Domain.{Task, task_done, TaskStatus, task_todo}
use ops_nexus.Prelude.{
  ap, ◌>>=◌, true, false, none, some, [], ◌∷◌, refl, Bool, ◌∙◌, Option, ◌≡◌, String, ◌≢◌, arith,
  or_else, or_keep, eq_iff, List, subst, ◌+◌, sym,
}
use ops_nexus.Workflow.Tasks.{
  patched, finished, Task, Time, completes, UpdateTaskRequest, Env, get_task, completion,
  create_task, complete_task, Action, update_task, list_by_case,
}

-- What holds of every stored task.
pub record IsSound (k : Task) : Type 0 where
  pub titled : is_blank k.title ≡ false
  pub done_stamped : k.status ≡ task_done → k.completed_at ≢ none

-- What an operation keeps of a task.
pub record Step (k k' : Task) : Type 0 where
  pub same_id : k'.id ≡ k.id
  pub same_case : k'.case_id ≡ k.case_id
  pub same_tenant : k'.tenant_id ≡ k.tenant_id
  pub same_created : k'.created_at ≡ k.created_at
  pub stays_completed : k.completed_at ≢ none → k'.completed_at ≢ none
  pub stays_sound : IsSound k → IsSound k'

pub Step-refl : (k : Task) → Step k k
Step-refl k = record {
  same_id = refl;
  same_case = refl;
  same_tenant = refl;
  same_created = refl;
  stays_completed = λ h. h;
  stays_sound = λ h. h;
}

pub Step-trans : {a b c : Task} → Step a b → Step b c → Step a c
Step-trans f g = record {
  same_id = g.same_id ∙ f.same_id;
  same_case = g.same_case ∙ f.same_case;
  same_tenant = g.same_tenant ∙ f.same_tenant;
  same_created = g.same_created ∙ f.same_created;
  stays_completed = λ h. g.stays_completed (f.stays_completed h);
  stays_sound = λ h. g.stays_sound (f.stays_sound h);
}

Step-touch : (t : Time) {k k' : Task} → Step k k' → Step k (touch_task t k')
Step-touch t f = record {
  same_id = f.same_id;
  same_case = f.same_case;
  same_tenant = f.same_tenant;
  same_created = f.same_created;
  stays_completed = f.stays_completed;
  stays_sound =
      λ h. let s = f.stays_sound h in record { titled = s.titled; done_stamped = s.done_stamped };
}

-- What the columns keep of a sound task is sound.
IsSound-kept : (column : Time → Time) {k : Task} → IsSound k → IsSound (kept_task column k)
IsSound-kept column {k} h = record {
  titled = h.titled;
  done_stamped = λ p. column_option-ne column k.completed_at (h.done_stamped p);
}

-- A task that has been through the columns may go through them again.
Step-kept :
    (column : Time → Time) {k k' : Task}
    → kept_task column k ≡ k
    → Step k k'
    → Step k (kept_task column k')
Step-kept column {k} {k'} e f = record {
  same_id = f.same_id;
  same_case = f.same_case;
  same_tenant = f.same_tenant;
  same_created = ap column f.same_created ∙ ap (λ x. x.created_at) e;
  stays_completed = λ h. column_option-ne column k'.completed_at (f.stays_completed h);
  stays_sound = λ h. IsSound-kept column (f.stays_sound h);
}

-- The completion stamp that `UpdateTask` reads exactly when it is needed.
abbrev IsStamp : Bool → Option Time → Type 0
IsStamp true o = o ≢ none
IsStamp false o = o ≡ none

stamped_done :
    (o : Option TaskStatus) (k : Task) (stamp : Option Time)
    → IsStamp (completes o k) stamp
    → IsSound k
    → or_else o k.status ≡ task_done
    → or_keep stamp k.completed_at ≢ none
unfolding completes
stamped_done none k stamp s h p = ground (arith, h.done_stamped)
stamped_done (some status) k stamp s h p = ground (arith, eq_iff status task_done)

Step-patched :
    (k : Task) (req : UpdateTaskRequest) (stamp : Option Time) (t : Time)
    → ((s : String) → req.title ≡ some s → is_blank s ≡ false)
    → IsStamp (completes req.status k) stamp
    → Step k (patched k req stamp t)
unfolding patched
Step-patched k req stamp t ok_title stamped = record {
  same_id = refl;
  same_case = refl;
  same_tenant = refl;
  same_created = refl;
  stays_completed = ground arith;
  stays_sound = λ h. record {
    titled = patched_title req.title k.title ok_title h.titled;
    done_stamped = λ p. stamped_done req.status k stamp stamped h p;
  };
}

Step-finished : (k : Task) (t : Time) → Step k (finished k t)
unfolding finished
Step-finished k t = record {
  same_id = refl;
  same_case = refl;
  same_tenant = refl;
  same_created = refl;
  stays_completed = λ h p. cc;
  stays_sound = λ h. record { titled = h.titled; done_stamped = λ p q. cc };
}

abbrev pub task_life : (P : Ports) → Life Task (World P)
task_life P = record {
  view = λ w. P.tasks.view w.task_store;
  key = λ k. k.id;
  Begins = IsSound;
  Step = Step;
  step_refl = Step-refl;
  step_trans = λ a b c f g. Step-trans f g;
  begins_step = λ a b h f. f.stays_sound h;
  view_key = λ k w. P.tasks.view_key k w.task_store;
}

-- The requests to the task service.
pub data Op : Type 0 where
  create : String → CreateTaskRequest → Op
  get : String → Op
  update : String → UpdateTaskRequest → Op
  complete : String → Op
  list : String → Op

module _ (env : Env) (P : Ports) where
  -- The state after a request, whatever its answer.
  unfoldable pub execute : Op → World P → World P
  execute (create case_id req) w = (create_task env P case_id req w).1
  execute (get id) w = (get_task env P id w).1
  execute (update id req) w = (update_task env P id req w).1
  execute (complete id) w = (complete_task env P id w).1
  execute (list case_id) w = (list_by_case env P case_id w).1

  pub run : List Op → World P → World P
  run [] w = w
  run (op ∷ ops) w = run ops (execute op w)

  Stays-now : Stays (task_life P) (now env P)
  Stays-now = record { at = λ w k. refl }

  Stays-new_id : Stays (task_life P) (new_id env P)
  Stays-new_id = record { at = λ w k. refl }

  Stays-find_case : (id : String) → Stays (task_life P) (find_case env P id)
  Stays-find_case id = record { at = λ w k. refl }

  Stays-find_task : (id : String) → Stays (task_life P) (find_task env P id)
  Stays-find_task id = record { at = λ w. P.tasks.find_same id w.task_store }

  From-save_task : (k k' : Task) → Step k k' → From (task_life P) k (save_task env P k')
  From-save_task k k' f = record {
    at = λ w e.
        Evolves-Written (task_life P) _ _ k'.id
          (λ t. touch_task (P.column t) (kept_task P.column k')) (P.tasks.update k' w.task_store).0
          (λ t.
            subst
              (λ i.
                Moves (task_life P) (P.tasks.view w.task_store i)
                  (some (touch_task (P.column t) (kept_task P.column k'))))
              (sym f.same_id)
              (rw e (
                Step-touch (P.column t)
                  (Step-kept P.column (P.tasks_kept w.task_store k.id k e) f))))
          (P.tasks.update_written k' w.task_store);
  }

  Safe-insert_task : (k : Task) → IsSound k → Safe (task_life P) (insert_task env P k)
  Safe-insert_task k h = record {
    at = λ w.
        Evolves-Created (task_life P) _ _ k.id (kept_task P.column k)
          (P.tasks.create k w.task_store).0 (IsSound-kept P.column h)
          (P.tasks.create_created k w.task_store);
  }

  find_key :
      (w : World P) (id : String) (k : Task)
      → P.tasks.view w.task_store id ≡ some k
      → P.tasks.view w.task_store k.id ≡ some k
  find_key w id k e =
      subst (λ i. P.tasks.view w.task_store i ≡ some k) (sym (P.tasks.view_key id w.task_store k e))
        e

  Safe-found :
      {R : Type 0} (id : String) (f : Task → Action env P R)
      → ((k : Task) → From (task_life P) k (f k))
      → Safe (task_life P) (find_task env P id >>= f)
  Safe-found id f h =
      Safe-find _ f (Stays-find_task id)
        (λ w a e. find_key w id a (P.tasks.find_ok id w.task_store a e)) h

  -- The rest of `UpdateTask` behind its reading of a completion time.
  From-completion :
      {R : Type 0} (k : Task) (b : Bool) (f : Option Time → Action env P R)
      → ((o : Option Time) → IsStamp b o → From (task_life P) k (f o))
      → From (task_life P) k (completion env P b >>= f)
  unfolding completion ◌>>=◌
  From-completion k true f h = record {
    at = λ w e.
        (h (some (env.clock w.readings)) (λ p. cc)).at (record w { readings = w.readings + 1 }) e;
  }
  From-completion k false f h = record { at = (h none refl).at }

  Safe-update_task :
      (id : String) (req : UpdateTaskRequest) → Safe (task_life P) (update_task env P id req)
  unfolding update_task
  Safe-update_task id req = Safe-found id _ λ k. From-guard k _ _ _ λ e.
      From-completion k (completes req.status k) _ λ stamp stamped. From-bind k _ _ Stays-now λ t.
        From-then k _ _
          (From-save_task k _ (Step-patched k req stamp t (not_blank req.title e) stamped))
          (λ u. Stays-pure _)

  Safe-complete_task : (id : String) → Safe (task_life P) (complete_task env P id)
  unfolding complete_task
  Safe-complete_task id = Safe-found id _ λ k.
      From-bind k _ _ Stays-now
        λ t. From-then k _ _ (From-save_task k _ (Step-finished k t)) (λ u. Stays-pure _)

  Safe-create_task :
      (case_id : String) (req : CreateTaskRequest)
      → Safe (task_life P) (create_task env P case_id req)
  unfolding create_task
  Safe-create_task case_id req = Safe-guard _ _ _ λ e. Safe-bind _ _ (Stays-find_case case_id) λ c.
      Safe-bind _ _ Stays-now λ t. Safe-bind _ _ Stays-new_id λ id.
        Safe-then _ _
          (Safe-insert_task _ (record {
            titled = e;
            done_stamped = λ p. absurd (ne_of_test task_todo task_done refl p);
          }))
          (λ u. Stays-pure _)

  execute-Evolves :
      (op : Op) (w : World P)
      → Evolves (task_life P) (P.tasks.view w.task_store) (P.tasks.view (execute op w).task_store)
  unfolding execute get_task list_by_case
  execute-Evolves (create case_id req) w = (Safe-create_task case_id req).at w
  execute-Evolves (get id) w = Evolves-Same (task_life P) _ _ (P.tasks.find_same id w.task_store)
  execute-Evolves (update id req) w = (Safe-update_task id req).at w
  execute-Evolves (complete id) w = (Safe-complete_task id).at w
  execute-Evolves (list case_id) w = Evolves-refl (task_life P) _

  -- After any requests to the task service, failed ones included, every task that was stored is
  -- still there, by a `Step`: its identifier, case, tenant and creation time are the same, a
  -- completion stamp is never taken back, and it is sound if it was. A task that was not there
  -- before is sound: its title is not blank, and it has a completion stamp if it is done.
  pub run_tasks-Evolves :
      (ops : List Op) (w : World P)
      → Evolves (task_life P) (P.tasks.view w.task_store) (P.tasks.view (run ops w).task_store)
  unfolding run
  run_tasks-Evolves [] w = Evolves-refl (task_life P) _
  run_tasks-Evolves (op ∷ ops) w =
      Evolves-trans (task_life P) _ _ _ (execute-Evolves op w)
        (run_tasks-Evolves ops (execute op w))
