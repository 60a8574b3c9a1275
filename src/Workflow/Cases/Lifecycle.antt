-- ===== src/Workflow/Cases/Lifecycle.antt =====
-- Every method of the case service over the whole store of cases.
use ops_nexus.Prelude.Text.{ne_of_test}
use ops_nexus.Prelude.{
  ◌==◌, ◌&&◌, eq_iff, String, ◌≡◌, refl, sym, subst, List, [], ◌∷◌, true, some, none, Option, ◌>>=◌,
  is_some, not,
}
use ops_nexus.Storage.World.{Env}
use ops_nexus.Storage.Evolution.{
  Life, Evolves, Evolves-trans, Stays, From, Safe, stays_rules, Evolves-Created, From-guard,
  From-if, Safe-find, From-bind, Evolves-Written, From-then, From-Stays, Moves, Stays-pure,
  Safe-guard, Safe-bind, Safe-then, Stays-bind, Stays-attempt, Stays-refuse_if, Evolves-refl,
}
use ops_nexus.Workflow.Domain.{Case, CaseTransition}
use ops_nexus.Workflow.Ports.{
  Ports, World, CreateCaseRequest, UpdateCaseRequest, TransitionRequest, touch_case, kept_case,
}
use ops_nexus.Workflow.Cases.{
  create_case, get_case, update_case, transition_case, assign_case, list_cases, add_comment,
  list_comments, find_case, find_template, save_case, CaseFilter, Action, now, insert_case, new_id,
  Comment, next_case_number, insert_comment, record_transition, ℤ, mark_breached, check_sla,
  check_transition, perform, Time, resolve_sla, CaseStatus, is_overdue, breach, sla_of,
  transition_found, status_new, given, status_resolved, status_closed,
}
use ops_nexus.Workflow.Cases.Life.{
  IsSound, Step, Step-refl, Step-trans, Step-patched, Step-touch, Step-kept, IsSound-kept,
  Step-assigned, Step-moved, Step-overdue, IsSound-sla_of, not_blank,
}

abbrev pub case_life : (P : Ports) → Life Case (World P)
case_life P = record {
  view = λ w. P.cases.view w.case_store;
  key = λ c. c.id;
  Begins = IsSound;
  Step = Step;
  step_refl = Step-refl;
  step_trans = λ a b c f g. Step-trans f g;
  begins_step = λ a b h f. f.stays_sound h;
  view_key = λ k w. P.cases.view_key k w.case_store;
}

-- The requests to the case service.
pub data Op : Type 0 where
  create : String → String → CreateCaseRequest → Op
  get : String → Op
  update : String → UpdateCaseRequest → Op
  transition : String → TransitionRequest → Op
  assign : String → String → Op
  list : String → CaseFilter → ℤ → ℤ → Op
  comment : String → String → String → Op
  comments : String → Op

module _ (env : Env) (P : Ports) where
  -- The state after a request, whatever its answer.
  unfoldable pub execute : Op → World P → World P
  execute (create tenant reporter req) w = (create_case env P tenant reporter req w).1
  execute (get id) w = (get_case env P id w).1
  execute (update id req) w = (update_case env P id req w).1
  execute (transition id req) w = (transition_case env P id req w).1
  execute (assign id assignee) w = (assign_case env P id assignee w).1
  execute (list tenant filter page limit) w = (list_cases env P tenant filter page limit w).1
  execute (comment id author body) w = (add_comment env P id author body w).1
  execute (comments id) w = (list_comments env P id w).1

  unfoldable pub run : List Op → World P → World P
  run [] w = w
  run (op ∷ ops) w = run ops (execute op w)

  Stays-now : Stays (case_life P) (now env P)
  Stays-now = record { at = λ w k. refl }

  Stays-new_id : Stays (case_life P) (new_id env P)
  Stays-new_id = record { at = λ w k. refl }

  Stays-find_case : (id : String) → Stays (case_life P) (find_case env P id)
  Stays-find_case id = record { at = λ w. P.cases.find_same id w.case_store }

  Stays-record_transition : (t : CaseTransition) → Stays (case_life P) (record_transition env P t)
  Stays-record_transition t = record { at = λ w k. refl }

  Stays-next_case_number : (t : String) → Stays (case_life P) (next_case_number env P t)
  Stays-next_case_number t = record { at = λ w k. refl }

  Stays-find_template : (id : String) → Stays (case_life P) (find_template env P id)
  Stays-find_template id = record { at = λ w k. refl }

  Stays-insert_comment : (c : Comment) → Stays (case_life P) (insert_comment env P c)
  Stays-insert_comment c = record { at = λ w k. refl }

  ruleset case_stays = (
    stays_rules, Stays-now, Stays-new_id, Stays-find_case, Stays-record_transition,
    Stays-next_case_number, Stays-find_template, Stays-insert_comment,
  )

  From-save_case : (c c' : Case) → Step c c' → From (case_life P) c (save_case env P c')
  From-save_case c c' f = record {
    at = λ w e.
        Evolves-Written (case_life P) _ _ c'.id
          (λ t. touch_case (P.column t) (kept_case P.column c')) (P.cases.update c' w.case_store).0
          (λ t.
            subst
              (λ i.
                Moves (case_life P) (P.cases.view w.case_store i)
                  (some (touch_case (P.column t) (kept_case P.column c'))))
              (sym f.same_id)
              (rw e (
                Step-touch (P.column t)
                  (Step-kept P.column (P.cases_kept w.case_store c.id c e) f))))
          (P.cases.update_written c' w.case_store);
  }

  Safe-insert_case : (c : Case) → IsSound c → Safe (case_life P) (insert_case env P c)
  Safe-insert_case c h = record {
    at = λ w.
        Evolves-Created (case_life P) _ _ c.id (kept_case P.column c)
          (P.cases.create c w.case_store).0 (IsSound-kept P.column h)
          (P.cases.create_created c w.case_store);
  }

  find_key :
      (w : World P) (id : String) (c : Case)
      → P.cases.view w.case_store id ≡ some c
      → P.cases.view w.case_store c.id ≡ some c
  find_key w id c e =
      subst (λ i. P.cases.view w.case_store i ≡ some c) (sym (P.cases.view_key id w.case_store c e))
        e

  Safe-found :
      {R : Type 0} (id : String) (f : Case → Action env P R)
      → ((c : Case) → From (case_life P) c (f c))
      → Safe (case_life P) (find_case env P id >>= f)
  Safe-found id f h =
      Safe-find _ f (Stays-find_case id)
        (λ w a e. find_key w id a (P.cases.find_ok id w.case_store a e)) h

  Safe-update_case :
      (id : String) (req : UpdateCaseRequest) → Safe (case_life P) (update_case env P id req)
  unfolding update_case
  Safe-update_case id req = Safe-found id _ λ c. From-guard c _ _ _ λ e.
      From-bind c _ _ Stays-now λ t.
        From-then c _ _ (From-save_case c _ (Step-patched c req t (not_blank req.title e)))
          (λ u. Stays-pure _)

  Safe-assign_case : (id assignee : String) → Safe (case_life P) (assign_case env P id assignee)
  unfolding assign_case
  Safe-assign_case id assignee = Safe-found id _ λ c.
      From-bind c _ _ Stays-now
        λ t. From-then c _ _ (From-save_case c _ (Step-assigned c assignee t)) (λ u. Stays-pure _)

  From-mark_breached :
      (c : Case) (t : Time)
      → is_overdue c.sla t ≡ true
      → From (case_life P) c (mark_breached env P c)
  unfolding mark_breached
  From-mark_breached c t over =
      From-then c _ _ (record { at = (From-save_case c (breach c) (Step-overdue c t over)).at })
        (λ u. Stays-pure _)

  From-check_sla : (c : Case) → From (case_life P) c (check_sla env P c)
  unfolding check_sla
  From-check_sla c =
      From-if c (is_some c.sla.due_at && not c.sla.breached) _ _
        (λ e. From-bind c _ _ Stays-now λ t.
          From-if c (is_overdue c.sla t) _ _ (λ over. From-mark_breached c t over)
            (λ _. From-Stays c _ (Stays-pure c)))
        (λ e. From-Stays c _ (Stays-pure c))

  Safe-get_case : (id : String) → Safe (case_life P) (get_case env P id)
  unfolding get_case
  Safe-get_case id = Safe-found id _ From-check_sla

  Stays-check_transition :
      (wid : Option String) (from to : CaseStatus)
      → Stays (case_life P) (check_transition env P wid from to)
  unfolding check_transition
  Stays-check_transition none from to = Stays-pure tt
  Stays-check_transition (some wid) from to =
      Stays-bind _ _ (Stays-attempt _ (Stays-find_template wid)) (λ r. Stays-refuse_if _ _)

  From-perform : (c : Case) (req : TransitionRequest) → From (case_life P) c (perform env P c req)
  unfolding perform
  From-perform c req = From-bind c _ _ Stays-now λ t.
      From-then c _ _ (From-save_case c _ (Step-moved c req.to_status t)) λ u.
        Stays-bind _ _ Stays-new_id
          λ tid. Stays-bind _ _ (Stays-attempt _ (Stays-record_transition _)) (λ r. Stays-pure _)

  From-transition :
      (c : Case) (req : TransitionRequest) → From (case_life P) c (transition_found env P c req)
  unfolding transition_found
  From-transition c req =
      From-if c (c.status == req.to_status) _ _ (λ e. From-Stays c _ (Stays-pure c))
        (λ e.
          From-bind c _ _ (Stays-check_transition (given c.workflow_id) c.status req.to_status)
            (λ u. From-perform c req))

  Safe-transition_case :
      (id : String) (req : TransitionRequest) → Safe (case_life P) (transition_case env P id req)
  unfolding transition_case
  Safe-transition_case id req = Safe-found id _ (λ c. From-transition c req)

  -- What holds of a case on every way through `resolve_sla` holds of the case inserted.
  Safe-resolve_sla :
      {R : Type 0} (wid : Option String) (c : Case) (t : Time) (f : Case → Action env P R)
      → ((c' : Case) → IsSound c' → Safe (case_life P) (f c'))
      → IsSound c
      → Safe (case_life P) (resolve_sla env P wid c t >>= f)
  unfolding resolve_sla ◌>>=◌
  Safe-resolve_sla none c t f hf h = record { at = (hf c h).at }
  Safe-resolve_sla (some wid) c t f hf h = record {
    at = λ w.
        let (r, w') = find_template env P wid w in
        (hf (sla_of c t r) (IsSound-sla_of c t r h)).at w';
  }

  Safe-create_case :
      (tenant reporter : String) (req : CreateCaseRequest)
      → Safe (case_life P) (create_case env P tenant reporter req)
  unfolding create_case
  Safe-create_case tenant reporter req = Safe-guard _ _ _ λ e. Safe-guard _ _ _ λ e'.
      Safe-guard _ _ _ λ e''. Safe-bind _ _ (Stays-next_case_number tenant) λ n.
        Safe-bind _ _ Stays-now λ t. Safe-bind _ _ Stays-new_id λ id.
          Safe-resolve_sla _ _ _ _ (λ c h. Safe-then _ _ (Safe-insert_case c h) (λ u. Stays-pure _))
            (record {
              titled = e;
              owned = λ p. cc ((eq_iff tenant "").1 p);
              reported = λ p. cc ((eq_iff reporter "").1 p);
              resolved_stamped = λ p. absurd (ne_of_test status_new status_resolved refl p);
              closed_stamped = λ p. absurd (ne_of_test status_new status_closed refl p);
              breach_due = λ p. cc;
            })

  Safe-add_comment :
      (id author body : String) → Safe (case_life P) (add_comment env P id author body)
  unfolding add_comment
  Safe-add_comment id author body =
      Safe-guard _ _ _ λ e. Safe-found id _ λ c. From-Stays c _ (search case_stays)

  pub execute-Evolves :
      (op : Op) (w : World P)
      → Evolves (case_life P) (P.cases.view w.case_store) (P.cases.view (execute op w).case_store)
  unfolding execute list_cases list_comments
  execute-Evolves (create tenant reporter req) w = (Safe-create_case tenant reporter req).at w
  execute-Evolves (get id) w = (Safe-get_case id).at w
  execute-Evolves (update id req) w = (Safe-update_case id req).at w
  execute-Evolves (transition id req) w = (Safe-transition_case id req).at w
  execute-Evolves (assign id assignee) w = (Safe-assign_case id assignee).at w
  execute-Evolves (list tenant filter page limit) w = Evolves-refl (case_life P) _
  execute-Evolves (comment id author body) w = (Safe-add_comment id author body).at w
  execute-Evolves (comments id) w = Evolves-refl (case_life P) _

  -- After any requests to the case service, failed ones included, every case that was stored is
  -- still there, by a `Step`: its identity, its due time and its creation are the same, a breach,
  -- a resolution stamp and a closing stamp are never taken back, and it is sound if it was. A case
  -- that was not there before is sound: it has a title, a tenant and a reporter, it has its stamp
  -- if it is resolved or closed, and a due time if it is breached.
  pub run-Evolves :
      (ops : List Op) (w : World P)
      → Evolves (case_life P) (P.cases.view w.case_store) (P.cases.view (run ops w).case_store)
  unfolding run
  run-Evolves [] w = Evolves-refl (case_life P) _
  run-Evolves (op ∷ ops) w =
      Evolves-trans (case_life P) _ _ _ (execute-Evolves op w) (run-Evolves ops (execute op w))
