-- ===== src/Workflow/Cases/Transitions.antt =====
-- `TransitionCase` of services/workflow-service/internal/application/case_service.go: which
-- transitions pass, and what a transition does.
use ops_nexus.Workflow.Cases.Allowed.{IsMoved, moved-IsMoved, Allows, Allows-of_test}
use ops_nexus.Prelude.Text.{test_of_ne}
use ops_nexus.Workflow.Calls.{find_template, find_case}
use ops_nexus.Storage.Writes.{Created-or_Same, update_ok}
use ops_nexus.Storage.{Same}
use ops_nexus.Workflow.Ports.{
  Ports, World, TransitionRequest, touch_case, kept_case, kept_transition,
}
use ops_nexus.Prelude.Time.{Time}
use ops_nexus.Storage.World.{Env}
use ops_nexus.Workflow.Cases.{
  moved, is_transition_allowed, Time, Ports, perform, TransitionRequest, Error, check_transition,
  WorkflowTemplate, given, transition_found, transition_case, invalid_transition,
}
use ops_nexus.Workflow.Domain.{
  CaseStatus, Case, CaseTransition, Error, WorkflowTemplate, invalid_transition,
}
use ops_nexus.Prelude.{
  String, ◌≡◌, ◌≢◌, ◌⊎◌, inl, inr, refl, true, false, Option, some, none, ok, err, ◌==◌, eq_iff,
  arith, bind_ok, bind_of_ok, bind_of_err, ◌>>=◌, Bool-cases, ◌+◌, subst, Result-cases, ap,
}

module _ (env : Env) (P : Ports) where
  -- The entry of the transition history.
  abbrev pub entry : World P → Case → TransitionRequest → CaseTransition
  entry w c req = record {
    id = env.uuid w.identifiers;
    case_id = c.id;
    from_status = c.status;
    to_status = req.to_status;
    reason = req.reason;
    performed_by = req.performed_by;
    performed_at = env.clock w.readings;
  }

  -- What a transition that went through from `w` to `w'` has done.
  pub record Performed (w w' : World P) (c : Case) (req : TransitionRequest) (c' : Case)
      : Type 0 where
    pub result : IsMoved c req.to_status (env.clock w.readings) c'
    pub stored :
        (t : Time) × (P.cases.view w'.case_store c.id
          ≡ some (touch_case (P.column t) (kept_case P.column c')))
    pub logged :
        (P.transitions.view w'.transition_store (env.uuid w.identifiers)
          ≡ some (kept_transition P.column (entry w c req)))
        ⊎ Same (P.transitions.view w.transition_store) (P.transitions.view w'.transition_store)

  -- The state after a transition whose `Update` succeeds.
  after_perform : World P → Case → TransitionRequest → World P
  after_perform w c req = record w {
    case_store = (P.cases.update (moved c req.to_status (env.clock w.readings)) w.case_store).1;
    transition_store = (P.transitions.create (entry w c req) w.transition_store).1;
    readings = w.readings + 1;
    identifiers = w.identifiers + 1;
  }

  perform_run :
      (c : Case) (req : TransitionRequest) (w : World P) {u : Unit {0}}
      → (P.cases.update (moved c req.to_status (env.clock w.readings)) w.case_store).0 ≡ ok u
      → perform env P c req w
        ≡ (ok (moved c req.to_status (env.clock w.readings)), after_perform w c req)
  unfolding perform ◌>>=◌ after_perform
  perform_run c req w e = rw e

  after_perform-Performed :
      (c : Case) (req : TransitionRequest) (w : World P) {u : Unit {0}}
      → (P.cases.update (moved c req.to_status (env.clock w.readings)) w.case_store).0 ≡ ok u
      → Performed w (after_perform w c req) c req (moved c req.to_status (env.clock w.readings))
  unfolding after_perform
  after_perform-Performed c req w e = record {
    result = moved-IsMoved c req.to_status (env.clock w.readings);
    stored =
        update_ok P.cases (moved c req.to_status (env.clock w.readings)) w.case_store c.id
          (moved-IsMoved c req.to_status (env.clock w.readings)).kept.0 e;
    logged =
        Created-or_Same (P.transitions.view w.transition_store)
          (P.transitions.view (after_perform w c req).transition_store) (env.uuid w.identifiers)
          (kept_transition P.column (entry w c req))
          (P.transitions.create (entry w c req) w.transition_store).0
          (P.transitions.create_created (entry w c req) w.transition_store);
  }

  perform_err :
      (c : Case) (req : TransitionRequest) (w : World P) {x : Error}
      → (P.cases.update (moved c req.to_status (env.clock w.readings)) w.case_store).0 ≡ err x
      → (perform env P c req w).0 ≡ err x
  unfolding perform ◌>>=◌
  perform_err c req w e = rw e

  perform_ok :
      (c : Case) (req : TransitionRequest) (w : World P) (c' : Case)
      → (perform env P c req w).0 ≡ ok c'
      → Performed w (perform env P c req w).1 c req c'
  perform_ok c req w c' e =
      let m = moved c req.to_status (env.clock w.readings) in
      elim (Result-cases (P.cases.update m w.case_store).0) [
        | inl (u, saved) ↦
            let run = perform_run c req w saved in
            let same : m ≡ c' = cc (ap (λ p. p.0) run, e) in
            rw run (
              subst (λ d. Performed w (after_perform w c req) c req d) same
                (after_perform-Performed c req w saved))
        | inr (x, failed) ↦ cc (perform_err c req w failed)
      ]

  -- The transition is one that the attached template lists, if its lookup succeeds; with no
  -- template, or where the lookup fails, any transition passes.
  abbrev pub Passes : World P → Case → CaseStatus → Type 0
  Passes w c to =
      (wid : String) (wf : WorkflowTemplate)
      → given c.workflow_id ≡ some wid
      → (find_template env P wid w).0 ≡ ok wf
      → Allows c.status to wf.transitions

  check_ok :
      (o : Option String) (from to : CaseStatus) (w : World P) {u : Unit {0}}
      → (check_transition env P o from to w).0 ≡ ok u
      → (wid : String) (wf : WorkflowTemplate) → o ≡ some wid
      → (find_template env P wid w).0 ≡ ok wf
      → Allows from to wf.transitions
  unfolding check_transition ◌>>=◌
  check_ok none from to w e wid wf p q = cc
  check_ok (some v) from to w e wid wf p q = Allows-of_test wf.transitions from to (ground arith)

  carry :
      (o : Option String) (from to : CaseStatus) (w w' : World P) (c : Case)
      (req : TransitionRequest) (c' : Case)
      → Performed (check_transition env P o from to w).1 w' c req c'
      → Performed w w' c req c'
  unfolding check_transition ◌>>=◌
  carry none from to w w' c req c' h = h
  carry (some v) from to w w' c req c' h = record {
    result = h.result;
    stored = h.stored;
    logged = h.logged;
  }

  check_refused :
      (o : Option String) (from to : CaseStatus) (w : World P) (wid : String)
      (wf : WorkflowTemplate)
      → o ≡ some wid
      → (find_template env P wid w).0 ≡ ok wf
      → ¬ Allows from to wf.transitions
      → (check_transition env P o from to w).0 ≡ err invalid_transition
  unfolding check_transition ◌>>=◌
  check_refused none from to w wid wf p q h = cc
  check_refused (some v) from to w wid wf p q h =
      elim (Bool-cases (is_transition_allowed wf.transitions from to)) [
        | inl yes_listed ↦ absurd (h (Allows-of_test wf.transitions from to yes_listed))
        | inr unlisted ↦ ground arith
      ]

  check_same :
      (o : Option String) (from to : CaseStatus) (w : World P)
      → let w' = (check_transition env P o from to w).1 in
        (w'.case_store ≡ w.case_store) × (w'.transition_store ≡ w.transition_store)
  unfolding check_transition ◌>>=◌
  check_same none from to w = (refl, refl)
  check_same (some v) from to w = (refl, refl)

  run_same :
      (c : Case) (req : TransitionRequest) (w : World P)
      → (c.status == req.to_status) ≡ true
      → transition_found env P c req w ≡ (ok c, w)
  unfolding transition_found
  run_same c req w h = rw h

  run_differ :
      (c : Case) (req : TransitionRequest) (w : World P)
      → (c.status == req.to_status) ≡ false
      → transition_found env P c req w
        ≡ (check_transition env P (given c.workflow_id) c.status req.to_status >>= λ _.
              perform env P c req)
            w
  unfolding transition_found
  run_differ c req w h = rw h

  Performed-after_check :
      (c : Case) (req : TransitionRequest) (w : World P) (c' : Case)
      → ((check_transition env P (given c.workflow_id) c.status req.to_status >>= λ _.
            perform env P c req)
          w).0
        ≡ ok c'
      → Passes w c req.to_status
        × Performed w
            ((check_transition env P (given c.workflow_id) c.status req.to_status >>= λ _.
                perform env P c req)
              w).1
            c
            req
            c'
  Performed-after_check c req w c' e =
      let check = check_transition env P (given c.workflow_id) c.status req.to_status in
      let (u, passed, rest) = bind_ok check (λ _. perform env P c req) w e in
      (
        check_ok (given c.workflow_id) c.status req.to_status w passed,
        carry (given c.workflow_id) c.status req.to_status w _ c req c'
            (rw rest (perform_ok c req (check w).1 c' (rw rest at e))),
      )

  -- What an answer to a transition request means, from the state `w` in which the case was found.
  abbrev pub Transitioned : World P → World P → Case → TransitionRequest → Case → Type 0
  Transitioned w w' c req c' =
      ((c.status ≡ req.to_status) × (c' ≡ c) × (w' ≡ w))
      ⊎ ((c.status ≢ req.to_status) × Passes w c req.to_status × Performed w w' c req c')

  transition_found_ok :
      (c : Case) (req : TransitionRequest) (w : World P) (c' : Case)
      → (transition_found env P c req w).0 ≡ ok c'
      → Transitioned w (transition_found env P c req w).1 c req c'
  transition_found_ok c req w c' e = elim (Bool-cases (c.status == req.to_status)) [
    | inl same ↦
        let run = run_same c req w same in
        inl ((eq_iff c.status req.to_status).0 same, cc (ap (λ p. p.0) run, e), ap (λ p. p.1) run)
    | inr differ ↦
        let run = run_differ c req w differ in
        let (passes, performed) = Performed-after_check c req w c' (rw run at e) in
        inr (λ p. cc ((eq_iff c.status req.to_status).1 p), passes, rw run performed)
  ]

  -- An answer to `TransitionCase` is about a case `c` that was found. Either `c` has the status
  -- already, and it is returned with nothing written. Or the status differs; the transition is
  -- listed in the attached template if that is found; the case returned is `c` with the status, the
  -- stamps and the breach of a transition at that time and nothing else changed; it is stored, with
  -- its times as the columns keep them, under the time stamp of the save; and the history has the
  -- entry of the transition, its time so kept, or is unchanged.
  pub transition_case_ok :
      (id : String) (req : TransitionRequest) (w : World P) (c' : Case)
      → (transition_case env P id req w).0 ≡ ok c'
      → (c : Case) × ((find_case env P id w).0 ≡ ok c)
        × Transitioned (find_case env P id w).1 (transition_case env P id req w).1 c req c'
  unfolding transition_case
  transition_case_ok id req w c' e =
      let (c, found, rest) = bind_ok (find_case env P id) (λ c. transition_found env P c req) w e in
      (c, found, rw rest (transition_found_ok c req (find_case env P id w).1 c' (rw rest at e)))

  -- A transition between two statuses that differ, of a case with a template that is found and does
  -- not list it, is refused; no case and no entry of the history is changed.
  pub transition_case_refused :
      (id wid : String) (req : TransitionRequest) (w : World P) (c : Case) (wf : WorkflowTemplate)
      → (find_case env P id w).0 ≡ ok c
      → c.status ≢ req.to_status
      → given c.workflow_id ≡ some wid
      → (find_template env P wid w).0 ≡ ok wf
      → ¬ Allows c.status req.to_status wf.transitions
      → let (r, w') = transition_case env P id req w in
        (r ≡ err invalid_transition)
        × Same (P.cases.view w.case_store) (P.cases.view w'.case_store)
        × Same (P.transitions.view w.transition_store) (P.transitions.view w'.transition_store)
  unfolding transition_case
  transition_case_refused id wid req w c wf found differ attached template unlisted =
      let w1 = (find_case env P id w).1 in
      let run = bind_of_ok (find_case env P id) (λ c. transition_found env P c req) w found in
      let go = run_differ c req w1 (test_of_ne c.status req.to_status differ) in
      let no_way =
        check_refused (given c.workflow_id) c.status req.to_status w1 wid wf attached template
          unlisted in
      let stop =
        bind_of_err (check_transition env P (given c.workflow_id) c.status req.to_status)
          (λ _. perform env P c req) w1 no_way in
      let same = check_same (given c.workflow_id) c.status req.to_status w1 in
      rw (run, go, stop)
        (refl, rw same.0 (P.cases.find_same id w.case_store), rw same.1 (λ j. refl))
