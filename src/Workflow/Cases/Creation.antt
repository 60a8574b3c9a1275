-- ===== src/Workflow/Cases/Creation.antt =====
-- `CreateCase` of services/workflow-service/internal/application/case_service.go: the case that a
-- request makes, its number, its service-level agreement and its priority.
use ops_nexus.Storage.Writes.{create_ok}
use ops_nexus.Prelude.Int.{pos, ltb_ℤ}
use ops_nexus.Workflow.Calls.{find_template, Action, insert_case, next_case_number, new_id, now}
use ops_nexus.Workflow.Cases.{
  resolve_sla, sla_of, Error, priority_medium, with_sla, find_template, WorkflowTemplate, pos,
  create_case, is_blank, given,
}
use ops_nexus.Workflow.Domain.{
  Case, Sla, status_new, Error, priority_medium, WorkflowTemplate, CasePriority,
}
use ops_nexus.Workflow.Ports.{Ports, World, CreateCaseRequest, Numbered, next_count, kept_case}
use ops_nexus.Storage.World.{Env}
use ops_nexus.Prelude.Time.{Time, add_duration, hours}
use ops_nexus.Prelude.{
  true, false, refl, false, none, some, ok, err, ℕ, ◌≤◌, Option, ◌^◌, String, ◌≡◌, ◌<◌,
  if◌then◌else◌, ◌+◌, arith, ◌*◌, ◌==◌, ◌>>=◌, Bool, Result, bind_ok, ◌≢◌, refuse_if, pure, ◌>>◌,
  ap, bind_of_ok, eq_iff, Bool-cases, subst, inl, sym, inr,
}

-- The due time of a template's hours, where the product of the hours and the nanoseconds of an
-- hour fits in an int64.
pub due_of_small :
    (t : Time) (h : ℕ) → h ≤ 2562047 → add_duration t (hours h) ≡ t + h * 3600000000000
due_of_small t h small = ground arith

-- From 2562048 hours, some 292 years, up to twice that the product wraps around to a negative
-- duration: the due time is before the time of creation.
pub due_of_large :
    (t : Time) (h : ℕ) → 2 ^ 63 ≤ t → 2562048 ≤ h → h ≤ 5124095 → add_duration t (hours h) < t
due_of_large t h clock lo hi = ground arith

module _ (env : Env) (P : Ports) where
  -- The case that `CreateCase` builds before it looks at the template.
  abbrev pub drafted : World P → String → String → CreateCaseRequest → String → Case
  drafted w tenant reporter req number = record {
    id = env.uuid w.identifiers;
    tenant_id = tenant;
    case_number = number;
    title = req.title;
    description = req.description;
    status = status_new;
    priority = if req.priority == "" then priority_medium else req.priority;
    assignee_id = none;
    reporter_id = reporter;
    workflow_id = req.workflow_id;
    sla = record { due_at = none; breached = false };
    tags = req.tags;
    created_at = env.clock w.readings;
    updated_at = env.clock w.readings;
    resolved_at = none;
    closed_at = none;
  }

  -- What `resolve_sla` makes of a case.
  abbrev resolved : P.templates.Store → Option String → Case → Time → Case
  resolved s none c t = c
  resolved s (some wid) c t = sla_of c t (P.templates.find wid s).0

  resolve_run :
      (o : Option String) (c : Case) (t : Time) (w : World P)
      → (resolve_sla env P o c t w).0 ≡ ok (resolved w.template_store o c t)
  unfolding resolve_sla ◌>>=◌
  resolve_run none c t w = refl
  resolve_run (some wid) c t w = refl

  resolve_same :
      (o : Option String) (c : Case) (t : Time) (w : World P)
      → (resolve_sla env P o c t w).1.case_store ≡ w.case_store
  unfolding resolve_sla ◌>>=◌
  resolve_same none c t w = refl
  resolve_same (some wid) c t w = refl

  -- The service-level agreement that a new case is given.
  pub record IsAgreed (w : World P) (o : Option String) (t : Time) (sla : Sla) : Type 0 where
    pub unbreached : sla.breached ≡ false
    pub no_template : o ≡ none → sla.due_at ≡ none
    pub no_answer :
        (wid : String) (x : Error)
        → o ≡ some wid
        → (find_template env P wid w).0 ≡ err x
        → sla.due_at ≡ none
    pub due :
        (wid : String) (wf : WorkflowTemplate) (h : ℕ)
        → o ≡ some wid
        → (find_template env P wid w).0 ≡ ok wf
        → wf.sla_hours ≡ pos h
        → 0 < h
        → sla.due_at ≡ some (add_duration t (hours h))
    pub no_hours :
        (wid : String) (wf : WorkflowTemplate)
        → o ≡ some wid
        → (find_template env P wid w).0 ≡ ok wf
        → ltb_ℤ (pos 0) wf.sla_hours ≡ false
        → sla.due_at ≡ none

  resolved-IsAgreed :
      (o : Option String) (c : Case) (t : Time) (w : World P)
      → c.sla.breached ≡ false
      → c.sla.due_at ≡ none
      → IsAgreed w o t (resolved w.template_store o c t).sla
  unfolding with_sla
  resolved-IsAgreed none c t w b n = record {
    unbreached = b;
    no_template = λ _. n;
    no_answer = λ wid x e. cc;
    due = λ wid wf h e. cc;
    no_hours = λ wid wf e. cc;
  }
  resolved-IsAgreed (some v) c t w b n = record {
    unbreached = ground arith;
    no_template = λ e. cc;
    no_answer = λ wid x e p. ground arith;
    due = λ wid wf h e p q lt. ground arith;
    no_hours = λ wid wf e p q. ground arith;
  }

  resolved_rest :
      (o : Option String) (c : Case) (t : Time) (w : World P)
      → (c.priority == "") ≡ false
      → resolved w.template_store o c t ≡ record c { sla = (resolved w.template_store o c t).sla }
  unfolding with_sla
  resolved_rest none c t w h = refl
  resolved_rest (some v) c t w h = ground arith

  -- What an answer to `CreateCase` means.
  pub record IsCreated (w w' : World P) (tenant reporter : String) (req : CreateCaseRequest)
      (c : Case) : Type 0 where
    pub titled : is_blank req.title ≡ false
    pub owned : tenant ≢ ""
    pub reported : reporter ≢ ""
    pub built :
        c
        ≡ record (drafted w tenant reporter req
            (P.counter.number tenant (next_count (P.counter.count w.counter_store tenant)))) {
              sla = c.sla;
            }
    pub agreed : IsAgreed w (given req.workflow_id) (env.clock w.readings) c.sla
    pub free : P.cases.view w.case_store c.id ≡ none
    pub stored : P.cases.view w'.case_store c.id ≡ some (kept_case P.column c)

  guard_ok :
      (b : Bool) (x : Error) (f : Unit {0} → Action env P Case) (w : World P) {c : Case}
      → ((refuse_if b x >>= f) w).0 ≡ ok c
      → (b ≡ false) × ((refuse_if b x >>= f) w ≡ f tt w)
  unfolding ◌>>=◌
  guard_ok true x f w e = cc
  guard_ok false x f w e = (refl, refl)

  abbrev finish : Case → Action env P Case
  finish c = insert_case env P c >> pure c

  finish_ok :
      (c c' : Case) (w : World P)
      → (finish c w).0 ≡ ok c'
      → (c' ≡ c)
        × (P.cases.view w.case_store c.id ≡ none)
        × (P.cases.view (finish c w).1.case_store c.id ≡ some (kept_case P.column c))
  finish_ok c c' w e =
      let (u, done, rest) = bind_ok (insert_case env P c) (λ _. pure c) w e in
      let (free, there) = create_ok P.cases c w.case_store done in
      (cc (ap (λ p. p.0) rest, e), free, rw rest there)

  Numbered-ok :
      (before after : String → ℕ) (tenant : String) (r : Result Error String) (n : String)
      → r ≡ ok n
      → Numbered P.counter.collate P.counter.number before after tenant r
      → n ≡ P.counter.number tenant (next_count (before tenant))
  Numbered-ok before after tenant (ok m) n e h = cc (h.0)
  Numbered-ok before after tenant (err x) n e h = cc

  default_priority : (p : CasePriority) → ((if p == "" then priority_medium else p) == "") ≡ false
  default_priority p = elim (Bool-cases (p == "")) [ inl e ↦ rw e | inr e ↦ rw e e ]

  now_bind :
      (f : Time → Action env P Case) (w : World P)
      → (now env P >>= f) w ≡ f (env.clock w.readings) (now env P w).1
  unfolding ◌>>=◌
  now_bind f w = refl

  id_bind :
      (f : String → Action env P Case) (w : World P)
      → (new_id env P >>= f) w ≡ f (env.uuid w.identifiers) (new_id env P w).1
  unfolding ◌>>=◌
  id_bind f w = refl

  -- An answer to `CreateCase` is a case that is stored, with its times as the columns keep them, under
  -- an identifier that was free. It is new
  -- and unassigned, has the fields of the request, the next number of its tenant and the time of
  -- the call; a priority left out is medium, whatever the template's default is; its
  -- service-level agreement is due the template's hours later if a template is named, found and has
  -- hours above 0, and without a due time otherwise. The title is not blank, and the tenant and the
  -- reporter are not empty.
  pub create_case_ok :
      (tenant reporter : String) (req : CreateCaseRequest) (w : World P) (c : Case)
      → (create_case env P tenant reporter req w).0 ≡ ok c
      → IsCreated w (create_case env P tenant reporter req w).1 tenant reporter req c
  unfolding create_case
  create_case_ok tenant reporter req w c e =
      let (titled, r1) = guard_ok _ _ _ w e in
      let (owned, r2) = guard_ok _ _ _ w (rw r1 at e) in
      let (reported, r3) = guard_ok _ _ _ w (rw r2 at (rw r1 at e)) in
      let e3 = rw r3 at (rw r2 at (rw r1 at e)) in
      let (n, counted, r4) = bind_ok (next_case_number env P tenant) _ w e3 in
      let w1 = (next_case_number env P tenant w).1 in
      let e4 = rw r4 at e3 in
      let w3 = (new_id env P (now env P w1).1).1 in
      let d = drafted w tenant reporter req n in
      let o = given req.workflow_id in
      let t = env.clock w.readings in
      let r7 = bind_of_ok (resolve_sla env P o d t) finish w3 (resolve_run o d t w3) in
      let e7 = rw (now_bind, id_bind, r7) at e4 in
      let w4 = (resolve_sla env P o d t w3).1 in
      let same = resolve_same o d t w3 in
      let (is, free, there) = finish_ok (resolved w.template_store o d t) c w4 e7 in
      let agreed = resolved-IsAgreed o d t w refl refl in
      let shape = resolved_rest o d t w (default_priority req.priority) in
      record {
        titled = titled;
        owned = λ p. cc (owned, (eq_iff tenant "").1 p);
        reported = λ p. cc (reported, (eq_iff reporter "").1 p);
        built =
            subst (λ m. c ≡ record (drafted w tenant reporter req m) { sla = c.sla })
              (Numbered-ok (P.counter.count w.counter_store)
                (P.counter.count (P.counter.next tenant w.counter_store).1) tenant
                (P.counter.next tenant w.counter_store).0 n counted
                (P.counter.next_numbered tenant w.counter_store))
              (subst (λ x. x ≡ record d { sla = x.sla }) (sym is) shape);
        agreed = subst (λ x. IsAgreed w o t x.sla) (sym is) agreed;
        free =
            subst (λ x. P.cases.view w.case_store x.id ≡ none) (sym is)
              (subst (λ s. P.cases.view s (resolved w.template_store o d t).id ≡ none) same free);
        stored =
            rw (r1, r2, r3, r4, now_bind, id_bind, r7)
              (subst
                (λ x.
                  P.cases.view (finish (resolved w.template_store o d t) w4).1.case_store x.id
                  ≡ some (kept_case P.column x))
                (sym is) there);
      }
