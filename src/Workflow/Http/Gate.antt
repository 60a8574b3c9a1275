-- ===== src/Workflow/Http/Gate.antt =====
-- Who may make a request to services/workflow-service over http.
use ops_nexus.Prelude.{refl, inl, inr, ◌⊎◌, ◌≡◌, ◌≢◌, Bool-cases, ◌==◌, eq_iff}
use ops_nexus.Prelude.Text.{ne_of_test}
use ops_nexus.Storage.World.{Env}
use ops_nexus.Workflow.Ports.{Ports, World}
use ops_nexus.Workflow.Http
use ops_nexus.Workflow.Http.{
  Decoder, Request, Reply, Route, Handler, dispatch, tenant_context, user_context,
}

module _ (env : Env) (P : Ports) (json : Decoder) where
  -- The request has no tenant or no user.
  abbrev pub Lacks : Request → Type 0
  Lacks r = (r.tenant_header ≡ "") ⊎ (r.user_header ≡ "")

  -- The reply is 400 or 401, and the state is as it was.
  abbrev pub IsRefused : World P → Reply × World P → Type 0
  IsRefused w res = ((res.0.status ≡ 400) ⊎ (res.0.status ≡ 401)) × (res.1 ≡ w)

  IsRefused-gate :
      (r : Request) (f : Handler env P json) (w : World P)
      → Lacks r
      → IsRefused w (tenant_context env P json r (user_context env P json r f) w)
  unfolding tenant_context user_context
  IsRefused-gate r f w h = elim (Bool-cases (r.tenant_header == "")) [
    | inl p ↦ rw p (inl refl, refl)
    | inr p ↦ elim h [
      | inl q ↦ absurd (ne_of_test r.tenant_header "" p q)
      | inr q ↦ rw (p, (eq_iff r.user_header "").1 q) (inr refl, refl)
    ]
  ]

  -- A request without a tenant or a user in its headers, to a route other than that of the health
  -- check, is answered 400 or 401, and nothing is changed.
  pub dispatch_gate :
      (route : Route) (r : Request) (w : World P)
      → route ≢ Http.get_health
      → Lacks r
      → IsRefused w (dispatch env P json route r w)
  unfolding dispatch
  dispatch_gate Http.get_health r w ne h = absurd (ne refl)
  dispatch_gate Http.get_cases r w ne h = IsRefused-gate r _ w h
  dispatch_gate Http.post_case r w ne h = IsRefused-gate r _ w h
  dispatch_gate Http.get_workflows r w ne h = IsRefused-gate r _ w h
  dispatch_gate Http.post_workflow r w ne h = IsRefused-gate r _ w h
  dispatch_gate (Http.get_one id) r w ne h = IsRefused-gate r _ w h
  dispatch_gate (Http.put_case id) r w ne h = IsRefused-gate r _ w h
  dispatch_gate (Http.post_transition id) r w ne h = IsRefused-gate r _ w h
  dispatch_gate (Http.post_assign id) r w ne h = IsRefused-gate r _ w h
  dispatch_gate (Http.get_tasks id) r w ne h = IsRefused-gate r _ w h
  dispatch_gate (Http.post_task id) r w ne h = IsRefused-gate r _ w h
  dispatch_gate (Http.get_comments id) r w ne h = IsRefused-gate r _ w h
  dispatch_gate (Http.post_comment id) r w ne h = IsRefused-gate r _ w h
  dispatch_gate (Http.put_task id) r w ne h = IsRefused-gate r _ w h
  dispatch_gate (Http.post_complete id) r w ne h = IsRefused-gate r _ w h
