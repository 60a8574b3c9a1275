-- ===== src/Workflow/Http/Tests.antt =====
-- The theorems on the http adapter of the workflow service at concrete requests.
use ops_nexus.Prelude.{none, some, refl, String, inl, ◌≢◌}
use ops_nexus.Workflow.Example.{ports, env, initial}
use ops_nexus.Workflow.Http.{Decoder, Request, dispatch, get_cases, get_health}
use ops_nexus.Workflow.Cases.Lifecycle
use ops_nexus.Workflow.Http.Gate.{IsRefused, dispatch_gate}

-- Bodies that are a title, or an assignee, alone.
abbrev decoder : Decoder
decoder = record {
  create_case = λ s.
      some (record {
        title = s;
        description = "";
        priority = "";
        workflow_id = some "wf";
        tags = none;
      });
  update_case = λ s. none;
  transition = λ s. none;
  assignee = λ s. some s;
  create_task = λ s. none;
  update_task = λ s. none;
  comment = λ s. none;
  create_template = λ s. none;
}

abbrev request : String → String → Request
request tenant body = record {
  request_header = "";
  tenant_header = tenant;
  user_header = "ann";
  status = "";
  priority = "";
  assignee = "";
  page = "";
  limit = "";
  body = body;
}

not_health : get_cases ≢ get_health
not_health e = cc

dispatch_gate_example :
    IsRefused env ports decoder initial
      (dispatch env ports decoder get_cases (request "" "") initial)
dispatch_gate_example =
    dispatch_gate env ports decoder get_cases (request "" "") initial not_health (inl refl)
