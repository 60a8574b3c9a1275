-- ===== src/Workflow/Templates.antt =====
-- services/workflow-service/internal/application/workflow_service.go, one function for each method.
use ops_nexus.Workflow.Cases.{is_blank}
use ops_nexus.Workflow.Domain.{WorkflowTemplate, invalid_input, priority_medium}
use ops_nexus.Workflow.Calls.{insert_template, Action, find_template, now, new_id}
use ops_nexus.Workflow.Ports.{Ports, CreateWorkflowTemplateRequest}
use ops_nexus.Storage.World.{Env}
use ops_nexus.Prelude.{◌>>=◌, ◌>>◌, String, List, refuse_if, ◌==◌, if◌then◌else◌, pure}

module _ (env : Env) (P : Ports) where
  unfoldable pub create_template :
      String → CreateWorkflowTemplateRequest → Action env P WorkflowTemplate
  create_template tenant req = do
    refuse_if (is_blank req.name) invalid_input
    refuse_if (tenant == "") invalid_input
    t ← now env P
    id ← new_id env P
    let wf : WorkflowTemplate = record {
      id = id;
      tenant_id = tenant;
      name = req.name;
      description = req.description;
      states = req.states;
      transitions = req.transitions;
      default_priority =
          if req.default_priority == "" then priority_medium else req.default_priority;
      sla_hours = req.sla_hours;
      created_at = t;
      updated_at = t;
    }
    insert_template env P wf
    pure wf

  pub get_template : String → Action env P WorkflowTemplate
  get_template id = find_template env P id

  unfoldable pub list_templates : String → Action env P (List WorkflowTemplate)
  list_templates tenant w = (P.list_templates tenant w.template_store, w)
