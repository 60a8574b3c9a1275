-- ===== src/Document/Forms.antt =====
-- services/document-service/internal/application/form_service.go. Logging is left out.
use ops_nexus.Prelude.{
  none, some, true, false, [], ◌∷◌, String, ℕ, List, Bool, Option, pure, fail, or_else,
  if◌then◌else◌, ◌>>=◌, ◌>>◌, ◌==◌, ◌+◌, ◌&&◌, ◌%◌, ◌^◌,
}
use ops_nexus.Prelude.Int.{ℤ}
use ops_nexus.Prelude.Time.{Time}
use ops_nexus.Storage.World.{Env}
use ops_nexus.Document.Domain.{
  FormTemplate, FormField, FormSubmission, Data, Value, null, text, other, invalid_form_data,
  form_status_draft, form_status_published, form_status_archived, submission_status_submitted,
}
use ops_nexus.Document.Ports.{Ports, CreateFormRequest, UpdateFormRequest, SubmitFormRequest}
use ops_nexus.Document.Repository.{
  Action, now, new_id, create_form, find_form, update_form, update_form_status, list_forms_of,
  create_submission, find_submission, list_submissions_of,
}

-- `data[name]`
unfoldable pub value_at : {O : Type 0} → Data O → String → Option (Value O)
value_at [] name = none
value_at ((k, v) ∷ entries) name =
    let rest = value_at entries name in if k == name then some v else rest

-- `!exists || val == nil || val == ""`
abbrev pub is_blank : {O : Type 0} → Option (Value O) → Bool
is_blank none = true
is_blank (some null) = true
is_blank (some (text s)) = s == ""
is_blank (some (other o)) = false

-- The loop of `SubmitForm`: the first field that is required and blank.
unfoldable pub first_missing : {O : Type 0} → List FormField → Data O → Option String
first_missing [] entries = none
first_missing (f ∷ fs) entries =
    let rest = first_missing fs entries in
    if f.required && is_blank (value_at entries f.name) then some f.name else rest

abbrev pub new_form : String → String → CreateFormRequest → Time → String → FormTemplate
new_form tenant creator req at id = record {
  id = id;
  tenant_id = tenant;
  name = req.name;
  description = req.description;
  version = 1;
  fields = req.fields;
  status = form_status_draft;
  created_by = creator;
  created_at = at;
  updated_at = at;
}

-- The changes of `UpdateTemplate`; new fields are a new version, `form.Version++` on 64 bits.
abbrev pub with_fields : Option (List FormField) → FormTemplate → FormTemplate
with_fields none f = f
with_fields (some fields) f = record f { fields = fields; version = (f.version + 1) % 2 ^ 64 }

abbrev pub edited : UpdateFormRequest → Time → FormTemplate → FormTemplate
edited req at f = record (with_fields req.fields f) {
  name = or_else req.name f.name;
  description = or_else req.description f.description;
  updated_at = at;
}

abbrev pub new_submission :
    {O : Type 0} → String → String → SubmitFormRequest O → Time → String → FormSubmission O
new_submission tenant user req at id = record {
  id = id;
  form_id = req.form_id;
  tenant_id = tenant;
  submitted_by = user;
  data_values = req.data_values;
  status = submission_status_submitted;
  created_at = at;
  updated_at = at;
}

module _ (env : Env) (P : Ports) where
  unfoldable pub create_template : String → String → CreateFormRequest → Action env P FormTemplate
  create_template tenant creator req = do
    at ← now env P
    id ← new_id env P
    create_form env P (new_form tenant creator req at id)
    pure (new_form tenant creator req at id)

  abbrev pub get_template : String → Action env P FormTemplate
  get_template id = find_form env P id

  unfoldable pub update_template : String → UpdateFormRequest → Action env P FormTemplate
  update_template id req = do
    f ← find_form env P id
    at ← now env P
    update_form env P (edited req at f)

  abbrev pub publish_template : String → Action env P (Unit {0})
  publish_template id = update_form_status env P id form_status_published

  abbrev pub archive_template : String → Action env P (Unit {0})
  archive_template id = update_form_status env P id form_status_archived

  abbrev pub list_templates : String → ℤ → ℤ → Action env P (List FormTemplate × ℕ)
  list_templates tenant page limit = list_forms_of env P tenant page limit

  abbrev pub refuse_missing : Option String → Action env P (Unit {0})
  refuse_missing none = pure tt
  refuse_missing (some name) = fail (invalid_form_data name)

  -- `SubmitForm` from the time on.
  unfoldable pub store_submission :
      String → String → SubmitFormRequest P.Other → Action env P (FormSubmission P.Other)
  store_submission tenant user req = do
    at ← now env P
    id ← new_id env P
    create_submission env P (new_submission tenant user req at id)
    pure (new_submission tenant user req at id)

  unfoldable pub submit_form :
      String → String → SubmitFormRequest P.Other → Action env P (FormSubmission P.Other)
  submit_form tenant user req = do
    f ← find_form env P req.form_id
    refuse_missing (first_missing f.fields req.data_values)
    store_submission tenant user req

  abbrev pub get_submission : String → Action env P (FormSubmission P.Other)
  get_submission id = find_submission env P id

  abbrev pub list_submissions : String → ℤ → ℤ → Action env P (List (FormSubmission P.Other) × ℕ)
  list_submissions tenant page limit = list_submissions_of env P tenant page limit
