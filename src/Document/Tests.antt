-- ===== src/Document/Tests.antt =====
-- Runs of the document service on collections and files in memory, and the theorems at them.
use ops_nexus.Prelude.{subst, ap, arith}
use ops_nexus.Prelude.Int.{◌≤ℤ◌}
use ops_nexus.Document.Http.{Part, Multipart, max_upload_size, Decoder, Request, part}
use ops_nexus.Prelude.{none, some, true, ok, err, [], ◌∷◌, refl, String, List, ◌≡◌, ◌↔◌, ◌>>=◌}
use ops_nexus.Prelude.Int.{pos, ◌≤ℤ◌}
use ops_nexus.Prelude.Text.{ne_of_test}
use ops_nexus.Storage.World.{Env}
use ops_nexus.Document.Domain.{
  Document, FormTemplate, FormField, FormSubmission, null, text, invalid_form_data,
}
use ops_nexus.Document.Ports.{Ports, World, UploadRequest, SubmitFormRequest, Holds}
use ops_nexus.Document.Memory.{memory_collection, memory_files}
use ops_nexus.Document.Repository
use ops_nexus.Document.Repository.{stored_submission, find_form}
use ops_nexus.Document.Documents.{new_document}
use ops_nexus.Document.Forms.{
  first_missing, value_at, new_submission, submit_form, store_submission,
}
use ops_nexus.Document.Submissions.{
  AllFilled, submissions_at, first_missing_iff, submit_form_ok, submit_form_refused,
}
use ops_nexus.Document.Templates.{Op, IsFresh, forms_at, run, run_templates-IsLater}
use ops_nexus.Document.Templates
use ops_nexus.Document.Templates.Steps.{IsLater}

abbrev ports : Ports
ports = record {
  Other = Unit {0};
  documents = memory_collection (λ d. d.id);
  versions = memory_collection (λ v. v.id);
  forms = memory_collection (λ f. f.id);
  submissions = memory_collection (λ s. s.id);
  file_system = memory_files;
  join = λ a b. b;
  dir = λ p. p;
  upload_dir = "uploads";
  versions_of = λ d s. ok s;
}

abbrev env : Env
env = record { clock = λ k. 5000000; uuid = λ k. "u" }

abbrev surname : FormField
surname = record {
  name = "surname";
  field_type = "text";
  label = "Surname";
  required = true;
  placeholder = "";
  options = [];
  validation = record {
    min_length = none;
    max_length = none;
    min = none;
    max = none;
    pattern_text = "";
  };
}

abbrev form : FormTemplate
form = record {
  id = "f";
  tenant_id = "acme";
  name = "Registration";
  description = "";
  version = 1;
  fields = surname ∷ [];
  status = "published";
  created_by = "ann";
  created_at = 1000000;
  updated_at = 1000000;
}

abbrev start : World ports
start = record {
  document_store = [];
  version_store = [];
  form_store = form ∷ [];
  submission_store = [];
  file_store = [];
  readings = 0;
  identifiers = 0;
}

abbrev report : UploadRequest
report = record {
  filename = "report.pdf";
  mime_type = "application/pdf";
  size_bytes = pos 3;
  content = 1 ∷ 2 ∷ 3 ∷ [];
  case_id = none;
}

abbrev uploaded : Document
uploaded = new_document "acme" "ann" report "u" 5000000

abbrev program : UploadRequest
program = record report { mime_type = "application/x-sh" }

abbrev with_document : World ports
with_document = record start { document_store = uploaded ∷ [] }

abbrev filled : SubmitFormRequest (Unit {0})
filled = record { form_id = "f"; data_values = ("surname", text "Doe") ∷ [] }

abbrev blank : SubmitFormRequest (Unit {0})
blank = record { form_id = "f"; data_values = ("surname", null) ∷ [] }

first_missing_iff_example :
    (first_missing (surname ∷ []) filled.data_values ≡ none)
    ↔ AllFilled (surname ∷ []) filled.data_values
first_missing_iff_example = first_missing_iff (surname ∷ []) filled.data_values

abbrev submitted : FormSubmission (Unit {0})
submitted = new_submission "acme" "ann" filled 5000000 "u"

submit_runs : (submit_form env ports "acme" "ann" filled start).0 ≡ ok submitted
unfolding submit_form store_submission first_missing value_at find_form Repository.create_submission
    ◌>>=◌
submit_runs = refl

submit_form_ok_example :
    ((f : FormTemplate) × Holds f (ports.forms.entries start.form_store "f")
      × AllFilled f.fields filled.data_values)
    × (submitted ≡ new_submission "acme" "ann" filled 5000000 "u")
    × (submissions_at env ports (submit_form env ports "acme" "ann" filled start).1 "u"
        ≡ stored_submission submitted ∷ submissions_at env ports start "u")
submit_form_ok_example = submit_form_ok env ports "acme" "ann" filled start submitted submit_runs

form_found : (find_form env ports "f" start).0 ≡ ok form
unfolding find_form ◌>>=◌
form_found = refl

not_filled : ¬ AllFilled (surname ∷ []) blank.data_values
unfolding value_at
not_filled (h, hs) = let (v, e, n, t) = h refl in n cc

submit_form_refused_example :
    (name : String) × (submit_form env ports "acme" "ann" blank start
      ≡ (err (invalid_form_data name), start))
submit_form_refused_example =
    submit_form_refused env ports "acme" "ann" blank start form form_found not_filled

abbrev requests : List (Op (Unit {0}))
requests =
    Templates.update_template "f" (record { name = none; description = none; fields = some [] })
    ∷ Templates.archive_template "f"
    ∷ Templates.submit_form "acme" "ann" filled
    ∷ []

run_templates-IsLater_example :
    (g : FormTemplate) × (forms_at env ports (run env ports requests start) "f" ≡ g ∷ [])
    × IsLater form g
run_templates-IsLater_example =
    run_templates-IsLater env ports "f" requests start form (λ k le. ne_of_test "u" "f" refl)
      (omega arith) refl

-- A body is the name of a file of three bytes.
abbrev file_of : String → Part
file_of s = record { filename = s; content_type = ""; size = pos 3; content = []; case_id = "" }

part_of : Multipart → Part
part_of (part p) = p
part_of m = file_of ""

file_of_size : (s : String) (p : Part) → part (file_of s) ≡ part p → p.size ≤ℤ pos max_upload_size
unfolding part_of
file_of_size s p e = subst (λ q. q.size ≤ℤ pos max_upload_size) (ap part_of e) (omega arith)

abbrev decoder : Decoder (Unit {0})
decoder = record {
  create_form = λ s. none;
  update_form = λ s. none;
  submit_form = λ s. none;
  multipart = λ s. part (file_of s);
  part_size = file_of_size;
}

abbrev post : Request
post = record { tenant_header = "acme"; user_header = "ann"; page = ""; limit = ""; body = "a.bin" }
