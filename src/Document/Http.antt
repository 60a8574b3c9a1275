-- ===== src/Document/Http.antt =====
-- services/document-service/internal/adapters/http: handler.go, and CORSMiddleware and NewRouter. How
-- chi finds the route of a method and a path is not part of the repository: a request comes with its
-- route. Of an error the model keeps the status. `encoding/json` and `mime/multipart` decode the body
-- of a request: a parameter for each struct. Logging, `Recoverer` and the identifiers that chi gives to
-- requests are left out.
pub mod Uploading
use ops_nexus.Prelude.{
  none, some, ok, err, String, ◌*◌, ◌≡◌, ℕ, List, Option, Result, Bool, if◌then◌else◌, ◌==◌, ◌||◌,
}
use ops_nexus.Prelude.Int.{ℤ, pos, ltb_ℤ, ◌≤ℤ◌}
use ops_nexus.Prelude.Scan.{atoi}
use ops_nexus.Storage.World.{Env}
use ops_nexus.Document.Domain.{
  Error, form_not_found, submission_not_found, document_not_found, invalid_form_data,
  file_too_large, unsupported_file_type, internal, Document, DocumentVersion, FormTemplate,
  FormSubmission,
}
use ops_nexus.Document.Ports.{
  Ports, World, Bytes, CreateFormRequest, UpdateFormRequest, SubmitFormRequest, UploadRequest,
}
use ops_nexus.Document.Repository.{Action}
use ops_nexus.Document.Documents
use ops_nexus.Document.Forms

-- What a reply encodes.
pub data Content (Other : Type 0) : Type 0 where
  failure nothing health : Content Other
  state : String → Content Other
  form : FormTemplate → Content Other
  form_list : List FormTemplate → ℕ → ℤ → ℤ → Content Other
  submission : FormSubmission Other → Content Other
  submissions : List (FormSubmission Other) → ℕ → ℤ → ℤ → Content Other
  document : Document → Content Other
  documents : List Document → ℕ → ℤ → ℤ → Content Other
  document_versions : List DocumentVersion → Content Other

pub record Reply (Other : Type 0) : Type 0 where
  pub status : ℕ
  pub content : Content Other

abbrev pub done : {O : Type 0} → ℕ → Content O → Reply O
done status content = record { status = status; content = content }

-- What is read of a multipart form: its file with the header of the part, and its case.
pub record Part : Type 0 where
  pub filename : String
  pub content_type : String
  pub size : ℤ
  pub content : Bytes
  pub case_id : String

-- `ParseMultipartForm` behind `MaxBytesReader`, `FormFile` and `ReadAll`, each of which may fail.
pub data Multipart : Type 0 where
  bad_form no_file unread : Multipart
  part : Part → Multipart

-- `maxUploadSize`, for the whole body
abbrev pub max_upload_size : ℕ
max_upload_size = 50 * 1024 * 1024

-- The bodies. `MaxBytesReader` gives at most `maxUploadSize` bytes of a body, and a file is some of
-- them.
pub record Decoder (Other : Type 0) : Type 0 where
  pub create_form : String → Option CreateFormRequest
  pub update_form : String → Option UpdateFormRequest
  pub submit_form : String → Option (SubmitFormRequest Other)
  pub multipart : String → Multipart
  pub part_size :
      (body : String) (p : Part) → multipart body ≡ part p → p.size ≤ℤ pos max_upload_size

-- What is read of a request; a header or a parameter that is missing is empty.
pub record Request : Type 0 where
  pub tenant_header : String
  pub user_header : String
  pub page : String
  pub limit : String
  pub body : String

-- The routes of `NewRouter`; an argument is the parameter of the path.
pub data Route : Type 0 where
  get_health get_forms post_form get_submissions post_submission get_documents post_upload : Route
  get_form put_form post_publish post_archive get_one_submission : String → Route
  get_one_document remove_one get_document_versions : String → Route

abbrev pub or_text : String → String → String
or_text s default = if s == "" then default else s

-- `getTenantID`, `getUserID` and `getPagination`
abbrev pub tenant_of : Request → String
tenant_of r = or_text r.tenant_header "default"

abbrev pub user_of : Request → String
user_of r = or_text r.user_header "anonymous"

abbrev pub page_of : Request → ℤ
page_of r = let n = atoi r.page in if ltb_ℤ n (pos 1) then pos 1 else n

abbrev pub limit_of : Request → ℤ
limit_of r = let n = atoi r.limit in if ltb_ℤ n (pos 1) || ltb_ℤ (pos 100) n then pos 20 else n

abbrev pub case_of : String → Option String
case_of id = if id == "" then none else some id

-- The request of `UploadDocument`.
abbrev pub upload_of : Part → UploadRequest
upload_of p = record {
  filename = p.filename;
  mime_type = or_text p.content_type "application/octet-stream";
  size_bytes = p.size;
  content = p.content;
  case_id = case_of p.case_id;
}

-- The errors that each handler tells apart; every other one is answered 500.
abbrev pub form_status : Error → ℕ
form_status form_not_found = 404
form_status e = 500

abbrev pub submit_status : Error → ℕ
submit_status form_not_found = 404
submit_status (invalid_form_data name) = 400
submit_status e = 500

abbrev pub submission_status : Error → ℕ
submission_status submission_not_found = 404
submission_status e = 500

abbrev pub document_status : Error → ℕ
document_status document_not_found = 404
document_status e = 500

abbrev pub upload_status : Error → ℕ
upload_status file_too_large = 413
upload_status unsupported_file_type = 415
upload_status e = 500

abbrev pub any_status : Error → ℕ
any_status e = 500

abbrev pub reply_to : {A O : Type 0} → (Error → ℕ) → (A → Reply O) → Result Error A → Reply O
reply_to status f (ok a) = f a
reply_to status f (err e) = done (status e) failure

module _ (env : Env) (P : Ports) (json : Decoder P.Other) where
  abbrev pub Handler : Type 0
  Handler = World P → Reply P.Other × World P

  abbrev pub answer : Reply P.Other → Handler
  answer r w = (r, w)

  -- A call of a service, and the reply to its result.
  abbrev pub call : {A : Type 0} → Action env P A → (Error → ℕ) → (A → Reply P.Other) → Handler
  call m status f w = let (r, w') = m w in (reply_to status f r, w')

  -- `if err := json.NewDecoder(r.Body).Decode(&req); err != nil { … }`
  abbrev pub decoded : {A : Type 0} → Option A → (A → Handler) → Handler
  decoded none f = answer (done 400 failure)
  decoded (some a) f = f a

  pub create_form_template : Request → Handler
  create_form_template r = decoded (json.create_form r.body) λ req.
      call (Forms.create_template env P (tenant_of r) (user_of r) req) any_status
        (λ f. done 201 (form f))

  pub get_form_template : String → Handler
  get_form_template id = call (Forms.get_template env P id) form_status (λ f. done 200 (form f))

  pub update_form_template : String → Request → Handler
  update_form_template id r =
      decoded (json.update_form r.body)
        λ req. call (Forms.update_template env P id req) form_status (λ f. done 200 (form f))

  pub publish_form_template : String → Handler
  publish_form_template id =
      call (Forms.publish_template env P id) form_status (λ u. done 200 (state "published"))

  pub archive_form_template : String → Handler
  archive_form_template id =
      call (Forms.archive_template env P id) form_status (λ u. done 200 (state "archived"))

  pub list_form_templates : Request → Handler
  list_form_templates r =
      call (Forms.list_templates env P (tenant_of r) (page_of r) (limit_of r)) any_status
        (λ res. done 200 (form_list res.0 res.1 (page_of r) (limit_of r)))

  pub submit_form : Request → Handler
  submit_form r = decoded (json.submit_form r.body) λ req.
      call (Forms.submit_form env P (tenant_of r) (user_of r) req) submit_status
        (λ s. done 201 (submission s))

  pub get_submission : String → Handler
  get_submission id =
      call (Forms.get_submission env P id) submission_status (λ s. done 200 (submission s))

  pub list_submissions : Request → Handler
  list_submissions r =
      call (Forms.list_submissions env P (tenant_of r) (page_of r) (limit_of r)) any_status
        (λ res. done 200 (submissions res.0 res.1 (page_of r) (limit_of r)))

  abbrev pub uploaded : Request → Multipart → Handler
  uploaded r bad_form = answer (done 400 failure)
  uploaded r no_file = answer (done 400 failure)
  uploaded r unread = answer (done 500 failure)
  uploaded r (part p) =
      call (Documents.upload_document env P (tenant_of r) (user_of r) (upload_of p)) upload_status
        (λ d. done 201 (document d))

  unfoldable pub upload_document : Request → Handler
  upload_document r = uploaded r (json.multipart r.body)

  pub get_document : String → Handler
  get_document id =
      call (Documents.get_document env P id) document_status (λ d. done 200 (document d))

  pub delete_document : String → Handler
  delete_document id =
      call (Documents.delete_document env P id) document_status (λ u. done 200 (state "deleted"))

  pub list_documents : Request → Handler
  list_documents r =
      call (Documents.list_documents env P (tenant_of r) (page_of r) (limit_of r)) any_status
        (λ res. done 200 (documents res.0 res.1 (page_of r) (limit_of r)))

  pub get_versions : String → Handler
  get_versions id =
      call (Documents.get_versions env P id) any_status (λ vs. done 200 (document_versions vs))

  unfoldable pub dispatch : Route → Request → Handler
  dispatch get_health r = answer (done 200 health)
  dispatch get_forms r = list_form_templates r
  dispatch post_form r = create_form_template r
  dispatch (get_form id) r = get_form_template id
  dispatch (put_form id) r = update_form_template id r
  dispatch (post_publish id) r = publish_form_template id
  dispatch (post_archive id) r = archive_form_template id
  dispatch get_submissions r = list_submissions r
  dispatch post_submission r = submit_form r
  dispatch (get_one_submission id) r = get_submission id
  dispatch get_documents r = list_documents r
  dispatch post_upload r = upload_document r
  dispatch (get_one_document id) r = get_document id
  dispatch (remove_one id) r = delete_document id
  dispatch (get_document_versions id) r = get_versions id

  -- `CORSMiddleware`, and the route.
  unfoldable pub serve : Bool → Route → Request → Handler
  serve is_options route r = if is_options then answer (done 204 nothing) else dispatch route r
