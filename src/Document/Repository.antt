-- ===== src/Document/Repository.antt =====
-- document_repository.go, form_repository.go and submission_repository.go of
-- services/document-service/internal/adapters/mongodb. EnsureIndexes, which makes no index unique, is
-- left out.
use ops_nexus.Prelude.{
  none, some, true, false, ok, Result, String, ℕ, List, Option, Exec, map_err, pure, fail, ◌>>=◌,
  ◌>>◌, Bool, ◌==◌, ◌+◌,
}
use ops_nexus.Prelude.Time.{Time}
use ops_nexus.Prelude.Int.{ℤ, offset}
use ops_nexus.Storage.{Fault}
use ops_nexus.Storage.World.{Env}
use ops_nexus.Document.Domain.{
  Error, Document, DocumentVersion, FormTemplate, FormSubmission, FormStatus, SubmissionStatus,
  internal, document_not_found, form_not_found, submission_not_found,
}
use ops_nexus.Document.Ports.{Ports, World, milliseconds}

abbrev pub found : {A S : Type 0} → Error → Option A → Exec Error S A
found missing none = fail missing
found missing (some a) = pure a

-- `if result.MatchedCount == 0 { … }` and `if result.DeletedCount == 0 { … }`
abbrev pub matched : {S : Type 0} → Error → Bool → Exec Error S (Unit {0})
matched missing true = pure tt
matched missing false = fail missing

-- A read, which leaves the store as it is.
abbrev pub reading : {A S : Type 0} → (S → Result Fault A) → Exec Fault S A
reading f s = (f s, s)

-- What is stored of a value: its times in milliseconds.
abbrev pub stored_document : Document → Document
stored_document d = record d {
  created_at = milliseconds d.created_at;
  updated_at = milliseconds d.updated_at;
}

abbrev pub stored_version : DocumentVersion → DocumentVersion
stored_version v = record v { created_at = milliseconds v.created_at }

abbrev pub stored_form : FormTemplate → FormTemplate
stored_form f = record f {
  created_at = milliseconds f.created_at;
  updated_at = milliseconds f.updated_at;
}

abbrev pub stored_submission : {O : Type 0} → FormSubmission O → FormSubmission O
stored_submission s = record s {
  created_at = milliseconds s.created_at;
  updated_at = milliseconds s.updated_at;
}

-- The update of `AddVersion`.
abbrev pub with_version : ℕ → Time → Document → Document
with_version version at d = record d {
  current_version = version;
  updated_at = milliseconds at;
  version_count = d.version_count + 1;
}

abbrev pub with_status : FormStatus → Time → FormTemplate → FormTemplate
with_status status at f = record f { status = status; updated_at = milliseconds at }

abbrev pub submission_with_status :
    {O : Type 0} → SubmissionStatus → Time → FormSubmission O → FormSubmission O
submission_with_status status at s = record s { status = status; updated_at = milliseconds at }

module _ (env : Env) (P : Ports) where
  abbrev pub Action : Type 0 → Type 0
  Action A = Exec Error (World P) A

  abbrev pub now : Action Time
  now w = (ok (env.clock w.readings), record w { readings = w.readings + 1 })

  abbrev pub new_id : Action String
  new_id w = (ok (env.uuid w.identifiers), record w { identifiers = w.identifiers + 1 })

  abbrev pub on_documents : {A : Type 0} → Exec Fault P.documents.Store A → Action A
  on_documents m w =
      let (r, s) = map_err (λ e. internal) m w.document_store in
      (r, record w { document_store = s })

  abbrev pub on_versions : {A : Type 0} → Exec Fault P.versions.Store A → Action A
  on_versions m w =
      let (r, s) = map_err (λ e. internal) m w.version_store in (r, record w { version_store = s })

  abbrev pub on_forms : {A : Type 0} → Exec Fault P.forms.Store A → Action A
  on_forms m w =
      let (r, s) = map_err (λ e. internal) m w.form_store in (r, record w { form_store = s })

  abbrev pub on_submissions : {A : Type 0} → Exec Fault P.submissions.Store A → Action A
  on_submissions m w =
      let (r, s) = map_err (λ e. internal) m w.submission_store in
      (r, record w { submission_store = s })

  unfoldable pub create_document : Document → Action (Unit {0})
  create_document d = on_documents (P.documents.insert_one (stored_document d))

  unfoldable pub find_document : String → Action Document
  find_document i = do
    d ← on_documents (reading (P.documents.find_one i))
    found document_not_found d

  unfoldable pub list_documents_of : String → ℤ → ℤ → Action (List Document × ℕ)
  list_documents_of t page limit = do
    total ← on_documents (reading (P.documents.count (λ d. d.tenant_id == t)))
    ds ← on_documents (reading (P.documents.page (λ d. d.tenant_id == t) (offset page limit) limit))
    pure (ds, total)

  unfoldable pub remove_document : String → Action (Unit {0})
  remove_document i = do
    there ← on_documents (P.documents.delete_one i)
    matched document_not_found there

  unfoldable pub add_version : DocumentVersion → Action (Unit {0})
  add_version v = do
    on_versions (P.versions.insert_one (stored_version v))
    at ← now
    on_documents (P.documents.update_one v.document_id (with_version v.version at))
    pure tt

  unfoldable pub list_versions : String → Action (List DocumentVersion)
  list_versions i = on_versions (reading (P.versions_of i))

  unfoldable pub create_form : FormTemplate → Action (Unit {0})
  create_form f = on_forms (P.forms.insert_one (stored_form f))

  unfoldable pub find_form : String → Action FormTemplate
  find_form i = do f ← on_forms (reading (P.forms.find_one i)); found form_not_found f

  unfoldable pub list_forms_of : String → ℤ → ℤ → Action (List FormTemplate × ℕ)
  list_forms_of t page limit = do
    total ← on_forms (reading (P.forms.count (λ f. f.tenant_id == t)))
    fs ← on_forms (reading (P.forms.page (λ f. f.tenant_id == t) (offset page limit) limit))
    pure (fs, total)

  -- It does not ask whether a form was replaced. It also sets the time of the form it is given, which
  -- is the answer of the service.
  unfoldable pub update_form : FormTemplate → Action FormTemplate
  update_form f = do
    at ← now
    let changed : FormTemplate = record f { updated_at = at }
    on_forms (P.forms.update_one f.id (λ old. stored_form changed))
    pure changed

  unfoldable pub update_form_status : String → FormStatus → Action (Unit {0})
  update_form_status i status = do
    at ← now
    there ← on_forms (P.forms.update_one i (with_status status at))
    matched form_not_found there

  unfoldable pub create_submission : FormSubmission P.Other → Action (Unit {0})
  create_submission s = on_submissions (P.submissions.insert_one (stored_submission s))

  unfoldable pub find_submission : String → Action (FormSubmission P.Other)
  find_submission i = do
    s ← on_submissions (reading (P.submissions.find_one i))
    found submission_not_found s

  unfoldable pub list_submissions_of : String → ℤ → ℤ → Action (List (FormSubmission P.Other) × ℕ)
  list_submissions_of t page limit = do
    total ← on_submissions (reading (P.submissions.count (λ s. s.tenant_id == t)))
    ss ←
        on_submissions
          (reading (P.submissions.page (λ s. s.tenant_id == t) (offset page limit) limit))
    pure (ss, total)

  unfoldable pub list_submissions_by_form :
      String → ℤ → ℤ → Action (List (FormSubmission P.Other) × ℕ)
  list_submissions_by_form f page limit = do
    total ← on_submissions (reading (P.submissions.count (λ s. s.form_id == f)))
    ss ←
        on_submissions
          (reading (P.submissions.page (λ s. s.form_id == f) (offset page limit) limit))
    pure (ss, total)

  unfoldable pub update_submission_status : String → SubmissionStatus → Action (Unit {0})
  update_submission_status i status = do
    at ← now
    there ← on_submissions (P.submissions.update_one i (submission_with_status status at))
    matched submission_not_found there
