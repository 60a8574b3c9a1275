-- ===== src/Document/Domain.antt =====
-- services/document-service/internal/domain. A slice that is nil is an empty list where the code
-- does not ask for nil; a float64 is its bits.
use ops_nexus.Prelude.{String, Bool, Option, List, ℕ}
use ops_nexus.Prelude.Int.{ℤ}
use ops_nexus.Prelude.Time.{Time}

-- `invalid_form_data` wraps the name of the field; `internal` is any error that is not of the domain.
pub data Error : Type 0 where
  form_not_found submission_not_found document_not_found : Error
  invalid_form_data : String → Error
  file_too_large unsupported_file_type internal : Error

pub record Document : Type 0 where
  pub id : String
  pub tenant_id : String
  pub filename : String
  pub original_name : String
  pub mime_type : String
  pub size_bytes : ℤ
  pub storage_key : String
  pub uploaded_by : String
  pub case_id : Option String
  pub version_count : ℕ
  pub current_version : ℕ
  pub created_at : Time
  pub updated_at : Time

pub record DocumentVersion : Type 0 where
  pub id : String
  pub document_id : String
  pub version : ℕ
  pub storage_key : String
  pub uploaded_by : String
  pub created_at : Time

abbrev pub FormStatus : Type 0
FormStatus = String

abbrev pub form_status_draft : FormStatus
form_status_draft = "draft"

abbrev pub form_status_published : FormStatus
form_status_published = "published"

abbrev pub form_status_archived : FormStatus
form_status_archived = "archived"

abbrev pub FieldType : Type 0
FieldType = String

pub record FieldValidation : Type 0 where
  pub min_length : Option ℤ
  pub max_length : Option ℤ
  pub min : Option ℕ
  pub max : Option ℕ
  pub pattern_text : String

pub record FormField : Type 0 where
  pub name : String
  pub field_type : FieldType
  pub label : String
  pub required : Bool
  pub placeholder : String
  pub options : List String
  pub validation : FieldValidation

-- `version` is an int, by its 64 bits.
pub record FormTemplate : Type 0 where
  pub id : String
  pub tenant_id : String
  pub name : String
  pub description : String
  pub version : ℕ
  pub fields : List FormField
  pub status : FormStatus
  pub created_by : String
  pub created_at : Time
  pub updated_at : Time

-- A value of `map[string]any`: nil, a text, or another value.
pub data Value (Other : Type 0) : Type 0 where
  null : Value Other
  text : String → Value Other
  other : Other → Value Other

-- A map by its entries, of which the first for a key counts.
abbrev pub Data : Type 0 → Type 0
Data Other = List (String × Value Other)

abbrev pub SubmissionStatus : Type 0
SubmissionStatus = String

abbrev pub submission_status_submitted : SubmissionStatus
submission_status_submitted = "submitted"

pub record FormSubmission (Other : Type 0) : Type 0 where
  pub id : String
  pub form_id : String
  pub tenant_id : String
  pub submitted_by : String
  pub data_values : Data Other
  pub status : SubmissionStatus
  pub created_at : Time
  pub updated_at : Time
