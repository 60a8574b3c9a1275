-- ===== src/Document/Documents.antt =====
-- services/document-service/internal/application/document_service.go. Logging is left out.
use Prim.Native.String.{◌++◌}
use ops_nexus.Prelude.{
  true, false, [], ◌∷◌, String, ℕ, List, Bool, Result, ok, err, pure, fail, refuse_if, attempt, not,
  map_err, Exec, if◌then◌else◌, ◌>>=◌, ◌>>◌, ◌==◌, ◌*◌,
}
use ops_nexus.Prelude.Int.{ℤ, pos, ltb_ℤ}
use ops_nexus.Prelude.Time.{Time}
use ops_nexus.Storage.{Fault}
use ops_nexus.Storage.World.{Env}
use ops_nexus.Document.Domain.{
  Error, Document, DocumentVersion, internal, file_too_large, unsupported_file_type,
}
use ops_nexus.Document.Ports.{Ports, UploadRequest}
use ops_nexus.Document.Repository.{
  Action, now, new_id, create_document, add_version, find_document, remove_document,
  list_documents_of, list_versions,
}

-- `maxFileSizeBytes`, 50 megabytes
abbrev pub max_file_size_bytes : ℕ
max_file_size_bytes = 50 * 1024 * 1024

abbrev pub allowed_mime_types : List String
allowed_mime_types =
    "application/pdf" ∷ "application/msword"
    ∷ "application/vnd.openxmlformats-officedocument.wordprocessingml.document"
    ∷ "application/vnd.ms-excel"
    ∷ "application/vnd.openxmlformats-officedocument.spreadsheetml.sheet" ∷ "image/jpeg"
    ∷ "image/png" ∷ "image/gif" ∷ "text/plain" ∷ "text/csv" ∷ []

-- `allowedMimeTypes[…]`
unfoldable pub is_listed : List String → String → Bool
is_listed [] s = false
is_listed (x ∷ xs) s = let rest = is_listed xs s in if x == s then true else rest

-- `tenantID/docID/filename`
abbrev pub storage_key_of : String → String → String → String
storage_key_of tenant id filename = tenant ++ ("/" ++ (id ++ ("/" ++ filename)))

-- The document and the version that `UploadDocument` makes.
abbrev pub new_document : String → String → UploadRequest → String → Time → Document
new_document tenant user req id at = record {
  id = id;
  tenant_id = tenant;
  filename = req.filename;
  original_name = req.filename;
  mime_type = req.mime_type;
  size_bytes = req.size_bytes;
  storage_key = storage_key_of tenant id req.filename;
  uploaded_by = user;
  case_id = req.case_id;
  version_count = 1;
  current_version = 1;
  created_at = at;
  updated_at = at;
}

abbrev pub first_version : Document → String → DocumentVersion
first_version d id = record {
  id = id;
  document_id = d.id;
  version = 1;
  storage_key = d.storage_key;
  uploaded_by = d.uploaded_by;
  created_at = d.created_at;
}

module _ (env : Env) (P : Ports) where
  abbrev pub on_files : {A : Type 0} → Exec Fault P.file_system.Store A → Action env P A
  on_files m w =
      let (r, s) = map_err (λ e. internal) m w.file_store in (r, record w { file_store = s })

  -- `filepath.Join(s.uploadDir, storageKey)`
  abbrev pub full_path : String → String
  full_path key = P.join P.upload_dir key

  -- `if err := s.docRepo.Create(…); err != nil { _ = os.Remove(fullPath); return nil, err }`
  abbrev pub or_remove : String → Result Error (Unit {0}) → Action env P (Unit {0})
  or_remove path (ok u) = pure tt
  or_remove path (err e) = attempt (on_files (P.file_system.remove path)) >>= λ r. fail e

  -- `UploadDocument` from the record of the document on.
  unfoldable pub store_upload : String → Document → Action env P Document
  store_upload path d = do
    created ← attempt (create_document env P d)
    or_remove path created
    version ← new_id env P
    attempt (add_version env P (first_version d version))
    pure d

  -- `UploadDocument` from the identifier on.
  unfoldable pub write_upload : String → String → UploadRequest → Action env P Document
  write_upload tenant user req = do
    id ← new_id env P
    let path = full_path (storage_key_of tenant id req.filename)
    on_files (P.file_system.make_all (P.dir path))
    on_files (P.file_system.write path req.content)
    at ← now env P
    store_upload path (new_document tenant user req id at)

  unfoldable pub upload_document : String → String → UploadRequest → Action env P Document
  upload_document tenant user req = do
    refuse_if (ltb_ℤ (pos max_file_size_bytes) req.size_bytes) file_too_large
    refuse_if (not (is_listed allowed_mime_types req.mime_type)) unsupported_file_type
    write_upload tenant user req

  abbrev pub get_document : String → Action env P Document
  get_document id = find_document env P id

  unfoldable pub delete_document : String → Action env P (Unit {0})
  delete_document id = do
    d ← find_document env P id
    attempt (on_files (P.file_system.remove (full_path d.storage_key)))
    remove_document env P id

  abbrev pub list_documents : String → ℤ → ℤ → Action env P (List Document × ℕ)
  list_documents tenant page limit = list_documents_of env P tenant page limit

  abbrev pub get_versions : String → Action env P (List DocumentVersion)
  get_versions id = list_versions env P id
