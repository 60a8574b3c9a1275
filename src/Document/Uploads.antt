-- ===== src/Document/Uploads.antt =====
-- What `UploadDocument` and `DeleteDocument` of services/document-service do.
use ops_nexus.Prelude.{some, true, false, [], ◌∷◌, String, List, ◌≡◌, ◌⊎◌, ◌+◌}
use ops_nexus.Prelude.Int.{pos, ltb_ℤ}
use ops_nexus.Storage.World.{Env}
use ops_nexus.Document.Domain.{Error, Document, file_too_large, unsupported_file_type}
use ops_nexus.Document.Ports.{Ports, World, UploadRequest}
use ops_nexus.Document.Repository.{stored_document, with_version}
use ops_nexus.Document.Documents.{
  new_document, full_path, is_listed, allowed_mime_types, max_file_size_bytes,
}

-- A text that is one of a list.
abbrev pub IsOneOf : String → List String → Type 0
IsOneOf s [] = ⊥
IsOneOf s (x ∷ xs) = (x ≡ s) ⊎ IsOneOf s xs

-- The error that the size, and behind it the type, of a request call for.
abbrev pub IsRefused : UploadRequest → Error → Type 0
IsRefused req e =
    ((e ≡ file_too_large) × (ltb_ℤ (pos max_file_size_bytes) req.size_bytes ≡ true))
    ⊎ ((e ≡ unsupported_file_type)
        × (ltb_ℤ (pos max_file_size_bytes) req.size_bytes ≡ false)
        × (is_listed allowed_mime_types req.mime_type ≡ false))

module _ (env : Env) (P : Ports) where
  abbrev pub documents_at : World P → String → List Document
  documents_at w = P.documents.entries w.document_store

  -- The state after an upload that answered `d`.
  pub record IsUploaded (tenant user : String) (req : UploadRequest) (w : World P) (d : Document)
      (w' : World P) : Type 0 where
    pub built : d ≡ new_document tenant user req (env.uuid w.identifiers) (env.clock w.readings)
    pub written :
        P.file_system.files w'.file_store (full_path env P d.storage_key) ≡ some req.content
    pub stored :
        documents_at w d.id ≡ []
        → (y : Document) × (documents_at w' d.id ≡ y ∷ [])
          × ((y ≡ stored_document d)
              ⊎ (y ≡ with_version 1 (env.clock (w.readings + 1)) (stored_document d)))
