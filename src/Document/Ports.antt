-- ===== src/Document/Ports.antt =====
-- services/document-service/internal/ports: the requests; and a MongoDB collection and a file system,
-- which are not part of the repository, by what their documentation promises.
use ops_nexus.Prelude.{
  none, some, true, false, ok, err, [], ◌∷◌, String, Bool, Option, List, ℕ, Exec, Result, ◌≡◌, ◌==◌,
  ◌-◌, ◌%◌, if◌then◌else◌, ◌⊎◌,
}
use ops_nexus.Prelude.Int.{ℤ}
use ops_nexus.Prelude.Time.{Time}
use ops_nexus.Storage.{Fault}
use ops_nexus.Document.Domain.{
  Document, DocumentVersion, FormTemplate, FormSubmission, FormField, Data,
}

abbrev pub Bytes : Type 0
Bytes = List ℕ

pub record CreateFormRequest : Type 0 where
  pub name : String
  pub description : String
  pub fields : List FormField

-- `fields` is none where the slice is nil.
pub record UpdateFormRequest : Type 0 where
  pub name : Option String
  pub description : Option String
  pub fields : Option (List FormField)

pub record SubmitFormRequest (Other : Type 0) : Type 0 where
  pub form_id : String
  pub data_values : Data Other

pub record UploadRequest : Type 0 where
  pub filename : String
  pub mime_type : String
  pub size_bytes : ℤ
  pub content : Bytes
  pub case_id : Option String

-- The entries of a collection whose field `id` is a text; there is no unique index.
abbrev pub Entries : Type 0 → Type 0
Entries A = String → List A

abbrev pub SameEntries : {A : Type 0} → Entries A → Entries A → Type 0
SameEntries before after = (j : String) → after j ≡ before j

-- The lists of the other identifiers are as they were.
abbrev pub OnlyAt : {A : Type 0} → Entries A → Entries A → String → Type 0
OnlyAt before after i = (j : String) → (i == j) ≡ false → after j ≡ before j

abbrev pub Holds : {A : Type 0} → A → List A → Type 0
Holds a [] = ⊥
Holds a (x ∷ xs) = (x ≡ a) ⊎ Holds a xs

-- One of a list is replaced, or removed where `f` gives none.
abbrev pub OneChanged : {A : Type 0} → (A → Option A) → List A → List A → Type 0
OneChanged f [] ys = ⊥
OneChanged {A} f (x ∷ xs) ys =
    (ys ≡ (elim (f x) as (λ o. List A) [ none ↦ xs | some y ↦ y ∷ xs ]))
    ⊎ ((zs : List A) × (ys ≡ x ∷ zs) × OneChanged f xs zs)

abbrev pub Inserted : {A R : Type 0} → Entries A → Entries A → String → A → Result Fault R → Type 0
Inserted before after i a (ok u) =
    (j : String) → after j ≡ (if i == j then a ∷ before j else before j)
Inserted before after i a (err e) =
    SameEntries before after
    ⊎ ((j : String) → after j ≡ (if i == j then a ∷ before j else before j))

-- The result is whether an entry was there.
abbrev pub Changed :
    {A : Type 0} → Entries A → Entries A → String → (A → Option A) → Result Fault Bool → Type 0
Changed before after i f (ok false) = (before i ≡ []) × SameEntries before after
Changed before after i f (ok true) = OnlyAt before after i × OneChanged f (before i) (after i)
Changed before after i f (err e) =
    SameEntries before after ⊎ (OnlyAt before after i × OneChanged f (before i) (after i))

abbrev pub Found : {A : Type 0} → List A → Result Fault (Option A) → Type 0
Found xs (ok none) = xs ≡ []
Found xs (ok (some a)) = Holds a xs
Found xs (err e) = Unit

-- `page` skips, and then takes as many as the limit, of the entries that the test passes, the newest
-- first; how it sorts is not used.
pub record Collection (A : Type 0) (id_of : A → String) : Type 1 where
  pub Store : Type 0
  pub entries : Store → Entries A
  pub insert_one : A → Exec Fault Store (Unit {0})
  pub find_one : String → Store → Result Fault (Option A)
  pub update_one : String → (A → A) → Exec Fault Store Bool
  pub delete_one : String → Exec Fault Store Bool
  pub count : (A → Bool) → Store → Result Fault ℕ
  pub page : (A → Bool) → ℤ → ℤ → Store → Result Fault (List A)
  pub insert_inserted :
      (a : A) (s : Store)
      → Inserted (entries s) (entries (insert_one a s).1) (id_of a) a (insert_one a s).0
  pub find_found : (i : String) (s : Store) → Found (entries s i) (find_one i s)
  pub entries_id : (i : String) (s : Store) (a : A) → Holds a (entries s i) → id_of a ≡ i
  pub update_changed :
      (i : String) (f : A → A) (s : Store)
      → ((a : A) → id_of a ≡ i → id_of (f a) ≡ i)
      → Changed (entries s) (entries (update_one i f s).1) i (λ a. some (f a)) (update_one i f s).0
  pub delete_changed :
      (i : String) (s : Store)
      → Changed (entries s) (entries (delete_one i s).1) i (λ a. none) (delete_one i s).0

-- `os.MkdirAll`, `os.WriteFile` and `os.Remove`. A call may do what it is for and fail, and a write
-- that fails may leave anything in its file.
pub record FileSystem : Type 1 where
  pub Store : Type 0
  pub files : Store → String → Option Bytes
  pub make_all : String → Exec Fault Store (Unit {0})
  pub write : String → Bytes → Exec Fault Store (Unit {0})
  pub remove : String → Exec Fault Store (Unit {0})
  pub make_same : (p : String) (s : Store) (q : String) → files (make_all p s).1 q ≡ files s q
  pub write_only :
      (p : String) (b : Bytes) (s : Store) (q : String)
      → (p == q) ≡ false
      → files (write p b s).1 q ≡ files s q
  pub write_ok :
      (p : String) (b : Bytes) (s : Store)
      → (write p b s).0 ≡ ok tt
      → files (write p b s).1 p ≡ some b
  pub remove_only :
      (p : String) (s : Store) (q : String) → (p == q) ≡ false → files (remove p s).1 q ≡ files s q
  pub remove_ok : (p : String) (s : Store) → (remove p s).0 ≡ ok tt → files (remove p s).1 p ≡ none

-- BSON keeps a time in milliseconds.
abbrev pub milliseconds : Time → Time
milliseconds t = t - t % 1000000

-- What `NewDocumentService` and `NewFormService` are given. `join` and `dir` are of path/filepath.
pub record Ports : Type 1 where
  pub Other : Type 0
  pub documents : Collection Document (λ d. d.id)
  pub versions : Collection DocumentVersion (λ v. v.id)
  pub forms : Collection FormTemplate (λ f. f.id)
  pub submissions : Collection (FormSubmission Other) (λ s. s.id)
  pub file_system : FileSystem
  pub join : String → String → String
  pub dir : String → String
  pub upload_dir : String
  -- the versions of a document, in the order of their numbers
  pub versions_of : String → versions.Store → Result Fault (List DocumentVersion)

pub record World (P : Ports) : Type 0 where
  pub document_store : P.documents.Store
  pub version_store : P.versions.Store
  pub form_store : P.forms.Store
  pub submission_store : P.submissions.Store
  pub file_store : P.file_system.Store
  pub readings : ℕ
  pub identifiers : ℕ
