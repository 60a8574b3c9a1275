-- ===== src/Document/Templates/Steps.antt =====
-- What the requests to form_service.go of services/document-service keep of one form template, and
-- what a write keeps of it.
use ops_nexus.Prelude.{
  ℕ, ◌+◌, ◌<◌, ◌^◌, none, some, true, false, [], ◌∷◌, refl, arith, eq_iff, String, List, Bool,
  Option, Result, ok, err, inl, inr, ◌≡◌, ◌∙◌, ◌≤◌, subst, Bool-cases, ◌==◌,
}
use ops_nexus.Prelude.Time.{Time}
use ops_nexus.Storage.{Fault}
use ops_nexus.Document.Domain.{FormTemplate, FormField, FormStatus}
use ops_nexus.Document.Ports.{UpdateFormRequest, Inserted, Changed, Entries, milliseconds}
use ops_nexus.Document.Repository.{stored_form, with_status}
use ops_nexus.Document.Collections.{Changed-one}
use ops_nexus.Document.Forms.{edited, with_fields}

-- What the requests keep of a template: its identity and its creation; its version never falls, and
-- its fields change with the version only.
pub record IsLater (f g : FormTemplate) : Type 0 where
  pub same_id : g.id ≡ f.id
  pub same_tenant : g.tenant_id ≡ f.tenant_id
  pub same_creator : g.created_by ≡ f.created_by
  pub same_creation : milliseconds g.created_at ≡ milliseconds f.created_at
  pub later_version : f.version ≤ g.version
  pub same_fields : g.version ≡ f.version → g.fields ≡ f.fields

-- The versions that `n` requests can give, which do not wrap around.
abbrev pub HasRoom : ℕ → FormTemplate → Type 0
HasRoom n f = f.version + n < 2 ^ 63

-- What `n` requests keep.
pub record Step (n : ℕ) (f g : FormTemplate) : Type 0 where
  pub same_id : g.id ≡ f.id
  pub same_tenant : g.tenant_id ≡ f.tenant_id
  pub same_creator : g.created_by ≡ f.created_by
  pub same_creation : milliseconds g.created_at ≡ milliseconds f.created_at
  pub later_version : HasRoom n f → f.version ≤ g.version
  pub bounded_version : HasRoom n f → g.version ≤ f.version + n
  pub same_fields : HasRoom n f → g.version ≡ f.version → g.fields ≡ f.fields

pub Step-IsLater : {n : ℕ} {f g : FormTemplate} → HasRoom n f → Step n f g → IsLater f g
Step-IsLater room s = record {
  same_id = s.same_id;
  same_tenant = s.same_tenant;
  same_creator = s.same_creator;
  same_creation = s.same_creation;
  later_version = s.later_version room;
  same_fields = s.same_fields room;
}

pub Step-refl : (n : ℕ) (f : FormTemplate) → Step n f f
Step-refl n f = record {
  same_id = refl;
  same_tenant = refl;
  same_creator = refl;
  same_creation = refl;
  later_version = λ h. omega arith;
  bounded_version = λ h. omega arith;
  same_fields = λ h e. refl;
}

pub Step-trans : {n m : ℕ} {a b c : FormTemplate} → Step n a b → Step m b c → Step (n + m) a c
Step-trans {n} {m} {a} {b} {c} f g = record {
  same_id = g.same_id ∙ f.same_id;
  same_tenant = g.same_tenant ∙ f.same_tenant;
  same_creator = g.same_creator ∙ f.same_creator;
  same_creation = g.same_creation ∙ f.same_creation;
  later_version = λ h.
      let (r, s) = rooms h in
      let up = f.later_version r in let more = g.later_version s in omega (arith, up, more);
  bounded_version = λ h.
      let (r, s) = rooms h in
      let most = f.bounded_version r in let more = g.bounded_version s in omega (arith, most, more);
  same_fields = λ h e.
      let (r, s) = rooms h in
      let up = f.later_version r in
      let more = g.later_version s in
      g.same_fields s (omega (arith, e, up, more)) ∙ f.same_fields r (omega (arith, e, up, more));
}
  where
    rooms : HasRoom (n + m) a → HasRoom n a × HasRoom m b
    rooms h =
        let r : HasRoom n a = omega (arith, h) in
        let most = f.bounded_version r in (r, omega (arith, h, most))

pub twice : (t : Time) → milliseconds (milliseconds t) ≡ milliseconds t
twice t = omega arith

pub Step-with_status :
    (status : FormStatus) (at : Time) (f : FormTemplate) → Step 1 f (with_status status at f)
Step-with_status status at f = record {
  same_id = refl;
  same_tenant = refl;
  same_creator = refl;
  same_creation = refl;
  later_version = λ h. omega arith;
  bounded_version = λ h. omega arith;
  same_fields = λ h e. refl;
}

pub Step-with_fields : (o : Option (List FormField)) (f : FormTemplate) → Step 1 f (with_fields o f)
Step-with_fields none f = Step-refl 1 f
Step-with_fields (some fields) f = record {
  same_id = refl;
  same_tenant = refl;
  same_creator = refl;
  same_creation = refl;
  later_version = λ h. omega (arith, h);
  bounded_version = λ h. omega (arith, h);
  same_fields = λ h e. absurd (omega (arith, h, e));
}

-- The template that `UpdateTemplate` stores.
pub Step-edited :
    (req : UpdateFormRequest) (at later : Time) (f : FormTemplate)
    → Step 1 f (stored_form (record (edited req at f) { updated_at = later }))
Step-edited req at later f =
    let first = Step-with_fields req.fields f in
    record {
      same_id = first.same_id;
      same_tenant = first.same_tenant;
      same_creator = first.same_creator;
      same_creation = twice (with_fields req.fields f).created_at ∙ first.same_creation;
      later_version = first.later_version;
      bounded_version = first.bounded_version;
      same_fields = first.same_fields;
    }

-- An identifier with one entry still has one, which the entry has become.
abbrev pub OneKept : ℕ → List FormTemplate → List FormTemplate → Type 0
OneKept n before after =
    (f : FormTemplate) → before ≡ f ∷ [] → (g : FormTemplate) × (after ≡ g ∷ []) × Step n f g

pub OneKept-same :
    {before after : List FormTemplate} (n : ℕ) → after ≡ before → OneKept n before after
OneKept-same n e f p = (f, e ∙ p, Step-refl n f)

pub OneKept-trans :
    {n m : ℕ} {a b c : List FormTemplate} → OneKept n a b → OneKept m b c → OneKept (n + m) a c
OneKept-trans h k f p = let (g, q, s) = h f p in let (x, r, t) = k g q in (x, r, Step-trans s t)

pub Inserted-other :
    {R : Type 0} (before after : Entries FormTemplate) (u i : String) (a : FormTemplate)
    (r : Result Fault R)
    → Inserted before after u a r
    → (u == i) ≡ false
    → after i ≡ before i
Inserted-other before after u i a (ok x) h e = h i ∙ rw e refl
Inserted-other before after u i a (err x) (inl same) e = same i
Inserted-other before after u i a (err x) (inr h) e = h i ∙ rw e refl

pub Changed-other :
    (before after : Entries FormTemplate) (u i : String) (f : FormTemplate → Option FormTemplate)
    (r : Result Fault Bool)
    → Changed before after u f r
    → (u == i) ≡ false
    → after i ≡ before i
Changed-other before after u i f (ok true) (others, c) e = others i e
Changed-other before after u i f (ok false) (nothing, same) e = same i
Changed-other before after u i f (err x) (inl same) e = same i
Changed-other before after u i f (err x) (inr (others, c)) e = others i e

-- A change that takes the entry of the identifier, if it is the one, along a step.
pub OneKept-Changed :
    (before after : Entries FormTemplate) (u i : String) (f : FormTemplate → FormTemplate)
    (r : Result Fault Bool)
    → Changed before after u (λ a. some (f a)) r
    → ((x : FormTemplate) → before u ≡ x ∷ [] → Step 1 x (f x))
    → OneKept 1 (before i) (after i)
OneKept-Changed before after u i f r h step = elim (Bool-cases (u == i)) [
  | inl p ↦ λ x e.
      at_key
        (subst (λ j. (before j ≡ x ∷ []) → (g : FormTemplate) × (after j ≡ g ∷ []) × Step 1 x g)
          ((eq_iff u i).0 p) (kept x))
        e
  | inr p ↦ OneKept-same 1 (Changed-other before after u i (λ a. some (f a)) r h p)
]
  where
    at_key : {A B : Type 0} → (A → B) → A → B
    at_key k a = k a

    kept :
        (x : FormTemplate)
        → before u ≡ x ∷ []
        → (g : FormTemplate) × (after u ≡ g ∷ []) × Step 1 x g
    kept x e =
        let (y, q, o) = Changed-one before after u f x r h e in
        elim o [
          | inl same ↦ (y, q, rw same (Step-refl 1 x))
          | inr same ↦ (y, q, rw same (step x e))
        ]
