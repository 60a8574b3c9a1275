-- ===== src/Document/Submissions.antt =====
-- Which submissions `SubmitForm` of services/document-service accepts.
use ops_nexus.Prelude.{
  none, some, true, false, [], ◌∷◌, refl, String, List, Bool, Option, Result, ok, err, inl, inr,
  pure, ◌≡◌, ◌≢◌, ◌↔◌, ◌∙◌, sym, ap, Option-cases, bind_ok, bind_of_ok, bind_of_err, pure_bind,
  subst, continue, relabel, if◌then◌else◌, ◌>>=◌, ◌+◌, ◌&&◌,
}
use ops_nexus.Prelude.Text.{ne_of_test, test_of_ne}
use ops_nexus.Storage.{Fault}
use ops_nexus.Storage.World.{Env}
use ops_nexus.Document.Domain.{
  FormTemplate, FormField, FormSubmission, Data, Value, null, text, other, invalid_form_data,
  internal, form_not_found,
}
use ops_nexus.Document.Ports.{Ports, World, SubmitFormRequest, Holds, Found}
use ops_nexus.Document.Repository.{create_submission, find_form, found, stored_submission}
use ops_nexus.Document.Collections.{Inserted-there, ok_injective}
use ops_nexus.Document.Forms.{
  value_at, is_blank, first_missing, new_submission, submit_form, store_submission,
}

-- The data have a value for the name, and it is neither nil nor the empty text.
abbrev pub IsFilled : {O : Type 0} → Data O → String → Type 0
IsFilled {O} entries name =
    (v : Value O) × (value_at entries name ≡ some v) × (v ≢ null) × (v ≢ text "")

abbrev pub AllFilled : {O : Type 0} → List FormField → Data O → Type 0
AllFilled [] entries = Unit
AllFilled (f ∷ fs) entries = (f.required ≡ true → IsFilled entries f.name) × AllFilled fs entries

missing-if :
    (r b : Bool) (name : String) (rest : Option String)
    → (if r && b then some name else rest) ≡ none
    → (r ≡ true → b ≡ false) × (rest ≡ none)
missing-if true true name rest e = cc
missing-if true false name rest e = ((λ h. refl), e)
missing-if false b name rest e = ((λ h. cc), e)

if-missing :
    (r b : Bool) (name : String) (rest : Option String)
    → (r ≡ true → b ≡ false)
    → rest ≡ none
    → (if r && b then some name else rest) ≡ none
if-missing true true name rest h e = absurd (ne_bool (h refl))
  where
    ne_bool : true ≢ false
    ne_bool p = cc
if-missing true false name rest h e = e
if-missing false b name rest h e = e

or_text : {O : Type 0} → Value O → String
or_text null = ""
or_text (text s) = s
or_text (other x) = ""

text_injective : {O : Type 0} {a b : String} → ◌≡◌ {A = Value O} (text a) (text b) → a ≡ b
unfolding or_text
text_injective e = ap or_text e

module _ {O : Type 0} where
  IsFilled-is_blank :
      (entries : Data O) (name : String) (o : Option (Value O))
      → value_at entries name ≡ o
      → is_blank o ≡ false
      → IsFilled entries name
  IsFilled-is_blank entries name none e b = cc
  IsFilled-is_blank entries name (some null) e b = cc
  IsFilled-is_blank entries name (some (text s)) e b =
      (text s, e, (λ h. cc), (λ h. ne_of_test s "" b (text_injective h)))
  IsFilled-is_blank entries name (some (other x)) e b = (other x, e, (λ h. cc), (λ h. cc))

  is_blank-IsFilled :
      (entries : Data O) (name : String)
      → IsFilled entries name
      → is_blank (value_at entries name) ≡ false
  is_blank-IsFilled entries name (null, e, n, t) = absurd (n refl)
  is_blank-IsFilled entries name (text s, e, n, t) = rw e (test_of_ne s "" (λ h. t (ap text h)))
  is_blank-IsFilled entries name (other x, e, n, t) = rw e refl

  AllFilled-first_missing :
      (fs : List FormField) (entries : Data O)
      → first_missing fs entries ≡ none
      → AllFilled fs entries
  unfolding first_missing
  AllFilled-first_missing [] entries e = tt
  AllFilled-first_missing (f ∷ fs) entries e =
      let (h, hs) =
        missing-if f.required (is_blank (value_at entries f.name)) f.name (first_missing fs entries)
          e in
      (
        (λ r. IsFilled-is_blank entries f.name (value_at entries f.name) refl (h r)),
        AllFilled-first_missing fs entries hs,
      )

  first_missing-AllFilled :
      (fs : List FormField) (entries : Data O)
      → AllFilled fs entries
      → first_missing fs entries ≡ none
  unfolding first_missing
  first_missing-AllFilled [] entries h = refl
  first_missing-AllFilled (f ∷ fs) entries (h, hs) =
      if-missing f.required (is_blank (value_at entries f.name)) f.name (first_missing fs entries)
        (λ r. is_blank-IsFilled entries f.name (h r)) (first_missing-AllFilled fs entries hs)

  -- The loop of SubmitForm finds no field exactly if every field that is required has a value that is
  -- neither nil nor the empty text.
  pub first_missing_iff :
      (fs : List FormField) (entries : Data O)
      → (first_missing fs entries ≡ none) ↔ AllFilled fs entries
  first_missing_iff fs entries =
      (AllFilled-first_missing fs entries, first_missing-AllFilled fs entries)

module _ (env : Env) (P : Ports) where
  -- The submissions of a world, by their identifiers.
  abbrev pub submissions_at : World P → String → List (FormSubmission P.Other)
  submissions_at w = P.submissions.entries w.submission_store

  find_form_same : (i : String) (w : World P) → (find_form env P i w).1 ≡ w
  unfolding find_form ◌>>=◌
  find_form_same i w = go (P.forms.find_one i w.form_store)
    where
      go :
          (r : Result Fault (Option FormTemplate))
          → (continue (relabel (λ x. internal) r) (found form_not_found) w).1 ≡ w
      go (ok none) = refl
      go (ok (some g)) = refl
      go (err x) = refl

  pub find_form-Holds :
      (i : String) (w : World P) (f : FormTemplate)
      → (find_form env P i w).0 ≡ ok f
      → Holds f (P.forms.entries w.form_store i)
  unfolding find_form ◌>>=◌
  find_form-Holds i w f e =
      go (P.forms.find_one i w.form_store) (P.forms.find_found i w.form_store) e
    where
      go :
          (r : Result Fault (Option FormTemplate))
          → Found (P.forms.entries w.form_store i) r
          → (continue (relabel (λ x. internal) r) (found form_not_found) w).0 ≡ ok f
          → Holds f (P.forms.entries w.form_store i)
      go (ok none) h q = cc
      go (ok (some g)) h q =
          let same : g ≡ f = ok_injective q in
          subst (λ x. Holds x (P.forms.entries w.form_store i)) same h
      go (err x) h q = cc

  module _ (tenant user : String) (req : SubmitFormRequest P.Other) where
    accepted :
        (w : World P) (f : FormTemplate)
        → (find_form env P req.form_id w).0 ≡ ok f
        → first_missing f.fields req.data_values ≡ none
        → submit_form env P tenant user req w ≡ store_submission env P tenant user req w
    unfolding submit_form
    accepted w f p m =
        bind_of_ok (find_form env P req.form_id) _ w p
        ∙ rw (find_form_same req.form_id w, m) (pure_bind tt _ w)

    refused :
        (w : World P) (f : FormTemplate) (name : String)
        → (find_form env P req.form_id w).0 ≡ ok f
        → first_missing f.fields req.data_values ≡ some name
        → submit_form env P tenant user req w ≡ (err (invalid_form_data name), w)
    unfolding submit_form
    refused w f name p m =
        bind_of_ok (find_form env P req.form_id) _ w p
        ∙ rw (find_form_same req.form_id w, m) (bind_of_err _ _ w refl)

    -- A form that is found and has a field that is required and has no value, or nil, or the empty
    -- text, in the data: SubmitForm answers that the data are invalid and changes nothing.
    pub submit_form_refused :
        (w : World P) (f : FormTemplate)
        → (find_form env P req.form_id w).0 ≡ ok f
        → ¬ AllFilled f.fields req.data_values
        → (name : String) × (submit_form env P tenant user req w
            ≡ (err (invalid_form_data name), w))
    submit_form_refused w f p h = elim (Option-cases (first_missing f.fields req.data_values)) [
      | inl m ↦ absurd (h ((first_missing_iff f.fields req.data_values).0 m))
      | inr (name, m) ↦ (name, refused w f name p m)
    ]

    find_of_submit :
        (w : World P) (s : FormSubmission P.Other)
        → (submit_form env P tenant user req w).0 ≡ ok s
        → (f : FormTemplate) × ((find_form env P req.form_id w).0 ≡ ok f)
    unfolding submit_form
    find_of_submit w s e = let (f, p, q) = bind_ok (find_form env P req.form_id) _ w e in (f, p)

    create_submission_ok :
        (a : FormSubmission P.Other) (w : World P)
        → (create_submission env P a w).0 ≡ ok tt
        → submissions_at (create_submission env P a w).1 a.id
          ≡ stored_submission a ∷ submissions_at w a.id
    unfolding create_submission
    create_submission_ok a w e =
        Inserted-there (submissions_at w) _ a.id (stored_submission a)
          (P.submissions.insert_one (stored_submission a) w.submission_store).0
          (P.submissions.insert_inserted (stored_submission a) w.submission_store) e

    store_submission_ok :
        (w : World P) (s : FormSubmission P.Other)
        → (store_submission env P tenant user req w).0 ≡ ok s
        → (s ≡ new_submission tenant user req (env.clock w.readings) (env.uuid w.identifiers))
          × (submissions_at (store_submission env P tenant user req w).1 s.id
              ≡ stored_submission s ∷ submissions_at w s.id)
    unfolding store_submission create_submission ◌>>=◌
    store_submission_ok w s e =
        let made = new_submission tenant user req (env.clock w.readings) (env.uuid w.identifiers) in
        let w' = record w { readings = w.readings + 1; identifiers = w.identifiers + 1 } in
        let (u, p, q) = bind_ok (create_submission env P made) (λ x. pure made) w' e in
        let same : s ≡ made = ok_injective (sym e ∙ ap (λ r. r.0) q) in
        (same, rw same (rw q (create_submission_ok made w' p)))

    -- A submission that SubmitForm answers is for a form that is stored and every required field of
    -- which has a value that is neither nil nor the empty text; it is built from the request, and it
    -- has been added to the submissions, its times cut to milliseconds.
    pub submit_form_ok :
        (w : World P) (s : FormSubmission P.Other)
        → (submit_form env P tenant user req w).0 ≡ ok s
        → ((f : FormTemplate) × Holds f (P.forms.entries w.form_store req.form_id)
            × AllFilled f.fields req.data_values)
          × (s ≡ new_submission tenant user req (env.clock w.readings) (env.uuid w.identifiers))
          × (submissions_at (submit_form env P tenant user req w).1 s.id
              ≡ stored_submission s ∷ submissions_at w s.id)
    submit_form_ok w s e =
        let (f, p) = find_of_submit w s e in
        elim (Option-cases (first_missing f.fields req.data_values)) [
          | inl m ↦
              let same = accepted w f p m in
              let (a, b) = store_submission_ok w s (rw (sym same) e) in
              (
                (
                  f,
                  find_form-Holds req.form_id w f p,
                  (first_missing_iff f.fields req.data_values).0 m,
                ),
                a,
                rw same b,
              )
          | inr (name, m) ↦ cc (rw (refused w f name p m) at e)
        ]
