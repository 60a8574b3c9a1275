-- ===== src/Document/Templates.antt =====
-- What services/document-service/internal/application/form_service.go keeps of a form template over
-- any sequence of requests.
pub mod Steps
pub mod Reading
use native.Mathlib.Nat.{le_trans}
use ops_nexus.Prelude.{
  none, some, true, false, [], ◌∷◌, refl, arith, eq_iff, String, ℕ, List, Bool, Option, Result, ok,
  err, inl, inr, ◌≡◌, ◌≢◌, ◌∙◌, ◌≤◌, sym, ap, subst, Option-cases, Result-cases, Bool-cases,
  continue, pure, Exec, ◌>>=◌, ◌==◌, ◌+◌,
}
use ops_nexus.Prelude.Int.{ℤ}
use ops_nexus.Prelude.Time.{Time}
use ops_nexus.Storage.{Fault}
use ops_nexus.Prelude.Text.{test_of_ne}
use ops_nexus.Storage.World.{Env}
use ops_nexus.Document.Domain.{
  Error, form_not_found, form_status_published, form_status_archived, FormTemplate, FormField,
  FormStatus,
}
use ops_nexus.Document.Ports.{
  Ports, World, CreateFormRequest, UpdateFormRequest, SubmitFormRequest, Holds, Found, Inserted,
  Changed, Entries, milliseconds,
}
use ops_nexus.Document.Repository.{
  stored_form, with_status, find_form, update_form, update_form_status, create_form, Action,
  on_forms, matched, find_submission, create_submission, reading, list_submissions_of, found,
  new_id, now, list_forms_of, on_submissions,
}
use ops_nexus.Document.Collections.{Changed-one}
use ops_nexus.Document.Forms.{
  edited, new_form, with_fields, store_submission, first_missing, refuse_missing,
}
use ops_nexus.Document.Forms
use ops_nexus.Document.Templates.Steps.{
  Step, IsLater, HasRoom, Step-IsLater, OneKept, OneKept-same, OneKept-trans, OneKept-Changed,
  Inserted-other, Step-with_status, Step-with_fields, Step-edited,
}
use ops_nexus.Document.Templates.Reading.{
  Steady, Steady-find, Steady-submit, Steady-list, Steady-submission, Steady-submission_list,
}

abbrev pub length : {A : Type 0} → List A → ℕ
length [] = 0
length (x ∷ xs) = 1 + length xs

-- The requests to the form service.
pub data Op (Other : Type 0) : Type 0 where
  create_template : String → String → CreateFormRequest → Op Other
  get_template : String → Op Other
  update_template : String → UpdateFormRequest → Op Other
  publish_template : String → Op Other
  archive_template : String → Op Other
  list_templates : String → ℤ → ℤ → Op Other
  submit_form : String → String → SubmitFormRequest Other → Op Other
  get_submission : String → Op Other
  list_submissions : String → ℤ → ℤ → Op Other

module _ (env : Env) (P : Ports) where
  -- The state after a request, whatever its answer.
  unfoldable pub execute : Op P.Other → World P → World P
  execute (create_template tenant creator req) w =
      (Forms.create_template env P tenant creator req w).1
  execute (get_template id) w = (Forms.get_template env P id w).1
  execute (update_template id req) w = (Forms.update_template env P id req w).1
  execute (publish_template id) w = (Forms.publish_template env P id w).1
  execute (archive_template id) w = (Forms.archive_template env P id w).1
  execute (list_templates tenant page limit) w = (Forms.list_templates env P tenant page limit w).1
  execute (submit_form tenant user req) w = (Forms.submit_form env P tenant user req w).1
  execute (get_submission id) w = (Forms.get_submission env P id w).1
  execute (list_submissions tenant page limit) w =
      (Forms.list_submissions env P tenant page limit w).1

  unfoldable pub run : List (Op P.Other) → World P → World P
  run [] w = w
  run (op ∷ ops) w = run ops (execute op w)

  abbrev pub forms_at : World P → String → List FormTemplate
  forms_at w = P.forms.entries w.form_store

  module _ (i : String) where
    -- No later reading of the generator gives the identifier.
    abbrev pub IsFresh : World P → Type 0
    IsFresh w = (k : ℕ) → w.identifiers ≤ k → env.uuid k ≢ i

    record Keeps (n : ℕ) (w w' : World P) : Type 0 where
      one : OneKept n (forms_at w i) (forms_at w' i)
      later : w.identifiers ≤ w'.identifiers

    Keeps-refl : (n : ℕ) (w : World P) → Keeps n w w
    Keeps-refl n w = record { one = OneKept-same n refl; later = omega arith }

    Keeps-trans : {n m : ℕ} {a b c : World P} → Keeps n a b → Keeps m b c → Keeps (n + m) a c
    Keeps-trans f g = record { one = OneKept-trans f.one g.one; later = le_trans f.later g.later }

    -- A request that leaves the templates alone.
    Keeps-still :
        (w w' : World P)
        → w'.form_store ≡ w.form_store
        → w.identifiers ≤ w'.identifiers
        → Keeps 1 w w'
    Keeps-still w w' e le = record {
      one = OneKept-same 1 (ap (λ s. P.forms.entries s i) e);
      later = le;
    }

    Keeps-find : (id : String) (w : World P) → Keeps 1 w (find_form env P id w).1
    unfolding find_form ◌>>=◌
    Keeps-find id w = elim (Result-cases (P.forms.find_one id w.form_store)) [
      | inl (o, p) ↦ elim (Option-cases o) [
        | inl q ↦ rw (p, q) (Keeps-refl 1 w)
        | inr (f, q) ↦ rw (p, q) (Keeps-refl 1 w)
      ]
      | inr (x, p) ↦ rw p (Keeps-refl 1 w)
    ]

    -- A call of the collection, and then calls that change nothing.
    after_forms :
        {A B : Type 0} (m : Exec Fault P.forms.Store A) (k : A → Action env P B) (w : World P)
        → ((a : A) (v : World P) → (k a v).1 ≡ v)
        → ((on_forms env P m >>= k) w).1 ≡ record w { form_store = (m w.form_store).1 }
    unfolding ◌>>=◌
    after_forms m k w same = elim (Result-cases (m w.form_store).0) [
      | inl (a, p) ↦ rw p (same a _)
      | inr (x, p) ↦ rw p refl
    ]

    Keeps-change :
        (u : String) (f : FormTemplate → FormTemplate) (w : World P) (readings : ℕ)
        → ((x : FormTemplate) → x.id ≡ u → (f x).id ≡ u)
        → ((x : FormTemplate) → forms_at w u ≡ x ∷ [] → Step 1 x (f x))
        → Keeps 1 w
            (record w { form_store = (P.forms.update_one u f w.form_store).1; readings = readings })
    Keeps-change u f w readings keeps_id step = record {
      one =
          OneKept-Changed (forms_at w) _ u i f (P.forms.update_one u f w.form_store).0
            (P.forms.update_changed u f w.form_store keeps_id) step;
      later = omega arith;
    }

    same_matched : (b : Bool) (v : World P) → (matched form_not_found b v).1 ≡ v
    same_matched true v = refl
    same_matched false v = refl

    Keeps-status :
        (id : String) (status : FormStatus) (w : World P)
        → Keeps 1 w (update_form_status env P id status w).1
    unfolding update_form_status ◌>>=◌
    Keeps-status id status w =
        let f = with_status status (env.clock w.readings) in
        subst (λ v. Keeps 1 w v)
          (sym (
            after_forms (P.forms.update_one id f) (λ there. matched form_not_found there)
              (record w { readings = w.readings + 1 }) same_matched))
          (Keeps-change id f w (w.readings + 1) (λ x e. e)
            (λ x e. Step-with_status status (env.clock w.readings) x))

    Keeps-create :
        (tenant creator : String) (req : CreateFormRequest) (w : World P)
        → IsFresh w
        → Keeps 1 w (Forms.create_template env P tenant creator req w).1
    unfolding Forms.create_template create_form ◌>>=◌
    Keeps-create tenant creator req w fresh =
        let made = new_form tenant creator req (env.clock w.readings) (env.uuid w.identifiers) in
        let m = P.forms.insert_one (stored_form made) in
        subst (λ v. Keeps 1 w v)
          (sym (
            after_forms m (λ u. pure made)
              (record w { readings = w.readings + 1; identifiers = w.identifiers + 1 })
              (λ u v. refl)))
          (record {
            one = OneKept-same 1 (
                Inserted-other (forms_at w) _ made.id i (stored_form made) (m w.form_store).0
                  (P.forms.insert_inserted (stored_form made) w.form_store)
                  (test_of_ne made.id i (fresh w.identifiers (omega arith))));
            later = omega arith;
          })

    Keeps-replace :
        (id : String) (req : UpdateFormRequest) (f : FormTemplate) (w : World P)
        → Holds f (forms_at w id)
        → Keeps 1 w
            (update_form env P
              (edited req (env.clock w.readings) f)
              (record w { readings = w.readings + 1 })).1
    unfolding update_form ◌>>=◌
    Keeps-replace id req f w h =
        let changed = record (edited req (env.clock w.readings) f) {
          updated_at = env.clock (w.readings + 1);
        } in
        let there : changed.id ≡ id =
          (Step-with_fields req.fields f).same_id ∙ P.forms.entries_id id w.form_store f h in
        subst (λ v. Keeps 1 w v)
          (sym (
            after_forms (P.forms.update_one changed.id (λ old. stored_form changed))
              (λ b. pure changed) (record w { readings = w.readings + 1 + 1 }) (λ b v. refl)))
          (Keeps-change changed.id (λ old. stored_form changed) w (w.readings + 1 + 1) (λ x e. refl)
            (λ x e.
              rw (only x (subst (λ xs. Holds f xs) (ap (forms_at w) (sym there) ∙ e) h))
                (Step-edited req (env.clock w.readings) (env.clock (w.readings + 1)) f)))
      where
        only : (x : FormTemplate) → Holds f (x ∷ []) → x ≡ f
        only x (inl e) = e
        only x (inr e) = absurd e

    Keeps-update :
        (id : String) (req : UpdateFormRequest) (w : World P)
        → Keeps 1 w (Forms.update_template env P id req w).1
    unfolding Forms.update_template find_form ◌>>=◌
    Keeps-update id req w = elim (Result-cases (P.forms.find_one id w.form_store)) [
      | inl (o, p) ↦ elim (Option-cases o) [
        | inl q ↦ rw (p, q) (Keeps-refl 1 w)
        | inr (f, q) ↦
            rw (p, q)
              (Keeps-replace id req f w (
                subst (λ r. Found (forms_at w id) r) (p ∙ ap ok q)
                  (P.forms.find_found id w.form_store)))
      ]
      | inr (x, p) ↦ rw p (Keeps-refl 1 w)
    ]

  module _ (i : String) where
    Keeps-Steady :
        {A : Type 0} (m : Action env P A) (w : World P) → Steady env P m → Keeps i 1 w (m w).1
    Keeps-Steady m w h = Keeps-still i w (m w).1 (h.same w) (h.later w)

    execute-Keeps : (op : Op P.Other) (w : World P) → IsFresh i w → Keeps i 1 w (execute op w)
    unfolding execute
    execute-Keeps (create_template tenant creator req) w fresh =
        Keeps-create i tenant creator req w fresh
    execute-Keeps (get_template id) w fresh = Keeps-Steady _ w (Steady-find env P id)
    execute-Keeps (update_template id req) w fresh = Keeps-update i id req w
    execute-Keeps (publish_template id) w fresh = Keeps-status i id form_status_published w
    execute-Keeps (archive_template id) w fresh = Keeps-status i id form_status_archived w
    execute-Keeps (list_templates tenant page limit) w fresh =
        Keeps-Steady _ w (Steady-list env P tenant page limit)
    execute-Keeps (submit_form tenant user req) w fresh =
        Keeps-Steady _ w (Steady-submit env P tenant user req)
    execute-Keeps (get_submission id) w fresh = Keeps-Steady _ w (Steady-submission env P id)
    execute-Keeps (list_submissions tenant page limit) w fresh =
        Keeps-Steady _ w (Steady-submission_list env P tenant page limit)

    run-Keeps :
        (ops : List (Op P.Other)) (w : World P) → IsFresh i w → Keeps i (length ops) w (run ops w)
    unfolding run
    run-Keeps [] w fresh = Keeps-refl i 0 w
    run-Keeps (op ∷ ops) w fresh =
        let first = execute-Keeps op w fresh in
        Keeps-trans i first
          (run-Keeps ops (execute op w) (λ k le. fresh k (le_trans first.later le)))

    -- A template that is the only one with its identifier, and whose version with one more for each
    -- of the requests stays below 2^63, is the only one after any requests to the form service, failed
    -- ones included, where the generator does not give the identifier again: its identity and its
    -- creation are as they were, its version has not fallen, and if the version is the same, so are
    -- the fields.
    pub run_templates-IsLater :
        (ops : List (Op P.Other)) (w : World P) (f : FormTemplate)
        → IsFresh i w
        → HasRoom (length ops) f
        → forms_at w i ≡ f ∷ []
        → (g : FormTemplate) × (forms_at (run ops w) i ≡ g ∷ []) × IsLater f g
    run_templates-IsLater ops w f fresh room e =
        let (g, there, s) = (run-Keeps ops w fresh).one f e in (g, there, Step-IsLater room s)
