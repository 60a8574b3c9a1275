-- ===== src/Document/Templates/Reading.antt =====
-- The calls of form_service.go of services/document-service that change no form template.
use native.Mathlib.Nat.{le_trans}
use ops_nexus.Prelude.{
  none, some, refl, arith, String, Option, Result, ok, err, ◌≡◌, ◌∙◌, ◌≤◌, continue, pure, Exec,
  ◌>>=◌,
}
use ops_nexus.Prelude.Int.{ℤ}
use ops_nexus.Storage.{Fault}
use ops_nexus.Storage.World.{Env}
use ops_nexus.Document.Domain.{Error}
use ops_nexus.Document.Ports.{Ports, World, SubmitFormRequest}
use ops_nexus.Document.Repository.{
  find_form, Action, on_forms, find_submission, create_submission, reading, list_submissions_of,
  found, new_id, now, list_forms_of, on_submissions,
}
use ops_nexus.Document.Forms.{
  edited, new_form, with_fields, store_submission, first_missing, refuse_missing,
}
use ops_nexus.Document.Forms

module _ (env : Env) (P : Ports) where
  -- A call that changes no template, and takes identifiers at most.
  pub record Steady {A : Type 0} (m : Action env P A) : Type 0 where
    pub same : (w : World P) → (m w).1.form_store ≡ w.form_store
    pub later : (w : World P) → w.identifiers ≤ (m w).1.identifiers

  Steady-bind :
      {A B : Type 0} (m : Action env P A) (f : A → Action env P B)
      → Steady m
      → ((a : A) → Steady (f a))
      → Steady (m >>= f)
  unfolding ◌>>=◌
  Steady-bind {A} {B} m f hm hf = record {
    same = λ w. (go (m w).0 (m w).1).0 ∙ hm.same w;
    later = λ w. le_trans (hm.later w) (go (m w).0 (m w).1).1;
  }
    where
      go :
          (r : Result Error A) (w : World P)
          → ((continue r f w).1.form_store ≡ w.form_store)
            × (w.identifiers ≤ (continue r f w).1.identifiers)
      go (ok a) w = ((hf a).same w, (hf a).later w)
      go (err e) w = (refl, omega arith)

  Steady-pure : {A : Type 0} (a : A) → Steady (pure a)
  Steady-pure a = record { same = λ w. refl; later = λ w. omega arith }

  Steady-forms :
      {A : Type 0} (f : P.forms.Store → Result Fault A) → Steady (on_forms env P (reading f))
  Steady-forms f = record { same = λ w. refl; later = λ w. omega arith }

  Steady-submissions :
      {A : Type 0} (m : Exec Fault P.submissions.Store A) → Steady (on_submissions env P m)
  Steady-submissions m = record { same = λ w. refl; later = λ w. omega arith }

  Steady-now : Steady (now env P)
  Steady-now = record { same = λ w. refl; later = λ w. omega arith }

  Steady-new_id : Steady (new_id env P)
  Steady-new_id = record { same = λ w. refl; later = λ w. omega arith }

  Steady-found : {A : Type 0} (e : Error) (o : Option A) → Steady (found e o)
  Steady-found e none = record { same = λ w. refl; later = λ w. omega arith }
  Steady-found e (some a) = Steady-pure a

  Steady-refuse_missing : (o : Option String) → Steady (refuse_missing env P o)
  Steady-refuse_missing none = Steady-pure tt
  Steady-refuse_missing (some name) = record { same = λ w. refl; later = λ w. omega arith }

  ruleset steady = (
    Steady-bind, Steady-pure, Steady-forms, Steady-submissions, Steady-now, Steady-new_id,
    Steady-found, Steady-refuse_missing,
  )

  pub Steady-find : (id : String) → Steady (find_form env P id)
  unfolding find_form
  Steady-find id = search steady depth 8

  pub Steady-submit :
      (tenant user : String) (req : SubmitFormRequest P.Other)
      → Steady (Forms.submit_form env P tenant user req)
  unfolding Forms.submit_form store_submission create_submission
  Steady-submit tenant user req = search (steady, Steady-find) depth 12

  pub Steady-list :
      (tenant : String) (page limit : ℤ) → Steady (Forms.list_templates env P tenant page limit)
  unfolding list_forms_of
  Steady-list tenant page limit = search steady depth 8

  pub Steady-submission : (id : String) → Steady (Forms.get_submission env P id)
  unfolding find_submission
  Steady-submission id = search steady depth 8

  pub Steady-submission_list :
      (tenant : String) (page limit : ℤ) → Steady (Forms.list_submissions env P tenant page limit)
  unfolding list_submissions_of
  Steady-submission_list tenant page limit = search steady depth 8
