-- ===== src/Storage/Evolution.antt =====
-- How a store of entities may change over a call: an entity is never lost, it moves on by steps of
-- its kind, and a new one begins well. One rule for each way to build a call.
use ops_nexus.Prelude.{
  String, ◌≡◌, refl, inl, inr, Bool, true, false, Option, none, some, Result, ok, err, Exec, ◌==◌,
  if◌then◌else◌, eq_iff, subst, refuse_if, continue, ◌>>=◌, attempt, pure, ◌∙◌,
}
use ops_nexus.Prelude.Time.{Time}
use ops_nexus.Storage.Defs.{Same, Writes, Written, Created}

-- What is tracked: the entities `view w` of a state `w`.
pub record Life (A W : Type 0) : Type 1 where
  pub view : W → String → Option A
  pub key : A → String
  pub Begins : A → Type 0
  pub Step : A → A → Type 0
  pub step_refl : (a : A) → Step a a
  pub step_trans : (a b c : A) → Step a b → Step b c → Step a c
  pub begins_step : (a b : A) → Begins a → Step a b → Begins b
  pub view_key : (k : String) (w : W) (a : A) → view w k ≡ some a → key a ≡ k

module _ {A W : Type 0} (L : Life A W) where
  abbrev pub Moves : Option A → Option A → Type 0
  Moves none none = Unit
  Moves none (some a) = L.Begins a
  Moves (some a) none = ⊥
  Moves (some a) (some b) = L.Step a b

  abbrev pub Evolves : (String → Option A) → (String → Option A) → Type 0
  Evolves before after = (k : String) → Moves (before k) (after k)

  Moves-refl : (o : Option A) → Moves o o
  Moves-refl none = tt
  Moves-refl (some a) = L.step_refl a

  Moves-trans : (o p q : Option A) → Moves o p → Moves p q → Moves o q
  Moves-trans none none q f g = g
  Moves-trans none (some b) none f g = absurd g
  Moves-trans none (some b) (some c) f g = L.begins_step b c f g
  Moves-trans (some a) none q f g = absurd f
  Moves-trans (some a) (some b) none f g = g
  Moves-trans (some a) (some b) (some c) f g = L.step_trans a b c f g

  pub Evolves-refl : (before : String → Option A) → Evolves before before
  Evolves-refl before k = Moves-refl (before k)

  pub Evolves-trans : (a b c : String → Option A) → Evolves a b → Evolves b c → Evolves a c
  Evolves-trans a b c f g k = Moves-trans (a k) (b k) (c k) (f k) (g k)

  pub Evolves-Same : (before after : String → Option A) → Same before after → Evolves before after
  Evolves-Same before after h k = rw (h k) (Moves-refl (before k))

  -- A write of a value that the stored one, if any, may move to.
  pub Evolves-Writes :
      (before after : String → Option A) (k : String) (a : A)
      → Moves (before k) (some a)
      → Writes before after k a
      → Evolves before after
  Evolves-Writes before after k a m w j = rw (w j) (at (k == j) refl)
    where
      at : (b : Bool) → (k == j) ≡ b → Moves (before j) (if b then some a else before j)
      at true e = subst (λ i. Moves (before i) (some a)) ((eq_iff k j).0 e) m
      at false e = Moves-refl (before j)

  pub Evolves-Written :
      {E R : Type 0} (before after : String → Option A) (k : String) (a : Time → A) (r : Result E R)
      → ((t : Time) → Moves (before k) (some (a t)))
      → Written before after k a r
      → Evolves before after
  Evolves-Written before after k a (ok u) m (t, w) = Evolves-Writes before after k (a t) (m t) w
  Evolves-Written before after k a (err e) m (inl same) = Evolves-Same before after same
  Evolves-Written before after k a (err e) m (inr (t, w)) =
      Evolves-Writes before after k (a t) (m t) w

  pub Evolves-Created :
      {E R : Type 0} (before after : String → Option A) (k : String) (a : A) (r : Result E R)
      → L.Begins a
      → Created before after k a r
      → Evolves before after
  Evolves-Created before after k a (ok u) m (free, w) =
      Evolves-Writes before after k a (rw free m) w
  Evolves-Created before after k a (err e) m (inl same) = Evolves-Same before after same
  Evolves-Created before after k a (err e) m (inr (free, w)) =
      Evolves-Writes before after k a (rw free m) w

  -- A call that changes no entity.
  pub record Stays {E R : Type 0} (m : Exec E W R) : Type 0 where
    pub at : (w : W) → Same (L.view w) (L.view (m w).1)

  -- A call that is safe where `a` is stored.
  pub record From {E R : Type 0} (a : A) (m : Exec E W R) : Type 0 where
    pub at : (w : W) → L.view w (L.key a) ≡ some a → Evolves (L.view w) (L.view (m w).1)

  -- A call that is safe.
  pub record Safe {E R : Type 0} (m : Exec E W R) : Type 0 where
    pub at : (w : W) → Evolves (L.view w) (L.view (m w).1)

module _ {A W E R : Type 0} {L : Life A W} where
  pub Stays-pure : (r : R) → Stays L {E = E} (pure r)
  Stays-pure r = record { at = λ w k. refl }

  pub Stays-attempt : (m : Exec E W R) → Stays L m → Stays L (attempt m)
  Stays-attempt m h = record { at = h.at }

  pub Stays-if :
      (b : Bool) (m n : Exec E W R) → Stays L m → Stays L n → Stays L (if b then m else n)
  Stays-if true m n hm hn = hm
  Stays-if false m n hm hn = hn

  pub From-Stays : (a : A) (m : Exec E W R) → Stays L m → From L a m
  From-Stays a m h = record { at = λ w e. Evolves-Same L _ _ (h.at w) }

  pub From-if :
      (a : A) (b : Bool) (m n : Exec E W R)
      → (b ≡ true → From L a m)
      → (b ≡ false → From L a n)
      → From L a (if b then m else n)
  From-if a true m n hm hn = hm refl
  From-if a false m n hm hn = hn refl

  pub Safe-Stays : (m : Exec E W R) → Stays L m → Safe L m
  Safe-Stays m h = record { at = λ w. Evolves-Same L _ _ (h.at w) }

module _ {A W E Q R : Type 0} {L : Life A W} where
  Stays-continue :
      (r : Result E Q) (f : Q → Exec E W R) → ((q : Q) → Stays L (f q)) → Stays L (continue r f)
  Stays-continue (ok q) f hf = hf q
  Stays-continue (err e) f hf = record { at = λ w k. refl }

  pub Stays-bind :
      (m : Exec E W Q) (f : Q → Exec E W R)
      → Stays L m
      → ((q : Q) → Stays L (f q))
      → Stays L (m >>= f)
  unfolding ◌>>=◌
  Stays-bind m f hm hf = record {
    at = λ w k. (Stays-continue (m w).0 f hf).at (m w).1 k ∙ hm.at w k;
  }

  From-continue :
      (a : A) (r : Result E Q) (f : Q → Exec E W R)
      → ((q : Q) → r ≡ ok q → From L a (f q))
      → From L a (continue r f)
  From-continue a (ok q) f hf = hf q refl
  From-continue a (err e) f hf = From-Stays a _ (record { at = λ w k. refl })

  -- After a call that changes no entity, with what its result shows.
  pub From-bind :
      (a : A) (m : Exec E W Q) (f : Q → Exec E W R)
      → Stays L m
      → ((q : Q) → From L a (f q))
      → From L a (m >>= f)
  unfolding ◌>>=◌
  From-bind a m f hm hf = record {
    at = λ w e.
        Evolves-trans L _ _ _ (Evolves-Same L _ _ (hm.at w))
          ((From-continue a (m w).0 f (λ q p. hf q)).at (m w).1 (hm.at w (L.key a) ∙ e));
  }

  -- A safe call, and then calls that change nothing.
  pub From-then :
      (a : A) (m : Exec E W Q) (f : Q → Exec E W R)
      → From L a m
      → ((q : Q) → Stays L (f q))
      → From L a (m >>= f)
  unfolding ◌>>=◌
  From-then a m f hm hf = record {
    at = λ w e.
        Evolves-trans L _ _ _ (hm.at w e)
          (Evolves-Same L _ _ ((Stays-continue (m w).0 f hf).at (m w).1));
  }

  pub Safe-bind :
      (m : Exec E W Q) (f : Q → Exec E W R)
      → Stays L m
      → ((q : Q) → Safe L (f q))
      → Safe L (m >>= f)
  unfolding ◌>>=◌
  Safe-bind m f hm hf = record {
    at = λ w.
        Evolves-trans L _ _ _ (Evolves-Same L _ _ (hm.at w))
          ((Safe-continue (m w).0 f (λ q p. hf q)).at (m w).1);
  }
    where
      Safe-continue :
          (r : Result E Q) (f : Q → Exec E W R)
          → ((q : Q) → r ≡ ok q → Safe L (f q))
          → Safe L (continue r f)
      Safe-continue (ok q) f hf = hf q refl
      Safe-continue (err e) f hf = Safe-Stays _ (record { at = λ w k. refl })

  pub Safe-then :
      (m : Exec E W Q) (f : Q → Exec E W R)
      → Safe L m
      → ((q : Q) → Stays L (f q))
      → Safe L (m >>= f)
  unfolding ◌>>=◌
  Safe-then m f hm hf = record {
    at = λ w.
        Evolves-trans L _ _ _ (hm.at w)
          (Evolves-Same L _ _ ((Stays-continue (m w).0 f hf).at (m w).1));
  }

module _ {A W E R : Type 0} {L : Life A W} where
  -- `FindByID`, and then calls on the entity that it found.
  pub Safe-find :
      (m : Exec E W A) (f : A → Exec E W R)
      → Stays L m
      → ((w : W) (a : A) → (m w).0 ≡ ok a → L.view w (L.key a) ≡ some a)
      → ((a : A) → From L a (f a))
      → Safe L (m >>= f)
  unfolding ◌>>=◌
  Safe-find m f hm found hf = record {
    at = λ w. Evolves-trans L _ _ _ (Evolves-Same L _ _ (hm.at w)) (go w (m w).0 refl);
  }
    where
      go :
          (w : W) (r : Result E A)
          → (m w).0 ≡ r
          → Evolves L (L.view (m w).1) (L.view (continue r f (m w).1).1)
      go w (ok a) e = (hf a).at (m w).1 (hm.at w (L.key a) ∙ found w a e)
      go w (err x) e = Evolves-refl L _

module _ {A W E : Type 0} {L : Life A W} where
  pub Stays-refuse_if : (b : Bool) (e : E) → Stays L (refuse_if b e)
  Stays-refuse_if true e = record { at = λ w k. refl }
  Stays-refuse_if false e = record { at = λ w k. refl }

module _ {A W E R : Type 0} {L : Life A W} where
  -- A guard that lets the rest run only where its test fails.
  pub From-guard :
      (a : A) (b : Bool) (e : E) (f : Unit {0} → Exec E W R)
      → (b ≡ false → From L a (f tt))
      → From L a (refuse_if b e >>= f)
  unfolding ◌>>=◌
  From-guard a true e f hf = From-Stays a _ (record { at = λ w k. refl })
  From-guard a false e f hf = record { at = λ w p. (hf refl).at w p }

  -- A guard before a safe call.
  pub Safe-guard :
      (b : Bool) (e : E) (f : Unit {0} → Exec E W R)
      → (b ≡ false → Safe L (f tt))
      → Safe L (refuse_if b e >>= f)
  unfolding ◌>>=◌
  Safe-guard true e f hf = Safe-Stays _ (record { at = λ w k. refl })
  Safe-guard false e f hf = record { at = λ w. (hf refl).at w }

pub ruleset stays_rules = (Stays-pure, Stays-attempt, Stays-refuse_if, Stays-if, Stays-bind)
