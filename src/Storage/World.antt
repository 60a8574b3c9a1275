-- ===== src/Storage/World.antt =====
-- What the services take from their surroundings: the readings of the clock (`time.Now().UTC()`)
-- and the identifiers of `uuid.NewString()`, each numbered in the order of the calls.
use ops_nexus.Prelude.{ℕ, String}
use ops_nexus.Prelude.Time.{Time}

pub record Env : Type 0 where
  pub clock : ℕ → Time
  pub uuid : ℕ → String
