-- ===== src/Tenant/Http/Requests.antt =====
-- What the requests to services/tenant-service over http do to the tenants.
use ops_nexus.Prelude.{none, some, String, Option}
use ops_nexus.Prelude.Int.{pos}
use ops_nexus.Storage.World.{Env}
use ops_nexus.Tenant.Ports.{Ports, World}
use ops_nexus.Tenant.Lifecycle.{
  Op, execute, create, get, update, deactivate, list, settings, configure,
}
use ops_nexus.Tenant.Http
use ops_nexus.Tenant.Http.{Decoder, Request, Route, or_at_least_one}

-- A request to the service for the body of a message, if the body can be read.
abbrev pub for_body : {A : Type 0} → (A → Op) → Option A → Option Op
for_body f none = none
for_body f (some a) = some (f a)

-- The request to the service that a message to a route is meant to make.
pub data Means (json : Decoder) (r : Request) : Route → Option Op → Type 0 where
  health : Means json r Http.get_health none
  listing :
      Means json r Http.get_tenants
        (some (list (or_at_least_one (pos 1) r.page) (or_at_least_one (pos 20) r.limit)))
  creating : Means json r Http.post_tenant (for_body create (json.create_tenant r.body))
  reading : (id : String) → Means json r (Http.get_one id) (some (get id))
  updating :
      (id : String)
      → Means json r (Http.put_tenant id) (for_body (update id) (json.update_tenant r.body))
  removing : (id : String) → Means json r (Http.remove_tenant id) (some (deactivate id))
  reading_settings : (id : String) → Means json r (Http.get_configuration id) (some (settings id))
  setting :
      (id : String)
      → Means json r
          (Http.put_configuration id)
          (for_body (configure id) (json.update_settings r.body))

module _ (env : Env) (P : Ports) (json : Decoder) where
  -- The state after a request, or with none.
  abbrev pub after : Option Op → World P → World P
  after none w = w
  after (some op) w = execute env P op w
