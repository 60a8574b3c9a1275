-- ===== src/Tenant/Http/Tests.antt =====
-- Requests over http to the tenant service, on tenants in memory.
use ops_nexus.Prelude.{none, some}
use ops_nexus.Tenant.Example.{request}
use ops_nexus.Tenant.Http.{Decoder, Request}

abbrev decoder : Decoder
decoder = record {
  create_tenant = λ s. some request;
  update_tenant = λ s. none;
  update_settings = λ s. none;
}

abbrev post : Request
post = record { request_header = ""; page = ""; limit = ""; body = "{}" }
