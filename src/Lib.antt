-- ===== src/Lib.antt =====
-- OpsNexus: the workflow, the auth, the tenant, the notification and the document service of a
-- backend, each with a domain, an application that talks to ports, and adapters
-- (services/*/internal).
--
-- * Prelude is shared: the monad `Exec` of a call that changes a state and returns a value or an
--   error (the state it leaves is kept in both cases), tests, texts, Go's `int` and times. A time
--   is the number of nanoseconds since the year 1; a duration has 64 bits and wraps around.
-- * Storage is what the services keep. `Table` is a table behind gorm and MySQL: neither is part
--   of the repository, so the operations are parameters with their documented behaviour as laws,
--   under which any statement may fail, with or without its effect. `Repository` is what a service
--   sees of it (services/*/internal/ports/repository.go). Gorm shows that the code of
--   adapters/mysql/*_repository.go, over any table, is such a repository; Memory has a table that
--   meets the laws; Evolution has the rules for what a chain of calls does to stored entities.
-- * Workflow is services/workflow-service: Domain and Ports its types, Cases, Tasks and Templates
--   the methods of internal/application/case_service.go, task_service.go and workflow_service.go,
--   one function each, Http internal/adapters/http, Mysql the rows and the repositories, and
--   Mysql/Numbers `NextCaseNumber`, the counter being a parameter of Cases. The state `World` is
--   one store for each repository, and how many readings of the clock and identifiers have been
--   taken: `Env` says what they are, and no law ties them, so the clock may go back and
--   identifiers may repeat.
-- * Auth is services/auth-service: Domain and Ports its types, Service the methods of
--   internal/application/auth_service.go, Sessions, Logout and Refresh what happens to refresh
--   tokens, Access the access tokens and the permissions. bcrypt, the JWT library and the table of
--   lower-case letters are parameters; of JWT it is used that a signed token is read back before
--   its expiry. Http is internal/adapters/http/handler.go, and Http/Router its middleware.go and
--   router.go: a request is a record of what the handlers read of it, with its route. Mysql is
--   internal/adapters/mysql/refresh_token_repository.go over a table, of which the collation of
--   the tokens and the precision of times are parameters.
-- * Tenant is services/tenant-service: Domain and Ports its types, Slugs the pattern of slugs,
--   Service the methods of `tenantServiceImpl` in internal/application/tenant_service.go, Plans
--   and Lifecycle what they keep of a tenant, Http the handlers and the routes of tenants. What a
--   row leaves out of a tenant is part of the interface of its repository (`kept_tenant`).
-- * Notification is services/notification-service: Domain and Ports its types, Items the items of
--   the DynamoDB tables and the conversions, Paging the pages of the lists, Repository the two
--   repositories of internal/adapters/dynamodb, Service internal/application, and Http
--   internal/adapters/http. A DynamoDB table is a parameter (`DynamoTable`), with what a write, a
--   read and a query promise as laws; a query need not return every item. A panic of a list is a
--   value.
-- * Document is services/document-service: Domain and Ports its types, Repository the three
--   repositories of internal/adapters/mongodb, Documents and Forms the methods of
--   internal/application/document_service.go and form_service.go; Uploads, Submissions and
--   Templates what they do; Http internal/adapters/http. A MongoDB collection (`Collection`) and
--   the file system are parameters; a collection has no unique index, so that an identifier has a
--   list of entries.
--
-- Requests come one after the other: `Op` is a request, `execute` its effect, and `run` that of
-- a sequence of them. A request is atomic here, but for two calls of NextCaseNumber, whose
-- statements interleave (Workflow/Mysql/Numbers/Race). Loops of the code are recursion on a
-- list. Only the digits of a case number are made on fuel, the number and the width added up,
-- which is enough: a number has no more digits.
--
-- Not modelled: organizations and profiles with their handlers, the list queries of MySQL, the
-- repositories of users, roles and tenants, logging, configuration and start-up, the frontend
-- and the deployment.
pub mod Prelude
pub mod Storage
pub mod Workflow
pub mod Auth
pub mod Tenant
pub mod Notification
pub mod Document
