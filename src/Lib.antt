-- ===== src/Lib.antt =====
-- Verification library of the TypeScript backend (src/**/*.ts over PostgreSQL).
--
-- The program is an HTTP API over a few repositories. A request passes the guards (origin, session,
-- permission), its input is parsed by a schema, a handler reads and writes tables by the
-- repositories, and a successful change is recorded in the audit trail. Uploads of documents go
-- through a storage provider, with one row for each attempt.
--
-- Files and the code that they model:
--   Base            lists, outcomes of calls that may throw, SQL statements over lists of rows
--                   (Base/Sql), JavaScript strings as UTF-16 code units (Base/Text)
--   Platform        Date, Buffer and JSON of Node.js, the driver's conversions and PostgreSQL's
--                   casts: parameters, with the documented behaviour that theorems use as laws
--                   (Platform/Concrete has an instance)
--   Paging          keyset pagination, shared by the list queries; Paging/Query is the query,
--                   Paging/Cursor the cursors, Paging/Walk the client that follows them, and
--                   Paging/Recent a list without cursors
--   Auth            src/contracts/auth.ts, src/auth/context.ts, src/auth/origin-guard.ts;
--                   Auth/Sessions and Auth/Accounts are src/auth/repository.ts,
--                   Auth/Passwords is src/auth/crypto.ts, Auth/Routes the handlers of src/app.ts
--   Workflows       src/contracts/workflows.ts, src/workflows/policy.ts; Workflows/Repository is
--                   src/workflows/repository.ts, Workflows/Routes the handlers of src/app.ts
--   Uploads         src/documents/storage.ts; Uploads/Attempts is
--                   src/documents/upload-attempt-repository.ts, with Uploads/Attempts/History what
--                   any number of its calls make of a table; Uploads/Service is
--                   src/documents/upload-service.ts;
--                   Uploads/S3 is src/documents/s3-storage.ts, and Uploads/S3/Config
--                   src/documents/storage-config.ts
--   Documents       src/contracts/documents.ts, src/documents/repository.ts; Documents/Routes is
--                   src/documents/routes.ts
--   Extractions     src/contracts/extractions.ts, src/extractions/repository.ts; Extractions/Routes
--                   is src/extractions/routes.ts
--   Agents          src/agents/contracts.ts, src/agents/policy.ts, src/agents/repository.ts
--   Keyed           creation under an idempotency key and the update of one version, which workflows
--                   and agents share
--   Organization    src/contracts/organization.ts, src/organization/repository.ts,
--                   src/organization/routes.ts
--   Config          src/config/runtime.ts
--   Http            src/contracts/http.ts, the error handler of src/app.ts, and what the handlers of
--                   the routes share: guards, one call of a repository, a reply and an event
--   Audit           src/audit/service.ts, src/audit/routes.ts
-- A directory's other files hold the theorems on it, and Tests its examples.
--
-- A table is a list of rows, an operation takes the tables and returns them with its result; a throw
-- rolls a transaction back. Where a method reads and writes at different times, it takes the tables
-- of each time, so a theorem holds whatever other requests do in between, but for what its
-- hypotheses say. `uuid` values are natural numbers, a `timestamptz` is a number of microseconds,
-- a `Date` a number of milliseconds. No number of the program is near a machine bound: versions and
-- sizes are ℕ, and the bound on sizes is the source's own test.
--
-- All functions are total by structural recursion. `follow` of Paging/Walk takes a number of rounds;
-- its theorem says that one more than the number of rows is enough. `decimal` runs n + 1 rounds for
-- the digits of n, which are fewer.
--
-- Not modelled: the schemas of zod (their results are arguments of the handlers), messages and
-- headers of replies, rate limits, health checks, the composition of src/server.ts, foreign keys,
-- and the Python service.
pub mod Base
pub mod Platform
pub mod Paging
pub mod Auth
pub mod Workflows
pub mod Http
pub mod Audit
pub mod Uploads
pub mod Extractions
pub mod Documents
pub mod Keyed
pub mod Agents
pub mod Config
pub mod Organization
