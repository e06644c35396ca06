-- ===== src/Lib.antt =====
-- Verification of the nest-kit backend (TypeScript, NestJS).
--
-- The backend is a set of bounded contexts (src/modules) on a platform (src/platform) with shared
-- ports and errors (src/shared). A command runs in a unit of work: the tables it writes and the
-- events it raises commit together, the events as rows of an outbox. A relay publishes these rows
-- to a broker, and durable consumers handle them at least once, with a marker table against
-- duplicates. Calls to other services go through a client with retries and a circuit breaker.
--
-- Files and the code they model:
--   Base.antt, Base/: names passed on from the libraries, Boolean tests and list lemmas.
--   Errors.antt: src/shared/errors. Message texts and causes are left out.
--   Effects.antt: code that changes a state and may throw; what was written before a throw stays.
--   Table.antt: a table with one text key, as the repositories read and write it.
--   Transactions.antt: src/platform/database/typeorm-unit-of-work.ts and
--     src/platform/eventbus/outbox-event-bus.ts.
--   Upstream/Breaker.antt: src/platform/upstream/circuit-breaker.ts; its children hold histories of
--     calls, the abstract machine of three phases, and the laws of opening and probing.
--   Upstream/Backoff.antt: src/platform/upstream/backoff.ts.
--   Upstream/Request.antt: src/shared/application/ports/http-client.port.ts.
--   Upstream/Client.antt: src/platform/upstream/fetch-http-client.ts; Client/Retries.antt has the
--     lemmas on the loop and Client/Calls.antt those on a whole call.
--   Notification.antt, Notification/Lifecycle.antt: src/modules/notification/domain/notification.ts.
--   Notification/Dispatcher.antt: notification-dispatcher.task.ts of
--     src/modules/notification/infrastructure, over the table of its repository.
--   Outbox/Rows.antt: src/platform/outbox/outbox.repository.ts, a function for each statement.
--   Outbox/Relay.antt: src/platform/outbox/outbox.relay.ts, one tick of a relay.
--   Messaging/Consumer.antt: durable-consumer.service.ts, processed-event.repository.ts and
--     dead-letter.repository.ts of src/platform/messaging.
--   Events.antt: the domain events of all contexts, one constructor for each class.
--   Database.antt: the tables of users, owners, cars and sessions with the lookups and saves of their
--     repositories.
--   Identity/User.antt and Identity/Handlers.antt: src/modules/identity, the aggregate and the
--     handlers; Handlers/Emails.antt and Handlers/Unique.antt are about the emails of live users.
--   Owner.antt and Owner/Handlers.antt: src/modules/owner, the aggregate and the handlers.
--   Car.antt and Car/Handlers.antt: src/modules/car, the aggregate and the handlers;
--     Car/Handlers/Deactivation.antt is about the reaction to a deactivated owner.
--   Auth/Session.antt and Auth/Handlers.antt: src/modules/auth, the aggregate and the handlers;
--     Auth/Handlers/Replay.antt is about refresh tokens that are presented again.
--   The History modules of the aggregates are about any sequence of their methods.
--   Pagination.antt: src/shared/pagination/index.ts.
--   Texts.antt: texts as code units with `trim` and `split`. Queries.antt: lookups and deletions by a
--     condition on a table.
--   Rbac.antt: src/modules/rbac, its errors. Rbac/Names.antt, Rbac/Role.antt: the value objects and the
--     aggregates; Rbac/Rows.antt, Rbac/Repository.antt, Rbac/Grants.antt: the tables, the mapper and the
--     repository; Rbac/Handlers.antt: the commands; Rbac/Cache.antt: the cached grants. Repository/
--     Reconcile.antt and Agreement.antt are about what a save leaves and what the two ways of reading
--     agree on; Lockout.antt, Protection.antt, Works.antt, Creations.antt and
--     Commands.antt about protected roles;
--     Cache/Freshness.antt about the age of a cached answer.
--   Identity/Email.antt, Car/Values.antt, Owner/DateOfBirth.antt: the value objects of these contexts;
--     Car/Values/Plates.antt and Car/Values/Amounts.antt are about their normal forms.
--   Storage.antt: src/shared/application/ports/file-storage.port.ts, the keys of files, and
--     Storage/S3.antt: src/platform/storage/s3-file-storage.ts. Health.antt: src/platform/health.
--   Tokens.antt: src/platform/crypto/es256-tokenizer.ts.
--   Rbac/Untouched.antt is about the users that a change of a role does not concern.
--   Rbac/Seeder.antt, Rbac/Superadmin.antt: src/database/seeds. Listings.antt: the paged lists of the
--     repositories, with revokeAllForUser.
--   Scheduling.antt: src/platform/scheduling; Exclusion.antt has the steps of
--     several replicas; Invariant.antt, Sound.antt and Safety.antt are
--     about several replicas.
--   Http.antt: rate-limit.guard.ts, and Http/Access.antt: jwt-auth.guard.ts and authorization.guard.ts of
--     src/platform/http/guards, with src/platform/cache/redis-token-blacklist.ts. Http/Windows.antt and
--     Http/Guarded.antt are about what passes them. Http/Errors.antt: app-error.filter.ts.
--   The Tests modules run the definitions on small inputs.
--
-- Conventions. Times are milliseconds on the native numbers and are arguments. A method of an
-- object is a function on a record; an object shared under a key (a breaker of a host, a row of a
-- table) is stored back under its key. Texts are opaque, except where their length matters, where
-- they are lists of UTF-16 code units. What stands outside the source is an argument: the outcome
-- of a fetch, the replies of the broker and of the mail transport, the parsers of URLs and of JSON,
-- the clock, random fractions, generated ids, row locks. A process that dies is a reply of the
-- outside too, after which a sweep or a drain does nothing more. The metrics are kept where the
-- code chooses their labels, and log lines are left out.
--
-- Loops are recursion on lists. The retry loop of the client is recursion on the number of rounds
-- left, which begins at the number of attempts that its test allows, so it ends by that test.
-- The texts of errors that are stored are arguments, cut where the code cuts them.
--
-- Redis is its documented commands on a list of entries with their expiry; whether a call reached it
-- is an argument. A table with an internal id is a list of rows with the next id of its sequence;
-- of the uniqueness that the schema adds to the checks of the handlers, only the primary key of the
-- junction of roles and permissions is there.
--
-- Not modelled: the HTTP interceptors and controllers. The adapters to SMTP and argon2, configuration,
-- metrics registries, migrations and the wiring of the application are I/O or framework glue.
pub mod Base
pub mod Errors
pub mod Effects
pub mod Table
pub mod Queries
pub mod Texts
pub mod Upstream
pub mod Notification
pub mod Outbox
pub mod Transactions
pub mod Messaging
pub mod Events
pub mod Identity
pub mod Owner
pub mod Car
pub mod Auth
pub mod Pagination
pub mod Storage
pub mod Listings
pub mod Health
pub mod Tokens
pub mod Http
pub mod Scheduling
pub mod Rbac
pub mod Database
