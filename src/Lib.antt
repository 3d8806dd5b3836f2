-- ===== src/Lib.antt =====
-- Verification of Fullwell, a service that keeps a household's food journal for AI agents.
--
-- The server (apps/server/src) is a set of services over ports; the program has an in-memory and a
-- PostgreSQL implementation of each port. This library models the in-memory implementations and the
-- services that are written against them.
--
-- Parts, and the files that model them:
--   OAuth       the authorization server (apps/server/src/oauth). OAuth/Store is `MemoryOAuthStore`
--               (memory-store.ts), OAuth/Service is `OAuthService` (service.ts), OAuth/Scopes and
--               OAuth/Uris its helper functions, OAuth/Types the records of types.ts and errors.ts.
--               The service calls the store: an exchange consumes a code or rotates a refresh token,
--               then writes the tokens that it issues.
--   Messaging   the queue of WhatsApp messages (apps/server/src/messaging). Messaging/Store is the
--               part of `MemoryMessageEnvelopeStore` (memory-store.ts) on devices, link challenges
--               and links, Messaging/Queue its intake `enqueueOrResume`, Messaging/Claim `claim`,
--               Messaging/Delivery what follows on a claimed envelope, Messaging/Receipts receipts,
--               snapshot and expiry. A runner device claims the envelopes of the links that name it.
--               Messaging/Service is `MessagingService` (service.ts) over that store: its devices
--               (Devices), links (Linking), the texts that come in (Inbound), a runner's claims
--               and completions (Work), the responses that go out (Sending), the account's status
--               and the operator's view (Health); Access is about what each request
--               must bring along.
--   Account     `AccountService` (apps/server/src/account/service.ts), which acts on all the stores:
--               Account/Service; Account/Deletion is about the deletion of an account.
--   Auth        sign-in (apps/server/src/auth). Auth/Store is `MemoryAuthStore` (memory-store.ts):
--               users, identities, passkeys, challenges and sessions.
--   Repository  the journal of a household as a repository of files: Repository/Memory is
--               `MemoryHouseholdRepository`, Repository/Paths `validateRepositoryPath`
--               (apps/server/src/adapters/memory.ts).
--   Household   Household/Store is the part of `MemoryOperationalStore` (adapters/memory.ts) on
--               households, members, onboarding and export downloads; Household/Onboarding and
--               Household/Authorization are domain/onboarding.ts and domain/authorization.ts, which
--               act on what that store keeps, and Household/Exports the worker of
--               exports/cleanup-worker.ts, which removes downloads from it. Household/Mutations is
--               the part of that store on mutations, kept in a state of its own.
--   Mutation    the protocol by which each change of a journal is made: `MutationRunner` of
--               apps/server/src/services/mutation-runner.ts, over the stores above and the
--               repositories. Mutation/Request has `replay` and the receipt of a request,
--               Mutation/Commit its commit, Mutation/Runner `run`. What runs under the lock of
--               a household is one function, since the lock lets nothing else in.
--   Dict        JavaScript's `Map`; Prelude: shared names, array methods, state and errors.
--
-- How the code is written down:
--   A method of a store is a function from the state to its result and the state after it; one that
--   may throw returns a `Result`, and the state in which it threw. `await` gives other calls the
--   chance to run only between two calls of a store, since no modelled method of a store awaits
--   anything but the store itself:
--   what other callers do in between is a sequence of steps, `Reach`, over which invariants are
--   proved and which stands in the theorems on what can no longer happen.
--   A method of a service is one function, as if it ran without interruption: what other requests do
--   while it awaits its stores, or while the loop of `claim` sleeps, is not modelled. A history of
--   the messaging service (Messaging/Service/Requests) is a sequence of whole requests.
--   A `Map` is an association list in insertion order, in which a write to a present key keeps its
--   place. An assignment to a field of a stored object is a write of the changed
--   record under its key; copies of it that a caller holds are not modelled.
--   An instant is its number of milliseconds. The program writes instants by `toISOString`, whose
--   texts are ordered as the instants are, and compares the texts. The order of sorting by them,
--   `localeCompare` in the source, is that same order; sorting is stable.
--   The messages of errors are left out.
--
-- Parameters, which stand for what is not in this repository: the clock, the random source, the
-- token hasher, SHA-256, the WHATWG `URL` class, zod's `z.url()` and `String.trim` (OAuth/Platform),
-- the digest of a list of texts and JSON texts (Repository/Memory), the cipher, the provider and the
-- sleep of the messaging service (Messaging/Service/World), the callbacks and JSON values of a
-- mutation (Mutation/World, Mutation/Request), the order of localeCompare (Account/Service), and whether the artifact store
-- removes an object (Household/Exports).
-- A theorem that needs two random texts to have different hashes says so in a hypothesis.
--
-- Bounds: the loop of `claim` (Messaging/Service/Work) runs on one unit of fuel for each millisecond
-- of the time that the caller is ready to wait, and two more; it sleeps at least a millisecond each
-- time round, and no further than to the deadline. All other recursion is on a list. Counts are of elements of lists,
-- far below 2^53.
--
-- Not modelled: the PostgreSQL stores, whose behaviour is that of SQL statements; the HTTP routes;
-- the web application; the providers of e-mail, object storage and git; `listActiveGrants`, whose
-- sorting by `localeCompare` of identifiers depends on the locale.
pub mod Prelude
pub mod Dict
pub mod Account
pub mod Auth
pub mod Household
pub mod Messaging
pub mod Mutation
pub mod OAuth
pub mod Repository
