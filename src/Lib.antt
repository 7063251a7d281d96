-- ===== src/Lib.antt =====
-- Verification library of the Xolo API: who may do what to a resource, in the four ways in which the
-- service answers, and what its requests keep that the answers rest on.
--
-- The parts of the program and the files that model them:
--
--  - `Errors` is xoloapi/errors/base.py: the error values with message, code and HTTP status.
--  - `Exec` is a coroutine of the services: explicit state, and a value or an error (`Ok` and `Err` of
--    the `option` package, where `if r.is_err: return r` is the bind).
--  - `World` is the state that the services share: the collections of MongoDB, how many calls have
--    been made, and which calls meet an outage. `Platform.Mongo` is the interface of the database,
--    with what its documentation promises as laws, and an in-memory instance that meets them;
--    `Platform.Text` has Python's `strip`, and its Unicode tables as an argument.
--    `World.Rules` are the rules by which properties go through coroutines.
--  - `Traversal` is the breadth-first loop (`collections.deque` and a visited set) that NGAC and RBAC
--    share, on fuel. Its first queue and all edges of the dict are enough fuel
--    (`Traversal.Correct.walk_decides`), and the callers pass exactly that.
--  - `Users.Resolution` is xoloapi/users/application/user_resolution.py with the two lookups of
--    xoloapi/users/infrastructure/mongo_repository.py.
--  - `Ngac` is xoloapi/ngac. `Ngac.Graph` is `NGACGraph` of domain/services.py, `Ngac.Repository` is
--    `MongoNGACRepository`, `Ngac.Service` is `NGACService`, method by method under the source's names.
--    `Ngac.Invariant` says what a well-formed policy graph is, `Ngac.Safety` has what each operation
--    does to it, and `Ngac.Requests` lines the operations up.
--  - `ApiKeys` is xoloapi/apikeys with xoloapi/middleware/apikey.py: `ApiKeys.Repository` is
--    `MongoAPIKeyRepository`, `ApiKeys.Service` is `APIKeyService`, and `ApiKeys.Access` has the
--    dependencies that let a request through, for one without a platform session.
--    `ApiKeys.Invariant`, `ApiKeys.Keeping` and `ApiKeys.Requests` are about what operations leave,
--    `ApiKeys.Retired`, `ApiKeys.Accepted` and `ApiKeys.Deciding` about which secrets are let
--    through, and `ApiKeys.AdminTokens` about the test of an admin token.
--    `World.Told` and `World.Passes` have the rules for the value of a coroutine that also writes.
--  - `PlatformUsers` is xoloapi/platform_users, the users of the console: `PlatformUsers.Types` what they may
--    do, `PlatformUsers.Repository` and `PlatformUsers.Service` are `MongoPlatformUserRepository` and
--    `PlatformUserService`, `PlatformUsers.Keeping` and `PlatformUsers.Requests` are about the
--    administrators that stay.
--  - `Acl` is xoloapi/acl: `Acl.Policy` has the methods of `ResourcePolicy` under the source's names;
--    its children have the ownership rule, the checks and what grants and revocations change.
--    `Acl.Repository` is `MongoResourcePolicyRepository`; `Acl.Principals`, `Acl.Reading` and
--    `Acl.Service` are `ACLService`: whom a caller acts for, what only reads, what writes.
--    `Acl.Effects` says what an operation may make of the database, `Acl.Requests` lines the
--    operations up, `Acl.Deciding`, `Acl.Guards` and `Acl.Listing` are about checks, permissions and
--    pages. `World.Reads` and `World.Ends` have the rules for what a coroutine learns before it
--    writes, and for what it leaves.
--  - `Rbac` is xoloapi/rbac: `Rbac.Permission` the tokens, `Rbac.Hierarchy` the two loops of
--    `RBACDomainService`, `Rbac.Repository` the three repositories, `Rbac.Service` the operations of
--    `RBACService` on roles, with `Rbac.Safety` and `Rbac.Requests` as for NGAC; `Rbac.Assigning`
--    has the operations on assignments and `Rbac.Checks` the checks, which read `Groups.Repository`,
--    the lookups of `MongoSecurityGroupRepository`. `World.Calm` says what a coroutine that only
--    reads returns where no outage strikes.
--  - `Groups` is xoloapi/groups: `Groups.Repository` is `MongoSecurityGroupRepository`, `Groups.Service`
--    and `Groups.Members` are `GroupService`, on groups and on their members; `Groups.Invariant` says
--    what holds of groups and memberships, `Groups.Safety`, `Groups.Keeping` and `Groups.Transfer` that
--    each operation keeps it, `Groups.Requests` lines the operations up, and `Groups.Atomic` is about
--    additions that are made all or none.
--  - `Abac` is xoloapi/abac: `Abac.Pattern` is `pattern_matches`, `Abac.Events` the tests of an event
--    against a request, `Abac.Evaluator` the loops of `ABACEvaluator.evaluate`, `Abac.Documents` the
--    validators and the format of the stored policies, `Abac.Repository` and `Abac.Service` are
--    `MongoABACRepository` and `ABACService`; `Abac.Deciding`, `Abac.Effects` and `Abac.Requests` say
--    what they answer and what they leave. `World.Does` has the rules for what a coroutine returns and
--    leaves where no outage strikes.
--
-- Conventions. Sets are lists whose order is not used, dicts are association lists in insertion order.
-- A fresh id (`nanoid`) is an argument. Whether an optional collaborator was given to a service
-- (`users`, `acl`, `catalog`) is a Boolean argument, and the present time is an argument where it is
-- stored. Log lines and the metadata of errors are left out, since no operation that is modelled reads
-- them. One request runs at a time: races
-- between requests are not modelled. An outage may strike at any call of the database; what was
-- written before it stays written, but for the batches on members of a group, which run as a transaction
-- where the server is a replica set. Which failures of a transaction `_run_batch` takes for a sign that
-- there are none, and then makes the calls again without one, is an argument (`Groups.Repository.Server`).
-- A page of a query without an order is any part of the found documents, of the size that MongoDB
-- documents. Where Python raises an exception that the code does not catch (comparisons of texts outside
-- ASCII by `compare_digest`, of a time of the day with one that has an offset), a test is none and the
-- operation ends in `uncaught`. The unique index on resource policies is taken to exist, which
-- scripts/migrate_authorization.py creates.
--
-- Not modelled: the HTTP controllers and DTOs; platform sessions; the user, license, scope and
-- account services; audit, notifications and configuration; the client library and the user interface.
pub mod Base
pub mod Errors
pub mod Exec
pub mod Platform
pub mod World
pub mod Traversal
pub mod Users
pub mod Groups
pub mod Acl
pub mod Rbac
pub mod PlatformUsers
pub mod ApiKeys
pub mod Abac
pub mod Ngac
