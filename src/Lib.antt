-- ===== src/Lib.antt =====
-- AWS AccessBridge: a broker of temporary AWS credentials. Users sign in to a Cloudflare Workers
-- application, hold grants for roles in AWS accounts, and receive session keys for a role that the
-- application assumes on their behalf, through a chain of principals that ends in stored base keys.
--
-- Parts and files:
--
--  Base                   what the modules share: library names, tests on numbers and texts, lists,
--                         errors as values (Base/Errors) and code that changes a store and may throw
--                         (Base/Exec: the store comes back beside an error too, since a throw undoes
--                         no write)
--  Crypto                 packages/backend-data/src/crypto/aes-gcm.ts: an envelope is read with the
--                         first key of a chain of keys that authenticates it
--  Arn                    packages/backend-services/src/aws/ArnUtil.ts, packages/shared/src/utils/aws.ts
--                         and the principal pattern of packages/shared/src/schema/common.ts
--  Credential/Model       the records of packages/shared/src/model that are passed around
--  Credential/Vault       the store: the tables credentials and credential_cache_config by primary key,
--                         the key-value namespace of the cache, and the settings
--  Credential/Table       packages/backend-data/src/dao/CredentialsDAO.ts, but for its walk
--  Credential/Cache       CredentialsCacheDAO.ts and CredentialCacheConfigDAO.ts beside it
--  Credential/Chain       the two walks over assumed_by: Chain/Cold is CredentialsDAO's
--                         getCredentialChainByPrincipalArn, Chain/Warm is
--                         getCredentialChainToFirstCachedPrincipal of
--                         packages/backend-services/src/credential/CredentialChainService.ts; Linked,
--                         Depth, Agreement and Cut prove what they return and how they agree
--  Credential/Store       CredentialStoreService.ts: the guarded writes, and what they do to the cache
--                         and to the registrations for the refresh (Store/Forgetting)
--  Credential/Walker      CredentialChainWalker.ts: the walk from the base to the target
--  Owner, Access          whose row a statement is about, and the grants: resolveOwner.ts,
--                         AssumableRolesQueries.ts and AssumableRolesDAO.ts; Access/Service is
--                         packages/backend-services/src/access/AccessService.ts
--  AssumeRole             packages/backend-services/src/aws/assume-role/AssumeRoleService.ts: the guarded
--                         request, the search for the closest cached credential and the role
--                         assumptions down to the target; AssumeRole/Sts is StsClient.assumeRole of
--                         packages/provider-clients/src/aws; AssumeRole/World records the calls to STS
--  Identity               UserIdentityService.ts and AddressRegistryService.ts of
--                         packages/backend-services/src/identity over UserEmailDAO.ts (Identity/Emails)
--                         and UserMetadataDAO.ts (Identity/Users): the account behind an address, with
--                         the fallbacks for old databases (Identity/Resolver), the change and the link
--                         of an address (Identity/Addresses), and the memory of a scope (Identity/Memo);
--                         Identity/Plan is scripts/ops/change-email-plan.ts
--  Auth                   apps/api/src/middleware/MiddlewareHandlers.ts, RequestGuards.ts beside it and
--                         packages/backend-services/src/auth/AccessAuthService.ts: as whom a request is
--                         authenticated, through Internal and Token
--  Cost                   packages/backend-services/src/cost/CostService.ts: the summary of costs over
--                         CostDataDAO.ts
--  Token                  packages/backend-services/src/auth/TokenService.ts and UserAccessTokenDAO.ts:
--                         personal access tokens by their digest
--  Collect                the pages and the regions of BaseAwsCollector.ts (Collect/Pages,
--                         Collect/Regions), the inventory of an account of
--                         apps/background/src/scheduled/ResourceInventoryCollectionTask.ts
--                         (Collect/Inventory) and the batch of AbstractCollectionTask.ts beside it
--                         (Collect/Batch)
--  Refresh                apps/background/src/scheduled/CredentialCacheRefreshTask.ts: the batch that keeps
--                         the intermediate principals of registered chains in the cache
--  Scheduled              apps/background/src/CronTasksWorker.ts: the guard against overlapping runs
--                         (Scheduled/Worker) and the phases of a tick (Scheduled/Tasks: the calls of the
--                         tasks and their settlements as events, in any order of settling), over
--                         scheduled/TaskRegistry.ts, and the pruning of scheduled/AbstractPruningTask.ts
--  Migrations             scripts/migrations/lock-check.ts: the names of migrations, the lock and its
--                         parser, the check, and the lock that a write leaves
--  Onboarding             apps/web/src/lib/onboardingWizard.ts; Onboarding/Credentials is
--                         apps/web/src/hooks/onboarding/useCredentialsStep.ts with its calls that answer
--                         later, Onboarding/Batches onboardingBatches.ts
--  Locales                scripts/i18n: the rules of locale-checks.ts over the bundles of translations,
--                         the calls of t() (Locales/Calls) and the run of validate_locales.ts
--                         (Locales/Run); Passing proves when the run exits with 0
--  Logging                packages/shared/src/utils/Logger.ts: what a log line shows of its fields
--  Internal               apps/api/src/middleware/HMACHandler.ts and the replay guard of
--                         packages/backend-services/src/auth/ReplayGuard.ts; at each claim the key-value
--                         store may show what was last written, show nothing of it yet, or throw
--  Team                   packages/backend-services/src/team/TeamService.ts: Team/Members is
--                         TeamMembersDAO.ts, Team the removal and the change of role, and
--                         Team/Administration the other writes, over TeamsDAO.ts and TeamAccountsDAO.ts
--  Http                   packages/backend-services/src/http: which failures are worth another attempt,
--                         and the attempts of RetryingAwsClient
--
-- How they interact: AssumeRole parses the ARN (Arn), tests the grant (Access) for the owner (Owner),
-- walks the chain (Credential/Chain) over the rows (Credential/Table) and the cache
-- (Credential/Cache), both of which decrypt through Crypto, and calls STS (AssumeRole/Sts).
-- Credential/Store writes the rows and invalidates the cache that the walk reads.
--
-- State is passed on: a DAO operation is a function of the store. Tables are functions of their
-- primary key, or lists of rows where a statement selects several. A text is compared exactly, as
-- SQLite compares it; a comparison with NULL selects no row.
--
-- Parameters: the AES-GCM cipher (with its promise to open its own envelopes as a named
-- hypothesis), the randomness an encryption draws, the time, the signed fetch, what STS answers,
-- the engine of regular expressions, and JavaScript's Number with its arithmetic on amounts of
-- money; what the server says of keys that are checked in the browser, the test for a missing
-- schema, the digest of a token, the calendar, JSON.parse and the order of localeCompare, the check
-- of a web token, and the test for the daily limit of the database. The identity lookup, the
-- account's session name and the role's configured duration are operations of an interface of
-- AssumeRole. An address is put in lower case as ASCII text.
--
-- Fuel: both walks are do-while loops that throw at the trust chain limit. They run on one unit more
-- of fuel than the limit; that this is enough for the cold walk is among the results. The walk over
-- pages reads at most fifty, which is its fuel; that its answer never comes from a lack of it is among
-- the results.
--
-- Left out: the request schemas and the HTTP endpoints, which only call the services; the audit
-- entries and the headers of a response; the requests of the single collectors, whose answers are
-- parameters; the run records, which a third-party template writes; the rest of the web
-- application; the listing queries with their joins and their order; a write that fails where a table
-- is otherwise there, so that the three writes of setPrimaryEmail are all done or none; the delay with
-- which the namespace of the credential cache shows a write; the validation of base keys, which only
-- calls AWS; the text of an error beyond what is fixed in the source, and the prefix before each
-- cache key.
pub mod Access
pub mod Arn
pub mod AssumeRole
pub mod Auth
pub mod Base
pub mod Collect
pub mod Cost
pub mod Credential
pub mod Crypto
pub mod Http
pub mod Identity
pub mod Internal
pub mod Locales
pub mod Logging
pub mod Migrations
pub mod Onboarding
pub mod Owner
pub mod Refresh
pub mod Scheduled
pub mod Team
pub mod Token
