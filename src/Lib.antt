-- ===== src/Lib.antt =====
-- Verification of the Question & Answers Platform API (TypeScript, express, Prisma).
--
-- The program. Controllers call managers (services/managers), which call repositories
-- (repositories), which call data sources for PostgreSQL or MongoDB. Errors are thrown as
-- ApplicationError and answered by one handler. Middlewares decide who may call a route. A watch
-- checks the connections in the background. This library models, for PostgreSQL:
--
--   Error      infrastructure/error/ErrorTypes.ts (Types), ErrorClassifier.ts (Classifier),
--              ApplicationError.ts (Application), middlewares/errors/appErrorHandler.ts (Handler).
--   Effect     a call of a service: a state that is passed on, and a value or a thrown error.
--   Content    types/content, models/interfaces/IAnswerModel.ts and IQuestionModel.ts.
--   Ancestry   the parent and the ancestors of an answer, of services/managers/AnswerManager.ts:
--              createAnswer, computeAncestors, computeAncestorsForAnswer (Chain), and
--              scripts/backfill-ancestors.ts (Backfill).
--   Answer     repositories/postgresql/AnswerPostgreSQLDataSource.ts (Source),
--              repositories/AnswerRepository.ts and base/BaseRepository.ts (Repository), and the
--              operations of services/managers/AnswerManager.ts that change answers (Manager). The
--              Prisma client is a parameter with its documented behaviour as laws (Prisma), and so
--              are the repository of questions and the search index; Question.Store has the former.
--   Question   services/managers/QuestionManager.ts: updateQuestion and deleteQuestion (Manager), over
--              repositories/QuestionRepository.ts and
--              repositories/postgresql/QuestionPostgreSQLDataSource.ts (Table, Source), and the same
--              repository as AnswerManager uses it, beside the answers (Store).
--   Account    services/managers/AuthManager.ts: requestPasswordChange, verifyPasswordChangeCode,
--              confirmPasswordChange and resetPassword (Password, Strength), over
--              repositories/postgresql/UserPostgreSQLDataSource.ts and
--              repositories/UserRepository.ts (Source), and registerUser over the roles
--              (Register). The table of users and bcrypt are parameters (Table).
--   Role       repositories/UserRoleRepository.ts, services/managers/UserRoleManager.ts and
--              repositories/postgresql/UserRolePostgreSQLDataSource.ts (Table, Assigned);
--              services/managers/RoleManager.ts, PermissionManager.ts and their data sources
--              (Catalog).
--   Follow     repositories/UserRepository.ts: followUser, unfollowUser, getFollowers and
--              getFollowing, over the table of follows (Table, Users).
--   Bookmark   services/managers/BookmarkManager.ts (Manager, Collections) over the interfaces of
--              its repository and cache (Model), whose laws are in Laws;
--              repositories/BookmarkRepository.ts (Repository) and
--              repositories/postgresql/BookmarkPostgreSQLDataSource.ts (Source) over the table of
--              bookmarks (Table).
--   Notification  services/managers/SmartNotificationManager.ts (Smart), with
--              services/strategies/SmartNotificationStrategy.ts (Strategy),
--              NotificationChannelRegistry.ts (Registry), MultiChannelNotificationManager.ts
--              (Direct) and QueueBasedNotificationManager.ts with the consumer of
--              services/providers/RabbitMQProvider.ts (Queue). Channels, users, the queue and the
--              store of notifications are parameters.
--   Access     infrastructure/auth/tokenHelpers.ts (Bearer), types/database.ts (Identity),
--              middlewares/authorization/authMiddleware.ts (Gate) and permissionMiddleware.ts
--              (Permission). jsonwebtoken and the services that are asked are parameters.
--   Monitor    services/ConnectionMonitorService.ts (Watch).
--   Common     tests on numbers and texts, and lists measured by native numbers.
--
-- Correspondence. A function of the source has its own name here in small letters with
-- underscores: likeAnswer is like_answer. A class is a record of its fields, an enum a data type,
-- `undefined` and `null` are told apart where the code does (Account.Source.Field). Numbers are
-- natural numbers, dates are milliseconds, and no operation here subtracts below 0. A call that
-- awaits is a sequence of steps without another request in between. The modules Memory hold
-- parameters that meet the laws, and the modules Tests apply the theorems to concrete inputs.
-- The sends that Promise.allSettled and Promise.all start at once run one after the other. A JS Map
-- is a list of pairs, in the order of insertion. The cache gives back the value that was put in:
-- there is no JSON round trip, after which dates would be texts. A client of the index may throw
-- here; the program's own (infrastructure/elasticsearch/ElasticsearchSyncService.ts) catches and logs
-- every error. Of an answer, relatedContents and updatedAt are left out, and so are fields of a
-- new answer beyond those of AnswerData.
--
-- Fuel. The recursion of the backfill over parents has 51 calls for at most 50 depths, and its loop
-- over batches one step for each document; both are enough. Every other loop of the modelled code
-- is structural.
--
-- Not modelled: controllers and routers, MongoDB, search and index, the data source of
-- notifications and the rest of RabbitMQProvider, the rest of QuestionManager, AdminManager, files,
-- logging, configuration, migrations, the signing of tokens, the joins for display. A limit of 0
-- for a page is left out (the source divides by it).
pub mod Common
pub mod Error
pub mod Effect
pub mod Content
pub mod Ancestry
pub mod Answer
pub mod Account
pub mod Bookmark
pub mod Access
pub mod Monitor
pub mod Notification
pub mod Role
pub mod Follow
pub mod Question
