-- ===== src/Lib.antt =====
-- A model of nexus-services, a chat backend written in Go: an HTTP API whose use cases keep
-- users, sessions, chats and messages in MongoDB; a transactional outbox that a publisher moves
-- to NATS JetStream; and a dispatcher that tells the connected clients of each message.
--
-- The way of a message, and the files that model it:
-- - messages/create.go of internal/application (Messages/Request, Messages/UseCase): `execute` is
-- CreateUseCase.Execute, split at the call of the store into `prepare` and `persist`.
-- - internal/resources/mongodb/message_store (Messages/Document, Messages/Database,
-- Messages/Store, Messages/Creation): `create_with_outbox` is CreateWithOutbox,
-- `create_operation` the function that createTransaction runs in a transaction, `attach_image`
-- and `allocate_sequence` its parts. Messages/Transaction, Messages/Outcome,
-- Messages/Consistency, Messages/Newest, Messages/Resubmission, Messages/Roundtrip and
-- Messages/Requests hold the proofs.
-- - internal/resources/mongodb/outbox_repository (Outbox/Document, Outbox/Repository):
-- `claim_next`, `mark_published`, `mark_failed`, `schedule_retry` and `recover_expired` carry the
-- names of the methods of Repository. Outbox/Lifecycle, Outbox/Operations, Outbox/Leases and
-- Outbox/Claims hold the proofs.
-- - internal/application/outbox/publish_one.go (Outbox/Worker, proofs in Outbox/Worker/Runs):
-- `run_once` is PublishOne.RunOnce.
-- - internal/drivers/worker/delivery_runner/runner.go (Delivery/Runner, proofs in
-- Delivery/Endings): `process_message` is Runner.processMessage.
-- - internal/application/delivery/dispatch.go (Delivery/Dispatch, proofs in
-- Delivery/Notifications): `dispatch` is DispatchMessageCreated.Dispatch.
-- - internal/resources/mongodb/message_rate_limiter/limiter.go (RateLimiter, proofs in
-- RateLimiter/Limits and RateLimiter/Waits): `reservation_pipeline` is the pipeline of
-- reservationPipeline, `reserve` is Limiter.Reserve.
--
-- Users, their sessions and their connections:
-- - internal/application/auth (Auth/Ports, Auth/Tokens, Auth/Refresh, Auth/Signin,
-- Auth/Authenticate, Auth/Logout): `refresh`, `signin`, `signup`, `authenticate`, `logout` and
-- `current_session` are the methods Execute of the use cases, split into named steps in the order
-- of the code. Auth/Log writes down the calls that matter; Auth/Claims, Auth/Issue,
-- Auth/Refresh/Renewals, Auth/Refresh/Outcomes, Auth/Refresh/Runs, Auth/Signin/Openings,
-- Auth/Signin/Signins, Auth/Authenticate/Accesses and Auth/Logout/Endings hold the proofs.
-- - internal/resources/mongodb/session_repository (Sessions/Document, Sessions/Repository):
-- `create`, `find_by_id`, `find_by_ids`, `rotate` and `revoke` carry the names of the methods of
-- Repository. Sessions/Refinement, Sessions/Rotations, Sessions/Revocations and Sessions/Finality
-- hold the proofs.
-- - internal/resources/mongodb/user_repository (Users/Document, Users/Repository, proofs in
-- Users/Order and Users/Pages) and users/list.go of internal/application (Users/Listing): `list`
-- is Repository.List, `execute` is ListUseCase.Execute.
-- - internal/resources/mongodb/chat_repository (Chats/Document, Chats/Repository, Chats/Listing,
-- proofs in Chats/Roundtrip and Chats/Pairs): `get_or_create_direct`, `find_by_id` and
-- `list_by_participant` are the methods of Repository; an upsert is the interface
-- Mongo/Upserting. chats/create_direct.go of internal/application (Chats/Direct,
-- Chats/CreateDirect, proofs in Chats/Addressed): `create_direct` is CreateDirectUseCase.Execute,
-- which does not look at the account that the user repository returns. Chats/Wired puts it over
-- the two repositories as cmd/api/bootstrap.go does, and Chats/Partners follows a chat to the
-- stored documents.
-- - internal/drivers/websocket (Websocket/Connection, proofs in Websocket/Queue;
-- Websocket/Gateway, proofs in Websocket/Counts and Websocket/Limits): `enqueue`, `activate` and
-- `request_close` are the methods of connection and `next_write` a round of its writeLoop;
-- `reserve`, `release`, `prepare`, `fail_user` and `shutdown` are the methods of Gateway, one
-- step for each block under its lock. The relations Step are the interleavings.
--
-- The entities these share are internal/domain (Domain/User, Domain/Chat, Domain/Session,
-- Domain/Timeline), internal/ports (Ports) and the asset of internal/domain/image
-- (Images/Document). Shared has results, actions with a state, instants and integers; Text has
-- byte strings with the functions of the packages strings and utf8 that the program calls.
--
-- How it is modelled:
-- - A Go string is a list of bytes, an id its string; the nil pointers of ids and entities are
-- left out, except where code tests a pointer that a port returns.
-- - The lower case of a string and the parser of net/mail are a parameter, MailSyntax; so is the
-- parser of times in a cursor. The key of an index in an error message is a Boolean that the
-- repository is given.
-- - An instant is the number of nanoseconds since the zero time of Go, so 0 is the time for which
-- IsZero holds; a duration is a number of nanoseconds. The rounding of stored times to
-- milliseconds is not modelled. The rate limiter counts in milliseconds, as its stored documents
-- do.
-- - A function that returns an error returns a Result, whose errors are those that a caller or a
-- branch of the code tells apart; the texts of errors and the log are left out.
-- - The MongoDB driver is the interface Mongo/Interface: a collection with its calls, each with
-- the law of its outcome, failures that were carried out all the same included. Mongo/Memory
-- fills it with a list. A transaction is the interface Transactions of Messages/Database: its
-- operation takes effect as a whole or not at all, and the driver may fail after the commit. What
-- other clients do between the lookups of CreateWithOutbox and its transaction is a function of
-- the state, a parameter.
-- - Other services, the clock, random numbers, JSON and generated ids are ports over a world of
-- their own, parameters of the step that calls them. A timeout is a reply with an error.
-- - int64 sequences are integers; every one that the code accepts is at most 2^53 - 1, so no
-- operation on them wraps. A stored last sequence is a natural number.
-- - No definition runs on fuel: all recursion is structural.
--
-- Not modelled: the use case of chat lists, the use cases and repositories of timeline pages and
-- images, the handshake of the websocket gateway, its timers and its check of the sessions, the
-- HTTP layer, configuration, the adapters of libraries (NATS, JWT, argon2) and the rest of the
-- programs' wiring, and the endless loops of the workers around the steps that are modelled. The
-- server's removal of expired sessions, by the index sessions_expiration_ttl, is not modelled
-- either: the sessions of the model stay, and an id is not free again after its session expired.
pub mod Shared
pub mod Text
pub mod Domain
pub mod Mongo
pub mod Ports
pub mod Outbox
pub mod Chats
pub mod Images
pub mod Messages
pub mod Delivery
pub mod RateLimiter
pub mod Sessions
pub mod Auth
pub mod Websocket
pub mod Users
mod Tests
