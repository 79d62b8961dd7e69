-- ===== src/Lib.antt =====
-- A model of the anchoring service: Merkle trees over indexed events, their roots posted to an IOTA
-- node, and proofs of inclusion served from a database.
--
-- The program's parts, and the files that model them:
--   src/app/crypto/merkle.py               Merkle and below it: Node (the data), Hash (leaf and parent
--                                          hashes), Tree (construction), Proof (get_proof), Verify
--                                          (verify_proof), Compact (the serialised forms)
--   src/app/services/anchor_service.py     Anchor (AnchorRecord, AnchorStatus), Service.Anchors
--   src/app/services/iota_client.py        Iota.Client, Iota.Message (the bytes of a message)
--   src/app/db/repository.py               Repository.Anchors and Repository.Items, with the tables of
--                                          alembic/versions/001_create_anchor_tables.py
--   src/app/services/event_consumer.py     Consumer
--   src/app/services/anchor_workflow.py    Workflow.Job
--   src/app/services/reconciliation.py     Reconciliation.Retry (one anchor) and Reconciliation.Run
--                                          (the three loops)
--   src/app/api/v1/endpoints/anchors.py    Api.Answer, Api.Verify, Api.Queries
--   src/app/main.py                        System.Startup (lifespan), System.Jobs (the scheduled jobs),
--                                          System.Probes, System.Reach (runs of the application)
--   src/app/db/session.py                  System.Session
--   src/app/core/config.py, auth.py        Core.Config, Core.Auth
--   src/app/metrics/anchor_metrics.py      Metrics.Anchoring, Metrics.Upkeep, Metrics.Recording
-- The definitions keep the names of the functions and methods, without a leading underscore. The
-- other modules below these hold the proofs.
--
-- How they interact: the workflow takes an advisory lock, has the consumer fetch a window of events,
-- builds a tree of their hashes, has the service post the root through the client, and stores the
-- anchor and one item per event through the repository, in one transaction. The reconciliation
-- retries and confirms stored anchors; the endpoints run the job, list what is stored, and verify an
-- event against a stored proof. The scheduler runs the daily job and the reconciliation, each in a
-- session of its own; the middleware stands in front of the endpoints.
--
-- State: World.Types.World has the tables as the session sees them and as they are committed, the
-- advisory lock, the clock, the client's connection and the service's pending anchors. An action is a
-- function from a world to a result and a world (World.Exec); an exception is a value of Exception, and
-- what was written before it stays. A SQL statement is a function of the tables. What the package does
-- not contain is in World.Types.Env, a parameter: SHA-256, the node's replies, the faults of the
-- database, the time that calls take, drawn ids, and tenacity's retrying, whose documented behaviour
-- is the hypothesis Iota.Submission.IsRetrying. Texts are lists of code points, times are numbers of
-- microseconds, ids are numbers.
--
-- Loops that do not run along a list have fuel: the levels of a tree and the climb of a proof have as
-- much as there are leaves, since a level is shorter than the one below it, and the wait for a
-- confirmation has one round more than its timeout in seconds, since a round sleeps for a second at
-- least when the poll interval is above zero. A number of a message is
-- written with at most twenty digits.
--
-- Not modelled: src/alembic/env.py and deployment; logging; the Prometheus metrics of the services,
-- which no decision reads; the fields of the settings that are only handed on; the zones of datetimes;
-- replies of the node whose JSON is no object or has a null protocol, on which the client's get fails;
-- the order of rows that a query leaves open; two sessions at once, other than through the advisory
-- lock and the tables found at the start of a session.
pub mod Prelude
pub mod Text
pub mod Merkle
pub mod Anchor
pub mod World
pub mod Repository
pub mod Iota
pub mod Service
pub mod Consumer
pub mod Workflow
pub mod Reconciliation
pub mod Api
pub mod Tests
pub mod Core
pub mod Metrics
pub mod System
