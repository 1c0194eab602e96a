-- ===== src/Lib.antt =====
-- Verification of waverless, a service that queues inference tasks for serverless GPU endpoints and
-- scales the endpoints' deployments.
--
-- The parts and how they interact. A client submits a task for an endpoint; the row waits in the
-- table `tasks` until a worker of that endpoint pulls it, runs it and reports the result. Background
-- jobs put tasks of lost workers back and fail tasks that run too long. The autoscaler looks at the
-- queues: the instance that holds a lock in Redis lets the decision engine plan scale-ups,
-- scale-downs and preemptions within the cluster's resources, and the executor carries them out
-- through the deployment provider. The releaser watches workers that fail to start, terminates them
-- after a timeout, derives the health of their endpoints and scales unhealthy endpoints to 0. Before
-- it scales an endpoint up the executor asks whether its health blocks that. The endpoint service
-- keeps the settings of the endpoints in two tables and deploys, updates and scales them for the
-- HTTP handlers; a new deployment first has its image checked, with answers kept in a cache. The
-- status monitor finds out which pods fail and why, for the releaser. The
-- capacity manager keeps what is known of the machines of each spec, in memory and in a table.
--
-- Files and code.
--   Base/*          lists, Go's `int` and durations (two's complement of 64 bits, with the wrap-around
--                   written out), `float64` as a parameter, `sort.Slice`, maps with text keys.
--   Tasks/Table     internal/model/task.go, pkg/store/mysql/model/task.go and the statements of
--                   pkg/store/mysql/task_repository.go: Get `get`, UpdateFields `update_fields`,
--                   UpdateFieldsWithStatus `update_running`, SelectAndAssignTasks
--                   `select_and_assign_tasks`, CompleteCurrentExecution `complete_current_execution`.
--   Tasks/Service   internal/service/task_service.go (SubmitTask, CancelTask, UpdateTaskResult,
--                   requeueOrphanedTask, CleanupOrphanedTasks, CleanupTimedOutTasks) and one round
--                   of reclaimWorkerTasks of internal/service/worker_service.go.
--   Workers         the rest of internal/service/worker_service.go: HandleHeartbeat `handle_heartbeat`,
--                   PullJobs `pull_jobs`, CleanupOfflineWorkers `cleanup_offline_workers`.
--   Tasks/Runs      the writes of all these methods as events, in any order.
--   Tasks/Assignment, Life, Races
--                   the proofs.
--   Autoscaler/Types, Priority
--                   pkg/autoscaler/types.go and pkg/interfaces/autoscaler.go.
--   Autoscaler/ScaleUp, Fair, ScaleDown, Preempt, Engine
--                   pkg/autoscaler/decision_engine.go: shouldScaleUp `should_scale_up`,
--                   fairAllocation `fair_allocation`, shouldScaleDown `should_scale_down`,
--                   considerPreemption `consider_preemption`, MakeDecisions `make_decisions`.
--   Autoscaler/World, Recorder, Orphan, Executor
--                   pkg/autoscaler/executor.go, one function for each method. A method is an action on
--                   the log of its calls; the answers of the provider, the repositories, the worker
--                   lister and the clock are a parameter and may depend on the log.
--   Autoscaler/Collector
--                   pkg/autoscaler/metrics_collector.go: CollectEndpointMetrics
--                   `collect_endpoint_metrics`, UpdateReplicaSnapshot `update_replica_snapshot`.
--   Autoscaler/Calculator
--                   pkg/autoscaler/resource_calculator.go: CalculateEndpointResource
--                   `calculate_endpoint_resource`, CalculateClusterResources
--                   `calculate_cluster_resources`, the parsing of quantities.
--   Autoscaler/Control, Cycle
--                   pkg/autoscaler/manager.go: Control has Start, Stop, the control loop, the queue of
--                   targets and the configuration in Redis; Cycle has runOnce `run_once`, runForTargets
--                   `run_for_targets` and checkAndScaleDownIdleWorkers.
--   Autoscaler/Lock pkg/autoscaler/distributed_lock.go: TryLock `try_lock`, Unlock `unlock` with its two
--                   critical sections `begin_unlock` and `finish_unlock`, one tick of renewLock `renew`.
--                   Lock/Shared has several instances and their events.
--   Store/*         the statements about failures, heartbeats and health of
--                   pkg/store/mysql/worker_repository.go and pkg/store/mysql/endpoint_repository.go, over
--                   tables as lists of rows.
--   Store/Catalog, JsonColumns
--                   whole rows of the endpoints and of their configurations: the rest of
--                   endpoint_repository.go that is called here, autoscaler_config_repository.go and
--                   model/types.go, all of pkg/store/mysql.
--   Endpoints/Conversion, Metadata
--                   internal/service/endpoint/metadata.go: Save `save`, Get `get`, List
--                   `list_metadata`, Delete `delete_metadata`, and the conversions of rows.
--   Endpoints/Requests, Deployment
--                   pkg/interfaces/deployment.go and internal/service/endpoint/deployment.go: Deploy
--                   `deploy`, Update `update`, Delete `delete_deployment`.
--   Endpoints/Scaler
--                   internal/service/endpoint/scaler.go: ScaleUp `scale_up`, ScaleDown `scale_down`,
--                   GetScalingStatus `get_scaling_status`.
--   Endpoints/Handler
--                   UpdateEndpoint of app/handler/endpoint_handler.go.
--   Images/Cache    pkg/image/cache.go: Get `get`, Set `set`, Delete `remove`, Clear `clear`.
--   Capacity        pkg/capacity/manager.go and the updates of
--                   pkg/store/mysql/spec_capacity_repository.go: handleEvent `handle_event`, GetStatus
--                   `get_status`, checkSpots `check_spots`, loadFromDB `load_from_db`.
--   Pods/Mappings, Sanitizer
--                   pkg/status/sanitizer.go: the tables of messages, Sanitize `sanitize`.
--   Pods/Monitor    pkg/deploy/k8s/worker_status_monitor.go: ClassifyK8sFailure
--                   `classify_k8s_failure`, DetectFailure `detect_failure`, UpdateWorkerFailure
--                   `store_failure`.
--   Releaser        pkg/resource/releaser.go: CheckAndRelease `check_and_release` and all that it calls.
-- A module below one of these with another name holds proofs, and each Tests module the proofs at
-- concrete inputs.
--
-- How the model is built.
--   * A time is the nanoseconds since Go's zero time. A pass of the engine, a check of the releaser
--     and a method of the task service read the clock once. CleanupOfflineWorkers has the time that
--     MarkOffline reads, that of its own loop and that of reclaimWorkerTasks for each worker.
--   * Arithmetic on `float64` is a record of operations; theorems that need one of its laws say so.
--   * `sort.Slice` is the insertion sort that Go runs on short slices.
--   * Redis is a parameter with the documented behaviour of SETNX, GET, DEL and EXPIRE on one key. A
--     command may be carried out and answered, lost, or carried out with its answer lost. The lock
--     values of two instances differ, as the code intends with the time and the random number.
--   * A database statement can fail. Methods of the task service that read and then write take the
--     table at the read and the table at the write as two arguments, so that a theorem covers
--     whatever others write in between. SelectAndAssignTasks and requeueOrphanedTask write in one
--     transaction. Tables are in the order of their primary keys.
--   * An event of the capacity manager is noted in the cache under the lock and then written to the
--     table. Signals are received one after the other, each event handled to its end before the next:
--     the theorem on the cache and the table is about such runs, and Capacity/Tests shows what two
--     events that overlap leave behind.
--   * An action of the executor has a result or panics, on metadata that is nil without an error or on
--     resources that the calculator does not have; nothing is called after a panic.
--   * The loop of gracefulScaleDown recurses on the ticks that come before its timeout: 15 at most,
--     one every 2 seconds for 30 seconds. The theorems hold for every number of ticks. All other
--     loops recurse on their lists.
--   * The deployment provider, the image validator, Redis and the codecs of the image cache and of the
--     autoscaler's configuration are records of their answers. The loop that
--     scans Redis to clear the image cache recurses on the number of its scans that are answered within
--     the 10 seconds of its context: the next scan fails, and the loop ends with what it has done. The
--     theorems hold for every such number.
--   * GORM inserts the default of a column where a new row has the zero value, and sets the time of
--     an update; both are written out.
--   * Regular expressions are the functions that replace their matches. Letters have two cases in
--     ASCII only.
--   * Go leaves the order of a map's keys open; a table of messages is in the order of the source, and
--     the releaser's set of endpoints in the order in which it was filled.
--   * Error values carry what the callers test, and texts that are only shown are left out, as are log
--     messages, event identifiers and columns that nothing here reads or writes.
--
-- Not modelled: the HTTP layer but for one handler, the Kubernetes, Novita and Docker providers, the
-- requests to image registries, monitoring and statistics, configuration, the capacity providers,
-- volume mounts, and the timers that start the background jobs: they pass calls on to clients and
-- libraries. What the autoscaler's manager only shows (its status and the cache of the cluster's
-- resources) and its cleanup of old events are left out. The decision engine takes the calculator as
-- a parameter.
pub mod Autoscaler
pub mod Base
pub mod Capacity
pub mod Endpoints
pub mod Images
pub mod Pods
pub mod Releaser
pub mod Store
pub mod Tasks
pub mod Workers
