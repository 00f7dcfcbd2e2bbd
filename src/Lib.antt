-- ===== src/Lib.antt =====
-- The admission scheduler for LLM backends: clients submit jobs over HTTP, the admission controller
-- queues them in Redis by priority, one dispatcher for each model claims one of the model's slots for
-- a job and forwards it to LiteLLM, and two background tasks repair what a crash leaves behind. The
-- parts share no memory: each acts on the others' data in Redis, command by command.
--
-- Which file models what:
--   Base, Base/*: names of the library passed on, Boolean tests, integers over the native naturals,
--     texts, Python's str of an integer.
--   State (app/state.py): JobStatus, EventType, ErrorClass, AdmissionResult with their texts,
--     JobRequest, AdmissionOutcome.
--   Config (app/config.py): ModelConfig with its validators, AppConfig.model_config_for.
--   Keys (app/storage/redis_keys.py): the names of the keys, as a data type with `render`.
--   Redis, Redis/*: the server that the code talks to, as a parameter, and the coroutines that send
--     commands to it.
--   Scripts, Scripts/* (app/storage/redis_lua.py): the scripts claim_slot, cancel_queued, enqueue_job.
--   Metrics (app/observability/metrics.py), EventLog (app/observability/jsonl_logger.py): what is
--     counted and logged, as entries of a trace.
--   EventLog/* (app/observability/jsonl_logger.py): the queue, the writer and the files of JSONLLogger.
--   Python: `int` of a text, and the handlers of RedisError that many methods have.
--   Admission, Admission/* (app/core/admission.py): AdmissionController.admit, the score, the order.
--   Dispatcher, Dispatcher/* (app/core/dispatcher.py): DispatcherWorker.run and all that it calls.
--   LeaseWatcher (app/core/lease_watcher.py): LeaseWatcher._scan_all_models and what it calls.
--   Integrity (app/core/integrity.py): IntegrityChecker._check_all_models and what it calls.
--   Slots, Slots/*: what the dispatcher, the two background tasks, the submissions and the cancellation
--     do to the bound on slots; Slots/System has all of them at once, as a history of
--     states in which any of them may send the next command.
--   Tests, Tests/*: runs on concrete inputs.
--   Api, Api/* (app/api/routes.py, app/api/schemas.py): POST /jobs, POST /v1/chat/completions with its
--     wait, GET /jobs/{job_id}, POST /jobs/{job_id}/cancel, GET /queues and GET /health. Whether a
--     request is asynchronous, its body and its headers are given; what the subscription yields and
--     the monotonic clock are parameters (Listener), and so is what Python makes of the texts of a
--     job (Readers).
--   JobStore, JobStore/* (app/storage/job_store.py): JobStore, with the compression given.
--   Startup, Startup/* (app/main.py): what the start writes to Redis for each model.
--   Forwarder, Forwarder/* (app/backend/litellm_forwarder.py): extract_backend_target, forward,
--     check_health.
--   Uuid, Uuid/* (app/core/uuid7.py): uuid7.
--   Orchestrator/Text, Glob: Python's texts and fnmatch with stars, as far as the orchestrator uses them.
--   Orchestrator/Charter, Charter/* (orchestrator/charter_rules.py): the rules for pull requests, and what
--     they look for, stated without the code (Reflect, Meaning, Traces, Keywords).
--   Orchestrator/Actions, Actions/*, Labels: the actions of the agents, and the coroutines of them.
--   Orchestrator/Ceo, Ceo/* (orchestrator/roles/ceo.py): CEOAgent.
--   Orchestrator/Backend, Backend/* (orchestrator/roles/backend.py): BackendAgent.
--   Orchestrator/Triage, Triage/* (orchestrator/roles/triage.py): TriageAgent.
--   Orchestrator/Budget, Budget/* (orchestrator/budget.py): check_and_reserve, commit, remaining.
--   Orchestrator/Llm, Llm/* (orchestrator/llm.py): call.
--   Orchestrator/Roles, Roles/* (orchestrator/config.py): ROLES, role, _load_dotenv.
--   Orchestrator/Json: values of JSON.
--   Orchestrator/Extract (orchestrator/roles/backend.py and triage.py): _extract_json of both agents.
--   Orchestrator/Github, Github/* (orchestrator/github_app.py): GitHubApp, with its token.
--   Orchestrator/Worktree, Worktree/* (orchestrator/worktree.py): the worktree of an issue.
--   Orchestrator/Daemon, Daemon/* (orchestrator/main.py): loop and amain.
--
-- How the model stands to the code:
--   Redis is not part of the repository. A server is a function from a command and the data to a
--   reply and new data; the hypothesis IsRedis says that it answers each command as Redis documents
--   it. A command on a key of another type, and INCR on a text that is no number, do not occur. Keys
--   are values of the type Key in place of their texts, which `render` gives.
--   A coroutine is a function on a World: the data, the number of commands sent so far, and the trace
--   of metrics and events. Each command may fail with a RedisError (`down`, by the number of the
--   command) and then has no effect; before each command the other clients may change the data
--   (`others`). A pipeline is a MULTI/EXEC transaction and a script is atomic: each counts as one
--   command. Exceptions are values, and handlers run or pass them on by their kind.
--   The clock, the hash of an idempotency key and the ids of jobs are given. Times are natural numbers of
--   nanoseconds where the code has floats of seconds. The score is an integer: the float of the code
--   is exact below 2 ^ 53. JSON values that are only passed on are their texts. What Python's int,
--   fromisoformat and json.loads make of a text are parameters of the worker.
--   The orchestrator is another program, whose agents review and write pull requests. Its coroutines are
--   functions on the list of actions so far: each action on GitHub, the audit file, the worktree, the
--   budget or the language model may fail, by the number of actions before it, and so the agents'
--   surroundings (GitHub, Env) are arbitrary. What actions do outside is not modelled. The budget has a
--   model of its own, with a Redis of its own.
--   The client of GitHub, the worktrees, the daemon and the writer of the event log have models of their
--   own, each over the requests, commands or calls that were sent before: how one of them ends, and what
--   the time is then, are functions of their number. The lock of GitHubApp.token makes each call of it
--   one step after another; the writer awaits nothing while it writes, so that its turn is one step.
--   asyncio.gather of two reads is the two reads one after the other, with the other clients between.
--
-- Fuel: a dispatcher runs forever, so `run` takes the number of turns of the loop that are looked at,
-- and `claim_loop` the number of rounds of waiting for a slot, and both are any numbers: no bound is
-- chosen. `wait_loop` takes the number of rounds that a request waits; each round sends a command, so
-- that more rounds than commands until the deadline are enough. `loop` of the daemon takes the rounds
-- that are allowed; as many as there are happenings before the signal are enough.
--
-- Not modelled: reading the YAML file, the resources that the application opens and the tasks that it
-- starts, the Prometheus registry, the HTTP framework, the forwarder's client, the wording of the
-- prompts of the agents, `json.loads`, the lines of the orchestrator's audit file and the arguments of
-- its command line.
pub mod Base
pub mod State
pub mod Keys
pub mod Redis
pub mod Scripts
pub mod Config
pub mod Metrics
pub mod EventLog
pub mod Admission
pub mod Python
pub mod Dispatcher
pub mod Slots
pub mod LeaseWatcher
pub mod Integrity
pub mod JobStore
pub mod Startup
pub mod Api
pub mod Orchestrator
pub mod Uuid
pub mod Forwarder
pub mod Tests
