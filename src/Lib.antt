-- ===== src/Lib.antt =====
-- The inspection system: a Flask application (app.py) over an SQLite store (models.py) that keeps
-- servers, runs inspections in the background, watches the configuration of the servers, and lets a
-- language model use tools under a person's control (ai_service.py, ai_tools.py).
--
-- How the parts interact. Every request passes the hook of app.py (Gate), which reads the account
-- behind the session and asks role_policy.py (Roles) whether its role may reach the path; the login
-- (Login) is what puts a name into the session. Inspections are rows of a queue (Runs) that workers
-- claim. A sample of a server is compared with its confirmed configuration (Resource), and the
-- snapshot of its disks with earlier ones (Disk); an inspection does both (Inspect). A chat is admitted
-- (Chat.Start), gets a provider (Chat.Provider), and runs in a thread (Chat.Worker) that tells the
-- model the history (Chat.History) and takes it through rounds of tool calls (Chat.Loop). A tool call
-- is run, submitted for confirmation or refused by the access mode of its stream (Stream); what waits
-- for a person is a row of the table of actions (Actions), which `approve_action` and `reject_action`
-- decide (Chat.Approve).
--
-- Files, and the code they are about:
--   Roles        role_policy.py: can_access, normalize_role
--   Web          what the handlers of app.py see of Flask: session, request, reply
--   Gate         app.py: enforce_request_security, login_required, role_required
--   Login        app.py: api_login and the lock; models.py: get_user, update_user_password;
--                Login.Password: api_update_password, api_logout; Login.Reveal: the requests that
--                show stored credentials
--   Runs         models.py: the table inspection_runs and its operations; Runs.Worker: a turn of
--                queue_worker_loop in app.py; Runs.Schedule: dispatch_scheduled_tasks and
--                enqueue_inspection there
--   Json         JSON values; Json.Redact: ai_service.py, _redact_sensitive_payload
--   Resource     resource_audit.py; Resource.Store: the three tables behind it in models.py;
--                Resource.Expected: payload_matches; Resource.Evaluate: evaluate_resource_configuration;
--                Resource.Request: api_decide_resource_event in app.py
--   Disk         disk_audit.py: the snapshot, the lookups, findings; Disk.Devices: names of devices;
--                Disk.Structure, Disk.Signals, Disk.Space: the checks; Disk.Audit: compare_disk;
--                Disk.Store: the table disk_snapshots in models.py
--   Inspect      app.py: audit_server_disk, attach_open_resource_change
--   Actions      models.py: the table ai_actions and its operations
--   Stream       ai_service.py: class _Stream, read_stream, request_cancel, _cleanup_streams,
--                active_stream_for
--   Tools        ai_tools.py: TOOL_SPECS, execute, the handler of action tools
--   Chat         ai_service.py: _handle_tool_call and what it calls; Chat.Store: the tables it writes;
--                Chat.Approve: approve_action and reject_action; Chat.History: history_messages,
--                _load_tool_calls, _wire_calls; Chat.Loop: _run_chat; Chat.Worker: _worker, _finalize;
--                Chat.Provider: resolve_provider and its checks; Chat.Start: start_chat
--   Common       lists, tests, equality, texts and dictionaries that the others share
-- Each component's child modules hold its laws, and its Tests the tests and the instances.
--
-- Correspondence. An operation has the name of the function that it translates. It takes the state and
-- returns the new one with the result; a table is the list of its rows in the order of insertion, with
-- the number that AUTOINCREMENT gives next. A transaction, or a method under a lock, is one step, so an
-- interleaving of callers is a sequence of steps. Times are whole seconds, or the clock's ticks for
-- sessions; an UPDATE is `update_where`, and its row count is `count`. Columns of JSON text hold the
-- value that the text parses to. Loops run over lists and end with them, but for the loop of
-- `_run_chat`, which runs on fuel: one round more than AI_MAX_TOOL_ROUNDS, which is enough since every
-- round that is followed by another raises the number of rounds, and no tools are offered from the
-- limit on. A cancellation is heard where a round begins, or comes as the model's error. Where an
-- exception of the database decides what follows (the start of a chat, its tool calls and its end, the
-- audit of the disks), an argument says which write raises.
--
-- Parameters stand for code that is not in the repository: `lower` for str.lower, `dumps` for
-- json.dumps, the cipher of crypto_utils.py's library, the hashes of hashlib and werkzeug,
-- Python's formatting of numbers and times, and random tokens.
-- The functions behind the tools and the executors of the actions are parameters too: they reach
-- servers over SSH or call services.
--
-- What the model answers is a parameter, and so are the clock and the cancellations of other requests.
-- Floats of the disk audit are exact fractions, and their texts parameters.
--
-- Not modelled: the collection of samples over SSH and the parsers of the disk audit, reports and
-- exports, the streaming client, the insights and the rule engine's texts, service discovery, the
-- captcha's image, encryption at rest, HTML pages, and rollback after a failing SQL statement.
pub mod Common
pub mod Roles
pub mod Web
pub mod Gate
pub mod Login
pub mod Runs
pub mod Json
pub mod Resource
pub mod Disk
pub mod Inspect
pub mod Actions
pub mod Stream
pub mod Tools
pub mod Chat
