-- ===== src/Lib.antt =====
-- The services of the device manager: a set of gRPC services behind a Redfish API. Long operations
-- run as tasks, which svc-task keeps in an in-memory database; the other services create a task,
-- update it while they work and end it, and users read, list, cancel and delete tasks over the API.
-- Every service has the token of a call checked by svc-account-session.
--
-- Parts and files:
--   Base             names that all parts share: tests on numbers and integers (Tests), lists
--                    measured by native numbers (Lists), strings.Split and decimal numbers (Text), and
--                    calls that change the world outside and end with a value, an early return or a
--                    panic (Exec).
--   Response         lib-utilities/response and GeneralError of lib-utilities/common: the response
--                    record, the error body of every message (Errors: CreateGenericErrorResponse,
--                    validateMessageArgs, GeneralError), the success messages (Success:
--                    CreateGenericResponse), and when building an error body panics (Safety).
--   Persistence      lib-persistence-manager/persistencemgr/redis.go: the server, the sentinels and the
--                    clock as parameters (Redis), the pools and their repair after the loss of a master
--                    (Connections), the operations on records (Records), on keys, transactions and
--                    servers (Keys), on sorted sets (Indexes, Updates) and on subscriptions
--                    (Subscriptions); what the server's texts are (Contents), what reads and writes do
--                    with them (Reads, Steps, Puts, Writes, Overwrites), the repair (Recovery), and the
--                    entries of an index (Entries).
--   Session          svc-account-session: the session, the user and the role, and the calls of the
--                    database (Model), Auth, CustomAuthLog and CheckSessionTimeOut of auth
--                    (Operations), what the check of the time-out and a granted call have seen
--                    (TimeOut, Authorized), the clean-up of expired sessions with the check of
--                    credentials (CleanUp), its clock (Clock), what it deletes (Expiry), and the
--                    bodies of asresponse (Views). SessionStore is what they rely on in the database.
--   Session.Handlers the handlers of session: the check of the caller (Access), DeleteSession and
--                    GetSession (Operations), GetAllActiveSessions and GetSessionService (Listing),
--                    CreateNewSession (Create); what they have seen and done (Caller, Opened, Deleted,
--                    Visible).
--   Account          svc-account-session/account: the rules of passwords (Password) and what passes
--                    them (Strong), the account and the calls of the database (Model), Create with
--                    its checks (Operations), Delete and Update (Changes), what the checks have seen
--                    (Checked, Allowed) and what has been stored (Stored, Changed).
--   Role             Create of svc-account-session/role with the checks of its privileges (Operations),
--                    what the checks have seen (Checked) and what has been stored (Created).
--   Task.Model       the task record of svc-task/tmodel/tmodel.go and the requests of the RPCs.
--   Task.Views       the bodies of svc-task/tresponse/task.go.
--   Task.Service     TasksRPC of svc-task/thandle/thandle.go, whose fields are functions in the source
--                    too, and TaskStore: what the service relies on in the database functions.
--   Task.Update      updateTaskUtil: the guards and the switch (Apply), the operation (Operation), what
--                    an accepted update guarantees (Rules, Final), what it stores (Stored), and
--                    sequences of updates (Irrevocable).
--   Task.Cancel      deleteCompletedTask, taskCancelCallBack, asyncTaskDelete and
--                    OverWriteCompletedTaskUtil (Operations), what they can do to the stored tasks
--                    (Narrowed, Effects) and what they have achieved when they end (Finished).
--   Task.Create      CreateTaskUtil and CreateChildTaskUtil (Operations), the id in a task's URI
--                    (ChildId), and what they store (Created, Linked).
--   Task.Handlers    the RPCs DeleteTask, GetSubTasks, GetSubTask, TaskCollection, GetTasks,
--                    GetTaskService, and GetTaskMonitor of tmonitor.go: their bodies (Build), the check
--                    of the caller (Access), the handlers (Operations), who is shown a task
--                    (Granted), what is answered (Answers, Deletion, Monitor), and whose tasks a
--                    collection lists (Owned).
--   Task.Database    svc-task/tmodel/tmodel.go: the functions that TasksRpc names, over Persistence.
--   Task.Persisted   what a stored task is read back as.
--   Task.Sample      a small concrete system, at which the Tests modules run the theorems.
--
-- The state of a service is one world, which its calls pass on; a Go error is `err`, an early return of
-- a handler is `err` with the response that it filled in, and a panic is `panic`. The handlers of tasks
-- and sessions reach the database through the fields of TasksRpc and SessionRpc, with the laws of
-- TaskStore and SessionStore; the tasks' functions are also written out over the persistence manager. A
-- law of TaskStore, that a new task's id was free, holds only as long as Create's read does not fail
-- otherwise than by the connection (Persistence.Overwrites). A time is a number of nanoseconds, with 0
-- for the zero value of time.Time. An int32 is an integer: no modelled operation computes with one. A
-- map of headers is the list of its entries. fmt.Errorf with a text that is no constant is taken to
-- leave the text as it is, which holds for texts without per cent signs.
--
-- A loop runs over a list or a number: that of asyncTaskDelete over a list of what the rest of the
-- system does during its sleeps, the search for a new master over its 120 rounds, as in the source, and
-- a scan of a set over a number of pages, which the server decides on. The server and the network are
-- parameters: every command may fail, and the laws of Database say what one that succeeds has done. All
-- pools of a set reach one database.
--
-- Not modelled: logging, locks, the marshalling of bodies to JSON and the decoding of requests
-- (parameters, as RequestParamsCaseValidator, the validator of role ids and the tables of
-- strings.ToLower are), the conversion of protobuf messages, and the rest of the services, with the
-- deletion and update of roles, the views of roles and accounts, and the database functions of
-- svc-account-session/asmodel, for which SessionStore, AccountStore and RoleStore stand. The clean-up
-- of expired sessions is modelled by itself; the goroutine that a check starts is handed to the
-- scheduler. The time-out of sessions is given in nanoseconds, and where a theorem
-- compares instants of a run it says so by SteadyClock: time.Now, with its monotonic reading, never
-- runs backwards.
pub mod Base
pub mod Response
pub mod Errors
pub mod Persistence
pub mod Account
pub mod Role
pub mod Session
pub mod Task
