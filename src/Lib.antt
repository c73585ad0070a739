-- ===== src/Lib.antt =====
-- The labs of a course on distributed systems: an HTTP server and a proxy (Lab 1), and a MapReduce
-- library with the skeletons and test tools of Raft, a key/value service and a shard controller
-- (Lab 2).
--
-- Parts and files (paths from the repository's root):
--   Mr.Rpc            Lab 2/src/mr/rpc.go: Task and TaskStatus.
--   Mr.Coordinator    Lab 2/src/mr/coordinator.go. The record Coordinator is the struct; assign_task,
--                     report_task_done, check_task_timeouts, done and make_coordinator are AssignTask,
--                     ReportTaskDone, one round of checkTaskTimeouts, Done and MakeCoordinator. Each
--                     handler holds the mutex throughout, so it is one step; the time is an argument.
--                     Mr.Coordinator.System joins the coordinator and its workers into a transition
--                     system in which a worker may be slow, report late or twice, or be gone.
--   Mr.Worker         Lab 2/src/mr/worker.go: ihash, ExecuteMapTask, ExecuteReduceTask,
--                     NotifyTaskDone and Worker, over a file system that maps names to bytes.
--                     Mr.Worker.Outputs describes the output files by the pairs that Map emits.
--   Mr.Sequential     Lab 2/src/main/mrsequential.go: main and its loops, on the same store; less is
--                     Go's order on strings.
--   Raft.Config       Lab 2/src/raft/config.go: checkLogs, applier and nCommitted of the test harness,
--                     over the logs that it keeps of what the servers apply.
--   Raft.Persister    Lab 2/src/raft/persister.go, over a heap of byte arrays with shared slices.
--   Http.Server       Lab 1/server/http_server.go: handle_connection and what it calls, over a store
--                     of files; serve handles connections one after the other. Http.Pool is the
--                     semaphore of the main loop, with a step for each action of the loop and of a
--                     handler. Http.Answers describes what one connection leads to, Http.Files what a
--                     run of connections does.
--   Http.Proxy        Lab 1/proxy_server/proxy.go: handle_proxy_connection and forward_request.
--   Labrpc.Server     Lab 2/src/labrpc/labrpc.go: MakeService, AddService and the two dispatch methods.
--   Labrpc.Network    the same file's Network: Change has a constructor for each of its operations,
--                     which apply carries out; readEndnameInfo and isServerDead read it.
--   Labrpc.Request    processReq as steps. A World is the network, the servers and the variables of one
--                     processReq; an Event is a step of it, of the goroutine that it starts, or a
--                     change of the network by someone else.
--   Porcupine         Lab 2/src/porcupine, a checker of linearizability. Bitset is bitset.go, Model is
--                     model.go, Api is porcupine.go, and the others are checker.go: Entry has the
--                     entries, Links the doubly linked list that lift and unlift change, Single the
--                     search of checkSingle, Parallel the loop of checkParallel, checkEvents and
--                     checkOperations. Spec says what a linearizable history is; Linking, Tags, Laid
--                     and Single.Taken, Single.Searching, Single.Rounds prove what the search keeps.
--   Models.Kv         Lab 2/src/models/kv.go: KvModel, the model of a key/value store that the checker
--                     is used with. Models.Kv.Store compares it with a store of all keys.
--   Shardctrler       Lab 2/src/shardctrler: the messages of common.go, and the clerk of client.go.
--   Shardkv           Lab 2/src/shardkv/client.go, with its routing of keys to groups.
-- A clerk's RPCs are what srv.Call answers in a state of the world, which may be any function: the
-- servers are skeletons. A clerk tries for ever; its loop takes fuel.
-- The checker calls the model's functions, which may panic on values of another type. A pointer to a
-- node is the node's number. The goroutines of checkParallel are joined to its loop by the order in
-- which their results arrive; what they read from the flag that stops them may be anything.
--
-- An RPC of Mr is a call of the coordinator's handler that is not lost. What the workers take from
-- elsewhere (encoding/json, hash/fnv, fmt, the file system, the order of a range over a map, the
-- plug-in) is the record Host, and what is relied on is the record HostLaws, which also says that every
-- os.Create and every write succeeds; Mr.Worker.Sample is a host that meets it. A response of Lab 1 has
-- the Content-Length that http.Response.Write sends, which is not the one set in the header map.
--
-- Bounds and fuel. Indices, counts and times are natural numbers. Worker loops for ever in the
-- source and takes fuel here; with one worker, more rounds than there are tasks are enough. The
-- loop that decodes a file has the file's length and one more as its fuel, and each value that it
-- reads takes a byte at least. checkSingle takes fuel, one for each round, and has no answer when that
-- is used up; Single.Budget counts the rounds that a history can take.
--
-- Not modelled: log lines, sleeping, the sockets, the web page of the linearizability checker and what is
-- gathered for it, labgob, the clerk of kvraft, and the parts that are skeletons without code of their own.
pub mod Base
pub mod Http
pub mod Labrpc
pub mod Models
pub mod Mr
pub mod Porcupine
pub mod Raft
pub mod Shardctrler
pub mod Shardkv
