-- ===== src/Lib.antt =====
-- A model of the Foliage SDK: the cache between stateful functions and the NATS key/value bucket,
-- the mutexes in that bucket, the helpers that both use, the goroutines of a function type, and on top
-- of the cache the graph, the transactions on it and the queries for its links.
--
-- Parts and files.
--   Common    numbers with Boolean tests, integers, byte strings, Go maps as association lists.
--   System    statefun/system/system.go. Bytes: Int64ToBytes, BytesToInt64 and the big-endian form
--             of the cache's records. Maps: MapsUnion, MapsIntersection. Channel:
--             CreateDimSizeChannel as steps of its two routines. KeyMutex: Lock and Unlock of a key
--             as steps of any number of routines.
--   Cache     statefun/cache/cache.go. Value: StoreValue and its methods; a node owns its children,
--             so that a method that reaches its parent is a function of parent and key. Key: the
--             regular expression of keys, toStoreKey, fromStoreKey. Record: the bytes of a value in
--             the bucket. Level: the walks down the tree by the tokens of a key. Store: SetValue,
--             SetValueIfDoesNotExist, DeleteValue, GetValue, GetValueUpdateTime, TransactionBegin,
--             TransactionEnd. Sync: what storeUpdatesHandler does with an update and what
--             kvLazyWriter does with a child. Garbage: collectGarbage.
--             Pattern: GetKeysByPattern. Subscribe: SubscribeLevelCallback,
--             UnsubscribeLevelCallback and GetValueAsJSON.
--   Nats      embedded/nats/kv/kv.go. Version: versionComponents and serverMinVersion. Stream: the
--             checks of CreateKeyValue and the stream that it asks for.
--   Function  statefun/function_type.go, with function_type_config.go and function_type_msg.go.
--             Config: the configuration. Handlers: sendMsg, the steps of idHandlerRoutine and the two
--             halves of gc for one id, on the state of a function type. Runs: events in any order.
--             Reply: handleMsgForID, GetQueryID, and where ReplyQueryID of embedded/graph/common
--             sends a result.
--             ObjectLock: the contexts and the locks of objects, over the mutexes and the cache.
--             Keeps: what every change keeps, every step keeps. Names, Pending, Accepted, Order,
--             Slots, Live, Sound, Safe and Stuck: proofs.
--   Graph     embedded/graph/crud. Keys: the keys of links, from common.go. Link, Vertex: the six
--             handlers of ll_crud.go, with what they store in Link and the handlers of links in
--             Link/Handlers. OpStack: the stack of operations, and the results of these handlers.
--             High: hl_crud.go, with Types, Objects and Relations for its
--             handlers, Links for its searches and Triggers for the triggers that an operation fires.
--             Cascade: the loop of DeleteObject in the mode cascade, over the cache and the deletion
--             of a vertex as parameters, on fuel of one unit for a round. Context: the calls of
--             easyjson, of the cache and of the runtime as records of operations, and actions that
--             keep the requests, the signals and the writes that they make. Outcome and Returns:
--             lemmas on what holds when an action succeeds, and on actions that always do.
--   Jpgql     embedded/graph/jpgql/tools.go. Filter: the operators of a filter, ParseFilter over a
--             parser as a parameter, and the test of a conjunction. Links: the queries for the links
--             of an object. Query: GetQueryHeadAndTailsParts, over the regular expression as a
--             parameter. Search: LLAPIQueryJPGQLDirectCacheResultAggregation of jpgql.go, its
--             descendants in Search, the routine of its root in Search/Aggregate.
--   Tx        embedded/graph/tx. Traverse: graphState and getChildren of traverse.go, on fuel.
--             Helper: helper.go. Types, Objects: the twelve handlers of a transaction. Clone:
--             initBuiltIn and cloneGraph; Clone/Select: what cloneGraphWithTypes selects. Session:
--             Begin, Commit and Push. Merge: merge.go. Requests and Outcome: lemmas on what actions
--             send and on what holds when they succeed.
--   Mutex     statefun/kv_mutices.go: KeyMutexLock, KeyMutexUnlock, KeyMutexLockUpdate. Laws, Progress
--             and Race: proofs.
--
-- How the model stands to the code.
--   Every operation is a function of the state that it changes. The clock is an argument: `clock i`
--   is the i-th reading that a call makes. A Go string or byte slice is a list of byte values, an
--   int64 is an integer, and its bounds stand in the theorems that need them. The bucket of NATS is
--   not part of the repository: the mutexes take it as a record of calls with laws (Mutex/Kv), and
--   the cache takes its answers as arguments. The children of a node and the entries of a Go map
--   stand in a list; no theorem depends on their order.
--   A handler of the graph is an action on the world: what it reads from the cache, and what a request
--   to another handler does to the world and answers, are the parameter Context, so that a theorem
--   holds whatever the handlers that are called do. The first error ends an action, as the early
--   returns do. The order in which Go ranges over a map of a transaction is a parameter.
--   A function type is a state that events change one at a time: sendMsg and the body of gc for an id
--   hold the id's mutex, and are one event each; gc tests the time before it takes the mutex, in an
--   event of its own. The channels hold at least one message. A query is searched in a graph that does not
--   change meanwhile; the writes of the descendants reach the root in the order they are made.
--   The counter of link names, and the lock time of a mutex with its life time added, are integers that
--   are not near the bounds of int64.
--   The traversal of the graph runs on fuel, one unit for an object taken from the queue; more than
--   `rounds` of the largest number of children and the number of objects is enough. An index out of
--   range in it is a result of its own.
--   `KeyMutexLock` and the wait in it run on fuel, one unit for each round, and what other clients
--   do to the bucket before each access is an argument. Two rounds are enough where the mutex is not
--   held by a live owner and nobody else writes.
--
-- Not modelled: the goroutines and locks of the cache (each operation runs by itself, but for the
-- two halves of a visit of the lazy writer, which are two functions), logs, metrics, NATS itself,
-- the call tree of LLAPIQueryJPGQLCallTreeResultAggregation, which finds objects by the same tools
-- and keeps its counts in the contexts of functions, the timeout and calls of the other query, and
-- the start of the runtime, which is calls of nats.go.
-- cloneGraphWithTypes adds links to the map over which it ranges; the model ranges over those that
-- were there at the start.
pub mod Common
pub mod System
pub mod Cache
pub mod Mutex
pub mod Nats
pub mod Graph
pub mod Jpgql
pub mod Tx
pub mod Function
