-- ===== src/Lib.antt =====
-- Quash: an in-memory key-value store and a topic broker behind gRPC.
--
-- The program's state is four package variables of server/quashserver/quashserver.go: a map of
-- keys to values with a time to live, a map of topics to the queues of their subscribers, and a
-- mutex for each. RPC handlers, a collector of expired keys and the snapshot of the dashboard run
-- in goroutines of their own, and touch each map under its mutex alone.
--
-- Which file models which part:
-- Queue: server/queue/queue.go, the mailbox of a subscriber (Push, Pop, Count, NewQueue). A chain
--   of nodes is a data type; Counter is an int64, as its bit pattern. Queue/Memory has the nodes in
--   memory, at addresses.
-- Structs, Messages: structs/structs.go, and the messages of proto/quash_proto.pb.go.
-- Clock: time.Time, time.Duration and the calls of them that the server makes. Instants are
--   whole numbers of nanoseconds, durations are int64 bit patterns and wrap round.
-- GoMap: the built-in map. The order of a range loop is an argument of the code that runs it.
-- Handler: the package variables and the ways in which a handler ends: it returns, it panics, or
--   it blocks on a mutex that is held. A handler is a function of the state, since all that it
--   does to a map lies between one Lock and one Unlock; Goroutines says why that is enough.
-- Kv: SetKV, GetKV, DeleteKV and GarbageCollection. Kv/Session has the table that they implement,
--   Kv/Classes the map without the order of its entries, as a quotient.
-- Broker: CreateTopic, RemoveTopic, AddSubscriber, RemoveSubscriber, and brokers[topic][id].
-- Stream: Publish and Consume. What Recv and Send return is given beforehand.
-- PubSub: sequences of the broker's calls, with the specification that they implement.
-- Goroutines: goroutines that share what a mutex guards, in single accesses. Kv/Concurrent and
--   PubSub/Concurrent have the accesses of the handlers, Kv/Linear and PubSub/Linear what comes of
--   them in any order, PubSub/Jam the end of it, PubSub/Delivery the values that they carry;
--   Kv/Fitting and PubSub/Fitting have what the goroutines are told, against the specifications.
--   Goroutines/Pair has two mutexes.
-- Server: key-value calls and broker calls in the same goroutines, under kvLock and brokersLock. A
--   call of the broker may be the part of Snapshot that counts what is queued.
-- Telemetry: Snapshot. Admin: websocketHandler of admin/admin.go, in turns between which the other
--   goroutines run; Admin/Pages has indexHandler and AdminServer. Utils: utils/utils.go
--   (SubscriptionID and the gauges).
-- Rpc: proto/quash_proto_grpc.pb.go, the stubs, the method handlers and the table between them.
--   Rpc/Quash is the server that server/server.go registers; Rpc/Loopback is a connection without a
--   network, for the examples.
-- Client: client/client.go. Client/Streams has its Publish and Consume, where a send on a channel
--   that is full waits, Client/EndToEnd what they rely on from grpc's streams,
--   Client/NoRoom a channel that is too small.
-- Bootstrap: main.go, server/server.go, Server.Init and Server.Shutdown, by the order of their
--   steps.
-- Prelude: shared names, tests and integers.
--
-- Arguments of the model, for what the repository does not hold: the time that time.Now returns,
-- the bytes that rand.Read gives, the readings of the runtime and of gopsutil, the results of
-- Recv and Send on a stream, and the orders of range loops. The loop of Push over nodes in memory
-- takes as many rounds as it is given, and the theorems give it as many as the queue has nodes. No
-- other definition takes fuel: a Publish stream is a list of rounds, at the end of which the
-- handler waits, and the loop of Consume counts down the number of elements that the queue's
-- counter gives.
--
-- A panic in a handler ends the process. On a single goroutine it is the end of the run; among
-- goroutines it leaves `none` in place of the brokers, and the theorems about goroutines claim
-- something of a state only where that has not happened, or say what `none` comes from. A Send of a
-- handler returns, with the result that is given for it: one that waits because the client does not
-- read is not modelled. A channel `resp` of the client takes as many values as are given for it, and
-- then a send on it waits.
--
-- The client's calls of grpc are arguments too: what Dial, Close, Invoke and NewStream do. Where a
-- theorem needs more of them than their types, a record states it: Rpc.Reaching.Connection,
-- Client.Serving.GrpcTo, Client.RoundTrip.Connects, and CarriesPublish and CarriesConsume of
-- Client.EndToEnd.
--
-- Not modelled: that the client's Consume closes its channel, serialisation, what net/http and
-- os/signal do, the template of the dashboard, log lines but the last one, contexts, and the
-- scripts and styles that utils.go embeds. What other goroutines do to the server while Snapshot
-- holds no mutex is an argument of it, a function of the state. The getters of
-- proto/quash_proto.pb.go, RegisterQuashServiceServer and the two stream handlers of
-- proto/quash_proto_grpc.pb.go are generated code that only passes values on.
pub mod Prelude
pub mod GoMap
pub mod Queue
pub mod Clock
pub mod Messages
pub mod Structs
pub mod Handler
pub mod Kv
pub mod Broker
pub mod Stream
pub mod PubSub
pub mod Utils
pub mod Telemetry
pub mod Rpc
pub mod Client
pub mod Admin
pub mod Bootstrap
pub mod Goroutines
pub mod Server
