-- ===== src/Lib.antt =====
-- dispatchd is an AMQP 0-9-1 broker. A client publishes messages to an exchange
-- (exchange/exchange.go), whose bindings (binding/binding.go) select queues (queue/queue.go). The
-- message store (msgstore/msgstore.go) keeps each message once, with a count of the queue messages
-- that refer to it. A consumer (consumer/consumer.go) of a channel (server/channel.go) takes queue
-- messages off its queue, within prefetch limits, and sends them to the client; the client acks or
-- nacks them by their delivery tags.
--
-- The files, and what they model:
--   Common          shared helpers: tests, equality, lists, maps, and the outcome of a call, where
--                   `panic` is a Go panic.
--   Amqp            amqp/types.go, amqp/tx.go, amqp/errors.go, amqp/table.go and the structs of
--                   amqp/*.pb.go that they use.
--   Wire            amqp/amqpreader.go and amqp/amqpwriter.go: integers, strings and frames.
--                   Wire/FieldReader and Wire/FieldWriter are the values of tables; Wire/HeaderReader
--                   and Wire/HeaderWriter the properties, with Read of a ContentHeaderFrame
--                   (amqp/types.go) and the encoding of the header in SendContent
--                   (server/channel.go). Wire/Fields describes what can be written; Wire/Masks are
--                   the bits of the properties.
--   Binding         binding/binding.go; Binding/Topic is the pattern of NewBinding and the part of
--                   package regexp that it needs, Binding/Routes an independent description of what a
--                   topic key matches. Binding/Id is calcId, with Write of QueueBind in
--                   amqp/protocol_protobuf_readwrite_generated.go.
--   Exchange        exchange/exchange.go.
--   Limits          the four counters of AcquireResources and ReleaseResources; Limits/Holders is the
--                   interface MessageResourceHolder of amqp/types.go, with its laws, which Parties
--                   implements by a channel and its consumers.
--   MsgStore        msgstore/msgstore.go, over any Holders: Get, AddTxMessages, RemoveRef and the rest.
--                   MsgStore/Persist is persistOnce, over any Database: the buckets of bolt.
--   Consumer        consumer/consumer.go: the limits, Ping and Stop of one consumer.
--   Channel         server/channel.go: the state of one channel and what touches nothing else.
--   Queue           queue/queue.go.
--   Broker          what the handlers of one channel share. Broker itself is ackOne, nackOne, ackBelow
--                   and nackBelow of server/channel.go; Broker/Consume is consumeOne of
--                   consumer/consumer.go and basicGet of server/basicMethods.go; Broker/Publish is
--                   publish of server/server.go, commitTx of server/channel.go and both
--                   ConsumeImmediate; Broker/Recover is recover, changeFlow, removeConsumer and
--                   shutdown of server/channel.go, with deregisterChannel of
--                   server/connection.go; Broker/Subscribing is addConsumer of
--                   server/channel.go and the handlers of server/basicMethods.go that are not in
--                   Broker/Consume and Intake.
--   Server          deleteQueue, deleteQueuesForConn and deleteExchange of server/server.go, Delete of
--                   queue/queue.go.
--   Methods         the handlers of server/queueMethods.go and server/exchangeMethods.go, on the tables
--                   of the server and one channel, with addQueue, addExchange and genDefaultExchange of
--                   server/server.go and NewFromMethod of exchange/exchange.go.
--   Intake          what comes in: basicPublish of server/basicMethods.go, handleContentHeader and
--                   handleContentBody of server/channel.go. Intake/Loop is the loop over the frames of
--                   a channel (start, routeMethod and sendError) with server/channelMethods.go.
--   Connection      handleIncoming, handleFrame and hardClose of server/connection.go, over the results of
--                   ReadFrame, and what the handlers of server/connectionMethods.go do to the
--                   state of a connection.
--   Tests           concrete inputs.
--
-- How the code is rendered. A struct is a record; a mutex is left out, since each operation holds
-- its own while it runs, except consumerLock of a queue, which one path leaves held. A Go map is
-- an association list with unique keys. Strings are lists of bytes. All consumers of the heap
-- belong to the one channel; what other channels hold unacked is a number for each message id.
-- Unsigned integers, and counts in int32 that wrap, are natural numbers with the wrap-around
-- written out. Consumers, which a queue and a channel share, stand in a heap. The one buffer slot
-- of the wake-up channels is a Boolean. Ids, local ids, random names and times are arguments, and
-- so is what the database says to a write (`saved`). A nil pointer that the code dereferences and
-- a call of panic are both `panic`.
--
-- Every loop is structural recursion on a list or a count, but for the reading of tables and
-- arrays (Wire/FieldReader), which are nested by their lengths: it takes fuel, a unit for each
-- byte of the input and one more, of which each call costs one. A nested table or array takes at
-- least five bytes for three calls, and each value at least one byte for the call that goes on to
-- the next, so it suffices.
--
-- Three things of other code are parameters. MsgStore takes the holders of resources,
-- MsgStore/Persist the database, by its buckets and by what is documented of putting to and
-- getting from the index; its errors, on which persistOnce panics, are left out. Intake/Loop takes
-- what the generated ReadMethod makes of a payload; a method of a class other than channel comes
-- with what its handler does, so that the loop is not tied to the models of the handlers.
--
-- Not modelled: the generated code of the protocol, but for Write of QueueBind, and of protobuf,
-- the database (bolt) and what is loaded from it, sockets, goroutines and heartbeats, the start of
-- the handshake of a connection, authentication, statistics, the admin server and the main program.
-- What is sent to a client is noted as a value, not as bytes, but SendContent encodes the header of
-- the message first, which can panic (see Wire/Fields/Crash). A queue is found by its name, also
-- where the code holds a pointer to it: consume_one gives nothing if the queue under the name is
-- not one that lists the consumer. The text of errors, the SHA-1 ids of bindings, of which only the
-- encoding that is hashed is modelled, and the counters of statistics are left out.

pub mod Common
pub mod Amqp
pub mod Wire
pub mod Binding
pub mod Exchange
pub mod Limits
pub mod MsgStore
pub mod Consumer
pub mod Channel
pub mod Parties
pub mod Queue
pub mod Broker
pub mod Server
pub mod Methods
pub mod Intake
pub mod Connection
pub mod Tests
