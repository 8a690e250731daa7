-- ===== src/Lib.antt =====
-- The Go client of the soothe daemon: a WebSocket client (the files at the repository's root) and
-- the application kit on top of it (appkit/).
--
-- The parts, and where they stand here:
-- - Json: what the code handles as `interface{}` (encoding/json values), with Go's type assertions
--   and map reads; asString of session.go. Json.Size measures a value, for fuel.
-- - TurnId (turn_boundary.go): turn ids `loop:generation` and the gates on turn ends.
-- - Events (events.go), Stream (stream_terminal.go): the event types, the tests for turn ends and
--   for progress, the labels of stale frames, which frames want a delivery acknowledgement.
-- - Inbound (inbound_priority.go): which frames the client may drop.
-- - Protocol (protocol.go): the messages, the event that a `next` envelope carries, and the loop id
--   of a message. Protocol.Payload splits the text of a payload, Protocol.Wire decodes the messages,
--   Protocol.Encoding encodes them, and Request.Frames puts these together as the reading code does. The
--   JSON of a text and the time of a text are parameters.
-- - Client (client.go): Client.Buffer is the pending buffer that enqueuePendingLocked keeps,
--   Client.Delivery the acknowledgements of trackInboundDeliveryAck and sendDeliveryAck,
--   Client.Connection the connection with its signal for a drop, the handshake and the reattachment,
--   Client.Reading the reads and PeelStalePendingControlEvents, Client.Receiving the goroutine of
--   ReceiveMessages from the text of a payload to the channel, and Client.Health the heartbeat tracker
--   of a client. Client.Connection.Live is IsDaemonLive (helpers.go).
-- - Cards (card_projection.go): the projection that soothe.card.* frames drive.
-- - Appkit.Lifecycle (appkit/turn_lifecycle_gate.go) and Appkit.Boundary
--   (appkit/turn_boundary.go): what a turn has shown so far, and when it has ended.
-- - Multiplexer (multiplexer.go): the waiters for answers and the routing of frames to them.
-- - Intent (intent_hints.go), Verbosity (verbosity.go): which phases may end a turn, and what is
--   shown at which verbosity.
-- - Appkit.ChunkFilter (appkit/chunk_filter.go): which chunks are dropped before the turn, and
--   Appkit.QueryGate (appkit/query_gate.go): one query at a time for each app key.
-- - Bootstrap (session.go): the start of a loop's session, and connecting with retries.
-- - Request (request.go): RequestResponse over what its select meets and what ReadEvent finds, and
--   ReadEvent's way through the frames of one payload. Request.Subscribe has the calls that subscribe
--   and unsubscribe (request.go, job.go), Request.Ready is WaitForDaemonReady.
-- - Protocol.Envelopes (protocol.go): the envelopes that the client makes. Methods (request.go,
--   send_methods.go, job.go, autopilot.go, helpers.go): what each request asks for, with its default
--   timeout, and the helpers' reading of the answers;
--   Methods.Commands is CommandClient (command_client.go). The order of the keys of a map is that in which
--   they are put.
-- - Heartbeat (heartbeat.go): whether the daemon lives, by a clock that is given.
-- - Appkit.Frame (appkit/events.go) and Appkit.Session (appkit/daemon_session.go): the frame inside a
--   `next` envelope, and the loop of IterTurnChunks with the drain behind it. Appkit.Session.Sockets has
--   the session's two clients, its loop and SendTurn, over Client.Connection, Bootstrap and
--   Methods.Input, which is SendInput with its options (send_methods.go).
-- - Appkit.Pool (appkit/pool.go): the slots of the connection pool, idle or of an app key; what the
--   ManagedClient, the store and the clock answer to a call of Acquire is its argument.
-- - Appkit.Classifier (appkit/classifier.go) and Appkit.ThinkingStep (appkit/thinking_step.go): what an
--   event means for a turn, as a text, an end or a line of progress. json.Unmarshal is a parameter.
-- - Appkit.TurnRunner (appkit/turn_runner.go): runTurn over what its select takes, one after the
--   other, and Execute over the pool and the gate.
-- - Appkit.Broadcaster (appkit/broadcaster.go): the subscribers of the app keys and their channels.
-- - Examples: tests, and each theorem at a concrete input.
--
-- Appkit.TurnRunner.Execute takes a connection of the pool and then the gate, sends the input and feeds
-- what comes to the boundary and to the classifier; Appkit.Session is the other consumer of a turn,
-- which reads the client itself and decides with the same gates.
--
-- A frame that comes in is decoded (Protocol), kept in the pending buffer by its priority (Inbound,
-- Client.Buffer), counted for an acknowledgement when it is read (Stream, Client.Delivery,
-- Client.Reading), and fed to the boundary of the running turn (Appkit), which asks TurnId and
-- Stream whether it ends the turn. A frame that answers a request goes to its waiter instead
-- (Multiplexer).
--
-- How the code is written here: a method is a function from the state to the state, a nil pointer
-- or a missing value is `none` or `null`, a nil map reads as an empty one, a Go string is a String
-- of characters (the code looks at ASCII only), an `int` is an integer, where the greatest one
-- matters for strconv.Atoi. A JSON number is known by its floor and whether it is whole. A
-- goroutine that sends an acknowledgement is a task in a list, and Client.Delivery's step relation
-- runs the tasks, and the notifications that they send behind the mutex, in any order between any frames.
-- What holds the mutex is one step; a call that asks for the mutex which it holds is a call without a
-- result. A number that goes through json.Unmarshal into an interface is rounded as a float64. A pointer
-- (a waiter of the multiplexer, a slot of the pool, a channel of the broadcaster) or a function (a
-- cancel function of the query gate) is a number. What a client, a store, a timer or a context answers
-- is an argument: the reads of a session, the ticks of a turn, the answers to Acquire. The calls made
-- of them are effects in a list, in their order.
--
-- Fuel: the recursions through nested frames (stale labels, priorities, event batches) run on the
-- size of the frame, which falls with each level.
--
-- Not modelled: the socket, timers and contexts of Go, JSON as text, the attachments, the
-- configuration, log output, the parts of appkit not named above, and the deadlines and locks of
-- DaemonSession. Calls of Acquire overlap only where a theorem says so.
-- What a waiter of the multiplexer takes out of its channels is left out, and its subscription is
-- taken to be unregistered once, since a second close of its channel panics in Go.
-- A key that differs from a struct's by its case, which encoding/json would take, counts as another key,
-- and a number that is whole as one written without a fraction or an exponent.
-- In Client.Reading the frames of the socket are given in decoded form.
pub mod Prelude
pub mod Json
pub mod TurnId
pub mod Events
pub mod Stream
pub mod Inbound
pub mod Protocol
pub mod Client
pub mod Intent
pub mod Verbosity
pub mod Bootstrap
pub mod Heartbeat
pub mod Multiplexer
pub mod Cards
pub mod Appkit
pub mod Examples
pub mod Methods
pub mod Request
