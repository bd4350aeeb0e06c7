-- ===== src/Lib.antt =====
-- RelayPoint's signaling core: one router is the sole writer of an interaction's log, and everything
-- else is folded from it; two projectors keep the
-- route and the desired participation of an interaction as their authorities tell them.
--
-- Parts, and where they are modelled:
--   Common       association lists for Go maps, Boolean tests, fixed-width integers, length framing.
--   Signaling    internal/signaling. Wire has the messages and identities (envelope.go, identity.go,
--                and the message types of gen/go); Participation the membership view
--                (participation.go, with the interval test of internal/projector/projector.go); Log the
--                log port and what its comments promise (store.go). The rest is router.go: State the
--                state of an interaction, its dedup cache, transition rule and rebuild; Submit the part
--                of HandleCommand that holds the interaction's lock, with Sync, Submit/Endings and
--                Submit/Safety on the position of a router's state against the log, Submit/Current on
--                its membership, and Submit/Written, Submit/Stored, Submit/Appended and Submit/Durable on what
--                a command has written; Subject and Admission the gates of
--                HandleCommand before that; Hash the payload hash; Table getState and pruneLocked;
--                Privileged appendParticipationFact, with Privileged/Stored on the fact it writes; Handle
--                handleParticipation and HandleCommand from end to end, with Handle/Direct and
--                Handle/Stored on a direct command and Handle/Steps and Handle/Applied on a
--                participation command. Broker is a broker in memory, and the modules Tests hold the runs.
--   Routes       internal/routeprojection/projector.go. Facts has the data, the checks, the hash and
--                the batch fold, with Facts/Hashing and Fold on what they compute; Apply has Apply,
--                reconcile, snapshotUnknown and Visible over the ports of the store and the router, with
--                Apply/Contract the store's side of each call, and Apply/Checked and Apply/Guarded the
--                projector's.
--   Participants internal/participation/projector.go. Records has the data, the canonical form and the
--                batch fold, with Membership on what it computes; Replay the checks of a replay and of
--                a snapshot, with Replay/Range on what passes; Apply and Apply/Guarded the projector
--                over its ports and the contract with the store.
--   Feed         internal/projector: projector.go and ports.go. Views the folded views, their snapshot and
--                the recipients of a fact; Ports the calls and the outside; Fanout the fan-out of a message
--                and its retries, with Fanout/Addressed on whom it publishes to; Process the delivery of a fact; Hydrate the restart from a snapshot;
--                Fence and Renewal the lease's fence and its renewal; Reached who a fact goes to.
--   Authcallout  internal/authcallout: the subject-token test and the HMAC bearer (token.go), the permissions
--                of a connection (grants.go), the visitor token and its key set (visitor_token.go), and the
--                answer to a request (responder.go), in files of those names.
--   Delivery     the acceptance of a delivery authorization (internal/delivery/service.go), with its data in
--                Delivery/Messages and Delivery/Accepted and Delivery/Hashed on it; Delivery/Acks the
--                acknowledgement worker (worker.go); Delivery/Server the RPC
--                (internal/deliverygrpc/server.go); and Delivery/Store the store of both
--                (internal/deliverypg/store.go): Rows its tables, Inserts what an append puts there, Steps
--                any transactions of any processes, Kept and Retained what an append leaves, Matched what a
--                claim gives, Moves what becomes of an acknowledgement, with Keys and Unique on its key.
--   Trace        the traceparent header of internal/obs/trace.go, as bytes.
--
-- Delivery. A transaction of the delivery store is one step on the tables, which is committed, rolled back or
-- committed with its answer lost; a text that the tables hold as a UUID is compared as it is, since only
-- canonical ids pass the service.
--
-- State and operations. The outside of the router is a `World` that each call of the log port takes and
-- gives; the router's table entry is an `InteractionState`, and `submit` gives back the new state, the
-- world, the result and whether the entry was evicted. Other writers may act before any call: they are
-- routers too and keep a legal log legal. `handle_command` is HandleCommand on a `Router`, the table and
-- the world; commands run one at a time. The projectors' calls give an `Outcome`, its
-- result and error. A message is its fields; protobuf, JSON, the UUID library, SHA-256, the conversion of a text to
-- bytes and the id generators are parameters.
--
-- Bounds. A `uint64` or `int64` is its bit pattern below 2 ^ 64, its wrap-around written out, and a log
-- holds fewer than 2 ^ 63 - 1 facts. The retry loop of a command is recursion on `maxRefold`, which is
-- the code's own bound, and pruning runs as many rounds as the table has entries, since each deletes
-- one, so no fuel is chosen. A fan-out takes as fuel
-- the attempts that its goroutines have left, and a decimal the twenty digits of an `int64`. A time is a number of nanoseconds, 0 for the zero
-- time; so the lease of a route fact that ends at the Unix epoch, which the code tells from no lease, is one
-- with it here.
--
-- Not modelled: I/O, transports, third-party clients, logging and metrics; the SQL stores of
-- the projections. `part` is never nil here, because only the
-- rebuild makes a state.
pub mod Common
pub mod Signaling
pub mod Routes
pub mod Authcallout
pub mod Delivery
pub mod Feed
pub mod Trace
pub mod Participants
