-- ===== src/Lib.antt =====
-- Verification of the message core of OpenClaw: the packages that a desktop and a phone share, and
-- the session store of the phone.
--
-- The program. Two paired devices exchange chat messages and ops over a peer channel. Every op
-- (packages/protocol/src/crdt.ts) is signed by an author device, numbered per author, and names
-- the ops that it follows as its parents. A device keeps a set of ops, orders it so that parents
-- come first (packages/protocol/src/crdt-graph.ts), sums it up in a version vector, and asks its
-- peer for what is ahead of that vector. Chat messages (packages/message-sdk/src/openclaw-chat.ts)
-- form the same kind of graph by their `after` ids.
--
-- The files.
--   Base: what the components share. Base/Values holds JavaScript values, numbers, the coercions
--     that the code applies (`Number(v || 0)`, `String(v || "").trim()`), and the record `Runtime`
--     of what the engine supplies: number formatting, JSON, the clock, random text, collation.
--     Base/Maps and Base/Sets are `Map` and `Set` with their order of insertion, Base/Sort is the
--     stable `Array.prototype.sort`, Base/Units the default order of texts by UTF-16 code units.
--   Graph: the ordering that `analyzeCrdtOps` and `analyzeOpenClawPairChatGraph` both spell out,
--     over any node type: links, degrees, the sorted queue, the nodes that a cycle holds back.
--     Graph/Edges, Release, Invariant, Order, Results and Permutation hold the proofs.
--   Crdt: packages/protocol/src/crdt.ts. Crdt/Ids (normalizeCrdtId, normalizeCrdtParents),
--     Crdt/Vectors (normalise, merge and diff version vectors), Crdt/Envelope (op envelopes),
--     Crdt/Wire (summaries, sync states, requests, batches, pings and pongs).
--   CrdtGraph: packages/protocol/src/crdt-graph.ts. CrdtGraph/Seqs (the two version vectors of a
--     set of ops), Dedupe, Order, and Sync (selectCrdtOpsForSync).
--     CrdtGraph/Messages is materializeCrdtMessages, Messages/Table and Ids which messages it makes.
--   Chat: packages/message-sdk/src/openclaw-chat.ts. Chat/Timeline is the analysis, Chat/Codec the
--     payloads, Chat/Revoke packages/message-sdk/src/openclaw-channel.ts.
--   Message: packages/protocol/src/message.ts and events.ts, the envelopes of the server's messages.
--   Apps: packages/pair-sdk/src/app.ts, the registry of the modules that share a peer channel.
--   Peer: packages/pair-sdk/src/peer.ts. Peer/Messages is what a channel sends and how it answers a
--     message, up to the first `await` (react). Peer/Descriptions and Signals are connect, close and handleSignal,
--     Peer/Events the callbacks of the connection and of the data channel and the steps of the
--     greeting. Peer/Worlds runs all of them: a world has the channel, what its callbacks wait for
--     and the queue of signals, and an event is what the program, the peer or the browser does
--     next, so that steps of different callbacks interleave. Peer/Flags, Secrecy, Turns and Runs
--     hold the proofs about runs, Peer/Greeting those about an undisturbed greeting,
--     Peer/Sends those about app messages from one side to the other.
--   Pairing: packages/pair-sdk/src/web.ts and naming.ts, what the pairing client computes.
--   Mobile: mobile/src/types/session.ts. Mobile/ChatGraph is mobile/src/utils/chatGraph.ts, on top
--     of Chat/Timeline. Mobile/Sessions is mobile/src/state/SessionsContext.tsx: the store and its
--     patches, Merge (mergeRefreshedSessions, nextOriginSeq), Peers (closePeer, deliverAppMessage),
--     Messages (appendMessageLocal, upsertRemoteChatMessage), Events (handleSignalEvent). A call
--     that runs later is a command that the handler gives back. Probes (probeSessionLink,
--     respondToLinkPing) has a probe's start, end and timer as separate events, which interleave
--     with all that ends pings; Pings and Timers hold the proofs about them. Sending
--     (sendMessage, retryMessage, removeSession, requestMessageStateSync) takes the answers to its
--     waits as an argument; Statuses holds its proofs, Routes, Stale, Revocation and Laws the others.
--   Tests: a sample environment, runs on sample data, and the theorems applied to them.
--
-- Correspondence. A TypeScript function is the definition of its name in snake case, without the
-- prefix `crdt` or `openClawPairChat`. A thrown error is `err` with its message, `null` is `none`.
-- A `Record<string, T>` and a `Map` are lists of entries in the order of insertion (the numeric
-- keys that an object would list first are not treated apart, and inherited members are left out).
-- A number that the code clamps to `Math.max(0, Math.trunc(x))` is a `Count`: NaN, infinite or
-- whole. A clock reading has its place in the call as an argument of `now`.
--
-- Bounds. The queue of the graph runs on fuel, one unit for each node; a node enters the queue
-- once, so the queue is empty before the fuel is (Graph/Order).
--
-- Numbers are exact. `nextOriginSeq` alone adds 1 to a number that a peer chose, and rounds as doubles
-- do from 2 ^ 53 on (succ_double); the searches for the first missing number start at 1 and would
-- need as many messages, and clock readings stay far below.
--
-- Not modelled. Of packages/pair-sdk/src/peer.ts, the statistics log. What the browser and the
-- server answer is an argument or an event: a connection's states, a settled description, whether a
-- call is accepted. Signatures are checked by a parameter `verify`, false also where
-- verifyPairV2Text throws. Number formatting and parsing, JSON texts, dates, collation and random
-- text are the engine's and stand in `Runtime`. Of SessionsContext.tsx, the React effects with
-- their intervals, the refresh, the presence heartbeat and the making of peer channels and signal
-- streams are left out, as is what the console logs. The HTTP calls and key generation of web.ts,
-- mobile/src/services/pairingV2.ts, the user interfaces under desktop/src and mobile/src, the
-- gateway extension under desktop/extensions, the Rust backend under desktop/src-tauri and the Go
-- server under server are left out.
pub mod Base
pub mod Graph
pub mod Crdt
pub mod CrdtGraph
pub mod Chat
pub mod Apps
pub mod Message
pub mod Mobile
pub mod Peer
pub mod Pairing
pub mod Tests
