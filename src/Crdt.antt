-- ===== src/Crdt.antt =====
-- packages/protocol/src/crdt.ts: ids, parents and version vectors, the op envelope, and the
-- messages of the synchronisation protocol.
pub mod Ids
pub mod Vectors
pub mod Envelope
pub mod Wire
