-- ===== src/Events.antt =====
-- store.events/src: events, event streams and the event store's pending list.
pub mod Event
pub mod Codec
pub mod Latest
pub mod Stream
