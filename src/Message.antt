-- ===== src/Message.antt =====
-- The protocol buffer messages of src/raw/client_messages.rs, a module for each.
pub mod Enums
pub mod NewEvent
pub mod EventRecord
pub mod ResolvedIndexedEvent
pub mod ResolvedEvent
pub mod WriteEvents
pub mod WriteEventsCompleted
pub mod DeleteStream
pub mod DeleteStreamCompleted
pub mod TransactionStart
pub mod TransactionStartCompleted
pub mod TransactionWrite
pub mod TransactionWriteCompleted
pub mod TransactionCommit
pub mod TransactionCommitCompleted
pub mod ReadEvent
pub mod ReadEventCompleted
pub mod ReadStreamEvents
pub mod ReadStreamEventsCompleted
pub mod ReadAllEvents
pub mod ReadAllEventsCompleted
pub mod SubscribeToStream
pub mod SubscriptionConfirmation
pub mod StreamEventAppeared
pub mod NotHandled
