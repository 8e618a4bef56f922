-- ===== src/Builder.antt =====
-- src/builder.rs: the builders of requests. A builder is the record of what was set; building takes
-- values out of it, so it returns the builder that is left.
pub mod Package
pub mod Ranges
pub mod WriteEvents
pub mod Delete
pub mod ReadEvent
pub mod ReadStream
pub mod ReadAll
pub mod Laws
pub mod Reuse
