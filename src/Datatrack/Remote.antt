-- ===== src/Datatrack/Remote.antt =====
-- internal/datatrack/remote.go: the tracks of remote participants and the subscriptions to them.
pub mod Pipeline
pub mod EndToEnd
pub mod Track
pub mod Sound
pub mod Routes
pub mod Assigned
pub mod Publications
pub mod Participants
mod Tests
