-- ===== src/Signaling.antt =====
-- internal/signaling: the router, sole writer of an interaction's log, and the membership it folds.
pub mod Broker
pub mod Tests
pub mod Wire
pub mod Participation
pub mod State
pub mod Log
pub mod Sync
pub mod Submit
pub mod Table
pub mod Hash
pub mod Privileged
pub mod Subject
pub mod Admission
pub mod Handle
