-- ===== src/Participants.antt =====
-- internal/participation/projector.go: the projection of the participation that the authority desires.
pub mod Records
pub mod Membership
pub mod Replay
pub mod Apply
