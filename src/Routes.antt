-- ===== src/Routes.antt =====
-- internal/routeprojection/projector.go: the projection of an interaction's route facts.
pub mod Facts
pub mod Fold
pub mod Apply
