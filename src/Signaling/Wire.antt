-- ===== src/Signaling/Wire.antt =====
-- internal/signaling/envelope.go and identity.go: the messages as the router reads and writes them
-- (protobuf's marshalling is not modelled, a message is its fields), and the caller's identity.
use relaypoint.Common.{ℕ, String, List, Bool, ◌==◌, ◌||◌}

pub record Event : Type 0 where
  pub schema : String
  pub event_type : String
  pub event_id : String
  pub sequence : ℕ
  pub occurred_at : ℕ
  pub tenant_id : String
  pub actor_id : String
  pub medium : String
  pub command_id : String
  pub payload_hash : String
  pub caused_by : String
  pub ref_id : String
  pub body : List ℕ
  pub commanded_by : String
  pub reason : String
  pub request_id : String

pub record Command : Type 0 where
  pub command_id : String
  pub tenant_id : String
  pub actor_id : String
  pub type_name : String
  pub medium : String
  pub ref_id : String
  pub body : List ℕ

pub data Status : Type 0 where
  accepted rejected : Status

-- The texts of `CommandResult.Reason`, a constructor for each that router.go writes.
pub data Reason : Type 0 where
  no_reason bad_subject bad_payload unauthenticated missing_command_id : Reason
  subject_tenant payload_tenant missing_actor_id actor_mismatch actor_not_user : Reason
  needs_privileged_command capability_denied replay_failed state_unavailable : Reason
  hash_conflict not_a_participant lost_append append_failed : Reason
  needs_trusted_backend bad_participation_payload missing_agent missing_from_or_agent : Reason
  illegal_transition : String → String → Reason
  partially_applied : Reason → Reason

pub record CommandResult : Type 0 where
  pub command_id : String
  pub status : Status
  pub reason : Reason
  pub caused_by : String

-- `&CommandResult{CommandId: id, Status: statusRejected, Reason: r}`.
abbrev pub reject : String → Reason → CommandResult
reject id r = record { command_id = id; status = rejected; reason = r; caused_by = "" }

-- `res.Status, res.CausedBy = statusAccepted, id`.
abbrev pub accept : String → CommandResult
accept id = record { command_id = id; status = accepted; reason = no_reason; caused_by = id }

abbrev pub role_trusted_backend : String
role_trusted_backend = "trusted-backend"

abbrev pub role_visitor : String
role_visitor = "visitor"

abbrev pub capability_agent_feed : String
capability_agent_feed = "agent-feed"

abbrev pub capability_admin_observer : String
capability_admin_observer = "agent-feed-admin-operation-observer"

-- `ExpiresAt` is a time in nanoseconds, 0 for the zero time.
pub record Identity : Type 0 where
  pub tenant_id : String
  pub user_id : String
  pub role : String
  pub capability : String
  pub conversation_id : String
  pub expires_at : ℕ

unfoldable pub is_subscriber_capability : String → Bool
is_subscriber_capability c = c == capability_agent_feed || c == capability_admin_observer
