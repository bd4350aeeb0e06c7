-- ===== src/Delivery/Messages.antt =====
-- internal/delivery/service.go and the messages of gen/go/relaypoint/delivery/v1: the data of a delivery.
use relaypoint.Common.{ℕ, String, List, Option, Bool}
use relaypoint.Routes.Facts.{Uuid}

abbrev pub capability_delivery_write : String
capability_delivery_write = "corex-delivery-write"

abbrev pub accept_delivery_method : String
accept_delivery_method = "/relaypoint.delivery.v1.DeliveryService/AcceptDelivery"

abbrev pub issuer_service_id : String
issuer_service_id = "relaypoint"

-- `DELIVERY_VISIBILITY_PENDING_NOT_VISIBLE`.
abbrev pub pending_not_visible : ℕ
pending_not_visible = 1

-- A protobuf timestamp, with the fields that the program does not know as they were received.
pub record Timestamp : Type 0 where
  pub seconds : ℕ
  pub nanos : ℕ
  pub unknown : List ℕ

pub record Authorization : Type 0 where
  pub delivery_authorization_id : String
  pub event_id : String
  pub tenant_id : String
  pub reservation_id : String
  pub interaction_id : String
  pub target_subscriber_id : String
  pub fencing_token : String
  pub route_version : ℕ
  pub delivery_deadline : Option Timestamp
  pub traceparent : String
  pub unknown : List ℕ

pub record Receipt : Type 0 where
  pub receipt_id : String
  pub delivery_authorization_id : String
  pub event_id : String
  pub tenant_id : String
  pub reservation_id : String
  pub interaction_id : String
  pub target_subscriber_id : String
  pub accepted_at : Timestamp
  pub delivery_deadline : Option Timestamp
  pub log_sequence : ℕ
  pub issuer_service_id : String
  pub visibility : ℕ
  pub unknown : List ℕ

pub record Principal : Type 0 where
  pub service_id : String
  pub tenant_id : String
  pub capabilities : List String

pub record AppendInput : Type 0 where
  pub authorization : Authorization
  pub receipt_id : String
  pub issuer_service : String
  pub request_hash : String
  pub request_body : List ℕ

-- `accepted_at` is a time in nanoseconds.
pub record AppendResult : Type 0 where
  pub receipt_id : String
  pub accepted_at : ℕ
  pub log_sequence : ℕ

-- An error by what `errors.Is` finds in it; `other` is a store's.
pub data Failure : Type 0 where
  unauthenticated permission_denied invalid_authorization idempotency_conflict unmarshalled :
      Failure
  other : ℕ → Failure

pub data Appended : Type 0 where
  stored : AppendResult → Appended
  unstored : Failure → Appended

-- The UUID and protobuf libraries, SHA-256 and the bytes of a text; a hash is a text.
pub record Externals : Type 0 where
  pub parse_uuid : String → Option Uuid
  pub is_valid_time : Timestamp → Bool
  pub timestamp_of : ℕ → Timestamp
  pub marshal : Authorization → Option (List ℕ)
  pub marshal_receipt : Receipt → Option (List ℕ)
  pub bytes : String → List ℕ
  pub digest : List ℕ → String
