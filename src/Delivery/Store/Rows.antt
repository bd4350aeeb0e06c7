-- ===== src/Delivery/Store/Rows.antt =====
-- The rows of internal/deliverypg/store.go in the tables of db/migrations/000001_baseline.up.sql.
use relaypoint.Common.{
  ℕ, String, List, [], ◌∷◌, Option, none, some, Bool, ◌&&◌, ◌==◌, if◌then◌else◌,
}
use relaypoint.Delivery.{Authorization}
use relaypoint.Delivery.Acks.{AckResult}

-- A row of `delivery_authorizations`; its visibility is one constant.
pub record AuthorizationRow : Type 0 where
  pub authorization : Authorization
  pub request_hash : String
  pub request_body : List ℕ
  pub receipt_id : String
  pub accepted_at : ℕ
  pub log_sequence : ℕ
  pub issuer_service : String

-- A row of `interaction_delivery_log`.
pub record LogRow : Type 0 where
  pub tenant_id : String
  pub interaction_id : String
  pub delivery_authorization_id : String
  pub receipt_id : String
  pub request_hash : String
  pub authorization_body : List ℕ
  pub log_sequence : ℕ
  pub accepted_at : ℕ

pub data Status : Type 0 where
  pending claimed completed : Status

-- A row of `delivery_ack_outbox`, without the columns that nothing reads.
pub record AckRow : Type 0 where
  pub tenant_id : String
  pub receipt_id : String
  pub expected_route_version : ℕ
  pub fencing_token : String
  pub receipt_body : List ℕ
  pub request_hash : String
  pub status : Status
  pub claim_token : Option String
  pub claim_until : ℕ
  pub attempts : ℕ
  pub next_attempt_at : ℕ
  pub result : Option AckResult
  pub last_error : List ℕ

pub record Db : Type 0 where
  pub authorizations : List AuthorizationRow
  pub log : List LogRow
  pub outbox : List AckRow

abbrev pub is_authorization : String → String → AuthorizationRow → Bool
is_authorization tenant_id id row =
    row.authorization.tenant_id == tenant_id && row.authorization.delivery_authorization_id == id

unfoldable pub find_authorization :
    String → String → List AuthorizationRow → Option AuthorizationRow
find_authorization tenant_id id [] = none
find_authorization tenant_id id (row ∷ rows) =
    let rest = find_authorization tenant_id id rows in
    if is_authorization tenant_id id row then some row else rest

abbrev pub is_ack : String → String → AckRow → Bool
is_ack tenant_id receipt_id row = row.tenant_id == tenant_id && row.receipt_id == receipt_id

unfoldable pub find_ack : String → String → List AckRow → Option AckRow
find_ack tenant_id receipt_id [] = none
find_ack tenant_id receipt_id (row ∷ rows) =
    let rest = find_ack tenant_id receipt_id rows in
    if is_ack tenant_id receipt_id row then some row else rest

unfoldable pub update_ack : String → String → (AckRow → AckRow) → List AckRow → List AckRow
update_ack tenant_id receipt_id change [] = []
update_ack tenant_id receipt_id change (row ∷ rows) =
    (if is_ack tenant_id receipt_id row then change row else row)
    ∷ update_ack tenant_id receipt_id change rows
