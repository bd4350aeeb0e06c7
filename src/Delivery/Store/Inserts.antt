-- ===== src/Delivery/Store/Inserts.antt =====
-- The rows that an append of internal/deliverypg/store.go inserts, and the UNIQUE constraints that it can meet.
use relaypoint.Common.{
  ℕ, String, List, [], ◌∷◌, Option, none, some, Bool, true, false, ◌&&◌, ◌||◌, ◌==◌, eqb,
}
use relaypoint.Delivery.{AppendInput, AppendResult}
use relaypoint.Delivery.Store.Rows.{AuthorizationRow, LogRow, pending, AckRow, Db, find_ack}

-- What the database draws for a row of the log: its identity and the clock.
pub record Drawn : Type 0 where
  pub log_sequence : ℕ
  pub accepted_at : ℕ

-- A statement that a UNIQUE constraint refuses, and an update that finds no row.
abbrev pub unique_violation : ℕ
unique_violation = 23505

abbrev pub no_rows : ℕ
no_rows = 0

-- The UNIQUE constraints that an append can meet.
unfoldable pub takes_authorization : AppendInput → List AuthorizationRow → Bool
takes_authorization input [] = false
takes_authorization input (row ∷ rows) =
    let rest = takes_authorization input rows in
    row.authorization.tenant_id == input.authorization.tenant_id
      && (row.authorization.event_id == input.authorization.event_id
          || row.receipt_id == input.receipt_id)
    || rest

unfoldable pub takes_log : AppendInput → ℕ → List LogRow → Bool
takes_log input sequence [] = false
takes_log input sequence (row ∷ rows) =
    let rest = takes_log input sequence rows in
    row.tenant_id == input.authorization.tenant_id
      && (row.delivery_authorization_id == input.authorization.delivery_authorization_id
          || row.receipt_id == input.receipt_id
          || eqb row.log_sequence sequence)
    || rest

abbrev pub has_ack : Option AckRow → Bool
has_ack none = false
has_ack (some row) = true

unfoldable pub is_taken : Db → AppendInput → Drawn → Bool
unfolding takes_authorization takes_log find_ack
is_taken db input drawn =
    takes_authorization input db.authorizations
    || takes_log input drawn.log_sequence db.log
    || has_ack (find_ack input.authorization.tenant_id input.receipt_id db.outbox)

abbrev pub result_of : AuthorizationRow → AppendResult
result_of row = record {
  receipt_id = row.receipt_id;
  accepted_at = row.accepted_at;
  log_sequence = row.log_sequence;
}

abbrev pub row_of : AppendInput → AppendResult → AuthorizationRow
row_of input result = record {
  authorization = input.authorization;
  request_hash = input.request_hash;
  request_body = input.request_body;
  receipt_id = result.receipt_id;
  accepted_at = result.accepted_at;
  log_sequence = result.log_sequence;
  issuer_service = input.issuer_service;
}

abbrev pub log_row_of : AppendInput → AppendResult → LogRow
log_row_of input result = record {
  tenant_id = input.authorization.tenant_id;
  interaction_id = input.authorization.interaction_id;
  delivery_authorization_id = input.authorization.delivery_authorization_id;
  receipt_id = input.receipt_id;
  request_hash = input.request_hash;
  authorization_body = input.request_body;
  log_sequence = result.log_sequence;
  accepted_at = result.accepted_at;
}

abbrev pub ack_row_of : AppendInput → AppendResult → List ℕ → String → AckRow
ack_row_of input result body hash = record {
  tenant_id = input.authorization.tenant_id;
  receipt_id = result.receipt_id;
  expected_route_version = input.authorization.route_version;
  fencing_token = input.authorization.fencing_token;
  receipt_body = body;
  request_hash = hash;
  status = pending;
  claim_token = none;
  claim_until = 0;
  attempts = 0;
  next_attempt_at = result.accepted_at;
  result = none;
  last_error = [];
}
