-- ===== src/Delivery/Store.antt =====
-- internal/deliverypg/store.go over the tables of db/migrations/000001_baseline.up.sql. A transaction is one
-- step; every statement of it names the tenant that its row policies let it see.
pub mod Rows
mod Inserts
pub mod Steps
pub mod Keys
pub mod Unique
pub mod Kept
pub mod Retained
pub mod Moves
pub mod Matched
mod Tests
unfoldable pub use Inserts.*
use relaypoint.Common.{
  ℕ, ◌+◌, String, ◌⊎◌, inl, inr, List, [], ◌∷◌, ◌++◌, Option, none, some, Bool, true, false, not,
  ◌&&◌, ◌||◌, ◌==◌, eqb, ltb, leb, if◌then◌else◌, take,
}
use relaypoint.Delivery.{
  Authorization, Receipt, AppendInput, AppendResult, unmarshalled, idempotency_conflict, other,
  Appended, stored, unstored, Externals, pending_not_visible,
}
use relaypoint.Delivery.Store.Rows.{
  AuthorizationRow, LogRow, Status, pending, claimed, completed, AckRow, Db, find_authorization,
  find_ack, update_ack,
}
use relaypoint.Delivery.Acks.{AckResult, AckClaim, AcknowledgeRequest, ack_hash}

-- How a transaction ends: it is committed, it fails and is rolled back, or it is committed and the answer is
-- lost. The number is the error.
pub data Ending : Type 0 where
  committed : Ending
  rolled_back lost : ℕ → Ending

abbrev pub of_ending : {A : Type 0} → (ℕ → A) → Ending → Db → Db × A → Db × A
of_ending fail committed db (db', a) = (db', a)
of_ending fail (rolled_back n) db (db', a) = (db, fail n)
of_ending fail (lost n) db (db', a) = (db', fail n)

-- `RowsAffected() != 1`: the key of the table is unique, so one row or none is updated.
abbrev pub holds_token : String → Status → Option String → Bool
holds_token token pending held = false
holds_token token completed held = false
holds_token token claimed none = false
holds_token token claimed (some held) = held == token

abbrev pub holds_claim : String → Option AckRow → Bool
holds_claim token none = false
holds_claim token (some row) = holds_token token row.status row.claim_token

abbrev pub settle : String → String → String → (AckRow → AckRow) → Db → Db × Option ℕ
settle tenant_id receipt_id token change db =
    if holds_claim token (find_ack tenant_id receipt_id db.outbox)
    then (record db { outbox = update_ack tenant_id receipt_id change db.outbox }, none)
    else (db, some no_rows)

abbrev pub with_result : AckResult → AckRow → AckRow
with_result result row = record row {
  status = completed;
  result = some result;
  claim_token = none;
  claim_until = 0;
}

abbrev pub given_back : ℕ → List ℕ → AckRow → AckRow
given_back now message row = record row {
  status = pending;
  attempts = row.attempts + 1;
  next_attempt_at = now;
  last_error = take 512 message;
  claim_token = none;
  claim_until = 0;
}

-- `Complete`.
unfoldable pub complete : Ending → String → String → String → AckResult → Db → Db × Option ℕ
unfolding find_ack update_ack
complete ending tenant_id receipt_id token result db =
    of_ending some ending db (settle tenant_id receipt_id token (with_result result) db)

-- `Retry` at a reading of the clock; the message is its bytes.
unfoldable pub retry : Ending → String → String → String → List ℕ → ℕ → Db → Db × Option ℕ
unfolding find_ack update_ack
retry ending tenant_id receipt_id token message now db =
    of_ending some ending db (settle tenant_id receipt_id token (given_back now message) db)

abbrev pub is_open : ℕ → ℕ → Status → Bool
is_open now until pending = true
is_open now until claimed = leb until now
is_open now until completed = false

abbrev pub is_due : ℕ → AckRow → Bool
is_due now row = leb row.next_attempt_at now && is_open now row.claim_until row.status

-- `before` is the order of UUIDs, and `locked` says which rows another transaction holds.
module _ (before : String → String → Bool) (locked : String → Bool) where
  abbrev pub sooner : AckRow → Option AckRow → AckRow
  sooner row none = row
  sooner row (some best) =
      if ltb row.next_attempt_at best.next_attempt_at
        || eqb row.next_attempt_at best.next_attempt_at && before row.receipt_id best.receipt_id
      then row
      else best

  abbrev pub is_candidate : String → ℕ → AckRow → Bool
  is_candidate tenant_id now row =
      row.tenant_id == tenant_id && is_due now row && not (locked row.receipt_id)

  -- The query `candidate`: the first due row in the order of the next attempt and the receipt.
  unfoldable pub candidate : String → ℕ → List AckRow → Option AckRow
  candidate tenant_id now [] = none
  candidate tenant_id now (row ∷ rows) =
      let rest = candidate tenant_id now rows in
      if is_candidate tenant_id now row then some (sooner row rest) else rest

abbrev pub taken_by : String → ℕ → AckRow → AckRow
taken_by token until row = record row {
  status = claimed;
  claim_token = some token;
  claim_until = until;
}

abbrev pub claim_of : String → AckRow → Receipt → AckClaim
claim_of token row receipt = record {
  receipt = receipt;
  claim_token = token;
  expected_route_version = row.expected_route_version;
  fencing_token = row.fencing_token;
  request_hash = row.request_hash;
}

-- `defaultClaimTTL`, in nanoseconds.
abbrev pub default_claim_ttl : ℕ
default_claim_ttl = 30_000_000_000

-- The error of a receipt that cannot be decoded.
abbrev pub undecoded : ℕ
undecoded = 1

module _ (x : Externals) (unmarshal_receipt : List ℕ → Option Receipt) where
  unfoldable pub receipt_from_append : AppendInput → AppendResult → Receipt
  receipt_from_append input result = record {
    receipt_id = result.receipt_id;
    delivery_authorization_id = input.authorization.delivery_authorization_id;
    event_id = input.authorization.event_id;
    tenant_id = input.authorization.tenant_id;
    reservation_id = input.authorization.reservation_id;
    interaction_id = input.authorization.interaction_id;
    target_subscriber_id = input.authorization.target_subscriber_id;
    accepted_at = x.timestamp_of result.accepted_at;
    delivery_deadline = input.authorization.delivery_deadline;
    log_sequence = result.log_sequence;
    issuer_service_id = input.issuer_service;
    visibility = pending_not_visible;
    unknown = [];
  }

  abbrev pub ack_of : AppendInput → AppendResult → AcknowledgeRequest
  ack_of input result = record {
    request_id = result.receipt_id;
    tenant_id = input.authorization.tenant_id;
    reservation_id = input.authorization.reservation_id;
    interaction_id = input.authorization.interaction_id;
    expected_route_version = input.authorization.route_version;
    fencing_token = input.authorization.fencing_token;
    receipt = receipt_from_append input result;
  }

  abbrev pub put_rows : Db → AppendInput → AppendResult → List ℕ → String → Db
  put_rows db input result body hash = record {
    authorizations = row_of input result ∷ db.authorizations;
    log = log_row_of input result ∷ db.log;
    outbox = ack_row_of input result body hash ∷ db.outbox;
  }

  abbrev pub of_encoded :
      Db → AppendInput → Drawn → AppendResult → Option (List ℕ) → Option String → Db × Appended
  of_encoded db input drawn result none hash = (db, unstored unmarshalled)
  of_encoded db input drawn result (some body) none = (db, unstored unmarshalled)
  of_encoded db input drawn result (some body) (some hash) =
      if is_taken db input drawn
      then (db, unstored (other unique_violation))
      else (put_rows db input result body hash, stored result)

  abbrev pub new_result : AppendInput → Drawn → AppendResult
  new_result input drawn = record {
    receipt_id = input.receipt_id;
    accepted_at = drawn.accepted_at;
    log_sequence = drawn.log_sequence;
  }

  abbrev pub of_retained : Db → AppendInput → Drawn → Option AuthorizationRow → Db × Appended
  of_retained db input drawn (some row) =
      if not (row.request_hash == input.request_hash)
      then (db, unstored idempotency_conflict)
      else (db, stored (result_of row))
  of_retained db input drawn none =
      let result = new_result input drawn in
      of_encoded db input drawn result (x.marshal_receipt (receipt_from_append input result))
        (ack_hash x (ack_of input result))

  -- The operation of `Append`, which holds the lock of the authorization's id.
  unfoldable pub append_tx : Db → AppendInput → Drawn → Db × Appended
  unfolding find_authorization receipt_from_append is_taken
  append_tx db input drawn = of_retained db input drawn (
      find_authorization input.authorization.tenant_id input.authorization.delivery_authorization_id
        db.authorizations)

  -- `Append`.
  unfoldable pub append : Ending → Db → AppendInput → Drawn → Db × Appended
  unfolding append_tx
  append ending db input drawn =
      of_ending (λ n. unstored (other n)) ending db (append_tx db input drawn)

  module _ (before : String → String → Bool) where
    abbrev pub of_body : String → AckRow → Option Receipt → Option AckClaim ⊎ ℕ
    of_body token row none = inr undecoded
    of_body token row (some receipt) = inl (some (claim_of token row receipt))

    abbrev pub of_candidate : String → String → ℕ → Db → Option AckRow → Db × (Option AckClaim ⊎ ℕ)
    of_candidate tenant_id token until db none = (db, inl none)
    of_candidate tenant_id token until db (some row) = (
      record db { outbox = update_ack tenant_id row.receipt_id (taken_by token until) db.outbox },
      of_body token row (unmarshal_receipt row.receipt_body),
    )

    -- `Claim`: the clock is read at the query and at the update.
    unfoldable pub claim :
        Ending → (String → Bool) → String → String → ℕ → ℕ → Db → Db × (Option AckClaim ⊎ ℕ)
    unfolding candidate update_ack
    claim ending locked tenant_id token now at db = of_ending inr ending db (
        of_candidate tenant_id token (at + default_claim_ttl) db
          (candidate before locked tenant_id now db.outbox))
