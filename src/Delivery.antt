-- ===== src/Delivery.antt =====
-- internal/delivery/service.go: the acceptance of a delivery authorization.
mod Messages
pub mod Accepted
pub mod Hashed
pub mod Acks
pub mod Server
pub mod Store
pub mod Samples
mod Tests
pub use Messages.*
use relaypoint.Common.{
  ℕ, String, ◌⊎◌, inl, inr, List, [], ◌∷◌, ◌++◌, Option, none, some, Bool, true, false, not, ◌&&◌,
  ◌||◌, ◌==◌, eqb, if◌then◌else◌, length, slice, put_parts,
}
use relaypoint.Trace.{same_bytes, is_hex, hyphen}

-- `traceparentPattern`: 00-[0-9a-f]{32}-[0-9a-f]{16}-0[01], from the start to the end.
unfoldable pub matches_traceparent : List ℕ → Bool
unfolding slice same_bytes is_hex
matches_traceparent raw =
    eqb (length raw) 55
    && same_bytes (slice 0 3 raw) (48 ∷ 48 ∷ 45 ∷ [])
    && is_hex (slice 3 32 raw)
    && same_bytes (slice 35 1 raw) hyphen
    && is_hex (slice 36 16 raw)
    && same_bytes (slice 52 2 raw) (45 ∷ 48 ∷ [])
    && (same_bytes (slice 54 1 raw) (48 ∷ []) || same_bytes (slice 54 1 raw) (49 ∷ []))

unfoldable pub has_capability : List String → String → Bool
has_capability [] wanted = false
has_capability (capability ∷ rest) wanted =
    let later = has_capability rest wanted in if capability == wanted then true else later

-- `discardUnknown`, on the message and on the one message that it can hold.
unfoldable pub known_time : Option Timestamp → Option Timestamp
known_time none = none
known_time (some t) = some (record t { unknown = [] })

unfoldable pub discard_unknown : Authorization → Authorization
unfolding known_time
discard_unknown a = record a { delivery_deadline = known_time a.delivery_deadline; unknown = [] }

-- What a call of `AcceptDelivery` gives, and what it appended.
pub data Answer : Type 0 where
  accepted : Receipt → Answer
  failed : Failure → Answer

pub record Outcome : Type 0 where
  pub answer : Answer
  pub appended : Option AppendInput

abbrev pub refuse : Failure → Outcome
refuse e = record { answer = failed e; appended = none }

module _ (x : Externals) where
  -- `requireUUIDv7`, true when it gives no error.
  unfoldable pub require_uuid_v7 : String → Bool
  require_uuid_v7 value = elim (x.parse_uuid value) [
    | none ↦ false
    | some id ↦ eqb id.version 7 && id.rfc4122 && id.canonical == value
  ]

  abbrev pub is_set_time : Option Timestamp → Bool
  is_set_time none = false
  is_set_time (some t) = x.is_valid_time t

  -- `validateAuthorization` of a message that is not nil: every error of it is `ErrInvalidAuthorization`, so
  -- the order in which Go visits the map of the fields does not matter.
  unfoldable pub is_valid_authorization : Authorization → Bool
  unfolding require_uuid_v7 matches_traceparent
  is_valid_authorization a =
      require_uuid_v7 a.delivery_authorization_id
      && require_uuid_v7 a.event_id
      && require_uuid_v7 a.tenant_id
      && require_uuid_v7 a.reservation_id
      && require_uuid_v7 a.interaction_id
      && require_uuid_v7 a.target_subscriber_id
      && require_uuid_v7 a.fencing_token
      && not (eqb a.route_version 0)
      && is_set_time a.delivery_deadline
      && matches_traceparent (x.bytes a.traceparent)

  unfoldable pub normalize_id : String → String
  normalize_id value = elim (x.parse_uuid value) [ none ↦ value | some id ↦ id.canonical ]

  -- `normalizeAuthorization`: the text fields whose names end in "_id" are made canonical.
  unfoldable pub normalize_authorization : Authorization → Authorization
  unfolding discard_unknown normalize_id
  normalize_authorization a =
      let n = discard_unknown a in
      record n {
        delivery_authorization_id = normalize_id n.delivery_authorization_id;
        event_id = normalize_id n.event_id;
        tenant_id = normalize_id n.tenant_id;
        reservation_id = normalize_id n.reservation_id;
        interaction_id = normalize_id n.interaction_id;
        target_subscriber_id = normalize_id n.target_subscriber_id;
      }

  abbrev pub hash_parts : Authorization → List ℕ → List (List ℕ)
  hash_parts a body = x.bytes accept_delivery_method ∷ x.bytes a.tenant_id ∷ body ∷ []

  abbrev pub hash_of_body : Authorization → Option (List ℕ) → Option (String × List ℕ)
  hash_of_body a none = none
  hash_of_body a (some body) = some (x.digest (put_parts (hash_parts a body)), body)

  unfoldable pub authorization_hash_and_body : Authorization → Option (String × List ℕ)
  authorization_hash_and_body a = hash_of_body a (x.marshal a)

  abbrev pub hash_alone : Option (String × List ℕ) → String ⊎ Failure
  hash_alone none = inr unmarshalled
  hash_alone (some (hash, body)) = inl hash

  abbrev pub hash_present : Option Authorization → String ⊎ Failure
  hash_present none = inr invalid_authorization
  hash_present (some a) =
      if not (is_valid_authorization a)
      then inr invalid_authorization
      else hash_alone (authorization_hash_and_body (normalize_authorization a))

  -- `HashAuthorization`.
  unfoldable pub hash_authorization : Option Authorization → String ⊎ Failure
  unfolding is_valid_authorization normalize_authorization authorization_hash_and_body
  hash_authorization a = hash_present a

  unfoldable pub receipt_of : Authorization → AppendResult → Receipt
  receipt_of n result = record {
    receipt_id = result.receipt_id;
    delivery_authorization_id = n.delivery_authorization_id;
    event_id = n.event_id;
    tenant_id = n.tenant_id;
    reservation_id = n.reservation_id;
    interaction_id = n.interaction_id;
    target_subscriber_id = n.target_subscriber_id;
    accepted_at = x.timestamp_of result.accepted_at;
    delivery_deadline = n.delivery_deadline;
    log_sequence = result.log_sequence;
    issuer_service_id = issuer_service_id;
    visibility = pending_not_visible;
    unknown = [];
  }

  -- `append` is the store, and `receipt_id` what the generator gives in this call.
  module _ (append : AppendInput → Appended) (receipt_id : String) where
    abbrev pub input_of : Authorization → String → List ℕ → AppendInput
    input_of n hash body = record {
      authorization = n;
      receipt_id = receipt_id;
      issuer_service = issuer_service_id;
      request_hash = hash;
      request_body = body;
    }

    abbrev pub of_append : AppendInput → Appended → Outcome
    of_append input (unstored e) = record { answer = failed e; appended = some input }
    of_append input (stored result) = record {
      answer = accepted (receipt_of input.authorization result);
      appended = some input;
    }

    abbrev pub of_hash : Authorization → Option (String × List ℕ) → Outcome
    of_hash n none = refuse unmarshalled
    of_hash n (some (hash, body)) =
        if not (require_uuid_v7 receipt_id)
        then refuse invalid_authorization
        else of_append (input_of n hash body) (append (input_of n hash body))

    abbrev pub of_present : Principal → Option Authorization → Outcome
    of_present p none = refuse permission_denied
    of_present p (some a) =
        if p.tenant_id == "" || not (p.tenant_id == a.tenant_id)
        then refuse permission_denied
        else if not (is_valid_authorization a)
        then refuse invalid_authorization
        else of_hash (normalize_authorization a)
            (authorization_hash_and_body (normalize_authorization a))

    unfoldable pub accept_delivery : Principal → Option Authorization → Outcome
    unfolding has_capability
    accept_delivery p a =
        if not (p.service_id == "corex")
        then refuse unauthenticated
        else if not (has_capability p.capabilities capability_delivery_write)
        then refuse permission_denied
        else of_present p a
