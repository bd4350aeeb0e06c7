-- ===== src/Delivery/Acks.antt =====
-- internal/delivery/worker.go: the acknowledgement of one receipt to the router.
pub mod Settled
use relaypoint.Common.{
  ℕ, String, ◌⊎◌, inl, inr, List, [], ◌∷◌, ◌++◌, Option, none, some, Bool, true, false, not, ◌&&◌,
  ◌||◌, ◌==◌, eqb, if◌then◌else◌, big_endian, put_parts,
}
use relaypoint.Delivery.{Receipt, Externals}

abbrev pub acknowledge_delivery_method : String
acknowledge_delivery_method = "/kafaconnect.routing.v1.ReservationService/AcknowledgeDelivery"

abbrev pub ack_applied : ℕ
ack_applied = 1

abbrev pub ack_already_applied : ℕ
ack_already_applied = 2

abbrev pub ack_terminal_expired : ℕ
ack_terminal_expired = 3

-- The disposition is a `uint8` that was not checked.
pub record AckResult : Type 0 where
  pub disposition : ℕ
  pub route_version : ℕ
  pub event_id : String

pub record AckClaim : Type 0 where
  pub receipt : Receipt
  pub claim_token : String
  pub expected_route_version : ℕ
  pub fencing_token : String
  pub request_hash : String

pub record AcknowledgeRequest : Type 0 where
  pub request_id : String
  pub tenant_id : String
  pub reservation_id : String
  pub interaction_id : String
  pub expected_route_version : ℕ
  pub fencing_token : String
  pub receipt : Receipt

-- An error of the worker: of the store or of the router, or one of its own.
pub data AckFault : Type 0 where
  acknowledgement_hash unknown_acknowledgement unmarshalled : AckFault
  foreign : ℕ → AckFault

pub data AckCall : Type 0 where
  acknowledge : AcknowledgeRequest → AckCall
  complete : String → String → String → AckResult → AckCall
  retry : String → String → String → AckFault → AckCall

-- The calls after the claim, in their order, and the error that is returned.
pub record Processed : Type 0 where
  pub calls : List AckCall
  pub error : Option AckFault

-- `AcknowledgeRequest.Equal`; `same_receipt` is the protobuf library's.
unfoldable pub same_request :
    (Receipt → Receipt → Bool) → AcknowledgeRequest → AcknowledgeRequest → Bool
same_request same_receipt r s =
    r.request_id == s.request_id
    && r.tenant_id == s.tenant_id
    && r.reservation_id == s.reservation_id
    && r.interaction_id == s.interaction_id
    && eqb r.expected_route_version s.expected_route_version
    && r.fencing_token == s.fencing_token
    && same_receipt r.receipt s.receipt

unfoldable pub request_of : AckClaim → AcknowledgeRequest
request_of claim = record {
  request_id = claim.receipt.receipt_id;
  tenant_id = claim.receipt.tenant_id;
  reservation_id = claim.receipt.reservation_id;
  interaction_id = claim.receipt.interaction_id;
  expected_route_version = claim.expected_route_version;
  fencing_token = claim.fencing_token;
  receipt = claim.receipt;
}

abbrev pub is_known : ℕ → Bool
is_known d = eqb d ack_applied || eqb d ack_already_applied || eqb d ack_terminal_expired

abbrev pub foreign_of : Option ℕ → AckFault → AckFault
foreign_of none e = e
foreign_of (some n) e = foreign n

abbrev pub fault_of : Option ℕ → Option AckFault
fault_of none = none
fault_of (some n) = some (foreign n)

module _ (x : Externals) where
  unfoldable pub ack_parts : AcknowledgeRequest → List ℕ → List (List ℕ)
  ack_parts r receipt =
      x.bytes acknowledge_delivery_method
      ∷ x.bytes r.tenant_id
      ∷ x.bytes r.request_id
      ∷ x.bytes r.reservation_id
      ∷ x.bytes r.interaction_id
      ∷ big_endian 8 r.expected_route_version
      ∷ x.bytes r.fencing_token
      ∷ receipt
      ∷ []

  abbrev pub hash_of_receipt : AcknowledgeRequest → Option (List ℕ) → Option String
  hash_of_receipt r none = none
  hash_of_receipt r (some receipt) = some (x.digest (put_parts (ack_parts r receipt)))

  -- `AcknowledgeRequest.Hash`.
  unfoldable pub ack_hash : AcknowledgeRequest → Option String
  unfolding ack_parts
  ack_hash r = hash_of_receipt r (x.marshal_receipt r.receipt)

  -- The worker of a tenant. What the calls of the store give is an error where there is one.
  module _ (tenant_id : String) (acknowledge_delivery : AcknowledgeRequest → AckResult ⊎ ℕ)
      (retry_error complete_error : Option ℕ) where
    -- `store.Retry`, and the error that is returned then.
    unfoldable pub retried : AckClaim → List AckCall → AckFault → Processed
    unfolding request_of
    retried claim before e = record {
      calls = before ++ retry tenant_id (request_of claim).request_id claim.claim_token e ∷ [];
      error = some (foreign_of retry_error e);
    }

    abbrev pub of_router : AckClaim → AckResult ⊎ ℕ → Processed
    of_router claim (inr n) = retried claim (acknowledge (request_of claim) ∷ []) (foreign n)
    of_router claim (inl result) =
        if not (is_known result.disposition)
        then retried claim (acknowledge (request_of claim) ∷ []) unknown_acknowledgement
        else record {
          calls =
              acknowledge (request_of claim)
              ∷ complete tenant_id (request_of claim).request_id claim.claim_token result
              ∷ [];
          error = fault_of complete_error;
        }

    abbrev pub of_hash : AckClaim → Option String → Processed
    of_hash claim none = retried claim [] unmarshalled
    of_hash claim (some hash) =
        if not (hash == claim.request_hash)
        then retried claim [] acknowledgement_hash
        else of_router claim (acknowledge_delivery (request_of claim))

    -- `ProcessOne`; the claim is what `store.Claim` gives.
    unfoldable pub process_one : Option AckClaim ⊎ ℕ → Processed
    unfolding retried ack_hash
    process_one (inr n) = record { calls = []; error = some (foreign n) }
    process_one (inl none) = record { calls = []; error = none }
    process_one (inl (some claim)) = of_hash claim (ack_hash (request_of claim))
