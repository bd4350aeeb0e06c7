-- ===== src/Delivery/Tests.antt =====
-- Runs of the delivery service, its worker and its server (internal/delivery, internal/deliverygrpc).
use relaypoint.Common.{
  ℕ, ◌≡◌, refl, ◌⊎◌, ◌↔◌, inl, inr, [], none, some, Bool, true, ◌==◌, ltb, arith, ◌/◌, ◌%◌,
}
use relaypoint.Delivery.{
  Receipt, AppendInput, Appended, stored, unstored, idempotency_conflict, Externals,
  is_valid_authorization, discard_unknown, authorization_hash_and_body, hash_authorization,
  accept_delivery,
}
use relaypoint.Delivery.Samples.{bytes, bytes-injective, sent, sent_newer, corex}
use relaypoint.Delivery.Accepted.{IsAccepted, accept_delivery-IsAccepted}
use relaypoint.Delivery.Hashed.{AreWritten, hash_authorization_iff, IsWritable, ack_hash_iff_same}
use relaypoint.Delivery.Acks.{
  ack_applied, AckResult, AckClaim, AcknowledgeRequest, same_request, ack_hash, process_one,
}
use relaypoint.Delivery.Acks.Settled.{IsSettled, process_one-IsSettled}
use relaypoint.Delivery.Server
use relaypoint.Delivery.Server.Answered.{IsAnswered, accept_delivery-IsAnswered}

abbrev x : Externals
x = record {
  parse_uuid = λ s. some (record { version = 7; rfc4122 = true; canonical = s });
  is_valid_time = λ t. ltb t.nanos 1_000_000_000;
  timestamp_of =
      λ n. record { seconds = n / 1_000_000_000; nanos = n % 1_000_000_000; unknown = [] };
  marshal = λ a. some (bytes a.event_id);
  marshal_receipt = λ r. some (bytes r.receipt_id);
  bytes = bytes;
  digest = λ b. "hash";
}

abbrev store : AppendInput → Appended
store input = stored (record { receipt_id = input.receipt_id; accepted_at = 7; log_sequence = 3 })

sent-valid : is_valid_authorization x sent ≡ true
unfolding is_valid_authorization bytes
sent-valid = refl

sent_newer-valid : is_valid_authorization x sent_newer ≡ true
unfolding is_valid_authorization bytes
sent_newer-valid = refl

accept_delivery-IsAccepted_example :
    let o = accept_delivery x store "r1" corex (some sent_newer) in
    IsAccepted x store "r1" corex (some sent_newer) o.appended o.answer
accept_delivery-IsAccepted_example = accept_delivery-IsAccepted x store "r1" corex (some sent_newer)

sent-AreWritten : AreWritten x sent (bytes "e1")
unfolding bytes discard_unknown
sent-AreWritten = (refl, omega arith, omega arith, omega arith)

sent_newer-AreWritten : AreWritten x sent_newer (bytes "e1")
unfolding bytes discard_unknown
sent_newer-AreWritten = (refl, omega arith, omega arith, omega arith)

same_known : discard_unknown sent ≡ discard_unknown sent_newer
unfolding discard_unknown
same_known = refl

hash_authorization_iff_example :
    (hash_authorization x (some sent) ≡ hash_authorization x (some sent_newer))
    ↔ (discard_unknown sent ≡ discard_unknown sent_newer)
unfolding discard_unknown
hash_authorization_iff_example =
    hash_authorization_iff x sent sent_newer (bytes "e1") (bytes "e1") sent-valid sent_newer-valid
      sent-AreWritten sent_newer-AreWritten (λ e. refl) (λ e. refl)

abbrev receipt : Receipt
receipt = record {
  receipt_id = "r1";
  delivery_authorization_id = "d1";
  event_id = "e1";
  tenant_id = "t1";
  reservation_id = "v1";
  interaction_id = "i1";
  target_subscriber_id = "s1";
  accepted_at = record { seconds = 1; nanos = 2; unknown = [] };
  delivery_deadline = none;
  log_sequence = 3;
  issuer_service_id = "relaypoint";
  visibility = 1;
  unknown = [];
}

abbrev claim : AckClaim
claim = record {
  receipt = receipt;
  claim_token = "c1";
  expected_route_version = 4;
  fencing_token = "f1";
  request_hash = "hash";
}

abbrev request : AcknowledgeRequest
request = record {
  request_id = "r1";
  tenant_id = "t1";
  reservation_id = "v1";
  interaction_id = "i1";
  expected_route_version = 4;
  fencing_token = "f1";
  receipt = receipt;
}

abbrev same_receipt : Receipt → Receipt → Bool
same_receipt r s = r.receipt_id == s.receipt_id

request-IsWritable : IsWritable x request (bytes "r1")
unfolding bytes
request-IsWritable = record {
  encoded = refl;
  sized =
      (omega arith, omega arith, omega arith, omega arith, omega arith, omega arith, omega arith);
  version = omega arith;
}

ack_hash_iff_same_example :
    (ack_hash x request ≡ ack_hash x request) ↔ (same_request same_receipt request request ≡ true)
ack_hash_iff_same_example =
    ack_hash_iff_same x same_receipt request request (bytes "r1") (bytes "r1") request-IsWritable
      request-IsWritable bytes-injective (λ e. refl, λ e. refl) (λ e. refl)

abbrev router : AcknowledgeRequest → AckResult ⊎ ℕ
router r = inl (record { disposition = ack_applied; route_version = 4; event_id = "e2" })

process_one-IsSettled_example :
    IsSettled x "t1" router none none claim (process_one x "t1" router none none (inl (some claim)))
process_one-IsSettled_example = process_one-IsSettled x "t1" router none none claim

accept_delivery-IsAnswered_example :
    IsAnswered x
      (λ input. unstored idempotency_conflict)
      "r1"
      (some sent)
      (some corex)
      (Server.accept_delivery
        (some corex)
        (accept_delivery x (λ input. unstored idempotency_conflict) "r1")
        (some sent))
accept_delivery-IsAnswered_example =
    accept_delivery-IsAnswered x (λ input. unstored idempotency_conflict) "r1" (some sent)
      (some corex)

a_conflict_is_already_exists :
    Server.accept_delivery
      (some corex)
      (accept_delivery x (λ input. unstored idempotency_conflict) "r1")
      (some sent)
    ≡ inr Server.already_exists
unfolding Server.accept_delivery accept_delivery is_valid_authorization authorization_hash_and_body
    bytes
a_conflict_is_already_exists = refl

a_known_answer_completes : (process_one x "t1" router none none (inl (some claim))).error ≡ none
unfolding process_one
a_known_answer_completes = refl
