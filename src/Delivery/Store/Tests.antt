-- ===== src/Delivery/Store/Tests.antt =====
-- Runs of the delivery store (internal/deliverypg/store.go) on tables that were empty.
use relaypoint.Common.{
  ℕ, ◌/◌, ◌%◌, String, ◌≡◌, refl, sym, ap, inl, inr, List, [], ◌∷◌, Option, none, some, Bool, true,
  false, ◌==◌, ltb, arith, eq_iff, Bool-cases,
}
use native.Mathlib.Decide.{ℕ_discrete}
use relaypoint.Delivery.Samples.{bytes, sent, sent_newer, corex}
use relaypoint.Delivery.{
  Receipt, AppendInput, AppendResult, stored, Externals, accepted, discard_unknown,
  is_valid_authorization, authorization_hash_and_body, receipt_of, require_uuid_v7, accept_delivery,
}
use relaypoint.Delivery.Acks.{ack_applied, ack_hash}
use relaypoint.Delivery.Store.Rows.{AckRow, pending, Db, find_ack}
use relaypoint.Delivery.Store.{committed, Drawn, append_tx, append, claim, complete}
use relaypoint.Delivery.Store.Steps.{Step, appends, claims, Steps, here, next}
use relaypoint.Delivery.Store.Retained.{append_again, accept_again}
use relaypoint.Delivery.Store.Matched.{IsSendable, claim-IsSendable}
use relaypoint.Delivery.Store.Moves.{Moved, Allowed, Step-Moved}

String-discrete : Discrete String
String-discrete a b = elim (Bool-cases (a == b)) [
  | inl e ↦ yes ((eq_iff a b).0 e)
  | inr e ↦ no (λ p. let q = (eq_iff a b).1 p in cc)
]

Receipt-discrete : Discrete Receipt
Receipt-discrete = hlevel (String-discrete, ℕ_discrete)

abbrev written : Receipt
written = record {
  receipt_id = "r1";
  delivery_authorization_id = "d1";
  event_id = "e1";
  tenant_id = "t1";
  reservation_id = "v1";
  interaction_id = "i1";
  target_subscriber_id = "s1";
  accepted_at = record { seconds = 0; nanos = 7; unknown = [] };
  delivery_deadline = sent.delivery_deadline;
  log_sequence = 3;
  issuer_service_id = "relaypoint";
  visibility = 1;
  unknown = [];
}

-- The encoder knows the one receipt that is written here.
encode_if : (r : Receipt) → Dec (r ≡ written) → Option (List ℕ)
encode_if r (yes e) = some (7 ∷ [])
encode_if r (no e) = none

marshal_receipt : Receipt → Option (List ℕ)
marshal_receipt r = encode_if r (Receipt-discrete r written)

abbrev unmarshal_receipt : List ℕ → Option Receipt
unmarshal_receipt body = some written

encode_if-decodes :
    (r : Receipt) (d : Dec (r ≡ written)) (body : List ℕ)
    → encode_if r d ≡ some body
    → unmarshal_receipt body ≡ some r
unfolding encode_if
encode_if-decodes r (yes e) body h = ap some (sym e)
encode_if-decodes r (no e) body h = absurd (cc)

decodes :
    (r : Receipt) (body : List ℕ) → marshal_receipt r ≡ some body → unmarshal_receipt body ≡ some r
unfolding marshal_receipt
decodes r body h = encode_if-decodes r (Receipt-discrete r written) body h

abbrev x : Externals
x = record {
  parse_uuid = λ s. some (record { version = 7; rfc4122 = true; canonical = s });
  is_valid_time = λ t. ltb t.nanos 1_000_000_000;
  timestamp_of =
      λ n. record { seconds = n / 1_000_000_000; nanos = n % 1_000_000_000; unknown = [] };
  marshal = λ a. some (1 ∷ []);
  marshal_receipt = marshal_receipt;
  bytes = bytes;
  digest = λ b. "hash";
}

abbrev input : AppendInput
input = record {
  authorization = sent;
  receipt_id = "r1";
  issuer_service = "relaypoint";
  request_hash = "hash";
  request_body = 1 ∷ [];
}

abbrev drawn : Drawn
drawn = record { log_sequence = 3; accepted_at = 7 }

abbrev empty_db : Db
empty_db = record { authorizations = []; log = []; outbox = [] }

before : String → String → Bool
before a b = false

abbrev after_append : Db
after_append = (append x unmarshal_receipt committed empty_db input drawn).0

claim-IsSendable_example :
    IsSendable x unmarshal_receipt before decodes "t1"
      (λ r. inl (record { disposition = ack_applied; route_version = 4; event_id = "e2" }))
      none
      none
      (claim x unmarshal_receipt before committed (λ r. false) "t1" "c1" 8 9 after_append).1
claim-IsSendable_example =
    claim-IsSendable x unmarshal_receipt before decodes "t1"
      (λ r. inl (record { disposition = ack_applied; route_version = 4; event_id = "e2" })) none
      none after_append (λ r. false) "t1" "c1" 8 9 (next here (appends committed input drawn))

-- An encoder that knows every receipt.
abbrev y : Externals
y = record x { marshal_receipt = λ r. some (bytes r.receipt_id) }

abbrev result : AppendResult
result = record { receipt_id = "r1"; accepted_at = 7; log_sequence = 3 }

abbrev later : Drawn
later = record { log_sequence = 8; accepted_at = 40 }

abbrev stored_db : Db
stored_db = (append y unmarshal_receipt committed empty_db input drawn).0

input_is_stored : append_tx y unmarshal_receipt empty_db input drawn ≡ (stored_db, stored result)
unfolding append append_tx ack_hash bytes
input_is_stored = refl

-- The answer of the first append was lost, and a worker took the acknowledgement in between.
abbrev claimed_db : Db
claimed_db = (claim y unmarshal_receipt before committed (λ r. false) "t1" "c1" 8 9 stored_db).0

between : Steps y unmarshal_receipt before stored_db claimed_db
between = next here (claims committed (λ r. false) "t1" "c1" 8 9)

abbrev again : AppendInput
again = record input { receipt_id = "r2" }

append_again_example :
    append y unmarshal_receipt committed claimed_db again later ≡ (claimed_db, stored result)
append_again_example =
    append_again y unmarshal_receipt before input again drawn later empty_db stored_db claimed_db
      result input_is_stored between refl refl

sent_newer-valid : is_valid_authorization y sent_newer ≡ true
unfolding is_valid_authorization bytes
sent_newer-valid = refl

sent_newer-hashed :
    authorization_hash_and_body y (discard_unknown sent_newer) ≡ some ("hash", 1 ∷ [])
unfolding authorization_hash_and_body
sent_newer-hashed = refl

same_known : discard_unknown sent ≡ discard_unknown sent_newer
unfolding discard_unknown
same_known = refl

input_is_known : input.authorization ≡ discard_unknown sent_newer
unfolding discard_unknown
input_is_known = refl

uuid_is_accepted : require_uuid_v7 y "r2" ≡ true
unfolding require_uuid_v7
uuid_is_accepted = refl

accept_again_example :
    (accept_delivery y
      (λ i. (append y unmarshal_receipt committed claimed_db i later).1)
      "r2"
      corex
      (some sent_newer)).answer
    ≡ accepted (receipt_of y (discard_unknown sent_newer) result)
accept_again_example =
    accept_again y unmarshal_receipt before sent_newer "hash" (1 ∷ []) corex input drawn later
      empty_db stored_db claimed_db result "r2" input_is_known refl input_is_stored between refl
      (inr (inl refl)) refl (ground (arith, eq_iff "t1" "")) sent_newer-valid sent_newer-hashed
      uuid_is_accepted

abbrev put_row : AckRow
put_row = record {
  tenant_id = "t1";
  receipt_id = "r1";
  expected_route_version = 4;
  fencing_token = "f1";
  receipt_body = 114 ∷ 49 ∷ [];
  request_hash = "hash";
  status = pending;
  claim_token = none;
  claim_until = 0;
  attempts = 0;
  next_attempt_at = 7;
  result = none;
  last_error = [];
}

put_row_is_found : find_ack "t1" "r1" stored_db.outbox ≡ some put_row
unfolding append append_tx ack_hash bytes
put_row_is_found = refl

abbrev the_claim : Step y unmarshal_receipt before stored_db claimed_db
the_claim = claims committed (λ r. false) "t1" "c1" 8 9

Step-Moved_example :
    Moved "t1" "r1" put_row (Allowed y unmarshal_receipt before the_claim put_row) claimed_db
Step-Moved_example =
    Step-Moved y unmarshal_receipt before "t1" "r1" put_row
      (next here (appends committed input drawn)) the_claim put_row_is_found

-- A completion under another token finds no row.
a_stale_token_is_refused :
    (complete committed "t1" "r1" "c0"
      (record { disposition = ack_applied; route_version = 4; event_id = "e2" })
      claimed_db).1
    ≡ some 0
unfolding append append_tx ack_hash bytes claim complete
a_stale_token_is_refused = refl
