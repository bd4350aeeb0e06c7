-- ===== src/Delivery/Hashed.antt =====
-- What the request hash of internal/delivery/service.go and worker.go tells apart.
use relaypoint.Common.{
  ℕ, String, ◌≡◌, refl, sym, ◌∙◌, ◌<◌, ◌^◌, ◌↔◌, inl, List, some, Bool, true, ◌&&◌, arith, length,
  big_endian, big_endian-injective, length-big_endian, put_parts, put_parts-injective, AreSized,
  ◌==◌, eqb, eqb_iff, eq_iff,
}
use relaypoint.Delivery.{
  accept_delivery_method, Authorization, Receipt, Externals, discard_unknown,
  is_valid_authorization, hash_parts, authorization_hash_and_body, hash_alone, hash_authorization,
}
use relaypoint.Delivery.Accepted.{normalize_authorization-eq}
use relaypoint.Delivery.Acks.{
  acknowledge_delivery_method, AcknowledgeRequest, same_request, ack_parts, ack_hash,
}

-- The authorization has this encoding, which is shorter than 2 ^ 64 bytes, as are the texts hashed with it.
abbrev pub AreWritten : Externals → Authorization → List ℕ → Type 0
AreWritten x a body =
    (x.marshal (discard_unknown a) ≡ some body)
    × (length (x.bytes accept_delivery_method) < 2 ^ 64)
    × (length (x.bytes a.tenant_id) < 2 ^ 64)
    × (length body < 2 ^ 64)

module _ (x : Externals) where
  hash_authorization-valid :
      (a : Authorization)
      → is_valid_authorization x a ≡ true
      → hash_authorization x (some a)
        ≡ hash_alone x (authorization_hash_and_body x (discard_unknown a))
  unfolding hash_authorization
  hash_authorization-valid a v = rw (v, normalize_authorization-eq x a v) refl

  hash_of_written :
      (a : Authorization) (body : List ℕ)
      → x.marshal (discard_unknown a) ≡ some body
      → hash_alone x (authorization_hash_and_body x (discard_unknown a))
        ≡ inl (x.digest (put_parts (hash_parts x (discard_unknown a) body)))
  unfolding authorization_hash_and_body
  hash_of_written a body m = rw m refl

  -- Two valid authorizations have one hash exactly when they are equal but for the fields that the program
  -- does not know, when both are encoded, their encodings tell them apart, and the digest tells the two
  -- hashed inputs apart.
  pub hash_authorization_iff :
      (a b : Authorization) (body other : List ℕ)
      → is_valid_authorization x a ≡ true
      → is_valid_authorization x b ≡ true
      → AreWritten x a body
      → AreWritten x b other
      → (body ≡ other → discard_unknown a ≡ discard_unknown b)
      → (x.digest (put_parts (hash_parts x (discard_unknown a) body))
            ≡ x.digest (put_parts (hash_parts x (discard_unknown b) other))
          → put_parts (hash_parts x (discard_unknown a) body)
            ≡ put_parts (hash_parts x (discard_unknown b) other))
      → (hash_authorization x (some a) ≡ hash_authorization x (some b))
        ↔ (discard_unknown a ≡ discard_unknown b)
  unfolding discard_unknown
  hash_authorization_iff a b body other v w (m, l, t, s) (n, k, u, r) inj tells =
      let p = hash_authorization-valid a v in
      let q = hash_authorization-valid b w in
      (
        λ e.
            let g = hash_of_written a body m in
            let h = hash_of_written b other n in
            let y =
              put_parts-injective (hash_parts x (discard_unknown a) body)
                (hash_parts x (discard_unknown b) other) refl (l, (t, (s, tt))) (k, (u, (r, tt)))
                (tells cc) in
            inj cc,
        λ e. p ∙ rw e (sym q),
      )

all_seven :
    (a b c d n f g : Bool)
    → (a && b && c && d && n && f && g) ≡ true
    → (a ≡ true) × (b ≡ true) × (c ≡ true) × (d ≡ true) × (n ≡ true) × (f ≡ true) × (g ≡ true)
all_seven a b c d n f g h = ground arith

-- What the hash of an acknowledgement needs: each text is shorter than 2 ^ 64 bytes, the route version is a
-- `uint64`, and the receipt is encoded.
pub record IsWritable (x : Externals) (r : AcknowledgeRequest) (receipt : List ℕ) : Type 0 where
  pub encoded : x.marshal_receipt r.receipt ≡ some receipt
  pub sized :
      (length (x.bytes acknowledge_delivery_method) < 2 ^ 64)
      × (length (x.bytes r.tenant_id) < 2 ^ 64)
      × (length (x.bytes r.request_id) < 2 ^ 64)
      × (length (x.bytes r.reservation_id) < 2 ^ 64)
      × (length (x.bytes r.interaction_id) < 2 ^ 64)
      × (length (x.bytes r.fencing_token) < 2 ^ 64)
      × (length receipt < 2 ^ 64)
  pub version : r.expected_route_version < 2 ^ 64

module _ (x : Externals) where
  ack_parts-AreSized :
      (r : AcknowledgeRequest) (receipt : List ℕ)
      → IsWritable x r receipt
      → AreSized (ack_parts x r receipt)
  unfolding ack_parts
  ack_parts-AreSized r receipt w =
      let (m, t, q, v, i, f, b) = w.sized in
      let n : length (big_endian 8 r.expected_route_version) < 2 ^ 64 =
        omega (arith, length-big_endian 8 r.expected_route_version) in
      (m, (t, (q, (v, (i, (n, (f, (b, tt))))))))

  ack_hash-written :
      (r : AcknowledgeRequest) (receipt : List ℕ)
      → x.marshal_receipt r.receipt ≡ some receipt
      → ack_hash x r ≡ some (x.digest (put_parts (ack_parts x r receipt)))
  unfolding ack_hash
  ack_hash-written r receipt m = rw m refl

  module _ (same_receipt : Receipt → Receipt → Bool) (r s : AcknowledgeRequest)
      (receipt other : List ℕ) (v : IsWritable x r receipt) (w : IsWritable x s other)
      (inj : (a b : String) → x.bytes a ≡ x.bytes b → a ≡ b) where
    same_request-of_parts :
        same_receipt r.receipt s.receipt ≡ true
        → put_parts (ack_parts x r receipt) ≡ put_parts (ack_parts x s other)
        → same_request same_receipt r s ≡ true
    unfolding ack_parts same_request
    same_request-of_parts same e =
        let q =
          put_parts-injective (ack_parts x r receipt) (ack_parts x s other) refl
            (ack_parts-AreSized r receipt v) (ack_parts-AreSized s other w) e in
        let n =
          big_endian-injective 8 r.expected_route_version s.expected_route_version (omega arith)
            (omega arith) cc in
        rw
          (
            (eq_iff r.request_id s.request_id).1 (inj _ _ cc),
            (eq_iff r.tenant_id s.tenant_id).1 (inj _ _ cc),
            (eq_iff r.reservation_id s.reservation_id).1 (inj _ _ cc),
            (eq_iff r.interaction_id s.interaction_id).1 (inj _ _ cc),
            (eqb_iff r.expected_route_version s.expected_route_version).1 n,
            (eq_iff r.fencing_token s.fencing_token).1 (inj _ _ cc),
            same,
          )
          refl

    encoding_of_parts :
        put_parts (ack_parts x r receipt) ≡ put_parts (ack_parts x s other) → receipt ≡ other
    unfolding ack_parts
    encoding_of_parts e =
        let q =
          put_parts-injective (ack_parts x r receipt) (ack_parts x s other) refl
            (ack_parts-AreSized r receipt v) (ack_parts-AreSized s other w) e in
        cc

    same_request_fields :
        same_request same_receipt r s ≡ true
        → ((r.request_id == s.request_id) ≡ true)
          × ((r.tenant_id == s.tenant_id) ≡ true)
          × ((r.reservation_id == s.reservation_id) ≡ true)
          × ((r.interaction_id == s.interaction_id) ≡ true)
          × (eqb r.expected_route_version s.expected_route_version ≡ true)
          × ((r.fencing_token == s.fencing_token) ≡ true)
          × (same_receipt r.receipt s.receipt ≡ true)
    unfolding same_request
    same_request_fields e =
        all_seven (r.request_id == s.request_id) (r.tenant_id == s.tenant_id)
          (r.reservation_id == s.reservation_id) (r.interaction_id == s.interaction_id)
          (eqb r.expected_route_version s.expected_route_version)
          (r.fencing_token == s.fencing_token) (same_receipt r.receipt s.receipt) e

    parts_of_same_request :
        receipt ≡ other
        → same_request same_receipt r s ≡ true
        → ack_parts x r receipt ≡ ack_parts x s other
    unfolding ack_parts
    parts_of_same_request o e =
        let (a, b, c, d, n, f, g) = same_request_fields e in
        cc (
          (eq_iff r.request_id s.request_id).0 a,
          (eq_iff r.tenant_id s.tenant_id).0 b,
          (eq_iff r.reservation_id s.reservation_id).0 c,
          (eq_iff r.interaction_id s.interaction_id).0 d,
          (eqb_iff r.expected_route_version s.expected_route_version).0 n,
          (eq_iff r.fencing_token s.fencing_token).0 f,
        )

    -- Two acknowledgement requests have one hash exactly when `Equal` holds of them, when both can be
    -- written, texts are told apart by their bytes, the digest tells the two hashed inputs apart, and
    -- protobuf equality of the receipts is equality of their encodings.
    pub ack_hash_iff_same :
        ((same_receipt r.receipt s.receipt ≡ true) ↔ (receipt ≡ other))
        → (x.digest (put_parts (ack_parts x r receipt)) ≡ x.digest (put_parts (ack_parts x s other))
            → put_parts (ack_parts x r receipt) ≡ put_parts (ack_parts x s other))
        → (ack_hash x r ≡ ack_hash x s) ↔ (same_request same_receipt r s ≡ true)
    ack_hash_iff_same same tells =
        let g = ack_hash-written r receipt v.encoded in
        let h = ack_hash-written s other w.encoded in
        (
          λ e. let q = tells cc in same_request-of_parts (same.1 (encoding_of_parts q)) q,
          λ e. g ∙ rw (parts_of_same_request (same.0 (same_request_fields e).6) e) (sym h),
        )
