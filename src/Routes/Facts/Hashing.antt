-- ===== src/Routes/Facts/Hashing.antt =====
-- The hash of a route fact (internal/routeprojection/projector.go) binds every field of it.
use relaypoint.Common.{
  ℕ, String, ◌≡◌, ◌<◌, ◌^◌, refl, length, arith, put_parts, put_parts-injective, AreSized,
  big_endian, big_endian-injective, length-big_endian,
}
use relaypoint.Routes.Facts.{RouteFact, Library, fact_parts, hash_route_fact}

-- Each text is shorter than 2 ^ 64 bytes, and each number is a `uint64`.
pub record IsWritable (lib : Library) (f : RouteFact) : Type 0 where
  pub sized :
      (length (lib.bytes f.tenant_id) < 2 ^ 64)
      × (length (lib.bytes f.interaction_id) < 2 ^ 64)
      × (length (lib.bytes f.event_id) < 2 ^ 64)
      × (length (lib.bytes f.delivery_authorization_id) < 2 ^ 64)
      × (length (lib.bytes f.receipt_id) < 2 ^ 64)
  pub numbers : (f.version < 2 ^ 64) × (f.visibility_generation < 2 ^ 64) × (f.lease_until < 2 ^ 64)

fact_parts-AreSized :
    (lib : Library) (f : RouteFact) → IsWritable lib f → AreSized (fact_parts lib f)
unfolding fact_parts
fact_parts-AreSized lib f w =
    let (t, i, e, d, r) = w.sized in
    let n : (k : ℕ) → length (big_endian 8 k) < 2 ^ 64 =
      λ k. omega (arith, length-big_endian 8 k) in
    (
      t,
      (
        i,
        (
          e,
          (
            n f.version,
            (omega arith, (d, (r, (n f.visibility_generation, (n f.lease_until, tt))))),
          ),
        ),
      ),
    )

-- Two facts whose hashes agree are the same fact, when the digest tells the two hashed inputs apart,
-- texts are told apart by their bytes, each text is shorter than 2 ^ 64 bytes and each number is below
-- 2 ^ 64.
pub hash_route_fact-injective :
    (lib : Library) (f g : RouteFact)
    → ((s t : String) → lib.bytes s ≡ lib.bytes t → s ≡ t)
    → (hash_route_fact lib f ≡ hash_route_fact lib g
        → put_parts (fact_parts lib f) ≡ put_parts (fact_parts lib g))
    → IsWritable lib f
    → IsWritable lib g
    → hash_route_fact lib f ≡ hash_route_fact lib g
    → f ≡ g
unfolding fact_parts
hash_route_fact-injective lib f g inj tells v w e =
    let q =
      put_parts-injective (fact_parts lib f) (fact_parts lib g) refl (fact_parts-AreSized lib f v)
        (fact_parts-AreSized lib g w) (tells e) in
    let a = inj f.tenant_id g.tenant_id cc in
    let b = inj f.interaction_id g.interaction_id cc in
    let c = inj f.event_id g.event_id cc in
    let d = inj f.delivery_authorization_id g.delivery_authorization_id cc in
    let r = inj f.receipt_id g.receipt_id cc in
    let k : f.kind ≡ g.kind = cc in
    let n = big_endian-injective 8 f.version g.version (omega arith) (omega arith) cc in
    let m =
      big_endian-injective 8 f.visibility_generation g.visibility_generation (omega arith)
        (omega arith) cc in
    let l = big_endian-injective 8 f.lease_until g.lease_until (omega arith) (omega arith) cc in cc
