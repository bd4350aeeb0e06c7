-- ===== src/Delivery/Acks/Settled.antt =====
-- How the worker of internal/delivery/worker.go settles a claim.
use relaypoint.Common.{
  ℕ, String, ◌≡◌, ◌≢◌, refl, ◌⊎◌, inl, inr, List, [], ◌∷◌, Option, none, some, Bool, true, false,
  ◌==◌, eq_iff, arith, Bool-cases,
}
use relaypoint.Delivery.{Externals}
use relaypoint.Delivery.Acks.{
  ack_applied, ack_already_applied, ack_terminal_expired, AckResult, AckClaim, AcknowledgeRequest,
  AckFault, acknowledgement_hash, unknown_acknowledgement, unmarshalled, foreign, AckCall,
  acknowledge, complete, retry, Processed, request_of, ack_hash, is_known, foreign_of, fault_of,
  retried, of_router, of_hash, process_one,
}

-- A disposition that the worker knows.
abbrev pub IsKnown : ℕ → Type 0
IsKnown d = (d ≡ ack_applied) ⊎ (d ≡ ack_already_applied) ⊎ (d ≡ ack_terminal_expired)

is_known-IsKnown : (d : ℕ) → is_known d ≡ true → IsKnown d
is_known-IsKnown d h = ground arith

IsKnown-is_known : (d : ℕ) → IsKnown d → is_known d ≡ true
IsKnown-is_known d (inl e) = ground arith
IsKnown-is_known d (inr (inl e)) = ground arith
IsKnown-is_known d (inr (inr e)) = ground arith

module _ (x : Externals) (tenant_id : String)
    (acknowledge_delivery : AcknowledgeRequest → AckResult ⊎ ℕ)
    (retry_error complete_error : Option ℕ) where
  module _ (claim : AckClaim) where
    abbrev request : AcknowledgeRequest
    request = request_of claim

    -- Why the claim is given back, and whether the router was asked before.
    pub data Reason : Bool → AckFault → Type 0 where
      not_written : ack_hash x request ≡ none → Reason false unmarshalled
      other_hash :
          (hash : String)
          → ack_hash x request ≡ some hash
          → hash ≢ claim.request_hash
          → Reason false acknowledgement_hash
      router_failed :
          (n : ℕ)
          → ack_hash x request ≡ some claim.request_hash
          → acknowledge_delivery request ≡ inr n
          → Reason true (foreign n)
      not_known :
          (result : AckResult)
          → ack_hash x request ≡ some claim.request_hash
          → acknowledge_delivery request ≡ inl result
          → (IsKnown result.disposition → ⊥)
          → Reason true unknown_acknowledgement

    abbrev pub asked : Bool → List AckCall → List AckCall
    asked false calls = calls
    asked true calls = acknowledge request ∷ calls

    -- A claim is completed or given back, once, under its own token.
    pub data IsSettled : Processed → Type 0 where
      completed :
          (result : AckResult)
          → ack_hash x request ≡ some claim.request_hash
          → acknowledge_delivery request ≡ inl result
          → IsKnown result.disposition
          → IsSettled (record {
            calls =
                acknowledge request
                ∷ complete tenant_id claim.receipt.receipt_id claim.claim_token result
                ∷ [];
            error = fault_of complete_error;
          })
      given_back :
          (b : Bool) (e : AckFault)
          → Reason b e
          → IsSettled (record {
            calls = asked b (retry tenant_id claim.receipt.receipt_id claim.claim_token e ∷ []);
            error = some (foreign_of retry_error e);
          })

    retried-given_back :
        (b : Bool) (e : AckFault) (calls : List AckCall)
        → calls ≡ asked b []
        → Reason b e
        → IsSettled
            (retried x tenant_id acknowledge_delivery retry_error complete_error claim calls e)
    unfolding retried request_of
    retried-given_back false e calls q r = rw q (given_back false e r)
    retried-given_back true e calls q r = rw q (given_back true e r)

    of_router-IsSettled :
        (o : AckResult ⊎ ℕ)
        → ack_hash x request ≡ some claim.request_hash
        → acknowledge_delivery request ≡ o
        → IsSettled (of_router x tenant_id acknowledge_delivery retry_error complete_error claim o)
    unfolding request_of
    of_router-IsSettled (inr n) h e =
        retried-given_back true (foreign n) _ refl (router_failed n h e)
    of_router-IsSettled (inl result) h e = elim (Bool-cases (is_known result.disposition)) [
      | inl k ↦ rw k (completed result h e (is_known-IsKnown result.disposition k))
      | inr k ↦ rw k (
          retried-given_back true unknown_acknowledgement _ refl
            (not_known result h e (λ z. cc (IsKnown-is_known result.disposition z))))
    ]

    of_hash-IsSettled :
        (o : Option String)
        → ack_hash x request ≡ o
        → IsSettled (of_hash x tenant_id acknowledge_delivery retry_error complete_error claim o)
    of_hash-IsSettled none h = retried-given_back false unmarshalled _ refl (not_written h)
    of_hash-IsSettled (some hash) h = elim (Bool-cases (hash == claim.request_hash)) [
      | inl e ↦
          rw e (of_router-IsSettled _ (let q = (eq_iff hash claim.request_hash).0 e in cc) refl)
      | inr e ↦ rw e (
          retried-given_back false acknowledgement_hash _ refl (
            other_hash hash h (λ (q : hash ≡ claim.request_hash).
              let u = (eq_iff hash claim.request_hash).1 q in cc)))
    ]

    -- A claim that the worker takes is settled by exactly one call under the claim's own token: completed
    -- with the router's answer, where the hash of the request is the stored one and the disposition is
    -- known, or given back for the reason that is named; the router is asked at most once, with the claim's
    -- request, and only after the hash was found to agree. The call ends without an error exactly by a
    -- completion that the store took.
    pub process_one-IsSettled :
        IsSettled (
          process_one x tenant_id acknowledge_delivery retry_error complete_error
            (inl (some claim)))
    unfolding process_one
    process_one-IsSettled = of_hash-IsSettled _ refl
