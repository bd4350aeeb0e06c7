-- ===== src/Delivery/Server/Answered.antt =====
-- The codes of internal/deliverygrpc/server.go over the service of internal/delivery/service.go.
use relaypoint.Common.{ℕ, String, ◌≡◌, ◌≢◌, refl, ◌⊎◌, inl, inr, Option, none, some, false, Within}
use relaypoint.Delivery.{
  capability_delivery_write, Authorization, Receipt, Principal, AppendInput, Failure,
  unauthenticated, permission_denied, invalid_authorization, idempotency_conflict, unmarshalled,
  other, Appended, unstored, Externals, discard_unknown, Answer, accepted, failed, require_uuid_v7,
  is_valid_authorization, authorization_hash_and_body,
}
use relaypoint.Delivery.Accepted.{IsReceived, IsAccepted, accept_delivery-IsAccepted}
use relaypoint.Delivery.Server.{
  Code, unauthenticated_code, permission_denied_code, invalid_argument, already_exists, internal,
  of_answer, accept_delivery,
}

module _ (x : Externals) (append : AppendInput → Appended) (receipt_id : String)
    (o : Option Authorization) where
  -- What the service appended for this request was refused by the store with this error.
  abbrev pub Unstored : Option Principal → Failure → Type 0
  Unstored principal e =
      (p : Principal) × (principal ≡ some p)
      × (input : AppendInput) × ((relaypoint.Delivery.accept_delivery x append receipt_id p
            o).appended
          ≡ some input)
      × (append input ≡ unstored e)

  abbrev pub Own : Principal → Authorization → Type 0
  Own p a = (p.tenant_id ≡ a.tenant_id) × (a.tenant_id ≢ "")

  -- What each answer of the RPC shows.
  abbrev pub IsAnswered : Option Principal → Receipt ⊎ Code → Type 0
  IsAnswered principal (inl r) =
      (p : Principal) × (principal ≡ some p)
      × (a : Authorization) × (o ≡ some a)
      × (appended : Option AppendInput) × IsReceived x append receipt_id p a appended r
  IsAnswered principal (inr unauthenticated_code) =
      (principal ≡ none)
      ⊎ ((p : Principal) × (principal ≡ some p) × (p.service_id ≢ "corex"))
      ⊎ Unstored principal unauthenticated
  IsAnswered principal (inr permission_denied_code) =
      ((p : Principal) × (principal ≡ some p)
        × ((Within capability_delivery_write p.capabilities → ⊥)
            ⊎ ((a : Authorization) → o ≡ some a → Own p a → ⊥)))
      ⊎ Unstored principal permission_denied
  IsAnswered principal (inr invalid_argument) =
      ((a : Authorization) × (o ≡ some a)
        × ((is_valid_authorization x a ≡ false) ⊎ (require_uuid_v7 x receipt_id ≡ false)))
      ⊎ Unstored principal invalid_authorization
  IsAnswered principal (inr already_exists) = Unstored principal idempotency_conflict
  IsAnswered principal (inr internal) =
      ((a : Authorization) × (o ≡ some a)
        × (authorization_hash_and_body x (discard_unknown a) ≡ none))
      ⊎ Unstored principal unmarshalled
      ⊎ ((n : ℕ) × Unstored principal (other n))

  of_failure-IsAnswered :
      (p : Principal) (appended : Option AppendInput) (e : Failure)
      → (relaypoint.Delivery.accept_delivery x append receipt_id p o).appended ≡ appended
      → IsAccepted x append receipt_id p o appended (failed e)
      → IsAnswered (some p) (of_answer (failed e))
  unfolding accept_delivery
  of_failure-IsAnswered p none unauthenticated a h = inr (inl (p, refl, h))
  of_failure-IsAnswered p none permission_denied a h = inl (p, refl, h.1)
  of_failure-IsAnswered p none invalid_authorization a h = inl h
  of_failure-IsAnswered p none idempotency_conflict a h = absurd h
  of_failure-IsAnswered p none unmarshalled a h = inl h
  of_failure-IsAnswered p none (other n) a h = absurd h
  of_failure-IsAnswered p (some input) unauthenticated a h = inr (inr (p, refl, input, a, h))
  of_failure-IsAnswered p (some input) permission_denied a h = inr (p, refl, input, a, h)
  of_failure-IsAnswered p (some input) invalid_authorization a h = inr (p, refl, input, a, h)
  of_failure-IsAnswered p (some input) idempotency_conflict a h = (p, refl, input, a, h)
  of_failure-IsAnswered p (some input) unmarshalled a h = inr (inl (p, refl, input, a, h))
  of_failure-IsAnswered p (some input) (other n) a h = inr (inr (n, (p, refl, input, a, h)))

  of_answer-IsAnswered :
      (p : Principal) (appended : Option AppendInput) (w : Answer)
      → (relaypoint.Delivery.accept_delivery x append receipt_id p o).appended ≡ appended
      → IsAccepted x append receipt_id p o appended w
      → IsAnswered (some p) (of_answer w)
  of_answer-IsAnswered p appended (accepted r) q (a, e, h) = (p, refl, a, e, appended, h)
  of_answer-IsAnswered p appended (failed e) q h = of_failure-IsAnswered p appended e q h

  -- A receipt is answered only for an authorization that the service received from a resolved principal.
  -- Each code has its own reasons: "unauthenticated" where no principal was resolved, it is not corex, or
  -- the store answered so to what this request appended; denied for the capability or the tenant, and an
  -- argument that is not valid, or the store's same error; already exists only for a conflict that the
  -- store found in what this request appended; and internal for an encoding that failed, or an error of
  -- the store that has no code of its own.
  pub accept_delivery-IsAnswered :
      (principal : Option Principal)
      → IsAnswered principal
          (accept_delivery principal (relaypoint.Delivery.accept_delivery x append receipt_id) o)
  unfolding accept_delivery
  accept_delivery-IsAnswered none = inl refl
  accept_delivery-IsAnswered (some p) =
      of_answer-IsAnswered p _ _ refl (accept_delivery-IsAccepted x append receipt_id p o)
