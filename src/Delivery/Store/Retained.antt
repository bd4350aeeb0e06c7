-- ===== src/Delivery/Store/Retained.antt =====
-- An authorization that internal/deliverypg/store.go appended is retained: its receipt is given again.
use relaypoint.Common.{
  ℕ, String, ◌≡◌, ◌≢◌, refl, inl, inr, List, Option, some, Bool, true, ◌==◌, eq_refl, Within,
  Bool-cases, if◌then◌else◌,
}
use relaypoint.Delivery.{
  capability_delivery_write, Authorization, Receipt, Principal, AppendInput, AppendResult, stored,
  unstored, idempotency_conflict, Externals, accepted, discard_unknown, require_uuid_v7,
  is_valid_authorization, authorization_hash_and_body, receipt_of, input_of, accept_delivery,
}
use relaypoint.Delivery.Accepted.{accept_delivery-passes}
use relaypoint.Delivery.Store.Rows.{Db}
use relaypoint.Delivery.Store.Kept.{Steps-Finds, append_tx-Kept}
use relaypoint.Delivery.Store.Steps.{Steps}
use relaypoint.Delivery.Store.{committed, Drawn, append_tx, append}

module _ (x : Externals) (unmarshal_receipt : List ℕ → Option Receipt)
    (before : String → String → Bool) where
  -- Once an append was committed, whether or not its answer arrived, every later append of the same id gets the
  -- same answer where its hash agrees, and a conflict where it does not, and changes nothing; whatever
  -- transactions ran between.
  pub append_again :
      (input again : AppendInput) (drawn later : Drawn) (db first now : Db) (result : AppendResult)
      → append_tx x unmarshal_receipt db input drawn ≡ (first, stored result)
      → Steps x unmarshal_receipt before first now
      → again.authorization.tenant_id ≡ input.authorization.tenant_id
      → again.authorization.delivery_authorization_id
        ≡ input.authorization.delivery_authorization_id
      → append x unmarshal_receipt committed now again later ≡ (
        now,
        if input.request_hash == again.request_hash
            then stored result
            else unstored idempotency_conflict,
      )
  unfolding append append_tx
  append_again input again drawn later db first now result e s t i =
      let (row, f, h, r) =
        append_tx-Kept x unmarshal_receipt before db first input drawn result e in
      let g = Steps-Finds x unmarshal_receipt before _ _ row s f in
      rw (t, i, g, h)
        (elim (Bool-cases (input.request_hash == again.request_hash)) [
          | inl q ↦ rw (q, r) refl
          | inr q ↦ rw q refl
        ])

  -- An acceptance whose append was committed is accepted again with the same receipt, also from a client that
  -- sends fields which the program does not know, and whatever transactions ran between.
  pub accept_again :
      (a : Authorization) (hash : String) (body : List ℕ) (p : Principal) (input : AppendInput)
      (drawn later : Drawn) (db first now : Db) (result : AppendResult) (receipt_id : String)
      → input.authorization ≡ discard_unknown a
      → input.request_hash ≡ hash
      → append_tx x unmarshal_receipt db input drawn ≡ (first, stored result)
      → Steps x unmarshal_receipt before first now
      → p.service_id ≡ "corex"
      → Within capability_delivery_write p.capabilities
      → p.tenant_id ≡ a.tenant_id
      → a.tenant_id ≢ ""
      → is_valid_authorization x a ≡ true
      → authorization_hash_and_body x (discard_unknown a) ≡ some (hash, body)
      → require_uuid_v7 x receipt_id ≡ true
      → (accept_delivery x
          (λ i. (append x unmarshal_receipt committed now i later).1)
          receipt_id
          p
          (some a)).answer
        ≡ accepted (receipt_of x (discard_unknown a) result)
  accept_again a hash body p input drawn later db first now result rid n k e s c w t m v h i =
      let again : AppendInput =
        input_of x (λ i. (append x unmarshal_receipt committed now i later).1) rid
          (discard_unknown a) hash body in
      let q = append_again input again drawn later db first now result e s (cc) (cc) in
      rw
        (
          accept_delivery-passes x (λ i. (append x unmarshal_receipt committed now i later).1) rid p
              a hash body c w t m v h i,
          q,
          k,
          eq_refl hash,
        )
        refl
