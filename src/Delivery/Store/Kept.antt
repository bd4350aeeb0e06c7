-- ===== src/Delivery/Store/Kept.antt =====
-- What an append of internal/deliverypg/store.go keeps, and that every transaction leaves it.
use relaypoint.Common.{
  both_true, ℕ, String, ◌≡◌, refl, subst, inl, inr, List, ◌∷◌, Option, none, some, Bool, true, ◌==◌,
  eq_iff, eq_refl, Bool-cases,
}
use relaypoint.Delivery.{Receipt, AppendInput, AppendResult, Appended, stored, unstored, Externals}
use relaypoint.Delivery.Store.Rows.{
  AuthorizationRow, AckRow, Db, is_authorization, find_authorization, find_ack,
}
use relaypoint.Delivery.Store.Steps.{Step, appends, claims, completes, retries, Steps, here, next}
use relaypoint.Delivery.Store.{
  Ending, committed, rolled_back, lost, Drawn, is_taken, result_of, row_of, of_ending, holds_claim,
  settle, complete, retry, of_encoded, of_retained, append_tx, append, of_candidate, claim,
}

module _ (x : Externals) (unmarshal_receipt : List ℕ → Option Receipt)
    (before : String → String → Bool) where
  module _ (tenant_id id : String) (row : AuthorizationRow) where
    abbrev pub Finds : Db → Type 0
    Finds db = find_authorization tenant_id id db.authorizations ≡ some row

    of_ending-Finds :
        {A : Type 0} (fail : ℕ → A) (ending : Ending) (db : Db) (r : Db × A)
        → Finds db
        → Finds r.0
        → Finds (of_ending fail ending db r).0
    of_ending-Finds fail committed db (d, a) f g = g
    of_ending-Finds fail (rolled_back n) db (d, a) f g = f
    of_ending-Finds fail (lost n) db (d, a) f g = g

    settle-Finds :
        (t r token : String) (change : AckRow → AckRow) (db : Db)
        → Finds db
        → Finds (settle t r token change db).0
    settle-Finds t r token change db f =
        elim (Bool-cases (holds_claim token (find_ack t r db.outbox))) [
          | inl h ↦ rw h f
          | inr h ↦ rw h f
        ]

    is_authorization-other :
        (held : AuthorizationRow)
        → (is_authorization tenant_id id held ≡ true)
        → (held.authorization.tenant_id ≡ tenant_id)
          × (held.authorization.delivery_authorization_id ≡ id)
    is_authorization-other held h =
        let (a, b) = both_true _ _ h in
        (
          (eq_iff held.authorization.tenant_id tenant_id).0 a,
          (eq_iff held.authorization.delivery_authorization_id id).0 b,
        )

    put_rows-Finds :
        (db : Db) (input : AppendInput) (result : AppendResult)
        → find_authorization input.authorization.tenant_id
            input.authorization.delivery_authorization_id db.authorizations
          ≡ none
        → Finds db
        → find_authorization tenant_id id (row_of input result ∷ db.authorizations) ≡ some row
    unfolding find_authorization
    put_rows-Finds db input result n f =
        elim (Bool-cases (is_authorization tenant_id id (row_of input result))) [
          | inr h ↦ rw h f
          | inl h ↦
              let (t, i) = is_authorization-other (row_of input result) h in
              absurd (let g = rw (t, i) at n in cc)
        ]

    of_encoded-Finds :
        (db : Db) (input : AppendInput) (drawn : Drawn) (result : AppendResult)
        (body : Option (List ℕ)) (hash : Option String)
        → find_authorization input.authorization.tenant_id
            input.authorization.delivery_authorization_id db.authorizations
          ≡ none
        → Finds db
        → Finds (of_encoded x unmarshal_receipt db input drawn result body hash).0
    of_encoded-Finds db input drawn result none hash n f = f
    of_encoded-Finds db input drawn result (some body) none n f = f
    of_encoded-Finds db input drawn result (some body) (some hash) n f =
        elim (Bool-cases (is_taken db input drawn)) [
          | inl h ↦ rw h f
          | inr h ↦ rw h (put_rows-Finds db input result n f)
        ]

    of_retained-Finds :
        (db : Db) (input : AppendInput) (drawn : Drawn) (o : Option AuthorizationRow)
        → find_authorization input.authorization.tenant_id
            input.authorization.delivery_authorization_id db.authorizations
          ≡ o
        → Finds db
        → Finds (of_retained x unmarshal_receipt db input drawn o).0
    of_retained-Finds db input drawn none n f = of_encoded-Finds db input drawn _ _ _ n f
    of_retained-Finds db input drawn (some held) n f =
        elim (Bool-cases (held.request_hash == input.request_hash)) [
          | inl h ↦ rw h f
          | inr h ↦ rw h f
        ]

    of_candidate-Finds :
        (t token : String) (until : ℕ) (db : Db) (o : Option AckRow)
        → Finds db
        → Finds (of_candidate x unmarshal_receipt before t token until db o).0
    of_candidate-Finds t token until db none f = f
    of_candidate-Finds t token until db (some held) f = f

    Step-Finds : {db db' : Db} → Step x unmarshal_receipt before db db' → Finds db → Finds db'
    unfolding append append_tx claim complete retry
    Step-Finds {db} (appends ending input drawn) f =
        of_ending-Finds _ ending db _ f (of_retained-Finds db input drawn _ refl f)
    Step-Finds {db} (claims ending locked t token now at) f =
        of_ending-Finds _ ending db _ f (of_candidate-Finds t token _ db _ f)
    Step-Finds {db} (completes ending t r token result) f =
        of_ending-Finds _ ending db _ f (settle-Finds t r token _ db f)
    Step-Finds {db} (retries ending t r token message now) f =
        of_ending-Finds _ ending db _ f (settle-Finds t r token _ db f)

    pub Steps-Finds : {db db' : Db} → Steps x unmarshal_receipt before db db' → Finds db → Finds db'
    Steps-Finds here f = f
    Steps-Finds (next s st) f = Step-Finds st (Steps-Finds s f)

  -- What an append that was not refused leaves under the id of its authorization.
  abbrev pub Kept : AppendInput → Db → Appended → Type 0
  Kept input db (unstored e) = Unit {0}
  Kept input db (stored result) =
      (row : AuthorizationRow) × (find_authorization input.authorization.tenant_id
          input.authorization.delivery_authorization_id db.authorizations
        ≡ some row)
      × (row.request_hash ≡ input.request_hash)
      × (result_of row ≡ result)

  put_rows-Kept :
      (db : Db) (input : AppendInput) (result : AppendResult)
      → find_authorization input.authorization.tenant_id
          input.authorization.delivery_authorization_id
          (row_of input result ∷ db.authorizations)
        ≡ some (row_of input result)
  unfolding find_authorization
  put_rows-Kept db input result =
      rw
        (
          eq_refl input.authorization.tenant_id,
          eq_refl input.authorization.delivery_authorization_id,
        )
        refl

  of_encoded-Kept :
      (db : Db) (input : AppendInput) (drawn : Drawn) (result : AppendResult)
      (body : Option (List ℕ)) (hash : Option String)
      → let r = of_encoded x unmarshal_receipt db input drawn result body hash in Kept input r.0 r.1
  of_encoded-Kept db input drawn result none hash = tt
  of_encoded-Kept db input drawn result (some body) none = tt
  of_encoded-Kept db input drawn result (some body) (some hash) =
      elim (Bool-cases (is_taken db input drawn)) [
        | inl h ↦ rw h tt
        | inr h ↦ rw h (row_of input result, put_rows-Kept db input result, refl, refl)
      ]

  of_retained-Kept :
      (db : Db) (input : AppendInput) (drawn : Drawn) (o : Option AuthorizationRow)
      → find_authorization input.authorization.tenant_id
          input.authorization.delivery_authorization_id db.authorizations
        ≡ o
      → let r = of_retained x unmarshal_receipt db input drawn o in Kept input r.0 r.1
  of_retained-Kept db input drawn none n = of_encoded-Kept db input drawn _ _ _
  of_retained-Kept db input drawn (some held) n =
      elim (Bool-cases (held.request_hash == input.request_hash)) [
        | inl h ↦ rw h (held, n, (eq_iff held.request_hash input.request_hash).0 h, refl)
        | inr h ↦ rw h tt
      ]

  pub append_tx-Kept :
      (db db' : Db) (input : AppendInput) (drawn : Drawn) (result : AppendResult)
      → append_tx x unmarshal_receipt db input drawn ≡ (db', stored result)
      → Kept input db' (stored result)
  unfolding append_tx
  append_tx-Kept db db' input drawn result e =
      subst (λ (r : Db × Appended). Kept input r.0 r.1) e (of_retained-Kept db input drawn _ refl)
