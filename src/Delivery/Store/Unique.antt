-- ===== src/Delivery/Store/Unique.antt =====
-- Every transaction of internal/deliverypg/store.go leaves one row to a key of the outbox.
use relaypoint.Common.{
  ℕ, String, ◌≡◌, refl, inl, inr, List, Option, none, some, Bool, false, ◌==◌, ◌||◌, arith,
  Bool-cases,
}
use relaypoint.Delivery.{Receipt, AppendInput, Externals}
use relaypoint.Delivery.Store.Rows.{AuthorizationRow, AckRow, Db, find_ack}
use relaypoint.Delivery.Store.{
  Ending, committed, rolled_back, lost, Drawn, has_ack, takes_authorization, takes_log, is_taken,
  of_ending, holds_claim, settle, complete, retry, taken_by, of_encoded, new_result, of_retained,
  append_tx, append, of_candidate, claim,
}
use relaypoint.Delivery.Store.Keys.{Distinct, KeepsKey, update_ack-Distinct}
use relaypoint.Delivery.Store.Steps.{Step, appends, claims, completes, retries, Steps, here, next}

has_ack-none : (o : Option AckRow) → has_ack o ≡ false → o ≡ none
has_ack-none none h = refl
has_ack-none (some row) h = absurd (cc)

last_of_three : (a b c : Bool) → (a || b || c) ≡ false → c ≡ false
last_of_three a b c h = ground arith

module _ (x : Externals) (unmarshal_receipt : List ℕ → Option Receipt)
    (before : String → String → Bool) where
  -- A row that is put meets no row of its key.
  pub is_taken-fresh :
      (db : Db) (input : AppendInput) (drawn : Drawn)
      → is_taken db input drawn ≡ false
      → find_ack input.authorization.tenant_id input.receipt_id db.outbox ≡ none
  unfolding is_taken
  is_taken-fresh db input drawn h = has_ack-none _ (
      last_of_three (takes_authorization input db.authorizations)
        (takes_log input drawn.log_sequence db.log) _ h)

  of_encoded-Distinct :
      (db : Db) (input : AppendInput) (drawn : Drawn) (body : Option (List ℕ))
      (hash : Option String)
      → Distinct db.outbox
      → Distinct
          (of_encoded x unmarshal_receipt db input drawn
            (new_result x unmarshal_receipt input drawn)
            body
            hash).0.outbox
  of_encoded-Distinct db input drawn none hash d = d
  of_encoded-Distinct db input drawn (some body) none d = d
  of_encoded-Distinct db input drawn (some body) (some hash) d =
      elim (Bool-cases (is_taken db input drawn)) [
        | inl h ↦ rw h d
        | inr h ↦ rw h (is_taken-fresh db input drawn h, d)
      ]

  of_retained-Distinct :
      (db : Db) (input : AppendInput) (drawn : Drawn) (o : Option AuthorizationRow)
      → Distinct db.outbox
      → Distinct (of_retained x unmarshal_receipt db input drawn o).0.outbox
  of_retained-Distinct db input drawn none d = of_encoded-Distinct db input drawn _ _ d
  of_retained-Distinct db input drawn (some held) d =
      elim (Bool-cases (held.request_hash == input.request_hash)) [
        | inl h ↦ rw h d
        | inr h ↦ rw h d
      ]

  settle-Distinct :
      (u s token : String) (change : AckRow → AckRow) (db : Db)
      → KeepsKey change
      → Distinct db.outbox
      → Distinct (settle u s token change db).0.outbox
  settle-Distinct u s token change db keep d =
      elim (Bool-cases (holds_claim token (find_ack u s db.outbox))) [
        | inl h ↦ rw h (update_ack-Distinct u s change keep db.outbox d)
        | inr h ↦ rw h d
      ]

  of_candidate-Distinct :
      (u token : String) (until : ℕ) (db : Db) (o : Option AckRow)
      → Distinct db.outbox
      → Distinct (of_candidate x unmarshal_receipt before u token until db o).0.outbox
  of_candidate-Distinct u token until db none d = d
  of_candidate-Distinct u token until db (some held) d =
      update_ack-Distinct u held.receipt_id (taken_by token until) (λ b. (refl, refl)) db.outbox d

  of_ending-Distinct :
      {A : Type 0} (fail : ℕ → A) (ending : Ending) (db : Db) (o : Db × A)
      → Distinct db.outbox
      → Distinct o.0.outbox
      → Distinct (of_ending fail ending db o).0.outbox
  of_ending-Distinct fail committed db (d, a) f g = g
  of_ending-Distinct fail (rolled_back n) db (d, a) f g = f
  of_ending-Distinct fail (lost n) db (d, a) f g = g

  Step-Distinct :
      {db after : Db}
      → Step x unmarshal_receipt before db after
      → Distinct db.outbox
      → Distinct after.outbox
  unfolding append append_tx claim complete retry
  Step-Distinct {db} (appends ending input drawn) d =
      of_ending-Distinct _ ending db _ d (of_retained-Distinct db input drawn _ d)
  Step-Distinct {db} (claims ending locked u token now at) d =
      of_ending-Distinct _ ending db _ d (of_candidate-Distinct u token _ db _ d)
  Step-Distinct {db} (completes ending u s token result) d =
      of_ending-Distinct _ ending db _ d (settle-Distinct u s token _ db (λ b. (refl, refl)) d)
  Step-Distinct {db} (retries ending u s token message now) d =
      of_ending-Distinct _ ending db _ d (settle-Distinct u s token _ db (λ b. (refl, refl)) d)

  pub Steps-Distinct :
      {db after : Db}
      → Steps x unmarshal_receipt before db after
      → Distinct db.outbox
      → Distinct after.outbox
  Steps-Distinct here d = d
  Steps-Distinct (next s st) d = Step-Distinct st (Steps-Distinct s d)
