-- ===== src/Delivery/Store/Moves.antt =====
-- What a transaction of internal/deliverypg/store.go does to an acknowledgement.
use relaypoint.Common.{
  ℕ, ◌+◌, take, ◌≤◌, ◌⊎◌, leb, leb→le, both_true, String, ◌≡◌, refl, sym, ap, subst, ◌∙◌, inl, inr,
  List, [], ◌∷◌, Option, none, some, Bool, true, ◌==◌, eq_iff, Bool-cases, Option-cases,
}
use relaypoint.Delivery.{Receipt, AppendInput, Externals}
use relaypoint.Delivery.Store.Rows.{
  AuthorizationRow, Status, pending, claimed, completed, AckRow, Db, is_ack, find_ack, update_ack,
}
use relaypoint.Delivery.Store.{
  Ending, committed, rolled_back, lost, Drawn, holds_token, is_taken, of_ending, holds_claim,
  settle, with_result, given_back, complete, retry, is_open, is_due, taken_by, of_encoded,
  new_result, of_retained, append_tx, append, of_candidate, claim,
}
use relaypoint.Delivery.Store.Keys.{
  is_ack-keys, find_ack-keys, KeepsKey, changed, find_ack-update_ack, Found, candidate-Found,
}
use relaypoint.Delivery.Store.Unique.{is_taken-fresh, Steps-Distinct}
use relaypoint.Delivery.Store.Steps.{Step, appends, claims, completes, retries, Steps}

-- The row may be claimed: its next attempt is reached, and it is pending or its claim has expired.
abbrev pub IsFree : ℕ → AckRow → Type 0
IsFree now row =
    (row.next_attempt_at ≤ now)
    × ((row.status ≡ pending) ⊎ ((row.status ≡ claimed) × (row.claim_until ≤ now)))

is_open-status :
    (now until : ℕ) (status : Status)
    → is_open now until status ≡ true
    → (status ≡ pending) ⊎ ((status ≡ claimed) × (until ≤ now))
is_open-status now until pending h = inl refl
is_open-status now until claimed h = inr (refl, leb→le until now h)
is_open-status now until completed h = absurd (cc)

is_due-IsFree : (now : ℕ) (row : AckRow) → is_due now row ≡ true → IsFree now row
is_due-IsFree now row h =
    let (a, b) =
      both_true (leb row.next_attempt_at now) (is_open now row.claim_until row.status) h in
    (leb→le row.next_attempt_at now a, is_open-status now row.claim_until row.status b)

holds_token-held :
    (token : String) (status : Status) (held : Option String)
    → holds_token token status held ≡ true
    → (status ≡ claimed) × (held ≡ some token)
holds_token-held token pending held h = absurd (cc)
holds_token-held token completed held h = absurd (cc)
holds_token-held token claimed none h = absurd (cc)
holds_token-held token claimed (some held) h = (refl, ap some ((eq_iff held token).0 h))

-- The row is claimed under this token.
abbrev IsClaimedBy : String → AckRow → Type 0
IsClaimedBy token row = (row.status ≡ claimed) × (row.claim_token ≡ some token)

-- The row is that of the key, and it is claimed under this token.
abbrev pub HoldsClaim : String → String → String → AckRow → Type 0
HoldsClaim u s token row =
    (row.tenant_id ≡ u)
    × (row.receipt_id ≡ s)
    × ((row.status ≡ claimed) × (row.claim_token ≡ some token))

module _ (t r : String) where
  -- The row of the key is there in the tables, and it is as it was or has changed as `P` says.
  abbrev pub Moved : AckRow → (AckRow → Type 0) → Db → Type 0
  Moved row P db =
      (after : AckRow) × (find_ack t r db.outbox ≡ some after) × ((after ≡ row) ⊎ P after)

  module _ (row : AckRow) (P : AckRow → Type 0) where
    of_ending-Moved :
        {A : Type 0} (fail : ℕ → A) (ending : Ending) (db : Db) (o : Db × A)
        → Moved row P db
        → Moved row P o.0
        → Moved row P (of_ending fail ending db o).0
    of_ending-Moved fail committed db (d, a) f g = g
    of_ending-Moved fail (rolled_back n) db (d, a) f g = f
    of_ending-Moved fail (lost n) db (d, a) f g = g

    held_row :
        (db : Db) (u s : String) (held : AckRow)
        → find_ack t r db.outbox ≡ some row
        → find_ack u s db.outbox ≡ some held
        → is_ack u s row ≡ true
        → held ≡ row
    held_row db u s held f g h =
        let (a, b) = find_ack-keys t r db.outbox row f in
        let (c, d) = is_ack-keys u s row h in
        let k =
          ap (λ (z : String). find_ack z s db.outbox) (sym c ∙ a)
          ∙ ap (λ (z : String). find_ack t z db.outbox) (sym d ∙ b)
          ∙ f in
        cc

    update_ack-Moved :
        (db : Db) (u s : String) (change : AckRow → AckRow) (held : AckRow)
        → KeepsKey change
        → find_ack t r db.outbox ≡ some row
        → find_ack u s db.outbox ≡ some held
        → (held ≡ row → row.tenant_id ≡ u → row.receipt_id ≡ s → P (change row))
        → Moved row P (record db { outbox = update_ack u s change db.outbox })
    update_ack-Moved db u s change held keep f g m =
        let e =
          find_ack-update_ack u s change keep t r db.outbox ∙ ap (changed u s change keep) f in
        elim (Bool-cases (is_ack u s row)) [
          | inr h ↦ (row, rw h at e, inl refl)
          | inl h ↦
              let (c, d) = is_ack-keys u s row h in
              (change row, rw h at e, inr (m (held_row db u s held f g h) c d))
        ]

    settle-Moved :
        (u s token : String) (change : AckRow → AckRow) (db : Db)
        → KeepsKey change
        → (HoldsClaim u s token row → P (change row))
        → find_ack t r db.outbox ≡ some row
        → Moved row P (settle u s token change db).0
    settle-Moved u s token change db keep moves f =
        elim (Bool-cases (holds_claim token (find_ack u s db.outbox))) [
          | inr h ↦ rw h (row, f, inl refl)
          | inl h ↦ elim (Option-cases (find_ack u s db.outbox)) [
            | inl n ↦ absurd (let g = rw n at h in cc)
            | inr (held, g) ↦
                let (a, b) =
                  holds_token-held token held.status held.claim_token (let k = rw g at h in k) in
                rw h (
                  update_ack-Moved db u s change held keep f g
                    λ q c d. moves (c, d, subst (IsClaimedBy token) q (a, b)))
          ]
        ]

    of_candidate-Moved :
        (x : Externals) (unmarshal_receipt : List ℕ → Option Receipt)
        (before : String → String → Bool) (locked : String → Bool) (u token : String)
        (now until : ℕ) (db : Db) (o : Option AckRow)
        → Found before locked u now db.outbox o
        → find_ack t r db.outbox ≡ some row
        → (row.tenant_id ≡ u → IsFree now row → P (taken_by token until row))
        → Moved row P (of_candidate x unmarshal_receipt before u token until db o).0
    of_candidate-Moved x un before locked u token now until db none g f m = (row, f, inl refl)
    of_candidate-Moved x un before locked u token now until db (some held) (g, k, d) f m =
        update_ack-Moved db u held.receipt_id (taken_by token until) held (λ b. (refl, refl)) f
          (ap (λ (z : String). find_ack z held.receipt_id db.outbox) (sym k) ∙ g)
          λ q c _. m c (subst (IsFree now) q (is_due-IsFree now held d))

    put_row-Moved :
        (db : Db) (new : AckRow)
        → find_ack new.tenant_id new.receipt_id db.outbox ≡ none
        → find_ack t r db.outbox ≡ some row
        → find_ack t r (new ∷ db.outbox) ≡ some row
    unfolding find_ack
    put_row-Moved db new n f = elim (Bool-cases (is_ack t r new)) [
      | inr h ↦ rw h f
      | inl h ↦ let (a, b) = is_ack-keys t r new h in absurd (let g = rw (a, b) at n in cc)
    ]

module _ (x : Externals) (unmarshal_receipt : List ℕ → Option Receipt)
    (before : String → String → Bool) where
  -- What each transaction may make of a row that it does not leave as it was: an append nothing; a claim,
  -- at its own readings of the clock, takes a free row of its tenant for thirty seconds; and a completion
  -- and a return, of the row that they name, only while it is claimed under their own token.
  abbrev pub Allowed :
      {db after : Db} → Step x unmarshal_receipt before db after → AckRow → AckRow → Type 0
  Allowed (appends ending input drawn) row new = ⊥
  Allowed (claims ending locked u token now at) row new =
      (row.tenant_id ≡ u)
      × IsFree now row
      × (new ≡ record row {
        status = claimed;
        claim_token = some token;
        claim_until = at + 30_000_000_000;
      })
  Allowed (completes ending u s token result) row new =
      HoldsClaim u s token row
      × (new ≡ record row {
        status = completed;
        result = some result;
        claim_token = none;
        claim_until = 0;
      })
  Allowed (retries ending u s token message now) row new =
      HoldsClaim u s token row
      × (new ≡ record row {
        status = pending;
        attempts = row.attempts + 1;
        next_attempt_at = now;
        last_error = take 512 message;
        claim_token = none;
        claim_until = 0;
      })

  module _ (t r : String) (row : AckRow) where
    of_encoded-Moved :
        (db : Db) (input : AppendInput) (drawn : Drawn) (body : Option (List ℕ))
        (hash : Option String)
        → find_ack t r db.outbox ≡ some row
        → Moved t r row
            (λ _. ⊥)
            (of_encoded x unmarshal_receipt db input drawn
              (new_result x unmarshal_receipt input drawn)
              body
              hash).0
    of_encoded-Moved db input drawn none hash f = (row, f, inl refl)
    of_encoded-Moved db input drawn (some body) none f = (row, f, inl refl)
    of_encoded-Moved db input drawn (some body) (some hash) f =
        elim (Bool-cases (is_taken db input drawn)) [
          | inl h ↦ rw h (row, f, inl refl)
          | inr h ↦ rw h (
            row,
            put_row-Moved t r row (λ _. ⊥) db _
                (is_taken-fresh x unmarshal_receipt before db input drawn h) f,
            inl refl,
          )
        ]

    of_retained-Moved :
        (db : Db) (input : AppendInput) (drawn : Drawn) (o : Option AuthorizationRow)
        → find_ack t r db.outbox ≡ some row
        → Moved t r row (λ _. ⊥) (of_retained x unmarshal_receipt db input drawn o).0
    of_retained-Moved db input drawn none f = of_encoded-Moved db input drawn _ _ f
    of_retained-Moved db input drawn (some held) f =
        elim (Bool-cases (held.request_hash == input.request_hash)) [
          | inl h ↦ rw h (row, f, inl refl)
          | inr h ↦ rw h (row, f, inl refl)
        ]

    -- In tables that any transactions filled from empty ones, one more transaction leaves each acknowledgement
    -- there and as it was, or changes it only so. A claim takes it under the token of the call for
    -- thirty seconds, only when at the clock of the call its next attempt is reached and it is pending or
    -- its claim has expired. A completion stores the result, and a return makes it pending with one more
    -- attempt, the time of the call and the error, and both only while the row that the call names is
    -- claimed under the call's token. An append changes none.
    pub Step-Moved :
        {db after : Db}
        → Steps x unmarshal_receipt before
            (record { authorizations = []; log = []; outbox = [] })
            db
        → (step : Step x unmarshal_receipt before db after) → find_ack t r db.outbox ≡ some row
        → Moved t r row (Allowed step row) after
    unfolding append append_tx claim complete retry
    Step-Moved {db} s (appends ending input drawn) f =
        of_ending-Moved t r row (λ _. ⊥) _ ending db _ (row, f, inl refl)
          (of_retained-Moved db input drawn _ f)
    Step-Moved {db} s (claims ending locked u token now at) f =
        of_ending-Moved t r row _ _ ending db _ (row, f, inl refl)
          (of_candidate-Moved t r row _ x unmarshal_receipt before locked u token now _ db _
            (candidate-Found before locked u now db.outbox
              (Steps-Distinct x unmarshal_receipt before s tt))
            f λ c d. (c, d, refl))
    Step-Moved {db} s (completes ending u v token result) f =
        of_ending-Moved t r row _ _ ending db _ (row, f, inl refl)
          (settle-Moved t r row _ u v token (with_result result) db (λ b. (refl, refl))
            (λ h. (h, refl)) f)
    Step-Moved {db} s (retries ending u v token message now) f =
        of_ending-Moved t r row _ _ ending db _ (row, f, inl refl)
          (settle-Moved t r row _ u v token (given_back now message) db (λ b. (refl, refl))
            (λ h. (h, refl)) f)
