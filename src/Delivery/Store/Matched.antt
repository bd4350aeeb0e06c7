-- ===== src/Delivery/Store/Matched.antt =====
-- Every acknowledgement that internal/deliverypg/store.go keeps is one that the worker sends.
use relaypoint.Common.{
  ℕ, String, ◌≡◌, refl, ◌⊎◌, inl, inr, List, [], ◌∷◌, Option, none, some, Bool, ◌==◌, ◌&&◌, ◌||◌,
  eqb, ltb, eq_refl, Bool-cases,
}
use relaypoint.Delivery.{Receipt, AppendInput, AppendResult, Externals}
use relaypoint.Delivery.Acks.{
  AckResult, AckClaim, AcknowledgeRequest, AckCall, acknowledge, request_of, ack_hash, is_known,
  of_router, process_one, retried,
}
use relaypoint.Delivery.Store.Rows.{AuthorizationRow, AckRow, Db, is_ack, find_ack, update_ack}
use relaypoint.Delivery.Store.{
  Ending, committed, rolled_back, lost, Drawn, is_taken, of_ending, holds_claim, settle, complete,
  retry, sooner, is_candidate, candidate, taken_by, claim_of, receipt_from_append, ack_of,
  of_encoded, of_retained, append_tx, append, of_candidate, claim,
}
use relaypoint.Delivery.Store.Steps.{Step, appends, claims, completes, retries, Steps, here, next}

module _ (x : Externals) (unmarshal_receipt : List ℕ → Option Receipt)
    (before : String → String → Bool) where
  -- The receipt of a row is decoded, and the hash of the request that is made of it is the row's.
  abbrev IsMatched : AckRow → Type 0
  IsMatched row =
      (receipt : Receipt) × (unmarshal_receipt row.receipt_body ≡ some receipt)
      × (ack_hash x (request_of (claim_of "" row receipt)) ≡ some row.request_hash)

  abbrev AreMatched : List AckRow → Type 0
  AreMatched [] = Unit {0}
  AreMatched (row ∷ rows) = IsMatched row × AreMatched rows

  update_ack-AreMatched :
      (t r : String) (change : AckRow → AckRow) (rows : List AckRow)
      → ((row : AckRow) → IsMatched row → IsMatched (change row))
      → AreMatched rows
      → AreMatched (update_ack t r change rows)
  unfolding update_ack
  update_ack-AreMatched t r change [] keep m = tt
  update_ack-AreMatched t r change (row ∷ rows) keep (m, ms) =
      let rest = update_ack-AreMatched t r change rows keep ms in
      elim (Bool-cases (is_ack t r row)) [
        | inl h ↦ rw h (keep row m, rest)
        | inr h ↦ rw h (m, rest)
      ]

  settle-AreMatched :
      (t r token : String) (change : AckRow → AckRow) (db : Db)
      → ((row : AckRow) → IsMatched row → IsMatched (change row))
      → AreMatched db.outbox
      → AreMatched (settle t r token change db).0.outbox
  settle-AreMatched t r token change db keep m =
      elim (Bool-cases (holds_claim token (find_ack t r db.outbox))) [
        | inl h ↦ rw h (update_ack-AreMatched t r change db.outbox keep m)
        | inr h ↦ rw h m
      ]

  of_ending-AreMatched :
      {A : Type 0} (fail : ℕ → A) (ending : Ending) (db : Db) (r : Db × A)
      → AreMatched db.outbox
      → AreMatched r.0.outbox
      → AreMatched (of_ending fail ending db r).0.outbox
  of_ending-AreMatched fail committed db (d, a) f g = g
  of_ending-AreMatched fail (rolled_back n) db (d, a) f g = f
  of_ending-AreMatched fail (lost n) db (d, a) f g = g

  sooner-IsMatched :
      (locked : String → Bool) (row best : AckRow)
      → IsMatched row
      → IsMatched best
      → IsMatched (sooner before locked row (some best))
  sooner-IsMatched locked row best m n =
      elim (Bool-cases (
        ltb row.next_attempt_at best.next_attempt_at
        || eqb row.next_attempt_at best.next_attempt_at && before row.receipt_id best.receipt_id)) [
          | inl h ↦ rw h m
          | inr h ↦ rw h n
        ]

  abbrev OfCandidate : Option AckRow → Type 0
  OfCandidate none = Unit {0}
  OfCandidate (some row) = IsMatched row

  some-sooner :
      (locked : String → Bool) (row : AckRow) (o : Option AckRow)
      → IsMatched row
      → OfCandidate o
      → OfCandidate (some (sooner before locked row o))
  some-sooner locked row none m n = m
  some-sooner locked row (some best) m n = sooner-IsMatched locked row best m n

  candidate-OfCandidate :
      (locked : String → Bool) (t : String) (now : ℕ) (rows : List AckRow)
      → AreMatched rows
      → OfCandidate (candidate before locked t now rows)
  unfolding candidate
  candidate-OfCandidate locked t now [] m = tt
  candidate-OfCandidate locked t now (row ∷ rows) (m, ms) =
      let rest = candidate-OfCandidate locked t now rows ms in
      elim (Bool-cases (is_candidate before locked t now row)) [
        | inl h ↦ rw h (some-sooner locked row (candidate before locked t now rows) m rest)
        | inr h ↦ rw h rest
      ]

  of_candidate-AreMatched :
      (t token : String) (until : ℕ) (db : Db) (o : Option AckRow)
      → AreMatched db.outbox
      → AreMatched (of_candidate x unmarshal_receipt before t token until db o).0.outbox
  of_candidate-AreMatched t token until db none m = m
  of_candidate-AreMatched t token until db (some row) m =
      update_ack-AreMatched t row.receipt_id (taken_by token until) db.outbox (λ held h. h) m

  module _
      (decodes : (r : Receipt) (body : List ℕ)
        → x.marshal_receipt r ≡ some body
        → unmarshal_receipt body ≡ some r) where
    of_encoded-AreMatched :
        (db : Db) (input : AppendInput) (drawn : Drawn) (result : AppendResult)
        (body : Option (List ℕ)) (hash : Option String)
        → x.marshal_receipt (receipt_from_append x unmarshal_receipt input result) ≡ body
        → ack_hash x (ack_of x unmarshal_receipt input result) ≡ hash
        → AreMatched db.outbox
        → AreMatched (of_encoded x unmarshal_receipt db input drawn result body hash).0.outbox
    unfolding receipt_from_append request_of
    of_encoded-AreMatched db input drawn result none hash b h m = m
    of_encoded-AreMatched db input drawn result (some body) none b h m = m
    of_encoded-AreMatched db input drawn result (some body) (some hash) b h m =
        elim (Bool-cases (is_taken db input drawn)) [
          | inl t ↦ rw t m
          | inr t ↦
              rw t ((receipt_from_append x unmarshal_receipt input result, decodes _ body b, h), m)
        ]

    of_retained-AreMatched :
        (db : Db) (input : AppendInput) (drawn : Drawn) (o : Option AuthorizationRow)
        → AreMatched db.outbox
        → AreMatched (of_retained x unmarshal_receipt db input drawn o).0.outbox
    of_retained-AreMatched db input drawn none m =
        of_encoded-AreMatched db input drawn _ _ _ refl refl m
    of_retained-AreMatched db input drawn (some held) m =
        elim (Bool-cases (held.request_hash == input.request_hash)) [
          | inl h ↦ rw h m
          | inr h ↦ rw h m
        ]

    Step-AreMatched :
        {db db' : Db}
        → Step x unmarshal_receipt before db db'
        → AreMatched db.outbox
        → AreMatched db'.outbox
    unfolding append append_tx claim complete retry
    Step-AreMatched {db} (appends ending input drawn) m =
        of_ending-AreMatched _ ending db _ m (of_retained-AreMatched db input drawn _ m)
    Step-AreMatched {db} (claims ending locked t token now at) m =
        of_ending-AreMatched _ ending db _ m (of_candidate-AreMatched t token _ db _ m)
    Step-AreMatched {db} (completes ending t r token result) m =
        of_ending-AreMatched _ ending db _ m (settle-AreMatched t r token _ db (λ row h. h) m)
    Step-AreMatched {db} (retries ending t r token message now) m =
        of_ending-AreMatched _ ending db _ m (settle-AreMatched t r token _ db (λ row h. h) m)

    Steps-AreMatched :
        {db db' : Db}
        → Steps x unmarshal_receipt before db db'
        → AreMatched db.outbox
        → AreMatched db'.outbox
    Steps-AreMatched here m = m
    Steps-AreMatched (next s st) m = Step-AreMatched st (Steps-AreMatched s m)

    module _ (worker_tenant : String) (router : AcknowledgeRequest → AckResult ⊎ ℕ)
        (retry_error complete_error : Option ℕ) where
      -- What a claim gives to a worker: its hash is the stored one, and the worker asks the router first.
      abbrev pub IsSendable : Option AckClaim ⊎ ℕ → Type 0
      IsSendable (inr n) = ⊥
      IsSendable (inl none) = Unit {0}
      IsSendable (inl (some c)) =
          (ack_hash x (request_of c) ≡ some c.request_hash)
          × (rest : List AckCall) × ((process_one x worker_tenant router retry_error complete_error
                (inl (some c))).calls
              ≡ acknowledge (request_of c) ∷ rest)

      router_first :
          (c : AckClaim) (o : AckResult ⊎ ℕ)
          → (rest : List AckCall) × ((of_router x worker_tenant router retry_error complete_error c
                o).calls
              ≡ acknowledge (request_of c) ∷ rest)
      unfolding retried
      router_first c (inr n) = (_, refl)
      router_first c (inl result) = elim (Bool-cases (is_known result.disposition)) [
        | inl h ↦ rw h (_, refl)
        | inr h ↦ rw h (_, refl)
      ]

      IsSendable-of_hash :
          (c : AckClaim)
          → ack_hash x (request_of c) ≡ some c.request_hash
          → IsSendable (inl (some c))
      unfolding process_one
      IsSendable-of_hash c h =
          let (rest, e) = router_first c (router (request_of c)) in
          (h, rest, rw (h, eq_refl c.request_hash) e)

      of_candidate-IsSendable :
          (t token : String) (until : ℕ) (db : Db) (o : Option AckRow)
          → OfCandidate o
          → IsSendable (of_candidate x unmarshal_receipt before t token until db o).1
      unfolding request_of
      of_candidate-IsSendable t token until db none m = tt
      of_candidate-IsSendable t token until db (some row) (receipt, d, h) =
          rw d (IsSendable-of_hash (claim_of token row receipt) h)

      -- After any transactions on tables that were empty, a committed claim never fails: it finds nothing, or it
      -- gives an acknowledgement whose hash is the stored one, so that the worker asks the router first and
      -- never gives it back for its hash; protobuf decodes what it encoded.
      pub claim-IsSendable :
          (db : Db) (locked : String → Bool) (tenant_id token : String) (now at : ℕ)
          → Steps x unmarshal_receipt before
              (record { authorizations = []; log = []; outbox = [] })
              db
          → IsSendable
              (claim x unmarshal_receipt before committed locked tenant_id token now at db).1
      unfolding claim
      claim-IsSendable db locked t token now at s =
          of_candidate-IsSendable t token _ db _
            (candidate-OfCandidate locked t now db.outbox (Steps-AreMatched s tt))
