-- ===== src/Signaling/State/Rebuild.antt =====
-- `rebuild` of internal/signaling/router.go recovers an interaction from a legal log.
use relaypoint.Common.{
  ℕ, suc, String, ◌+◌, ◌<◌, ◌≡◌, refl, ◌∙◌, ap, inl, inr, List, [], ◌∷◌, false, Bool, not, ◌&&◌,
  Map, insert, if◌then◌else◌, ◌==◌, arith, lookup, length, Within, Bool-cases, max_int64,
  less_int64,
}
use relaypoint.Signaling.Wire.{Event}
use relaypoint.Signaling.Participation.{fold_participation}
use relaypoint.Signaling.State.{
  StoredResult, InteractionState, put_result, add_id, ids_of, add_parent, is_participation_fact,
  transition, fold_result, fold_parent, fold_fact, fold_facts, rebuilt,
}
use relaypoint.Signaling.State.Fold.{Legal, IsLegal, status_from, Cached, Cached-put_result}

-- The position of a state: what the next append is numbered and checked by.
pub record Position : Type 0 where
  pub seq : ℕ
  pub stream_seq : ℕ
  pub status : String
  pub poisoned : Bool

abbrev pub position : InteractionState → Position
position st = record {
  seq = st.seq;
  stream_seq = st.stream_seq;
  status = st.status;
  poisoned = st.poisoned;
}

pub position-put_result :
    (st : InteractionState) (id : String) (sr : StoredResult) (max : ℕ)
    → position (put_result st id sr max) ≡ position st
unfolding put_result
position-put_result st id sr max = refl

pub part-put_result :
    (st : InteractionState) (id : String) (sr : StoredResult) (max : ℕ)
    → (put_result st id sr max).part ≡ st.part
unfolding put_result
part-put_result st id sr max = refl

position-fold_fact :
    (max : ℕ) (st : InteractionState) (e : Event)
    → position (fold_fact max st e) ≡ record {
      seq = if less_int64 st.seq e.sequence then e.sequence else st.seq;
      stream_seq = st.stream_seq;
      status = transition st.status e.event_type;
      poisoned = st.poisoned;
    }
unfolding fold_fact add_parent put_result
position-fold_fact max st e = ground arith

part-fold_fact : (max : ℕ) (st : InteractionState) (e : Event) → (fold_fact max st e).part ≡ st.part
unfolding fold_fact add_parent put_result
part-fold_fact max st e = ground arith

seq-fold_fact :
    (max : ℕ) (st : InteractionState) (e : Event) (n : ℕ)
    → st.seq ≡ n
    → e.sequence ≡ suc n
    → suc n < max_int64
    → (fold_fact max st e).seq ≡ suc n
seq-fold_fact max st e n h q b =
    ap (λ (r : Position). r.seq) (position-fold_fact max st e) ∙ ground arith

position-fold_facts :
    (max : ℕ) (st : InteractionState) (es : List Event) (n : ℕ) (s : String)
    → st.seq ≡ n
    → st.status ≡ s
    → Legal s n es
    → n + length es < max_int64
    → position (fold_facts max st es) ≡ record {
      seq = n + length es;
      stream_seq = st.stream_seq;
      status = status_from s es;
      poisoned = st.poisoned;
    }
unfolding fold_facts
position-fold_facts max st [] n s hn hs l h = ground arith
position-fold_facts max st (e ∷ es) n s hn hs l h =
    position-fold_facts max (fold_fact max st e) es (suc n) (transition s e.event_type)
      (seq-fold_fact max st e n hn l.0 (omega arith))
      (ap (λ (r : Position). r.status) (position-fold_fact max st e)
        ∙ ap (λ t. transition t e.event_type) hs)
      l.2 (omega arith)
    ∙ ground (arith, position-fold_fact max st e)

part-fold_facts :
    (max : ℕ) (st : InteractionState) (es : List Event) → (fold_facts max st es).part ≡ st.part
unfolding fold_facts
part-fold_facts max st [] = refl
part-fold_facts max st (e ∷ es) =
    part-fold_facts max (fold_fact max st e) es ∙ part-fold_fact max st e

-- The parents that the facts name: each participation fact is one of the command that caused it.
abbrev pub parents_from : Map (List String) → List Event → Map (List String)
parents_from m [] = m
parents_from m (e ∷ es) =
    parents_from
      (if is_participation_fact e.event_type && not (e.caused_by == "")
        then insert e.caused_by (add_id e.command_id (ids_of (lookup e.caused_by m))) m
        else m)
      es

pub parents-put_result :
    (st : InteractionState) (id : String) (sr : StoredResult) (max : ℕ)
    → (put_result st id sr max).parents ≡ st.parents
unfolding put_result
parents-put_result st id sr max = refl

parents-fold_fact :
    (max : ℕ) (st : InteractionState) (e : Event)
    → (fold_fact max st e).parents ≡ parents_from st.parents (e ∷ [])
unfolding fold_fact add_parent put_result
parents-fold_fact max st e = ground arith

parents-fold_facts :
    (max : ℕ) (st : InteractionState) (es : List Event)
    → (fold_facts max st es).parents ≡ parents_from st.parents es
unfolding fold_facts
parents-fold_facts max st [] = refl
parents-fold_facts max st (e ∷ es) =
    parents-fold_facts max (fold_fact max st e) es
    ∙ ap (λ m. parents_from m es) (parents-fold_fact max st e)

-- The rebuilt parents are those that the log names.
pub rebuilt-parents :
    (max : ℕ) (facts : List Event) (last : ℕ)
    → (rebuilt max facts last).parents ≡ parents_from [] facts
unfolding rebuilt
rebuilt-parents max facts last = parents-fold_facts max _ facts

results-add_parent :
    (st : InteractionState) (parent id : String) → (add_parent st parent id).results ≡ st.results
unfolding add_parent
results-add_parent st parent id = refl

results-fold_parent : (st : InteractionState) (e : Event) → (fold_parent st e).results ≡ st.results
unfolding fold_parent
results-fold_parent st e = ground (arith, results-add_parent st e.caused_by e.command_id)

Cached-fold_result :
    (max : ℕ) (facts : List Event) (st : InteractionState) (e : Event)
    → Within e facts
    → Cached facts st.results
    → Cached facts (fold_result max st e).results
unfolding fold_result
Cached-fold_result max facts st e w c = elim (Bool-cases (e.command_id == "")) [
  | inl h ↦ rw h c
  | inr h ↦ rw h (Cached-put_result facts st e.command_id _ max (λ _. (e, w, refl)) c)
]

Cached-fold_fact :
    (max : ℕ) (facts : List Event) (st : InteractionState) (e : Event)
    → Within e facts
    → Cached facts st.results
    → Cached facts (fold_fact max st e).results
unfolding fold_fact
Cached-fold_fact max facts st e w c =
    let mid : InteractionState = record st {
      seq = if less_int64 st.seq e.sequence then e.sequence else st.seq;
      status = transition st.status e.event_type;
    } in
    rw (results-fold_parent (fold_result max mid e) e) (Cached-fold_result max facts mid e w c)

Cached-fold_facts :
    (max : ℕ) (facts : List Event) (st : InteractionState) (es : List Event)
    → ((e : Event) → Within e es → Within e facts)
    → Cached facts st.results
    → Cached facts (fold_facts max st es).results
unfolding fold_facts
Cached-fold_facts max facts st [] w c = c
Cached-fold_facts max facts st (e ∷ es) w c =
    Cached-fold_facts max facts (fold_fact max st e) es (λ d h. w d (inr h))
      (Cached-fold_fact max facts st e (w e (inl refl)) c)

Cached-nil : (facts : List Event) → Cached facts []
unfolding lookup
Cached-nil facts id sr h a = cc

-- From a legal log that fits an `int64`, the rebuild is numbered by the log's length, has the status
-- that the transitions lead to and the folded membership, and is not poisoned.
pub rebuilt-position :
    (max : ℕ) (facts : List Event) (last : ℕ)
    → IsLegal facts
    → length facts < max_int64
    → (position (rebuilt max facts last) ≡ record {
      seq = length facts;
      stream_seq = last;
      status = status_from "" facts;
      poisoned = false;
    })
      × ((rebuilt max facts last).part ≡ fold_participation facts)
unfolding rebuilt
rebuilt-position max facts last l h = (
  position-fold_facts max _ facts 0 "" refl refl l (omega arith) ∙ ground arith,
  part-fold_facts max _ facts,
)

-- Whatever the log, the rebuilt cache acknowledges only command ids that the log holds.
pub rebuilt-Cached :
    (max : ℕ) (facts : List Event) (last : ℕ) → Cached facts (rebuilt max facts last).results
unfolding rebuilt
rebuilt-Cached max facts last = Cached-fold_facts max facts _ facts (λ e w. w) (Cached-nil facts)
