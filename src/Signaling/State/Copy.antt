-- ===== src/Signaling/State/Copy.antt =====
-- `copyMissingResults` of internal/signaling/router.go: what it leaves alone, and what it may bring.
use relaypoint.Common.{
  ℕ, String, ◌≡◌, refl, ◌∙◌, inl, inr, List, [], ◌∷◌, arith, Map, lookup, has, Bool-cases,
  Option-cases,
}
use relaypoint.Signaling.Wire.{Event}
use relaypoint.Signaling.Participation.{ParticipationView}
use relaypoint.Signaling.State.{
  StoredResult, InteractionState, put_result, copy_in_order, copy_missing_results,
}
use relaypoint.Signaling.State.Fold.{Cached, Cached-put_result}
use relaypoint.Signaling.State.Rebuild.{
  Position, position, position-put_result, part-put_result, parents-put_result,
}

-- Position, membership and parents.
pub record Core : Type 0 where
  pub position_of : Position
  pub part : ParticipationView
  pub parents : Map (List String)

abbrev pub core : InteractionState → Core
core st = record { position_of = position st; part = st.part; parents = st.parents }

core-put_result :
    (st : InteractionState) (id : String) (sr : StoredResult) (max : ℕ)
    → core (put_result st id sr max) ≡ core st
core-put_result st id sr max = ground (
  arith,
  position-put_result st id sr max,
  part-put_result st id sr max,
  parents-put_result st id sr max,
)

core-copy_in_order :
    (st : InteractionState) (fresh : Map StoredResult) (order : List String) (max : ℕ)
    → core (copy_in_order st fresh order max) ≡ core st
unfolding copy_in_order
core-copy_in_order st fresh [] max = refl
core-copy_in_order st fresh (id ∷ order) max = elim (Option-cases (lookup id fresh)) [
  | inl e ↦ rw (e, copy_in_order) (core-copy_in_order st fresh order max)
  | inr (sr, e) ↦ elim (Bool-cases (has (lookup id st.results))) [
    | inl h ↦ rw (e, copy_in_order) (rw h (core-copy_in_order st fresh order max))
    | inr h ↦
        rw (e, copy_in_order)
          (rw h (
            core-copy_in_order (put_result st id sr max) fresh order max
            ∙ core-put_result st id sr max))
  ]
]

Cached-copy_in_order :
    (facts : List Event) (st : InteractionState) (fresh : Map StoredResult) (order : List String)
    (max : ℕ)
    → Cached facts fresh
    → Cached facts st.results
    → Cached facts (copy_in_order st fresh order max).results
unfolding copy_in_order
Cached-copy_in_order facts st fresh [] max f c = c
Cached-copy_in_order facts st fresh (id ∷ order) max f c = elim (Option-cases (lookup id fresh)) [
  | inl e ↦ rw (e, copy_in_order) (Cached-copy_in_order facts st fresh order max f c)
  | inr (sr, e) ↦ elim (Bool-cases (has (lookup id st.results))) [
    | inl h ↦ rw (e, copy_in_order) (rw h (Cached-copy_in_order facts st fresh order max f c))
    | inr h ↦
        rw (e, copy_in_order)
          (rw h (
            Cached-copy_in_order facts (put_result st id sr max) fresh order max f
              (Cached-put_result facts st id sr max (f id sr e) c)))
  ]
]

pub core-copy_missing_results :
    (st fresh : InteractionState) (max : ℕ) → core (copy_missing_results st fresh max) ≡ core st
unfolding copy_missing_results
core-copy_missing_results st fresh max = core-copy_in_order st fresh.results fresh.result_order max

pub Cached-copy_missing_results :
    (facts : List Event) (st fresh : InteractionState) (max : ℕ)
    → Cached facts fresh.results
    → Cached facts st.results
    → Cached facts (copy_missing_results st fresh max).results
unfolding copy_missing_results
Cached-copy_missing_results facts st fresh max f c =
    Cached-copy_in_order facts st fresh.results fresh.result_order max f c
