-- ===== src/Signaling/State/Fold.antt =====
-- The log of an interaction as the router means to write it, and what the rebuild folds from one.
use relaypoint.Common.{
  ℕ, suc, String, ◌+◌, ◌≡◌, refl, sym, subst, ◌∙◌, ap, ◌⊎◌, inl, inr, List, [], ◌∷◌, ◌++◌, some,
  true, eq_iff, arith, Map, Map, lookup, insert, erase, length, Within, lookup-insert, lookup-erase,
}
use relaypoint.Signaling.Wire.{Event, accepted}
use relaypoint.Signaling.State.{
  StoredResult, InteractionState, evict_oldest, put_result, legal_transition, transition,
}

abbrev pub status_from : String → List Event → String
status_from s [] = s
status_from s (e ∷ es) = status_from (transition s e.event_type) es

-- The sequences count up by one, and each fact is a legal transition from what came before.
abbrev pub Legal : String → ℕ → List Event → Type 0
Legal s n [] = Unit {0}
Legal s n (e ∷ es) =
    (e.sequence ≡ suc n)
    × (legal_transition s e.event_type ≡ true)
    × Legal (transition s e.event_type) (suc n) es

-- A log from its start: numbered 1, 2, ..., started first and ended last.
abbrev pub IsLegal : List Event → Type 0
IsLegal = Legal "" 0

pub Legal-append :
    (s : String) (n : ℕ) (es : List Event) (e : Event)
    → Legal s n es
    → e.sequence ≡ suc (n + length es)
    → legal_transition (status_from s es) e.event_type ≡ true
    → Legal s n (es ++ e ∷ [])
Legal-append s n [] e l q t = (omega arith, t, tt)
Legal-append s n (d ∷ es) e l q t =
    (l.0, l.1, Legal-append (transition s d.event_type) (suc n) es e l.2 (omega arith) t)

pub status_from-append :
    (s : String) (es : List Event) (e : Event)
    → status_from s (es ++ e ∷ []) ≡ transition (status_from s es) e.event_type
status_from-append s [] e = refl
status_from-append s (d ∷ es) e = status_from-append (transition s d.event_type) es e

-- A fact of the log carries the command id.
abbrev pub Logged : String → List Event → Type 0
Logged id facts = (e : Event) × Within e facts × (e.command_id ≡ id)

-- The cache acknowledges only what the log holds.
abbrev pub Cached : List Event → Map StoredResult → Type 0
Cached facts results =
    (id : String) (sr : StoredResult)
    → lookup id results ≡ some sr
    → sr.result.status ≡ accepted
    → Logged id facts

lookup-evict_oldest :
    (max : ℕ) (order : List String) (m : Map StoredResult) (j : String) (sr : StoredResult)
    → lookup j (evict_oldest max order m).1 ≡ some sr
    → lookup j m ≡ some sr
unfolding evict_oldest
lookup-evict_oldest max [] m j sr h = h
lookup-evict_oldest max (o ∷ order) m j sr h =
    ground (arith, lookup-evict_oldest max order (erase o m) j sr, lookup-erase o j m)

-- What the cache holds after a put is the put or was there.
pub lookup-put_result :
    (st : InteractionState) (id : String) (sr : StoredResult) (max : ℕ) (j : String)
    (sr' : StoredResult)
    → lookup j (put_result st id sr max).results ≡ some sr'
    → ((id ≡ j) × (sr' ≡ sr)) ⊎ (lookup j st.results ≡ some sr')
unfolding put_result
lookup-put_result st id sr max j sr' h = ground (
  arith,
  eq_iff id j,
  lookup-insert id j sr st.results,
  lookup-evict_oldest max _ (insert id sr st.results) j sr' h,
)

pub Cached-put_result :
    (facts : List Event) (st : InteractionState) (id : String) (sr : StoredResult) (max : ℕ)
    → (sr.result.status ≡ accepted → Logged id facts)
    → Cached facts st.results
    → Cached facts (put_result st id sr max).results
Cached-put_result facts st id sr max l c j sr' h a = elim (lookup-put_result st id sr max j sr' h) [
  | inl (e, q) ↦ subst (λ k. Logged k facts) e (l (ap (λ r. r.result.status) (sym q) ∙ a))
  | inr k ↦ c j sr' k a
]
