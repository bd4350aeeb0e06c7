-- ===== src/Signaling/Table/Pruning.antt =====
-- What `prune` keeps.
use relaypoint.Common.{
  ℕ, ◌+◌, ◌≤◌, ◌<◌, String, ◌≡◌, refl, inl, inr, [], ◌∷◌, none, some, false, ltb, eq_iff, arith,
  if◌then◌else◌, Map, lookup, length, Bool-cases,
}
use relaypoint.Signaling.State.{InteractionState}
use relaypoint.Signaling.Table.{Config, drop_idle, drop_lru, prune}
use relaypoint.Signaling.Table.Recency.{
  AreKeys, IsLatest, length-drop_lru, drop_lru-spares, drop_lru-only,
}

drop_idle-absent :
    (ttl now : ℕ) (j : String) (m : Map InteractionState)
    → lookup j m ≡ none
    → lookup j (drop_idle ttl now m) ≡ none
unfolding drop_idle lookup
drop_idle-absent ttl now j [] h = refl
drop_idle-absent ttl now j ((k, st) ∷ m) h = ground (arith, drop_idle-absent ttl now j m)

pub AreKeys-drop_idle :
    (ttl now : ℕ) (m : Map InteractionState) → AreKeys m → AreKeys (drop_idle ttl now m)
unfolding drop_idle
AreKeys-drop_idle ttl now [] u = tt
AreKeys-drop_idle ttl now ((k, st) ∷ m) (e, n, u) =
    ground (arith, AreKeys-drop_idle ttl now m u, drop_idle-absent ttl now k m n)

drop_idle-lookup :
    (ttl now : ℕ) (j : String) (m : Map InteractionState)
    → AreKeys m
    → lookup j (drop_idle ttl now m) ≡ (elim (lookup j m) [
      | none ↦ none
      | some st ↦ if ltb (st.last_used + ttl) now then none else some st
    ])
unfolding drop_idle lookup
drop_idle-lookup ttl now j [] u = refl
drop_idle-lookup ttl now j ((k, st) ∷ m) (e, n, u) =
    ground (arith, eq_iff k j, drop_idle-lookup ttl now j m u, drop_idle-absent ttl now k m n)

IsLatest-drop_idle :
    (k : String) (t ttl now : ℕ) (m : Map InteractionState)
    → IsLatest k t m
    → IsLatest k t (drop_idle ttl now m)
unfolding drop_idle
IsLatest-drop_idle k t ttl now [] l = tt
IsLatest-drop_idle k t ttl now ((i, st) ∷ m) (l, ls) =
    ground (arith, IsLatest-drop_idle k t ttl now m ls)

-- The bound holds, nothing is made up, what is left out by the idle limit is idle where the number
-- needs no bound, and the entry in use stays.
pub record IsPruned (config : Config) (now : ℕ) (m m' : Map InteractionState) : Type 0 where
  pub bounded : 0 < config.max_inter → length m' ≤ config.max_inter
  pub only : (j : String) (st : InteractionState) → lookup j m' ≡ some st → lookup j m ≡ some st
  pub idle_gone :
      (j : String) (st : InteractionState)
      → lookup j m' ≡ some st
      → 0 < config.idle_ttl
      → now ≤ st.last_used + config.idle_ttl
  pub latest_stays :
      (k : String) (st : InteractionState)
      → lookup k m ≡ some st
      → now ≤ st.last_used
      → IsLatest k st.last_used m
      → lookup k m' ≡ some st

kept-only :
    (ttl now : ℕ) (j : String) (st : InteractionState) (m : Map InteractionState)
    → AreKeys m
    → lookup j (drop_idle ttl now m) ≡ some st
    → (lookup j m ≡ some st) × (now ≤ st.last_used + ttl)
kept-only ttl now j st m u h = ground (arith, drop_idle-lookup ttl now j m u)

kept-latest :
    (ttl now : ℕ) (k : String) (st : InteractionState) (m : Map InteractionState)
    → AreKeys m
    → lookup k m ≡ some st
    → now ≤ st.last_used
    → lookup k (drop_idle ttl now m) ≡ some st
kept-latest ttl now k st m u h e = ground (arith, drop_idle-lookup ttl now k m u)

dropped-IsPruned :
    (config : Config) (now : ℕ) (m : Map InteractionState)
    → AreKeys m
    → 0 < config.idle_ttl
    → IsPruned config now m (
        drop_lru
          (length (drop_idle config.idle_ttl now m))
          config.max_inter
          (drop_idle config.idle_ttl now m))
dropped-IsPruned config now m u i =
    let kept = drop_idle config.idle_ttl now m in
    let u' = AreKeys-drop_idle config.idle_ttl now m u in
    record {
      bounded = length-drop_lru (length kept) config.max_inter kept u' (omega arith);
      only = λ j st h.
          (kept-only config.idle_ttl now j st m u
            (drop_lru-only (length kept) config.max_inter j st kept h)).0;
      idle_gone = λ j st h _.
          (kept-only config.idle_ttl now j st m u
            (drop_lru-only (length kept) config.max_inter j st kept h)).1;
      latest_stays = λ k st h e l.
          drop_lru-spares (length kept) config.max_inter k st kept u'
            (IsLatest-drop_idle k st.last_used config.idle_ttl now m l)
            (kept-latest config.idle_ttl now k st m u h e);
    }

counted-IsPruned :
    (config : Config) (now : ℕ) (m : Map InteractionState)
    → AreKeys m
    → ltb 0 config.idle_ttl ≡ false
    → IsPruned config now m (drop_lru (length m) config.max_inter m)
counted-IsPruned config now m u i = record {
  bounded = length-drop_lru (length m) config.max_inter m u (omega arith);
  only = λ j st h. drop_lru-only (length m) config.max_inter j st m h;
  idle_gone = λ j st h p. absurd (ground arith);
  latest_stays = λ k st h e l. drop_lru-spares (length m) config.max_inter k st m u l h;
}

-- Pruning a table whose keys are not empty and stand once: the table ends within the bound on its
-- number, where there is one; it holds only entries that it held; none of them is idle for longer than
-- the limit, where there is one; and an entry that is used now stays when every other one was used
-- earlier.
pub prune-IsPruned :
    (config : Config) (now : ℕ) (m : Map InteractionState)
    → AreKeys m
    → IsPruned config now m (prune config now m)
unfolding prune
prune-IsPruned config now m u = elim (Bool-cases (ltb 0 config.idle_ttl)) [
  | inl e ↦ rw e (dropped-IsPruned config now m u (ground arith))
  | inr e ↦ rw e (counted-IsPruned config now m u e)
]
