-- ===== src/Signaling/Table/Recency.antt =====
-- The search for the least recently used entry, and the loop that deletes it.
use relaypoint.Common.{
  ℕ, zero, suc, ◌≤◌, ◌<◌, String, ◌≡◌, ◌≢◌, refl, sym, ◌⊎◌, inl, inr, [], ◌∷◌, none, some, true,
  eq_iff, arith, Map, lookup, erase, has, length, lookup-erase,
}
use relaypoint.Signaling.State.{InteractionState}
use relaypoint.Signaling.Table.{lru_from, drop_lru}

-- Keys are not empty, and each stands once.
abbrev pub AreKeys : Map InteractionState → Type 0
AreKeys [] = Unit {0}
AreKeys ((k, st) ∷ m) = (k ≢ "") × (lookup k m ≡ none) × AreKeys m

erase-absent :
    (k : String) (m : Map InteractionState) → lookup k m ≡ none → length (erase k m) ≡ length m
unfolding lookup erase
erase-absent k [] h = refl
erase-absent k ((j, st) ∷ m) h = ground (arith, erase-absent k m)

length-erase :
    (k : String) (m : Map InteractionState)
    → AreKeys m
    → has (lookup k m) ≡ true
    → suc (length (erase k m)) ≡ length m
unfolding lookup erase
length-erase k [] u h = ground arith
length-erase k ((j, st) ∷ m) (e, n, u) h =
    ground (arith, eq_iff j k, length-erase k m u, erase-absent j m n)

pub AreKeys-erase : (k : String) (m : Map InteractionState) → AreKeys m → AreKeys (erase k m)
unfolding erase
AreKeys-erase k [] u = tt
AreKeys-erase k ((j, st) ∷ m) (e, n, u) = ground (arith, AreKeys-erase k m u, lookup-erase k j m)

lru_from-present :
    (key : String) (at : ℕ) (m : Map InteractionState)
    → AreKeys m
    → (lru_from key at m ≡ key) ⊎ (has (lookup (lru_from key at m) m) ≡ true)
unfolding lru_from lookup
lru_from-present key at [] u = inl refl
lru_from-present key at ((k, st) ∷ m) (e, n, u) = ground (
  arith,
  lru_from-present key at m u,
  lru_from-present k st.last_used m u,
  eq_iff k (lru_from key at m),
  eq_iff k (lru_from k st.last_used m),
)

lru_from-found :
    (m : Map InteractionState) → AreKeys m → 0 < length m → has (lookup (lru_from "" 0 m) m) ≡ true
unfolding lru_from lookup
lru_from-found [] u h = absurd (omega arith)
lru_from-found ((k, st) ∷ m) (e, n, u) h =
    ground (arith, lru_from-present k st.last_used m u, eq_iff k (lru_from k st.last_used m))

-- The entry of `k` was used at `t`, and every other one before.
abbrev pub IsLatest : String → ℕ → Map InteractionState → Type 0
IsLatest k t [] = Unit {0}
IsLatest k t ((j, st) ∷ m) =
    (((j ≡ k) × (st.last_used ≡ t)) ⊎ ((j ≢ k) × (st.last_used < t))) × IsLatest k t m

lru_from-older :
    (k : String) (t : ℕ) (key : String) (at : ℕ) (m : Map InteractionState)
    → IsLatest k t m
    → key ≢ ""
    → key ≢ k
    → at < t
    → AreKeys m
    → lru_from key at m ≢ k
unfolding lru_from
lru_from-older k t key at [] l e n h u = n
lru_from-older k t key at ((j, st) ∷ m) (l, ls) e n h (je, jn, u) = ground (
  arith,
  eq_iff key "",
  lru_from-older k t key at m ls e n h u,
  lru_from-older k t j st.last_used m ls,
)

lru_from-past :
    (k : String) (t : ℕ) (m : Map InteractionState)
    → IsLatest k t m
    → AreKeys m
    → lookup k m ≡ none
    → 0 < length m
    → k ≢ ""
    → lru_from k t m ≢ k
unfolding lru_from lookup
lru_from-past k t [] l u n h e = absurd (omega arith)
lru_from-past k t ((j, st) ∷ m) (l, ls) (je, jn, u) n h e =
    ground (arith, eq_iff k "", eq_iff j k, lru_from-older k t j st.last_used m ls je)

lru_from-spares :
    (k : String) (t : ℕ) (m : Map InteractionState)
    → IsLatest k t m
    → AreKeys m
    → 1 < length m
    → lru_from "" 0 m ≢ k
unfolding lru_from
lru_from-spares k t [] l u h = absurd (omega arith)
lru_from-spares k t ((j, st) ∷ m) (inl (e, a), ls) (je, jn, u) h =
    rw (e, a) (lru_from-past k t m ls u (rw (sym e) jn) (omega arith) (rw (sym e) je))
lru_from-spares k t ((j, st) ∷ m) (inr (e, a), ls) (je, jn, u) h =
    lru_from-older k t j st.last_used m ls je e a u

IsLatest-erase :
    (k : String) (t : ℕ) (j : String) (m : Map InteractionState)
    → IsLatest k t m
    → IsLatest k t (erase j m)
unfolding erase
IsLatest-erase k t j [] l = tt
IsLatest-erase k t j ((i, st) ∷ m) (l, ls) = ground (arith, IsLatest-erase k t j m ls)

pub length-drop_lru :
    (rounds max : ℕ) (m : Map InteractionState)
    → AreKeys m
    → length m ≤ rounds
    → 0 < max
    → length (drop_lru rounds max m) ≤ max
unfolding drop_lru
length-drop_lru zero max m u h p = omega arith
length-drop_lru (suc rounds) max m u h p =
    let key = lru_from "" 0 m in
    ground (
      arith,
      length-erase key m u,
      lru_from-found m u,
      length-drop_lru rounds max (erase key m) (AreKeys-erase key m u),
    )

pub drop_lru-spares :
    (rounds max : ℕ) (k : String) (st : InteractionState) (m : Map InteractionState)
    → AreKeys m
    → IsLatest k st.last_used m
    → lookup k m ≡ some st
    → lookup k (drop_lru rounds max m) ≡ some st
unfolding drop_lru
drop_lru-spares zero max k st m u l h = h
drop_lru-spares (suc rounds) max k st m u l h =
    let key = lru_from "" 0 m in
    ground (
      arith,
      eq_iff key k,
      lru_from-spares k st.last_used m l u,
      lookup-erase key k m,
      drop_lru-spares rounds max k st (erase key m) (AreKeys-erase key m u)
          (IsLatest-erase k st.last_used key m l),
    )

pub drop_lru-only :
    (rounds max : ℕ) (j : String) (st : InteractionState) (m : Map InteractionState)
    → lookup j (drop_lru rounds max m) ≡ some st
    → lookup j m ≡ some st
unfolding drop_lru
drop_lru-only zero max j st m h = h
drop_lru-only (suc rounds) max j st m h =
    let key = lru_from "" 0 m in
    ground (arith, eq_iff key j, lookup-erase key j m, drop_lru-only rounds max j st (erase key m))
