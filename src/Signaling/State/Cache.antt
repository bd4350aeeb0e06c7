-- ===== src/Signaling/State/Cache.antt =====
-- The dedup cache of an interaction: `results` with its order of insertion.
use relaypoint.Common.{
  ℕ, suc, String, ◌≤◌, ◌<◌, ◌≡◌, refl, sym, ◌∙◌, ap, ◌⊎◌, inl, inr, List, [], ◌∷◌, ◌++◌, map, true,
  false, ◌==◌, eq_iff, eq_refl, arith, ltb, if◌then◌else◌, Map, lookup, insert, erase, has, length,
  length-append, Within, Bool-cases, length-insert,
}
use relaypoint.Signaling.State.{StoredResult, InteractionState, evict_oldest, put_result}

abbrev pub keys : Map StoredResult → List String
keys m = map (λ p. p.0) m

-- No text twice.
abbrev pub Distinct : List String → Type 0
Distinct [] = Unit {0}
Distinct (x ∷ xs) = (¬ Within x xs) × Distinct xs

-- The order lists the keys of the cache, oldest first, each once.
pub record IsCache (st : InteractionState) : Type 0 where
  pub order : keys st.results ≡ st.result_order
  pub distinct : Distinct (keys st.results)

-- A queue of at most `max` results: an id that is there keeps its place, a new one goes to the end,
-- and a full queue loses its head for it.
abbrev pub tail_of : Map StoredResult → Map StoredResult
tail_of [] = []
tail_of (p ∷ m) = m

abbrev pub queued : ℕ → Map StoredResult → String → StoredResult → Map StoredResult
queued max m id sr =
    if has (lookup id m)
    then insert id sr m
    else if ltb (length m) max
    then m ++ (id, sr) ∷ []
    else tail_of (m ++ (id, sr) ∷ [])

keys-insert_old :
    (id : String) (sr : StoredResult) (m : Map StoredResult)
    → has (lookup id m) ≡ true
    → keys (insert id sr m) ≡ keys m
unfolding lookup insert
keys-insert_old id sr [] h = cc
keys-insert_old id sr ((j, w) ∷ m) h = ground (arith, eq_iff j id, keys-insert_old id sr m)

insert_new :
    (id : String) (sr : StoredResult) (m : Map StoredResult)
    → has (lookup id m) ≡ false
    → insert id sr m ≡ m ++ (id, sr) ∷ []
unfolding lookup insert
insert_new id sr [] h = refl
insert_new id sr ((j, w) ∷ m) h = ground (arith, insert_new id sr m)

keys-append :
    (m : Map StoredResult) (id : String) (sr : StoredResult)
    → keys (m ++ (id, sr) ∷ []) ≡ keys m ++ id ∷ []
keys-append [] id sr = refl
keys-append ((j, w) ∷ m) id sr = ap (λ r. j ∷ r) (keys-append m id sr)

erase_absent : (id : String) (m : Map StoredResult) → ¬ Within id (keys m) → erase id m ≡ m
unfolding erase
erase_absent id [] h = refl
erase_absent id ((j, w) ∷ m) h = elim (Bool-cases (j == id)) [
  | inl e ↦ absurd (h (inl (sym ((eq_iff j id).0 e))))
  | inr e ↦ rw e (ap (λ r. (j, w) ∷ r) (erase_absent id m (λ k. h (inr k))))
]

erase_head :
    (id : String) (w : StoredResult) (m : Map StoredResult)
    → ¬ Within id (keys m)
    → erase id ((id, w) ∷ m) ≡ m
unfolding erase
erase_head id w m h = rw (eq_refl id) (erase_absent id m h)

Within-of_lookup :
    (id : String) (m : Map StoredResult) → has (lookup id m) ≡ false → ¬ Within id (keys m)
unfolding lookup
Within-of_lookup id [] h k = k
Within-of_lookup id ((j, w) ∷ m) h (inl e) = ground (arith, eq_iff j id)
Within-of_lookup id ((j, w) ∷ m) h (inr k) = Within-of_lookup id m (ground arith) k

Within-snoc : (y x : String) (xs : List String) → Within y (xs ++ x ∷ []) → Within y xs ⊎ (y ≡ x)
Within-snoc y x [] (inl e) = inr e
Within-snoc y x [] (inr h) = absurd h
Within-snoc y x (z ∷ xs) (inl e) = inl (inl e)
Within-snoc y x (z ∷ xs) (inr h) = elim (Within-snoc y x xs h) [
  | inl k ↦ inl (inr k)
  | inr e ↦ inr e
]

Distinct-snoc :
    (xs : List String) (x : String) → ¬ Within x xs → Distinct xs → Distinct (xs ++ x ∷ [])
Distinct-snoc [] x n d = (λ h. h, tt)
Distinct-snoc (y ∷ xs) x n d = (fresh, Distinct-snoc xs x (λ h. n (inr h)) d.1)
  where
    fresh : ¬ Within y (xs ++ x ∷ [])
    fresh h = elim (Within-snoc y x xs h) [ inl k ↦ d.0 k | inr e ↦ n (inl (sym e)) ]

-- What one `put_result` may leave to evict.
abbrev trimmed : ℕ → Map StoredResult → Map StoredResult
trimmed max m = if ltb max (length m) then tail_of m else m

evict_within :
    (max : ℕ) (order : List String) (m : Map StoredResult)
    → length m ≤ max
    → evict_oldest max order m ≡ (order, m)
unfolding evict_oldest
evict_within max [] m h = refl
evict_within max (o ∷ order) m h = ground arith

-- The order reaches as far as the eviction: its head is there when it is read.
evict_trims :
    (max : ℕ) (m : Map StoredResult)
    → 0 < max
    → length m ≤ suc max
    → Distinct (keys m)
    → evict_oldest max (keys m) m ≡ (keys (trimmed max m), trimmed max m)
unfolding evict_oldest
evict_trims max [] p h d = ground arith
evict_trims max ((o, w) ∷ m) p h d = elim (Bool-cases (ltb max (length ((o, w) ∷ m)))) [
  | inl big ↦
      rw big (ground (arith, erase_head o w m d.0, evict_within max (keys m) m (omega arith)))
  | inr fits ↦ rw fits (ground arith)
]

module _ (st : InteractionState) (id : String) (sr : StoredResult) (max : ℕ) (c : IsCache st)
    (p : 0 < max) (fits : length st.results ≤ max) where
  appended_fits : length (st.results ++ (id, sr) ∷ []) ≤ suc max
  appended_fits = omega (arith, length-append st.results ((id, sr) ∷ []))

  appended-Distinct :
      has (lookup id st.results) ≡ false → Distinct (keys (st.results ++ (id, sr) ∷ []))
  appended-Distinct h =
      rw (keys-append st.results id sr)
        (Distinct-snoc (keys st.results) id (Within-of_lookup id st.results h) c.distinct)

  put_old :
      has (lookup id st.results) ≡ true
      → put_result st id sr max ≡ record st { results = insert id sr st.results }
  unfolding put_result
  put_old h = rw (
    h,
    evict_within max st.result_order (insert id sr st.results)
        (rw (length-insert id sr st.results, h) fits),
  )

  put_new :
      has (lookup id st.results) ≡ false
      → let m = trimmed max (st.results ++ (id, sr) ∷ []) in
        put_result st id sr max ≡ record st { results = m; result_order = keys m }
  unfolding put_result
  put_new h =
      rw (h, insert_new id sr st.results h)
        (rw (← c.order, ← keys-append st.results id sr)
          (rw
            (evict_trims max (st.results ++ (id, sr) ∷ []) p appended_fits (appended-Distinct h))))

  put_old-IsCache :
      has (lookup id st.results) ≡ true → IsCache (record st { results = insert id sr st.results })
  put_old-IsCache h = record {
    order = keys-insert_old id sr st.results h ∙ c.order;
    distinct = rw (keys-insert_old id sr st.results h) c.distinct;
  }

trimmed-Distinct :
    (max : ℕ) (m : Map StoredResult) → Distinct (keys m) → Distinct (keys (trimmed max m))
trimmed-Distinct max [] d = ground (arith, d)
trimmed-Distinct max ((j, w) ∷ m) d = elim (Bool-cases (ltb max (length ((j, w) ∷ m)))) [
  | inl e ↦ rw e d.1
  | inr e ↦ rw e d
]

length-trimmed :
    (max : ℕ) (m : Map StoredResult) → length m ≤ suc max → length (trimmed max m) ≤ max
length-trimmed max [] h = ground arith
length-trimmed max ((j, w) ∷ m) h = ground arith

trimmed_append :
    (max : ℕ) (m : Map StoredResult) (id : String) (sr : StoredResult)
    → length m ≤ max
    → trimmed max (m ++ (id, sr) ∷ [])
      ≡ (if ltb (length m) max then m ++ (id, sr) ∷ [] else tail_of (m ++ (id, sr) ∷ []))
trimmed_append max m id sr h = ground (arith, length-append m ((id, sr) ∷ []))

abbrev pub PutSpec : InteractionState → String → StoredResult → ℕ → InteractionState → Type 0
PutSpec st id sr max st' =
    (st'.results ≡ queued max st.results id sr) × IsCache st' × (length st'.results ≤ max)

-- On a cache whose order lists its keys once each and that holds at most `max` results, with
-- `0 < max`, `put_result` is the bounded queue: an id that is there keeps its place with the new
-- result, a new one goes to the end, and the oldest goes only when the cache was full. The order
-- still lists the keys, and the bound still holds.
pub put_result-queued :
    (st : InteractionState) (id : String) (sr : StoredResult) (max : ℕ)
    → IsCache st
    → 0 < max
    → length st.results ≤ max
    → PutSpec st id sr max (put_result st id sr max)
put_result-queued st id sr max c p fits = elim (Bool-cases (has (lookup id st.results))) [
  | inl h ↦
      rw (put_old st id sr max c p fits h, h)
        (refl, put_old-IsCache st id sr max c p fits h, rw (length-insert id sr st.results, h) fits)
  | inr h ↦
      rw (put_new st id sr max c p fits h, h)
        (
          trimmed_append max st.results id sr fits,
          record {
            order = refl;
            distinct =
                trimmed-Distinct max (st.results ++ (id, sr) ∷ [])
                  (appended-Distinct st id sr max c p fits h);
          },
          length-trimmed max (st.results ++ (id, sr) ∷ []) (appended_fits st id sr max c p fits),
        )
]
