-- ===== src/Authcallout/Visitor/Throttle.antt =====
-- How often internal/authcallout/visitor_token.go fetches the key set.
use relaypoint.Common.{
  ℕ, ◌+◌, ◌≤◌, String, ◌≡◌, inl, inr, refl, List, [], ◌∷◌, Option, none, some, Bool, true, false,
  ◌&&◌, arith, if◌then◌else◌, ltb, Bool-cases,
}
use relaypoint.Authcallout.Visitor.{Readings, Cache, Keys, is_fresh, refetch, is_held, key_set}

-- Each time is at least `gap` behind the one before it; the latest stands first.
abbrev pub Spaced : ℕ → List ℕ → Type 0
Spaced gap [] = Unit {0}
Spaced gap (t ∷ []) = Unit {0}
Spaced gap (t ∷ s ∷ rest) = (s + gap ≤ t) × Spaced gap (s ∷ rest)

module _ (KeySet : Type 0) (has_kid : KeySet → String → Bool) (ttl refetch_min : ℕ) where
  -- One call of `keySet`.
  pub record Visit : Type 0 where
    pub kid : String
    pub at : Readings
    pub fetched : Option KeySet

  abbrev fresh_in : Visit → Cache KeySet has_kid ttl refetch_min → Bool
  fresh_in v c = is_fresh KeySet has_kid ttl refetch_min c.cached c.fetched_at v.at.tested_at

  abbrev keys_of :
      Visit → Cache KeySet has_kid ttl refetch_min → Keys KeySet has_kid ttl refetch_min
  keys_of v c = key_set KeySet has_kid ttl refetch_min v.kid v.at v.fetched c

  -- The times at which calls with a fresh cache fetched, the latest first, behind those before.
  abbrev pub polls : Cache KeySet has_kid ttl refetch_min → List ℕ → List Visit → List ℕ
  polls c before [] = before
  polls c before (v ∷ rest) =
      polls (keys_of v c).cache
        (if (keys_of v c).fetched && fresh_in v c then v.at.polled_at ∷ before else before) rest

  abbrev pub InOrder : List Visit → Type 0
  InOrder [] = Unit {0}
  InOrder (v ∷ rest) = (v.at.cooled_at ≤ v.at.polled_at) × InOrder rest

  -- The cooldown runs from the latest of them.
  abbrev Since : ℕ → List ℕ → Type 0
  Since last [] = Unit {0}
  Since last (t ∷ rest) = t ≡ last

  record StaysSpaced (v : Visit) (c : Cache KeySet has_kid ttl refetch_min) (before after : List ℕ)
      : Type 0 where
    spaced : Spaced refetch_min after
    since : Since (keys_of v c).cache.last_unknown_poll after

  Spaced-cons :
      (last t : ℕ) (before : List ℕ)
      → Since last before
      → last + refetch_min ≤ t
      → Spaced refetch_min before
      → Spaced refetch_min (t ∷ before)
  Spaced-cons last t [] s h k = tt
  Spaced-cons last t (u ∷ rest) s h k = (omega arith, k)

  refetch_keeps :
      (kid : String) (now : ℕ) (fetched : Option KeySet) (c : Cache KeySet has_kid ttl refetch_min)
      → ((refetch KeySet has_kid ttl refetch_min kid now fetched c).cache.last_unknown_poll
          ≡ c.last_unknown_poll)
        × ((refetch KeySet has_kid ttl refetch_min kid now fetched c).fetched ≡ true)
  unfolding refetch
  refetch_keeps kid now none c = (refl, refl)
  refetch_keeps kid now (some keys) c = (refl, refl)

  key_set-StaysSpaced :
      (v : Visit) (c : Cache KeySet has_kid ttl refetch_min) (before : List ℕ)
      → v.at.cooled_at ≤ v.at.polled_at
      → Since c.last_unknown_poll before
      → Spaced refetch_min before
      → StaysSpaced v c before
          (if (keys_of v c).fetched && fresh_in v c then v.at.polled_at ∷ before else before)
  unfolding key_set
  key_set-StaysSpaced v c before h s k = elim (Bool-cases (fresh_in v c)) [
    | inr f ↦
        let (r, q) = refetch_keeps v.kid v.at.stored_at v.fetched c in
        rw (f, q) (record { spaced = k; since = rw (f, r) s })
    | inl f ↦ elim (Bool-cases (is_held KeySet has_kid ttl refetch_min c.cached v.kid)) [
      | inl m ↦ rw (f, m) (record { spaced = k; since = rw (f, m) s })
      | inr m ↦ elim (Bool-cases (ltb v.at.cooled_at (c.last_unknown_poll + refetch_min))) [
        | inl l ↦ rw (f, m, l) (record { spaced = k; since = rw (f, m, l) s })
        | inr l ↦
            let (r, q) =
              refetch_keeps v.kid v.at.stored_at v.fetched
                (record c { last_unknown_poll = v.at.polled_at }) in
            rw (f, m, l, q)
              (record {
                spaced = Spaced-cons c.last_unknown_poll v.at.polled_at before s (ground arith) k;
                since = rw (f, m, l, r) refl;
              })
      ]
    ]
  ]

  polls-Spaced_from :
      (visits : List Visit) (c : Cache KeySet has_kid ttl refetch_min) (before : List ℕ)
      → InOrder visits
      → Since c.last_unknown_poll before
      → Spaced refetch_min before
      → Spaced refetch_min (polls c before visits)
  polls-Spaced_from [] c before o s k = k
  polls-Spaced_from (v ∷ rest) c before (h, o) s k =
      let n = key_set-StaysSpaced v c before h s k in
      polls-Spaced_from rest (keys_of v c).cache _ o n.since n.spaced

  -- Over any calls, each reading its clock forward, the fetches that a fresh cache did not prevent are a
  -- cooldown or more apart, whatever the key ids. A call without a fresh cache always fetches.
  pub polls-Spaced :
      (visits : List Visit) (c : Cache KeySet has_kid ttl refetch_min)
      → InOrder visits
      → Spaced refetch_min (polls c [] visits)
        × ((v : Visit) (d : Cache KeySet has_kid ttl refetch_min)
            → is_fresh KeySet has_kid ttl refetch_min d.cached d.fetched_at v.at.tested_at ≡ false
            → (key_set KeySet has_kid ttl refetch_min v.kid v.at v.fetched d).fetched ≡ true)
  unfolding key_set
  polls-Spaced visits c o = (
    polls-Spaced_from visits c [] o tt tt,
    λ v d f. rw f (refetch_keeps v.kid v.at.stored_at v.fetched d).1,
  )
