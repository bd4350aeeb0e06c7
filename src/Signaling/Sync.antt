-- ===== src/Signaling/Sync.antt =====
-- The router's states against the log of a broker that keeps its promises (internal/signaling).
use text.Mathlib.TextLemmas.{append_cancel_left}
use relaypoint.Common.{
  ℕ, ◌+◌, String, ◌≤◌, ◌<◌, ◌≡◌, refl, sym, subst, ◌∙◌, ap, inl, inr, List, [], ◌∷◌, ◌++◌, some,
  true, false, arith, length, length-append, Within, Within-append_right, max_int64, next64,
  Option-cases,
}
use relaypoint.Signaling.Wire.{Event}
use relaypoint.Signaling.State.{InteractionState, adopt, rebuilt, legal_transition, transition}
use relaypoint.Signaling.State.Fold.{
  IsLegal, Legal-append, status_from, status_from-append, Cached, Logged,
}
use relaypoint.Signaling.State.Rebuild.{Position, position, rebuilt-position, rebuilt-Cached}
use relaypoint.Signaling.State.Copy.{Core, core-copy_missing_results, Cached-copy_missing_results}
use relaypoint.Signaling.Log.{LogStore, Promises, log_subject_for, dedup_id, joined, rebuild}

-- When the token is the subject's last stream sequence, the number and the status are the log's; the
-- token is never ahead.
pub record IsSynced (last : ℕ) (facts : List Event) (q : Position) : Type 0 where
  pub behind : q.stream_seq ≤ last
  pub numbered : q.stream_seq ≡ last → q.seq ≡ length facts
  pub stated : q.stream_seq ≡ last → q.status ≡ status_from "" facts

pub command_id-of_dedup_id :
    (tenant iid : String) (d e : Event)
    → dedup_id tenant iid d ≡ dedup_id tenant iid e
    → d.command_id ≡ e.command_id
unfolding dedup_id
command_id-of_dedup_id tenant iid d e h =
    append_cancel_left (joined (tenant ∷ "." ∷ iid ∷ "." ∷ [])) d.command_id e.command_id h

module _ (s : LogStore) (tenant iid : String)
    (p : Promises s (log_subject_for tenant iid) (dedup_id tenant iid)) where
  open s use {World}
  open p use {facts, last, Others}

  -- Only other writers led from one world to the other.
  pub data Led (start : World) : World → Type 0 where
    here : Led start start
    led : {w w' : World} → Led start w → Others w w' → Led start w'

  pub Led-trans : {u v w : World} → Led u v → Led v w → Led u w
  Led-trans a here = a
  Led-trans a (led b o) = led (Led-trans a b) o

  -- The log is legal, the cache acknowledges what is in it, and the position is in step with it.
  pub record IsSafe (w : World) (st : InteractionState) : Type 0 where
    pub legal : IsLegal (facts w)
    pub cached : Cached (facts w) st.results
    pub synced : IsSynced (last w) (facts w) (position st)

  Others-IsSynced :
      (w w' : World) (q : Position)
      → Others w w'
      → IsSynced (last w) (facts w) q
      → IsSynced (last w') (facts w') q
  Others-IsSynced w w' q o y = elim (p.others_last w w' o) [
    | inl (l, f) ↦ rw (l, f) y
    | inr lt ↦ record {
      behind = omega (arith, y.behind);
      numbered = λ e. absurd (omega (arith, y.behind));
      stated = λ e. absurd (omega (arith, y.behind));
    }
  ]

  -- What other writers do leaves a safe state safe.
  pub Others-IsSafe :
      (w w' : World) (st : InteractionState) → Others w w' → IsSafe w st → IsSafe w' st
  Others-IsSafe w w' st o v = record {
    legal = p.others_legal w w' o v.legal;
    cached = λ id sr h a. let (e, k, q) = v.cached id sr h a in (e, p.others_keep w w' o e k, q);
    synced = Others-IsSynced w w' (position st) o v.synced;
  }

  rebuilt-IsSafe :
      (max : ℕ) (w : World) (es : List Event) (n : ℕ)
      → IsLegal (facts w)
      → es ≡ facts w
      → n ≡ last w
      → length es < max_int64
      → IsSafe w (rebuilt max es n) × ((rebuilt max es n).poisoned ≡ false)
  rebuilt-IsSafe max w es n l q m b =
      let (e, _) = rebuilt-position max es n (subst IsLegal (sym q) l) b in
      (
        record {
          legal = l;
          cached = subst (λ f. Cached f (rebuilt max es n).results) q (rebuilt-Cached max es n);
          synced =
              rw (e, q, m)
                (record { behind = omega arith; numbered = λ h. refl; stated = λ h. refl });
        },
        ap (λ (r : Position). r.poisoned) e,
      )

  -- A rebuild that gives a state gives one that is in step with the log, and not poisoned.
  pub rebuild-IsSafe :
      (max : ℕ) (w : World) (fresh : InteractionState)
      → IsLegal (facts w)
      → (rebuild s max tenant iid w).1 ≡ some fresh
      → IsSafe (rebuild s max tenant iid w).0 fresh × (fresh.poisoned ≡ false)
  unfolding rebuild
  rebuild-IsSafe max w fresh l h = elim (Option-cases (s.replay w (log_subject_for tenant iid)).1) [
    | inl e ↦ cc
    | inr ((es, n), e) ↦
        let (a, b, c) = p.replay_all w es n e in
        let l' =
          p.others_legal w (s.replay w (log_subject_for tenant iid)).0 (p.replay_others w) l in
        subst (λ f. IsSafe (s.replay w (log_subject_for tenant iid)).0 f × (f.poisoned ≡ false))
          (ground (arith, e, h))
          (rebuilt-IsSafe max (s.replay w (log_subject_for tenant iid)).0 es n l' a b c)
  ]

  -- A state that was safe before a rebuild is safe behind it, and the log keeps what it held.
  pub rebuild-Others : (max : ℕ) (w : World) → Others w (rebuild s max tenant iid w).0
  unfolding rebuild
  rebuild-Others max w = p.replay_others w

  pub rebuild-IsSafe_old :
      (max : ℕ) (w : World) (st : InteractionState)
      → IsSafe w st
      → IsSafe (rebuild s max tenant iid w).0 st
  rebuild-IsSafe_old max w st v = Others-IsSafe w _ st (rebuild-Others max w) v

  pub Others-Logged :
      (w w' : World) (id : String) → Others w w' → Logged id (facts w) → Logged id (facts w')
  Others-Logged w w' id o (e, k, q) = (e, p.others_keep w w' o e k, q)

  -- The assignment of `adopt`, before the results are copied.
  abbrev moved : InteractionState → InteractionState → InteractionState
  moved st fresh = record st {
    seq = fresh.seq;
    stream_seq = fresh.stream_seq;
    status = fresh.status;
    part = fresh.part;
    parents = fresh.parents;
  }

  -- The membership and the parents that `adopt` takes are the fresh ones.
  pub adopt-core :
      (max : ℕ) (st fresh : InteractionState)
      → ((adopt st fresh max).stream_seq ≡ fresh.stream_seq)
        × ((adopt st fresh max).part ≡ fresh.part)
        × ((adopt st fresh max).parents ≡ fresh.parents)
  unfolding adopt
  adopt-core max st fresh =
      let e = core-copy_missing_results (moved st fresh) fresh max in
      (
        ap (λ (c : Core). c.position_of.stream_seq) e,
        ap (λ (c : Core). c.part) e,
        ap (λ (c : Core). c.parents) e,
      )

  -- So `adopt` makes any state safe.
  pub adopt-IsSafe :
      (max : ℕ) (w : World) (st fresh : InteractionState)
      → Cached (facts w) st.results
      → IsSafe w fresh
      → IsSafe w (adopt st fresh max)
  unfolding adopt
  adopt-IsSafe max w st fresh c v = record {
    legal = v.legal;
    cached = Cached-copy_missing_results (facts w) (moved st fresh) fresh max v.cached c;
    synced =
        subst (IsSynced (last w) (facts w))
          (sym (
            ap (λ (c : Core). c.position_of)
              (core-copy_missing_results (moved st fresh) fresh max)))
          (record {
            behind = v.synced.behind;
            numbered = v.synced.numbered;
            stated = v.synced.stated;
          });
  }

  pub poisoned-adopt :
      (max : ℕ) (st fresh : InteractionState) → (adopt st fresh max).poisoned ≡ st.poisoned
  unfolding adopt
  poisoned-adopt max st fresh =
      ap (λ (c : Core). c.position_of.poisoned)
        (core-copy_missing_results (moved st fresh) fresh max)

  -- A stored append behind the others' writes: the log grows by the fact, which was legal because the
  -- token was the last stream sequence.
  pub committed-IsLegal :
      (w m w' : World) (q : Position) (e : Event)
      → IsLegal (facts w)
      → IsSynced (last w) (facts w) q
      → Others w m
      → last m ≡ q.stream_seq
      → facts w' ≡ facts m ++ e ∷ []
      → length (facts w') < max_int64
      → e.sequence ≡ next64 q.seq
      → legal_transition q.status e.event_type ≡ true
      → IsLegal (facts w')
        × (next64 q.seq ≡ length (facts w'))
        × (transition q.status e.event_type ≡ status_from "" (facts w'))
        × Within e (facts w')
  committed-IsLegal w m w' q e l y o h f b n t =
      let y' : IsSynced (last m) (facts m) q = Others-IsSynced w m q o y in
      let num : q.seq ≡ length (facts m) = y'.numbered (sym h) in
      let st : q.status ≡ status_from "" (facts m) = y'.stated (sym h) in
      let grown : length (facts w') ≡ length (facts m) + 1 =
        ap length f ∙ length-append (facts m) (e ∷ []) in
      (
        rw f (
            Legal-append "" 0 (facts m) e (p.others_legal w m o l) (omega arith)
              (subst (λ c. legal_transition c e.event_type ≡ true) st t)),
        omega arith,
        rw f (ap (λ c. transition c e.event_type) st ∙ sym (status_from-append "" (facts m) e)),
        rw f (Within-append_right e (facts m) (e ∷ []) (inl refl)),
      )
