-- ===== src/Signaling/Privileged/Acknowledged.antt =====
-- What `append_fact` acknowledges is in the log (internal/signaling/router.go), whatever the broker
-- answers and other writers do.
use relaypoint.Common.{
  ℕ, zero, suc, String, ◌≡◌, refl, subst, ◌∙◌, inl, inr, [], ◌∷◌, ◌++◌, Option, none, some, Bool,
  true, false, not, ◌&&◌, ◌==◌, if◌then◌else◌, arith, lookup, Within-append_left,
  Within-append_right, Option-cases, next64,
}
use relaypoint.Signaling.Wire.{
  Event, Command, CommandResult, accepted, accept, reject, lost_append, append_failed,
}
use relaypoint.Signaling.Participation.{apply_fact}
use relaypoint.Signaling.State.{InteractionState, adopt, rebuilt, legal_transition, transition}
use relaypoint.Signaling.State.Fold.{Logged, Cached, Cached-put_result}
use relaypoint.Signaling.State.Rebuild.{rebuilt-Cached}
use relaypoint.Signaling.State.Copy.{Cached-copy_missing_results}
use relaypoint.Signaling.Log.{
  LogStore, Promises, AppendResult, committed, duplicate, conflict, failed, log_subject_for,
  dedup_id, rebuild,
}
use relaypoint.Signaling.Sync.{Others-Logged, rebuild-Others, command_id-of_dedup_id}
use relaypoint.Signaling.Submit.{Limits, Outcome, is_accepted}
use relaypoint.Signaling.Privileged.{
  ParticipationData, answer, fact_event, fact_stored, fact_conflict, fact_append, fact_try,
  fact_attempt, fact_attempts, append_fact,
}

module _ (s : LogStore) (tenant iid : String)
    (p : Promises s (log_subject_for tenant iid) (dedup_id tenant iid)) where
  open s use {World}
  open p use {facts, last, Others}

  -- The log of `w'` has every command id that the log of `w` has.
  abbrev pub Grows : World → World → Type 0
  Grows w w' = (id : String) → Logged id (facts w) → Logged id (facts w')

  pub Grows-Cached :
      (w w' : World) (st : InteractionState)
      → Grows w w'
      → Cached (facts w) st.results
      → Cached (facts w') st.results
  Grows-Cached w w' st g c = λ id sr h a. g id (c id sr h a)

  Others-Grows : (w w' : World) → Others w w' → Grows w w'
  Others-Grows w w' o = λ id l. Others-Logged s tenant iid p w w' id o l

  appended-Grows :
      (w m w' : World) (e : Event)
      → Others w m
      → facts w' ≡ facts m ++ e ∷ []
      → Grows w w' × Logged e.command_id (facts w')
  appended-Grows w m w' e o f = (
    λ id l.
        let (d, k, q) = Others-Logged s tenant iid p w m id o l in
        (d, rw f (Within-append_left d (facts m) (e ∷ []) k), q),
    (e, rw f (Within-append_right e (facts m) (e ∷ []) (inl refl)), refl),
  )

  pub rebuild-Grows : (max : ℕ) (w : World) → Grows w (rebuild s max tenant iid w).0
  rebuild-Grows max w = Others-Grows w _ (rebuild-Others s tenant iid p max w)

  pub rebuild-Cached :
      (max : ℕ) (w : World) (fresh : InteractionState)
      → (rebuild s max tenant iid w).1 ≡ some fresh
      → Cached (facts (rebuild s max tenant iid w).0) fresh.results
  unfolding rebuild
  rebuild-Cached max w fresh h = elim (Option-cases (s.replay w (log_subject_for tenant iid)).1) [
    | inl e ↦ cc
    | inr ((es, n), e) ↦
        let (a, b, c) = p.replay_all w es n e in
        let q : rebuilt max es n ≡ fresh = ground (arith, e, h) in
        subst
          (λ (f : InteractionState).
            Cached (facts (s.replay w (log_subject_for tenant iid)).0) f.results)
          q (subst (λ f. Cached f (rebuilt max es n).results) a (rebuilt-Cached max es n))
  ]

  -- The log only grew, the cache acknowledges what it holds, and so does the answer.
  pub record IsAcknowledged (id : String) (w : World) (out : Outcome World) : Type 0 where
    pub grows : Grows w out.world
    pub cached : Cached (facts out.world) out.state.results
    pub durable : out.result.status ≡ accepted → Logged id (facts out.world)

  module _ (limits : Limits) (commanded_by parent ph : String) (pd : ParticipationData)
      (fcmd : Command) where
    abbrev Acknowledged : World → Outcome World → Type 0
    Acknowledged = IsAcknowledged fcmd.command_id

    abbrev event : InteractionState → World → Event
    event st w = fact_event s limits tenant iid commanded_by parent ph pd fcmd st w

    abbrev appended : InteractionState → World → World × AppendResult
    appended st w =
        s.append w (log_subject_for tenant iid) (event st w) (dedup_id tenant iid (event st w))
          st.stream_seq

    event_id : (st : InteractionState) (w : World) → (event st w).command_id ≡ fcmd.command_id
    unfolding fact_event
    event_id st w = refl

    refused-IsAcknowledged :
        (st : InteractionState) (w w' : World) (b gone : Bool) (res : CommandResult)
        → Grows w w'
        → Cached (facts w) st.results
        → (res.status ≡ accepted → Logged fcmd.command_id (facts w'))
        → Acknowledged w (record {
          state = record st { poisoned = b };
          world = w';
          evicted = gone;
          result = res;
        })
    refused-IsAcknowledged st w w' b gone res g c d = record {
      grows = g;
      cached = Grows-Cached w w' st g c;
      durable = d;
    }

    answer-IsAcknowledged :
        (st : InteractionState) (w : World) (gone : Bool) (res : CommandResult)
        → Cached (facts w) st.results
        → (res.status ≡ accepted → Logged fcmd.command_id (facts w))
        → Acknowledged w (record { state = st; world = w; evicted = gone; result = res })
    answer-IsAcknowledged st w gone res c d = record { grows = λ id l. l; cached = c; durable = d }

    fact_stored-IsAcknowledged :
        (st : InteractionState) (w w' : World) (ev : Event) (n : ℕ)
        → Grows w w'
        → Cached (facts w) st.results
        → Logged fcmd.command_id (facts w')
        → Acknowledged w (fact_stored s limits tenant iid commanded_by parent ph pd fcmd st w' ev n)
    unfolding fact_stored
    fact_stored-IsAcknowledged st w w' ev n g c l = record {
      grows = g;
      cached =
          Cached-put_result (facts w')
            (record st {
              seq = next64 st.seq;
              stream_seq = n;
              status = transition st.status fcmd.type_name;
              part = apply_fact st.part ev;
            })
            fcmd.command_id (record { payload_hash = ph; result = accept fcmd.command_id })
            limits.max_results (λ _. l) (Grows-Cached w w' st g c);
      durable = λ _. l;
    }

    -- What the next attempt gives from any sound cache.
    abbrev Acknowledges : Option (InteractionState → World → Outcome World) → Type 0
    Acknowledges none = Unit {0}
    Acknowledges (some again) =
        (st : InteractionState) (w : World)
        → Cached (facts w) st.results
        → Acknowledged w (again st w)

    later-IsAcknowledged :
        (w w' : World) (out : Outcome World) → Grows w w' → Acknowledged w' out → Acknowledged w out
    later-IsAcknowledged w w' out g a = record {
      grows = λ id l. a.grows id (g id l);
      cached = a.cached;
      durable = a.durable;
    }

    fact_conflict-IsAcknowledged :
        (retry : Option (InteractionState → World → Outcome World)) (st : InteractionState)
        (w w' : World)
        → Acknowledges retry
        → Grows w w'
        → Cached (facts w) st.results
        → Acknowledged w
            (fact_conflict s limits tenant iid commanded_by parent ph pd fcmd retry st w')
    unfolding fact_conflict
    fact_conflict-IsAcknowledged retry st w w' ih g c =
        let g' : Grows w (rebuild s limits.max_results tenant iid w').0 =
          λ id l. rebuild-Grows limits.max_results w' id (g id l) in
        elim (Option-cases (rebuild s limits.max_results tenant iid w').1) [
          | inl e ↦ rw (e, fact_conflict) (refused-IsAcknowledged st w _ true true _ g' c (λ a. cc))
          | inr (fresh, e) ↦
              rw (e, fact_conflict)
                (again-IsAcknowledged retry st fresh w _ ih g' c
                  (rebuild-Cached limits.max_results w' fresh e))
        ]
      where
        again-IsAcknowledged :
            (retry : Option (InteractionState → World → Outcome World))
            (st fresh : InteractionState) (w w' : World)
            → Acknowledges retry
            → Grows w w'
            → Cached (facts w) st.results
            → Cached (facts w') fresh.results
            → Acknowledged w (elim retry [
              | none ↦
                  answer s limits tenant iid commanded_by parent ph pd fcmd
                    (record st { poisoned = true })
                    w'
                    true
                    (reject fcmd.command_id lost_append)
              | some again ↦ again (adopt st fresh limits.max_results) w'
            ])
        again-IsAcknowledged none st fresh w w' ih g c f =
            refused-IsAcknowledged st w w' true true _ g c (λ a. cc)
        again-IsAcknowledged (some again) st fresh w w' ih g c f = later-IsAcknowledged w w' _ g (
            ih (adopt st fresh limits.max_results) w' (
              unfold adopt in
              Cached-copy_missing_results (facts w') _ fresh limits.max_results f
                (Grows-Cached w w' st g c)))

    fact_append-IsAcknowledged :
        (retry : Option (InteractionState → World → Outcome World)) (st : InteractionState)
        (w : World) (r : AppendResult)
        → Acknowledges retry
        → Cached (facts w) st.results
        → (appended st w).1 ≡ r
        → Acknowledged w (
            fact_append s limits tenant iid commanded_by parent ph pd fcmd retry st
              (appended st w).0
              (event st w)
              r)
    unfolding fact_append
    fact_append-IsAcknowledged retry st w (committed n) ih c e =
        let (m, o, h, f, q, lt, b) = p.append_committed w (event st w) st.stream_seq n e in
        let (g, l) = appended-Grows w m (appended st w).0 (event st w) o f in
        fact_stored-IsAcknowledged st w (appended st w).0 (event st w) n g c
          (subst (λ i. Logged i (facts (appended st w).0)) (event_id st w) l)
    fact_append-IsAcknowledged retry st w (duplicate n) ih c e =
        let (o, d, k, q) = p.append_duplicate w (event st w) st.stream_seq n e in
        fact_stored-IsAcknowledged st w (appended st w).0 (event st w) n
          (Others-Grows w (appended st w).0 o) c
          (d, k, command_id-of_dedup_id tenant iid d (event st w) q ∙ event_id st w)
    fact_append-IsAcknowledged retry st w conflict ih c e =
        fact_conflict-IsAcknowledged retry st w (appended st w).0 ih
          (Others-Grows w (appended st w).0 (p.append_conflict w (event st w) st.stream_seq e)) c
    fact_append-IsAcknowledged retry st w failed ih c e =
        refused-IsAcknowledged st w (appended st w).0 true true
          (reject fcmd.command_id append_failed)
          (elim (p.append_failed w (event st w) st.stream_seq e) [
            | inl o ↦ Others-Grows w (appended st w).0 o
            | inr (m, o, h, f, lt, b) ↦ (appended-Grows w m (appended st w).0 (event st w) o f).0
          ])
          c (λ a. cc)

    if_Acknowledged :
        (b : Bool) (w : World) (x y : Outcome World)
        → Acknowledged w x
        → Acknowledged w y
        → Acknowledged w (if b then x else y)
    if_Acknowledged true w x y hx hy = hx
    if_Acknowledged false w x y hx hy = hy

    fact_try-IsAcknowledged :
        (retry : Option (InteractionState → World → Outcome World)) (st : InteractionState)
        (w : World)
        → Acknowledges retry
        → Cached (facts w) st.results
        → Acknowledged w (fact_try s limits tenant iid commanded_by parent ph pd fcmd retry st w)
    unfolding fact_try
    fact_try-IsAcknowledged retry st w ih c =
        if_Acknowledged (not (legal_transition st.status fcmd.type_name)) w _ _
          (answer-IsAcknowledged st w false _ c (λ a. cc))
          (fact_append-IsAcknowledged retry st w (appended st w).1 ih c refl)

    fact_attempt-IsAcknowledged :
        (retry : Option (InteractionState → World → Outcome World)) (st : InteractionState)
        (w : World)
        → Acknowledges retry
        → Cached (facts w) st.results
        → Acknowledged w
            (fact_attempt s limits tenant iid commanded_by parent ph pd fcmd retry st w)
    unfolding fact_attempt
    fact_attempt-IsAcknowledged retry st w ih c =
        let tried = fact_try-IsAcknowledged retry st w ih c in
        elim (Option-cases (lookup fcmd.command_id st.results)) [
          | inl e ↦ rw (e, fact_attempt) tried
          | inr (prev, e) ↦
              rw (e, fact_attempt)
                (if_Acknowledged (not (prev.payload_hash == "") && not (prev.payload_hash == ph)) w
                  _ _ (answer-IsAcknowledged st w false _ c (λ a. cc))
                  (if_Acknowledged (is_accepted prev.result.status) w _ _
                    (answer-IsAcknowledged st w _ prev.result c (c fcmd.command_id prev e)) tried))
        ]

    fact_attempts-IsAcknowledged :
        (left : ℕ) (st : InteractionState) (w : World)
        → Cached (facts w) st.results
        → Acknowledged w
            (fact_attempts s limits tenant iid commanded_by parent ph pd fcmd left st w)
    unfolding fact_attempts
    fact_attempts-IsAcknowledged zero st w c = fact_attempt-IsAcknowledged none st w tt c
    fact_attempts-IsAcknowledged (suc left) st w c =
        fact_attempt-IsAcknowledged
          (some (fact_attempts s limits tenant iid commanded_by parent ph pd fcmd left)) st w
          (fact_attempts-IsAcknowledged left) c

    -- From a cache that acknowledges only what the log holds, `append_fact` leaves such a cache, loses
    -- no command id of the log, and accepts only what the log then holds.
    pub append_fact-IsAcknowledged :
        (st : InteractionState) (w : World)
        → Cached (facts w) st.results
        → Acknowledged w (append_fact s limits tenant iid commanded_by parent ph pd fcmd st w)
    unfolding append_fact
    append_fact-IsAcknowledged st w c =
        if_Acknowledged st.poisoned w _ _ (answer-IsAcknowledged st w false _ c (λ a. cc))
          (fact_attempts-IsAcknowledged limits.max_refold st w c)
