-- ===== src/Signaling/Privileged/Stored.antt =====
-- What `append_fact` has written when it accepts a fact of a participation command
-- (internal/signaling/router.go).
use relaypoint.Common.{
  ℕ, zero, suc, String, ◌≡◌, refl, ◌∙◌, ◌⊎◌, inl, inr, [], ◌∷◌, ◌++◌, Option, none, some, Bool,
  true, false, not, ◌&&◌, ◌==◌, if◌then◌else◌, lookup, Option-cases,
}
use relaypoint.Signaling.Wire.{Event, Command, accepted, reject, lost_append}
use relaypoint.Signaling.State.{InteractionState, adopt, legal_transition}
use relaypoint.Signaling.State.Fold.{Logged, Cached}
use relaypoint.Signaling.State.Copy.{Cached-copy_missing_results}
use relaypoint.Signaling.Log.{
  LogStore, Promises, AppendResult, committed, duplicate, conflict, failed, log_subject_for,
  dedup_id, rebuild,
}
use relaypoint.Signaling.Sync.{
  Led, here, led, Others-Logged, rebuild-Others, command_id-of_dedup_id,
}
use relaypoint.Signaling.Submit.{Limits, Outcome, is_accepted}
use relaypoint.Signaling.Privileged.{
  ParticipationData, answer, fact_event, fact_stored, fact_conflict, fact_append, fact_try,
  fact_attempt, fact_attempts, append_fact,
}
use relaypoint.Signaling.Privileged.Acknowledged.{Grows-Cached, rebuild-Cached}

module _ (s : LogStore) (tenant iid : String)
    (p : Promises s (log_subject_for tenant iid) (dedup_id tenant iid)) where
  open s use {World}
  open p use {facts, last, Others}

  -- The event of one fact: its type and agent, and who commanded it and why.
  pub record IsFactOf (commanded_by parent ph : String) (pd : ParticipationData)
      (id event_type agent : String) (e : Event) : Type 0 where
    pub schema : e.schema ≡ "relaypoint.interaction.v1"
    pub event_type_of : e.event_type ≡ event_type
    pub agent_of : e.actor_id ≡ agent
    pub command_id : e.command_id ≡ id
    pub tenant_id : e.tenant_id ≡ tenant
    pub payload_hash : e.payload_hash ≡ ph
    pub caused_by : e.caused_by ≡ parent
    pub author : e.commanded_by ≡ commanded_by
    pub reason : e.reason ≡ pd.reason
    pub request_id : e.request_id ≡ pd.request_id

  -- From one world to the other others wrote, and in between this call its fact; or others only, and the
  -- log has the fact's command id.
  abbrev pub IsStoredFact :
      String
      → String
      → String
      → ParticipationData
      → String
      → String
      → String
      → World
      → World
      → Type 0
  IsStoredFact commanded_by parent ph pd id event_type agent start end =
      ((before : World) × (after : World) × (e : Event) × Led s tenant iid p start before
        × IsFactOf commanded_by parent ph pd id event_type agent e
        × (facts after ≡ facts before ++ e ∷ [])
        × Led s tenant iid p after end)
      ⊎ (Led s tenant iid p start end × Logged id (facts end))

  module _ (limits : Limits) (commanded_by parent ph : String) (pd : ParticipationData)
      (fcmd : Command) where
    abbrev event : InteractionState → World → Event
    event st w = fact_event s limits tenant iid commanded_by parent ph pd fcmd st w

    abbrev appended : InteractionState → World → World × AppendResult
    appended st w =
        s.append w (log_subject_for tenant iid) (event st w) (dedup_id tenant iid (event st w))
          st.stream_seq

    event-IsFactOf :
        (st : InteractionState) (w : World)
        → IsFactOf commanded_by parent ph pd fcmd.command_id fcmd.type_name fcmd.actor_id
            (event st w)
    unfolding fact_event
    event-IsFactOf st w = record {
      schema = refl;
      event_type_of = refl;
      agent_of = refl;
      command_id = refl;
      tenant_id = refl;
      payload_hash = refl;
      caused_by = refl;
      author = refl;
      reason = refl;
      request_id = refl;
    }

    module _ (start : World) where
      abbrev Stored : Outcome World → Type 0
      Stored out =
          out.result.status ≡ accepted
          → IsStoredFact commanded_by parent ph pd fcmd.command_id fcmd.type_name fcmd.actor_id
              start out.world

      -- What the next attempt gives from any sound cache.
      abbrev Stores : Option (InteractionState → World → Outcome World) → Type 0
      Stores none = Unit {0}
      Stores (some again) =
          (st : InteractionState) (w : World)
          → Led s tenant iid p start w
          → Cached (facts w) st.results
          → Stored (again st w)

      again-Stored :
          (retry : Option (InteractionState → World → Outcome World)) (st fresh : InteractionState)
          (w : World)
          → Stores retry
          → Led s tenant iid p start w
          → Cached (facts w) st.results
          → Cached (facts w) fresh.results
          → Stored (elim retry [
            | none ↦
                answer s limits tenant iid commanded_by parent ph pd fcmd
                  (record st { poisoned = true })
                  w
                  true
                  (reject fcmd.command_id lost_append)
            | some again ↦ again (adopt st fresh limits.max_results) w
          ])
      again-Stored none st fresh w ih l c f = λ a. absurd (cc)
      again-Stored (some again) st fresh w ih l c f =
          ih (adopt st fresh limits.max_results) w l
            (unfold adopt in Cached-copy_missing_results (facts w) _ fresh limits.max_results f c)

      fact_conflict-Stored :
          (retry : Option (InteractionState → World → Outcome World)) (st : InteractionState)
          (w : World)
          → Stores retry
          → Led s tenant iid p start w
          → Cached (facts w) st.results
          → Stored (fact_conflict s limits tenant iid commanded_by parent ph pd fcmd retry st w)
      unfolding fact_conflict
      fact_conflict-Stored retry st w ih l c =
          let o = rebuild-Others s tenant iid p limits.max_results w in
          let c' =
            Grows-Cached s tenant iid p w _ st (λ id x. Others-Logged s tenant iid p w _ id o x)
              c in
          elim (Option-cases (rebuild s limits.max_results tenant iid w).1) [
            | inl e ↦ rw (e, fact_conflict) (λ a. absurd (cc))
            | inr (fresh, e) ↦
                rw (e, fact_conflict)
                  (again-Stored retry st fresh _ ih (led l o) c'
                    (rebuild-Cached s tenant iid p limits.max_results w fresh e))
          ]

      fact_append-Stored :
          (retry : Option (InteractionState → World → Outcome World)) (st : InteractionState)
          (w : World) (r : AppendResult)
          → Stores retry
          → Led s tenant iid p start w
          → Cached (facts w) st.results
          → (appended st w).1 ≡ r
          → Stored (
              fact_append s limits tenant iid commanded_by parent ph pd fcmd retry st
                (appended st w).0
                (event st w)
                r)
      unfolding fact_append fact_stored
      fact_append-Stored retry st w (committed n) ih l c e a =
          let (m, o, h, f, q, lt, b) = p.append_committed w (event st w) st.stream_seq n e in
          inl (m, (appended st w).0, event st w, led l o, event-IsFactOf st w, f, here)
      fact_append-Stored retry st w (duplicate n) ih l c e a =
          let (o, d, k, q) = p.append_duplicate w (event st w) st.stream_seq n e in
          inr (
            led l o,
            (
              d,
              k,
              command_id-of_dedup_id tenant iid d (event st w) q ∙ (event-IsFactOf st w).command_id,
            ),
          )
      fact_append-Stored retry st w conflict ih l c e a =
          let o = p.append_conflict w (event st w) st.stream_seq e in
          fact_conflict-Stored retry st (appended st w).0 ih (led l o)
            (Grows-Cached s tenant iid p w _ st (λ id x. Others-Logged s tenant iid p w _ id o x) c)
            a
      fact_append-Stored retry st w failed ih l c e a = absurd (cc)

      if_Stored :
          (b : Bool) (x y : Outcome World) → Stored x → Stored y → Stored (if b then x else y)
      if_Stored true x y hx hy = hx
      if_Stored false x y hx hy = hy

      fact_try-Stored :
          (retry : Option (InteractionState → World → Outcome World)) (st : InteractionState)
          (w : World)
          → Stores retry
          → Led s tenant iid p start w
          → Cached (facts w) st.results
          → Stored (fact_try s limits tenant iid commanded_by parent ph pd fcmd retry st w)
      unfolding fact_try
      fact_try-Stored retry st w ih l c =
          if_Stored (not (legal_transition st.status fcmd.type_name)) _ _ (λ a. absurd (cc))
            (fact_append-Stored retry st w (appended st w).1 ih l c refl)

      fact_attempt-Stored :
          (retry : Option (InteractionState → World → Outcome World)) (st : InteractionState)
          (w : World)
          → Stores retry
          → Led s tenant iid p start w
          → Cached (facts w) st.results
          → Stored (fact_attempt s limits tenant iid commanded_by parent ph pd fcmd retry st w)
      unfolding fact_attempt
      fact_attempt-Stored retry st w ih l c =
          let tried = fact_try-Stored retry st w ih l c in
          elim (Option-cases (lookup fcmd.command_id st.results)) [
            | inl e ↦ rw (e, fact_attempt) tried
            | inr (prev, e) ↦
                rw (e, fact_attempt)
                  (if_Stored (not (prev.payload_hash == "") && not (prev.payload_hash == ph)) _ _
                    (λ a. absurd (cc))
                    (if_Stored (is_accepted prev.result.status) _ _
                      (λ a. inr (l, c fcmd.command_id prev e a)) tried))
          ]

      fact_attempts-Stored :
          (left : ℕ) (st : InteractionState) (w : World)
          → Led s tenant iid p start w
          → Cached (facts w) st.results
          → Stored (fact_attempts s limits tenant iid commanded_by parent ph pd fcmd left st w)
      unfolding fact_attempts
      fact_attempts-Stored zero st w l c = fact_attempt-Stored none st w tt l c
      fact_attempts-Stored (suc left) st w l c =
          fact_attempt-Stored
            (some (fact_attempts s limits tenant iid commanded_by parent ph pd fcmd left)) st w
            (fact_attempts-Stored left) l c

      -- From a cache that acknowledges only what the log holds.
      pub append_fact-IsStoredFact :
          (st : InteractionState) (w : World)
          → Led s tenant iid p start w
          → Cached (facts w) st.results
          → (append_fact s limits tenant iid commanded_by parent ph pd fcmd st w).result.status
            ≡ accepted
          → IsStoredFact commanded_by parent ph pd fcmd.command_id fcmd.type_name fcmd.actor_id
              start
              (append_fact s limits tenant iid commanded_by parent ph pd fcmd st w).world
      unfolding append_fact
      append_fact-IsStoredFact st w l c =
          if_Stored st.poisoned _ _ (λ a. absurd (cc))
            (fact_attempts-Stored limits.max_refold st w l c)
