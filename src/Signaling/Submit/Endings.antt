-- ===== src/Signaling/Submit/Endings.antt =====
-- How the locked part of `HandleCommand` (internal/signaling/router.go) ends, case by case, against a
-- broker that keeps its promises.
use relaypoint.Common.{
  String, ◌≡◌, refl, ◌⊎◌, inl, inr, Option, none, some, Bool, true, false, not, ◌&&◌, ◌==◌, lookup,
  Bool-cases, Option-cases,
}
use relaypoint.Signaling.Wire.{Command, CommandResult, accepted, reject, lost_append}
use relaypoint.Signaling.State.{StoredResult, InteractionState, put_result, adopt}
use relaypoint.Signaling.State.Fold.{IsLegal, Logged, Cached, Cached-put_result}
use relaypoint.Signaling.State.Rebuild.{position, position-put_result}
use relaypoint.Signaling.Log.{LogStore, Promises, log_subject_for, dedup_id, rebuild}
use relaypoint.Signaling.Sync.{
  IsSynced, IsSafe, Others-Logged, rebuild-Others, rebuild-IsSafe_old, rebuild-IsSafe, adopt-IsSafe,
}
use relaypoint.Signaling.Submit.{
  Limits, Outcome, poison, settle_duplicate, on_duplicate, on_failed, on_conflict,
}

module _ (s : LogStore) (limits : Limits) (tenant iid suffix ph : String) (gate : Bool)
    (cmd : Command) (p : Promises s (log_subject_for tenant iid) (dedup_id tenant iid)) where
  open s use {World}
  open p use {facts, last, Others}

  -- After a command: the log is legal, the cache acknowledges what is in it, the state is in step with
  -- the log or poisoned and taken out of the table, and an acknowledged command is in the log.
  pub record IsSettled (out : Outcome World) : Type 0 where
    pub legal : IsLegal (facts out.world)
    pub cached : Cached (facts out.world) out.state.results
    pub in_step :
        ((out.state.poisoned ≡ true) × (out.evicted ≡ true))
        ⊎ IsSynced (last out.world) (facts out.world) (position out.state)
    pub durable : out.result.status ≡ accepted → Logged cmd.command_id (facts out.world)

  pub answer-IsSettled :
      (st : InteractionState) (w : World) (res : CommandResult)
      → IsSafe s tenant iid p w st
      → (res.status ≡ accepted → Logged cmd.command_id (facts w))
      → IsSettled (record { state = st; world = w; evicted = false; result = res })
  answer-IsSettled st w res v d = record {
    legal = v.legal;
    cached = v.cached;
    in_step = inr v.synced;
    durable = d;
  }

  poison-IsSettled :
      (st : InteractionState) (w : World) (res : CommandResult)
      → IsSafe s tenant iid p w st
      → (res.status ≡ accepted → Logged cmd.command_id (facts w))
      → IsSettled (record {
        state = record st { poisoned = true };
        world = w;
        evicted = true;
        result = res;
      })
  poison-IsSettled st w res v d = record {
    legal = v.legal;
    cached = v.cached;
    in_step = inl (refl, refl);
    durable = d;
  }

  pub put_result-IsSafe :
      (st : InteractionState) (w : World) (sr : StoredResult)
      → (sr.result.status ≡ accepted → Logged cmd.command_id (facts w))
      → IsSafe s tenant iid p w st
      → IsSafe s tenant iid p w (put_result st cmd.command_id sr limits.max_results)
  put_result-IsSafe st w sr d v = record {
    legal = v.legal;
    cached = Cached-put_result (facts w) st cmd.command_id sr limits.max_results d v.cached;
    synced = rw (position-put_result st cmd.command_id sr limits.max_results) v.synced;
  }

  settle_duplicate-IsSettled :
      (st : InteractionState) (w : World)
      → IsSafe s tenant iid p w st
      → Logged cmd.command_id (facts w)
      → IsSettled (settle_duplicate s limits tenant iid suffix ph gate cmd st w)
  unfolding settle_duplicate
  settle_duplicate-IsSettled st w v d = elim (Option-cases (lookup cmd.command_id st.results)) [
    | inl e ↦
        rw (e, settle_duplicate)
          (answer-IsSettled _ w _ (put_result-IsSafe st w _ (λ _. d) v) (λ _. d))
    | inr (prev, e) ↦
        rw (e, settle_duplicate)
          (elim (Bool-cases (not (prev.payload_hash == "") && not (prev.payload_hash == ph))) [
            | inl h ↦ rw h (answer-IsSettled st w _ v (λ _. d))
            | inr h ↦ rw h (answer-IsSettled st w prev.result v (λ _. d))
          ])
  ]

  pub on_duplicate-IsSettled :
      (st : InteractionState) (w : World)
      → IsSafe s tenant iid p w st
      → Logged cmd.command_id (facts w)
      → IsSettled (on_duplicate s limits tenant iid suffix ph gate cmd st w)
  unfolding on_duplicate
  on_duplicate-IsSettled st w v d =
      let later = rebuild-IsSafe_old s tenant iid p limits.max_results w st v in
      let o = rebuild-Others s tenant iid p limits.max_results w in
      let logged = Others-Logged s tenant iid p w _ cmd.command_id o d in
      elim (Option-cases (rebuild s limits.max_results tenant iid w).1) [
        | inl e ↦ rw (e, on_duplicate) (poison-IsSettled st _ _ later (λ _. logged))
        | inr (fresh, e) ↦
            let (f, _) = rebuild-IsSafe s tenant iid p limits.max_results w fresh v.legal e in
            rw (e, on_duplicate)
              (settle_duplicate-IsSettled (adopt st fresh limits.max_results) _
                (adopt-IsSafe s tenant iid p limits.max_results _ st fresh later.cached f) logged)
      ]

  -- The position of a fresh state, in a state that keeps the rest.
  taken :
      (fresh : InteractionState) (w : World)
      → IsSafe s tenant iid p w fresh
      → {b : Bool}
      → IsSynced (last w) (facts w) (record {
        seq = fresh.seq;
        stream_seq = fresh.stream_seq;
        status = fresh.status;
        poisoned = b;
      })
  taken fresh w f = record {
    behind = f.synced.behind;
    numbered = f.synced.numbered;
    stated = f.synced.stated;
  }

  pub on_failed-IsSettled :
      (st : InteractionState) (w : World)
      → IsSafe s tenant iid p w st
      → IsSettled (on_failed s limits tenant iid suffix ph gate cmd st w)
  unfolding on_failed
  on_failed-IsSettled st w v =
      let later = rebuild-IsSafe_old s tenant iid p limits.max_results w st v in
      elim (Option-cases (rebuild s limits.max_results tenant iid w).1) [
        | inl e ↦ rw (e, on_failed) (poison-IsSettled st _ _ later (λ a. cc))
        | inr (fresh, e) ↦
            let (f, _) = rebuild-IsSafe s tenant iid p limits.max_results w fresh v.legal e in
            elim (Option-cases (lookup cmd.command_id fresh.results)) [
              | inl n ↦ rw (e, on_failed) (rw n (poison-IsSettled st _ _ later (λ a. cc)))
              | inr (prev, n) ↦
                  rw (e, on_failed)
                    (rw n (
                      answer-IsSettled _ _ prev.result
                        (record {
                          legal = f.legal;
                          cached = later.cached;
                          synced = taken fresh _ f;
                        })
                        (f.cached cmd.command_id prev n)))
            ]
      ]

  -- What the next attempt gives from any safe state that is not poisoned.
  abbrev pub Settles : Option (InteractionState → World → Outcome World) → Type 0
  Settles none = Unit {0}
  Settles (some again) =
      (st : InteractionState) (w : World) → IsSafe s tenant iid p w st → IsSettled (again st w)

  again-IsSettled :
      (retry : Option (InteractionState → World → Outcome World)) (st fresh : InteractionState)
      (w : World)
      → Settles retry
      → IsSafe s tenant iid p w st
      → IsSafe s tenant iid p w (adopt st fresh limits.max_results)
      → IsSettled (elim retry [
        | none ↦
            poison s limits tenant iid suffix ph gate cmd st w (reject cmd.command_id lost_append)
        | some again ↦ again (adopt st fresh limits.max_results) w
      ])
  again-IsSettled none st fresh w ih v a = poison-IsSettled st w _ v (λ a. cc)
  again-IsSettled (some again) st fresh w ih v a = ih (adopt st fresh limits.max_results) w a

  pub on_conflict-IsSettled :
      (retry : Option (InteractionState → World → Outcome World)) (st : InteractionState)
      (w : World)
      → Settles retry
      → IsSafe s tenant iid p w st
      → IsSettled (on_conflict s limits tenant iid suffix ph gate cmd retry st w)
  unfolding on_conflict
  on_conflict-IsSettled retry st w ih v =
      let later = rebuild-IsSafe_old s tenant iid p limits.max_results w st v in
      elim (Option-cases (rebuild s limits.max_results tenant iid w).1) [
        | inl e ↦ rw (e, on_conflict) (poison-IsSettled st _ _ later (λ a. cc))
        | inr (fresh, e) ↦
            let (f, _) = rebuild-IsSafe s tenant iid p limits.max_results w fresh v.legal e in
            rw (e, on_conflict)
              (again-IsSettled retry st fresh _ ih later
                (adopt-IsSafe s tenant iid p limits.max_results _ st fresh later.cached f))
      ]
