-- ===== src/Signaling/Submit/Stored.antt =====
-- The locked part of `HandleCommand` (internal/signaling/router.go): what an accepted command has written,
-- and the membership of the state, whatever other routers write before each of its calls.
use relaypoint.Common.{
  String, ◌≡◌, refl, ◌⊎◌, inl, inr, Option, none, some, Bool, true, false, not, ◌&&◌, ◌==◌, lookup,
  Bool-cases, Option-cases,
}
use relaypoint.Signaling.Wire.{
  Event, Command, CommandResult, accepted, reject, accept, lost_append, hash_conflict,
  state_unavailable,
}
use relaypoint.Signaling.State.{InteractionState, adopt}
use relaypoint.Signaling.State.Fold.{Logged}
use relaypoint.Signaling.Log.{LogStore, Promises, AppendResult, log_subject_for, dedup_id, rebuild}
use relaypoint.Signaling.Sync.{
  Led, led, IsSafe, Others-Logged, rebuild-Others, rebuild-IsSafe_old, rebuild-IsSafe, adopt-IsSafe,
}
use relaypoint.Signaling.Submit.{
  Limits, Outcome, new_event, poison, settle_duplicate, on_duplicate, on_failed, on_conflict,
}
use relaypoint.Signaling.Submit.Current.{
  IsCurrent, put_result-IsCurrent, rebuild-IsCurrent, adopt-IsCurrent,
}
use relaypoint.Signaling.Submit.Written.{IsWritten, IsUnsure, IsStored}

module _ (s : LogStore) (limits : Limits) (tenant iid suffix ph : String) (gate : Bool)
    (cmd : Command) (p : Promises s (log_subject_for tenant iid) (dedup_id tenant iid)) where
  open s use {World}
  open p use {facts, last, Others}

  module _ (start : World) where
    abbrev pub Since : World → Type 0
    Since = Led s tenant iid p start

    abbrev pub Wrote : World → Type 0
    Wrote = IsWritten s limits tenant iid suffix ph gate cmd p start

    abbrev pub Unsure : World → Type 0
    Unsure = IsUnsure s limits tenant iid suffix ph gate cmd p start

    abbrev pub Stored : Outcome World → Type 0
    Stored = IsStored s limits tenant iid suffix ph gate cmd p start

    abbrev pub Safe : World → InteractionState → Type 0
    Safe = IsSafe s tenant iid p

    abbrev pub Current : World → InteractionState → Type 0
    Current = IsCurrent s tenant iid p

    abbrev pub event : InteractionState → World → Event
    event st w = new_event s limits tenant iid suffix ph gate cmd st w

    abbrev pub appended : InteractionState → World → World × AppendResult
    appended st w =
        s.append w (log_subject_for tenant iid) (event st w) (dedup_id tenant iid (event st w))
          st.stream_seq

    pub answer-IsStored :
        (st : InteractionState) (w : World) (res : CommandResult)
        → Since w
        → Current w st
        → (res.status ≡ accepted → Logged cmd.command_id (facts w))
        → Stored (record { state = st; world = w; evicted = false; result = res })
    answer-IsStored st w res l k d = record {
      durable = λ a. inr (w, l, d a);
      current = inr (inr k);
    }

    poison-IsStored :
        (st : InteractionState) (w : World) (res : CommandResult)
        → Since w
        → (res.status ≡ accepted → Logged cmd.command_id (facts w))
        → Stored (poison s limits tenant iid suffix ph gate cmd st w res)
    poison-IsStored st w res l d = record {
      durable = λ a. inr (w, l, d a);
      current = inl (refl, refl);
    }

    settle_duplicate-IsStored :
        (st : InteractionState) (w : World)
        → Since w
        → Current w st
        → Logged cmd.command_id (facts w)
        → Stored (settle_duplicate s limits tenant iid suffix ph gate cmd st w)
    unfolding settle_duplicate
    settle_duplicate-IsStored st w l k d = elim (Option-cases (lookup cmd.command_id st.results)) [
      | inl e ↦
          rw (e, settle_duplicate)
            (answer-IsStored _ w _ l (put_result-IsCurrent s tenant iid p w st _ _ _ k) (λ _. d))
      | inr (prev, e) ↦
          rw (e, settle_duplicate)
            (elim (Bool-cases (not (prev.payload_hash == "") && not (prev.payload_hash == ph))) [
              | inl h ↦ rw h (answer-IsStored st w _ l k (λ _. d))
              | inr h ↦ rw h (answer-IsStored st w prev.result l k (λ _. d))
            ])
    ]

    pub on_duplicate-IsStored :
        (st : InteractionState) (w : World)
        → Since w
        → Safe w st
        → Logged cmd.command_id (facts w)
        → Stored (on_duplicate s limits tenant iid suffix ph gate cmd st w)
    unfolding on_duplicate
    on_duplicate-IsStored st w l v d =
        let o = rebuild-Others s tenant iid p limits.max_results w in
        let logged = Others-Logged s tenant iid p w _ cmd.command_id o d in
        elim (Option-cases (rebuild s limits.max_results tenant iid w).1) [
          | inl e ↦ rw (e, on_duplicate) (poison-IsStored st _ _ (led l o) (λ _. logged))
          | inr (fresh, e) ↦
              let f = rebuild-IsCurrent s tenant iid p limits.max_results w fresh v.legal e in
              rw (e, on_duplicate)
                (settle_duplicate-IsStored (adopt st fresh limits.max_results) _ (led l o)
                  (adopt-IsCurrent s tenant iid p limits.max_results _ st fresh f) logged)
        ]

    Wrote-Others : (w w' : World) → Wrote w → Others w w' → Wrote w'
    Wrote-Others w w' k o = record {
      before = k.before;
      since_start = k.since_start;
      event = k.event;
      event_of = k.event_of;
      after = k.after;
      grown = k.grown;
      gated = k.gated;
      since = λ e h. p.others_keep w w' o e (k.since e h);
    }

    pub on_failed-IsStored :
        (st : InteractionState) (w : World)
        → Since w ⊎ Wrote w
        → Safe w st
        → Unsure (rebuild s limits.max_results tenant iid w).0
        → Stored (on_failed s limits tenant iid suffix ph gate cmd st w)
    unfolding on_failed
    on_failed-IsStored st w src v u =
        let o = rebuild-Others s tenant iid p limits.max_results w in
        let lost_one : Stored (record {
          state = record st { poisoned = true };
          world = (rebuild s limits.max_results tenant iid w).0;
          evicted = true;
          result = reject cmd.command_id relaypoint.Signaling.Wire.append_failed;
        }) =
          record { durable = λ a. absurd (cc); current = inl (refl, refl) } in
        elim (Option-cases (rebuild s limits.max_results tenant iid w).1) [
          | inl e ↦ rw (e, on_failed) lost_one
          | inr (fresh, e) ↦
              let (f, _) = rebuild-IsSafe s tenant iid p limits.max_results w fresh v.legal e in
              elim (Option-cases (lookup cmd.command_id fresh.results)) [
                | inl n ↦ rw (e, on_failed) (rw n lost_one)
                | inr (prev, n) ↦
                    rw (e, on_failed)
                      (rw n (record {
                        durable = λ a. elim src [
                          | inl l ↦ inr (_, led l o, f.cached cmd.command_id prev n a)
                          | inr k ↦ inl (Wrote-Others w _ k o)
                        ];
                        current = inr (inl u);
                      }))
              ]
        ]

    -- What the next attempt gives from any such state.
    abbrev pub Stores : Option (InteractionState → World → Outcome World) → Type 0
    Stores none = Unit {0}
    Stores (some again) =
        (st : InteractionState) (w : World)
        → Since w
        → Safe w st
        → Current w st
        → Stored (again st w)

    again-IsStored :
        (retry : Option (InteractionState → World → Outcome World)) (st fresh : InteractionState)
        (w : World)
        → Stores retry
        → Since w
        → Safe w (adopt st fresh limits.max_results)
        → Current w (adopt st fresh limits.max_results)
        → Stored (elim retry [
          | none ↦
              poison s limits tenant iid suffix ph gate cmd st w (reject cmd.command_id lost_append)
          | some again ↦ again (adopt st fresh limits.max_results) w
        ])
    again-IsStored none st fresh w ih l v k = poison-IsStored st w _ l (λ a. cc)
    again-IsStored (some again) st fresh w ih l v k = ih (adopt st fresh limits.max_results) w l v k

    pub on_conflict-IsStored :
        (retry : Option (InteractionState → World → Outcome World)) (st : InteractionState)
        (w : World)
        → Stores retry
        → Since w
        → Safe w st
        → Stored (on_conflict s limits tenant iid suffix ph gate cmd retry st w)
    unfolding on_conflict
    on_conflict-IsStored retry st w ih l v =
        let later = rebuild-IsSafe_old s tenant iid p limits.max_results w st v in
        let o = rebuild-Others s tenant iid p limits.max_results w in
        elim (Option-cases (rebuild s limits.max_results tenant iid w).1) [
          | inl e ↦ rw (e, on_conflict) (poison-IsStored st _ _ (led l o) (λ a. cc))
          | inr (fresh, e) ↦
              let (f, _) = rebuild-IsSafe s tenant iid p limits.max_results w fresh v.legal e in
              let c = rebuild-IsCurrent s tenant iid p limits.max_results w fresh v.legal e in
              rw (e, on_conflict)
                (again-IsStored retry st fresh _ ih (led l o)
                  (adopt-IsSafe s tenant iid p limits.max_results _ st fresh later.cached f)
                  (adopt-IsCurrent s tenant iid p limits.max_results _ st fresh c))
        ]
