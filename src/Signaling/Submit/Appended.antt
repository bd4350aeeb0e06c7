-- ===== src/Signaling/Submit/Appended.antt =====
-- An append of `submit` (internal/signaling/router.go) and what it has written.
use relaypoint.Common.{
  ℕ, String, ◌≡◌, refl, sym, subst, ◌∙◌, ap, ◌⊎◌, inl, inr, [], ◌∷◌, ◌++◌, Option, Bool, true,
  false, next64,
}
use relaypoint.Signaling.Wire.{Event, Command}
use relaypoint.Signaling.Participation.{is_participant_now}
use relaypoint.Signaling.State.{
  InteractionState, is_participation_fact, transition, legal_transition,
}
use relaypoint.Signaling.Log.{
  LogStore, Promises, AppendResult, committed, duplicate, conflict, failed, log_subject_for,
  dedup_id,
}
use relaypoint.Signaling.Sync.{led, IsSafe, Others-IsSafe, command_id-of_dedup_id}
use relaypoint.Signaling.Submit.{Limits, Outcome, on_committed, on_append, append_step}
use relaypoint.Signaling.Submit.Current.{
  IsCurrent, Others-IsCurrent, put_result-IsCurrent, plain-IsCurrent,
}
use relaypoint.Signaling.Submit.Written.{new_event-IsEventOf}
use relaypoint.Signaling.Submit.Safety.{failed_old}
use relaypoint.Signaling.Submit.Stored.{
  Since, Wrote, Stored, event, appended, Stores, on_duplicate-IsStored, on_failed-IsStored,
  on_conflict-IsStored,
}

module _ (s : LogStore) (limits : Limits) (tenant iid suffix ph : String) (gate : Bool)
    (cmd : Command) (p : Promises s (log_subject_for tenant iid) (dedup_id tenant iid))
    (plain : is_participation_fact cmd.type_name ≡ false) where
  open s use {World}
  open p use {facts, last, Others}

  module _ (start : World) where
    abbrev pub SinceStart : World → Type 0
    SinceStart = Since s limits tenant iid suffix ph gate cmd p start

    abbrev pub Ends : Outcome World → Type 0
    Ends = Stored s limits tenant iid suffix ph gate cmd p start

    abbrev pub SafeAt : World → InteractionState → Type 0
    SafeAt = IsSafe s tenant iid p

    abbrev pub CurrentAt : World → InteractionState → Type 0
    CurrentAt = IsCurrent s tenant iid p

    abbrev pub ev : InteractionState → World → Event
    ev = event s limits tenant iid suffix ph gate cmd p start

    abbrev pub tried : InteractionState → World → World × AppendResult
    tried = appended s limits tenant iid suffix ph gate cmd p start

    abbrev pub StoresNext : Option (InteractionState → World → Outcome World) → Type 0
    StoresNext = Stores s limits tenant iid suffix ph gate cmd p start

    -- The gate, by the membership of the state.
    abbrev pub IsLetIn : InteractionState → Type 0
    IsLetIn st = gate ≡ true → is_participant_now st.part suffix ≡ true

    event-plain :
        (st : InteractionState) (w : World) → is_participation_fact (ev st w).event_type ≡ false
    event-plain st w =
        ap is_participation_fact
          (new_event-IsEventOf s limits tenant iid suffix ph gate cmd p st w).event_type
        ∙ plain

    -- A stored append, behind what others wrote.
    wrote :
        (st : InteractionState) (w m w' : World)
        → SinceStart w
        → SafeAt w st
        → CurrentAt w st
        → IsLetIn st
        → Others w m
        → last m ≡ st.stream_seq
        → facts w' ≡ facts m ++ ev st w ∷ []
        → Wrote s limits tenant iid suffix ph gate cmd p start w'
    wrote st w m w' l v k g o h f = record {
      before = m;
      since_start = led l o;
      event = ev st w;
      event_of = new_event-IsEventOf s limits tenant iid suffix ph gate cmd p st w;
      after = w';
      grown = f;
      gated = λ t.
          subst (λ x. is_participant_now x suffix ≡ true)
            ((Others-IsCurrent s tenant iid p w m st o v k).members (sym h)) (g t);
      since = λ e x. x;
    }

    committed-IsStored :
        (st : InteractionState) (w m w' : World) (n : ℕ)
        → SinceStart w
        → SafeAt w st
        → CurrentAt w st
        → IsLetIn st
        → Others w m
        → last m ≡ st.stream_seq
        → facts w' ≡ facts m ++ ev st w ∷ []
        → Ends (on_committed s limits tenant iid suffix ph gate cmd st w' n)
    unfolding on_committed
    committed-IsStored st w m w' n l v k g o h f = record {
      durable = λ _. inl (wrote st w m w' l v k g o h f);
      current = inr (
          inr (
            put_result-IsCurrent s tenant iid p w' _ _ _ _ (
              plain-IsCurrent s tenant iid p m w' st
                (record st {
                  seq = next64 st.seq;
                  stream_seq = n;
                  status = transition st.status cmd.type_name;
                })
                (ev st w) (Others-IsCurrent s tenant iid p w m st o v k) (sym h) f
                (event-plain st w) refl refl)));
    }

    -- What is behind a lost acknowledgement.
    unsure_source :
        (st : InteractionState) (w : World)
        → SinceStart w
        → SafeAt w st
        → CurrentAt w st
        → IsLetIn st
        → (tried st w).1 ≡ failed
        → SinceStart (tried st w).0
          ⊎ Wrote s limits tenant iid suffix ph gate cmd p start (tried st w).0
    unsure_source st w l v k g e = elim (p.append_failed w (ev st w) st.stream_seq e) [
      | inl o ↦ inl (led l o)
      | inr (m, o, h, f, lt, b) ↦ inr (wrote st w m _ l v k g o h f)
    ]

    on_append-IsStored :
        (retry : Option (InteractionState → World → Outcome World)) (st : InteractionState)
        (w : World) (r : AppendResult)
        → StoresNext retry
        → SinceStart w
        → SafeAt w st
        → CurrentAt w st
        → IsLetIn st
        → legal_transition st.status cmd.type_name ≡ true
        → (tried st w).1 ≡ r
        → Ends (on_append s limits tenant iid suffix ph gate cmd retry st (tried st w).0 r)
    unfolding on_append
    on_append-IsStored retry st w (committed n) ih l v k g t e =
        let (m, o, h, f, q, lt, b) = p.append_committed w (ev st w) st.stream_seq n e in
        committed-IsStored st w m _ n l v k g o h f
    on_append-IsStored retry st w (duplicate n) ih l v k g t e =
        let (o, d, x, q) = p.append_duplicate w (ev st w) st.stream_seq n e in
        on_duplicate-IsStored s limits tenant iid suffix ph gate cmd p start st _ (led l o)
          (Others-IsSafe s tenant iid p w _ st o v)
          (
            d,
            x,
            command_id-of_dedup_id tenant iid d (ev st w) q
                ∙ (new_event-IsEventOf s limits tenant iid suffix ph gate cmd p st w).command_id,
          )
    on_append-IsStored retry st w conflict ih l v k g t e =
        let o = p.append_conflict w (ev st w) st.stream_seq e in
        on_conflict-IsStored s limits tenant iid suffix ph gate cmd p start retry st _ ih (led l o)
          (Others-IsSafe s tenant iid p w _ st o v)
    on_append-IsStored retry st w failed ih l v k g t e =
        on_failed-IsStored s limits tenant iid suffix ph gate cmd p start st _
          (unsure_source st w l v k g e)
          (failed_old s limits tenant iid suffix ph gate cmd p st w v t e)
          (w, ev st w, st.stream_seq, l, e, refl)

    pub append_step-IsStored :
        (retry : Option (InteractionState → World → Outcome World)) (st : InteractionState)
        (w : World)
        → StoresNext retry
        → SinceStart w
        → SafeAt w st
        → CurrentAt w st
        → IsLetIn st
        → legal_transition st.status cmd.type_name ≡ true
        → Ends (append_step s limits tenant iid suffix ph gate cmd retry st w)
    unfolding append_step
    append_step-IsStored retry st w ih l v k g t =
        on_append-IsStored retry st w (tried st w).1 ih l v k g t refl
