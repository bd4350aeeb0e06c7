-- ===== src/Signaling/Submit/Safety.antt =====
-- The locked part of `HandleCommand` (internal/signaling/router.go) against a broker that keeps its
-- promises, whatever other routers write before each of its calls.
use relaypoint.Common.{
  ℕ, zero, suc, String, ◌<◌, ◌≡◌, refl, sym, subst, ◌∙◌, inl, inr, [], ◌∷◌, ◌++◌, Option, none,
  some, Bool, true, false, not, ◌&&◌, ◌==◌, arith, lookup, length, Bool-cases, Within-append_left,
  Option-cases, next64, max_int64, if◌then◌else◌,
}
use relaypoint.Signaling.Wire.{Event, Command, accept, reject, hash_conflict, state_unavailable}
use relaypoint.Signaling.Participation.{is_participant_now}
use relaypoint.Signaling.State.{StoredResult, InteractionState, legal_transition, transition}
use relaypoint.Signaling.State.Fold.{status_from, Logged, Cached-put_result}
use relaypoint.Signaling.State.Rebuild.{position, position-put_result}
use relaypoint.Signaling.Log.{
  LogStore, Promises, AppendResult, committed, duplicate, conflict, failed, log_subject_for,
  dedup_id,
}
use relaypoint.Signaling.Sync.{IsSafe, Others-IsSafe, committed-IsLegal, command_id-of_dedup_id}
use relaypoint.Signaling.Submit.Endings.{
  IsSettled, Settles, answer-IsSettled, put_result-IsSafe, on_duplicate-IsSettled,
  on_failed-IsSettled, on_conflict-IsSettled,
}
use relaypoint.Signaling.Submit.{
  Limits, Outcome, is_accepted, new_event, answer, on_committed, on_append, append_step, try_append,
  attempt, attempts, submit,
}

module _ (s : LogStore) (limits : Limits) (tenant iid suffix ph : String) (gate : Bool)
    (cmd : Command) (p : Promises s (log_subject_for tenant iid) (dedup_id tenant iid)) where
  open s use {World}
  open p use {facts, last, Others}

  abbrev subject : String
  subject = log_subject_for tenant iid

  abbrev event : InteractionState → World → Event
  event st w = new_event s limits tenant iid suffix ph gate cmd st w

  abbrev appended : InteractionState → World → World × AppendResult
  appended st w = s.append w subject (event st w) (dedup_id tenant iid (event st w)) st.stream_seq

  abbrev Safe : World → InteractionState → Type 0
  Safe = IsSafe s tenant iid p

  abbrev Settled : Outcome World → Type 0
  Settled = IsSettled s limits tenant iid suffix ph gate cmd p

  new_event_fields :
      (st : InteractionState) (w : World)
      → ((event st w).sequence ≡ next64 st.seq)
        × ((event st w).event_type ≡ cmd.type_name)
        × ((event st w).command_id ≡ cmd.command_id)
  unfolding new_event
  new_event_fields st w = (refl, refl, refl)

  -- A stored append keeps the state that made it safe, whether or not it learns of it.
  stored-IsSafe :
      (st : InteractionState) (w m w' : World)
      → Safe w st
      → legal_transition st.status cmd.type_name ≡ true
      → Others w m
      → last m ≡ st.stream_seq
      → facts w' ≡ facts m ++ event st w ∷ []
      → last m < last w'
      → length (facts w') < max_int64
      → Safe w' st
        × (next64 st.seq ≡ length (facts w'))
        × (transition st.status cmd.type_name ≡ status_from "" (facts w'))
        × Logged cmd.command_id (facts w')
  stored-IsSafe st w m w' v t o h f lt b =
      let (q, y, c) = new_event_fields st w in
      let (l, num, sta, k) =
        committed-IsLegal s tenant iid p w m w' (position st) (event st w) v.legal v.synced o h f b
          q (subst (λ k. legal_transition st.status k ≡ true) (sym y) t) in
      let old = Others-IsSafe s tenant iid p w m st o v in
      (
        record {
          legal = l;
          cached = λ id sr e a.
              let (d, z, x) = old.cached id sr e a in
              (d, rw f (Within-append_left d (facts m) (event st w ∷ []) z), x);
          synced = record {
            behind = omega arith;
            numbered = λ e. absurd (omega arith);
            stated = λ e. absurd (omega arith);
          };
        },
        num,
        subst (λ k. transition st.status k ≡ status_from "" (facts w')) y sta,
        (event st w, k, c),
      )

  committed-IsSettled :
      (st : InteractionState) (w m w' : World) (n : ℕ)
      → Safe w st
      → legal_transition st.status cmd.type_name ≡ true
      → Others w m
      → last m ≡ st.stream_seq
      → facts w' ≡ facts m ++ event st w ∷ []
      → last w' ≡ n
      → last m < n
      → length (facts w') < max_int64
      → Settled (on_committed s limits tenant iid suffix ph gate cmd st w' n)
  unfolding on_committed
  committed-IsSettled st w m w' n v t o h f q lt b =
      let (v', num, sta, d) =
        stored-IsSafe st w m w' v t o h f (subst (λ k. last m < k) (sym q) lt) b in
      let moved : InteractionState = record st {
        seq = next64 st.seq;
        stream_seq = n;
        status = transition st.status cmd.type_name;
      } in
      let stored : StoredResult = record { payload_hash = ph; result = accept cmd.command_id } in
      record {
        legal = v'.legal;
        cached =
            Cached-put_result (facts w') moved cmd.command_id stored limits.max_results (λ _. d)
              v'.cached;
        in_step = inr (
            rw (position-put_result moved cmd.command_id stored limits.max_results)
              (record { behind = omega arith; numbered = λ _. num; stated = λ _. sta }));
        durable = λ _. d;
      }

  pub failed_old :
      (st : InteractionState) (w : World)
      → Safe w st
      → legal_transition st.status cmd.type_name ≡ true
      → (appended st w).1 ≡ failed
      → Safe (appended st w).0 st
  failed_old st w v t e = elim (p.append_failed w (event st w) st.stream_seq e) [
    | inl o ↦ Others-IsSafe s tenant iid p w _ st o v
    | inr (m, o, h, f, lt, b) ↦ (stored-IsSafe st w m _ v t o h f lt b).0
  ]

  on_append-IsSettled :
      (retry : Option (InteractionState → World → Outcome World)) (st : InteractionState)
      (w : World) (r : AppendResult)
      → Settles s limits tenant iid suffix ph gate cmd p retry
      → Safe w st
      → legal_transition st.status cmd.type_name ≡ true
      → (appended st w).1 ≡ r
      → Settled (on_append s limits tenant iid suffix ph gate cmd retry st (appended st w).0 r)
  unfolding on_append
  on_append-IsSettled retry st w (committed n) ih v t e =
      let (m, o, h, f, q, lt, b) = p.append_committed w (event st w) st.stream_seq n e in
      committed-IsSettled st w m _ n v t o h f q lt b
  on_append-IsSettled retry st w (duplicate n) ih v t e =
      let (o, d, k, q) = p.append_duplicate w (event st w) st.stream_seq n e in
      on_duplicate-IsSettled s limits tenant iid suffix ph gate cmd p st _
        (Others-IsSafe s tenant iid p w _ st o v)
        (d, k, command_id-of_dedup_id tenant iid d (event st w) q ∙ (new_event_fields st w).2)
  on_append-IsSettled retry st w conflict ih v t e =
      on_conflict-IsSettled s limits tenant iid suffix ph gate cmd p retry st _ ih
        (Others-IsSafe s tenant iid p w _ st (p.append_conflict w (event st w) st.stream_seq e) v)
  on_append-IsSettled retry st w failed ih v t e =
      on_failed-IsSettled s limits tenant iid suffix ph gate cmd p st _ (failed_old st w v t e)

  append_step-IsSettled :
      (retry : Option (InteractionState → World → Outcome World)) (st : InteractionState)
      (w : World)
      → Settles s limits tenant iid suffix ph gate cmd p retry
      → Safe w st
      → legal_transition st.status cmd.type_name ≡ true
      → Settled (append_step s limits tenant iid suffix ph gate cmd retry st w)
  unfolding append_step
  append_step-IsSettled retry st w ih v t =
      on_append-IsSettled retry st w (appended st w).1 ih v t refl

  try_append-IsSettled :
      (retry : Option (InteractionState → World → Outcome World)) (st : InteractionState)
      (w : World)
      → Settles s limits tenant iid suffix ph gate cmd p retry
      → Safe w st
      → Settled (try_append s limits tenant iid suffix ph gate cmd retry st w)
  unfolding try_append
  try_append-IsSettled retry st w ih v =
      elim (Bool-cases (gate && not (is_participant_now st.part suffix))) [
        | inl g ↦
            rw g (answer-IsSettled s limits tenant iid suffix ph gate cmd p st w _ v (λ a. cc))
        | inr g ↦ rw g (elim (Bool-cases (legal_transition st.status cmd.type_name)) [
          | inl t ↦ rw t (append_step-IsSettled retry st w ih v t)
          | inr t ↦ rw t (
              answer-IsSettled s limits tenant iid suffix ph gate cmd p _ w _
                (put_result-IsSafe s limits tenant iid suffix ph gate cmd p st w _ (λ a. cc) v)
                (λ a. cc))
        ])
      ]

  if_Settled :
      (b : Bool) {x y : Outcome World} → Settled x → Settled y → Settled (if b then x else y)
  if_Settled true hx hy = hx
  if_Settled false hx hy = hy

  -- A stored result answers, rejects, or lets a rejected one be tried again.
  seen-IsSettled :
      (retry : Option (InteractionState → World → Outcome World)) (st : InteractionState)
      (w : World) (prev : StoredResult)
      → lookup cmd.command_id st.results ≡ some prev
      → Settles s limits tenant iid suffix ph gate cmd p retry
      → Safe w st
      → Settled (
          if prev.payload_hash == ""
          then answer s limits tenant iid suffix ph gate cmd st w prev.result
          else if not (prev.payload_hash == ph)
          then answer s limits tenant iid suffix ph gate cmd st w
              (reject cmd.command_id hash_conflict)
          else if is_accepted prev.result.status
          then answer s limits tenant iid suffix ph gate cmd st w prev.result
          else try_append s limits tenant iid suffix ph gate cmd retry st w)
  seen-IsSettled retry st w prev e ih v =
      let known =
        answer-IsSettled s limits tenant iid suffix ph gate cmd p st w prev.result v
          (v.cached cmd.command_id prev e) in
      let refused =
        answer-IsSettled s limits tenant iid suffix ph gate cmd p st w
          (reject cmd.command_id hash_conflict) v (λ a. cc) in
      let tried = try_append-IsSettled retry st w ih v in
      if_Settled (prev.payload_hash == "") known (
        if_Settled (not (prev.payload_hash == ph)) refused
          (if_Settled (is_accepted prev.result.status) known tried))

  attempt-IsSettled :
      (retry : Option (InteractionState → World → Outcome World)) (st : InteractionState)
      (w : World)
      → Settles s limits tenant iid suffix ph gate cmd p retry
      → Safe w st
      → Settled (attempt s limits tenant iid suffix ph gate cmd retry st w)
  unfolding attempt
  attempt-IsSettled retry st w ih v = elim (Option-cases (lookup cmd.command_id st.results)) [
    | inl e ↦ rw (e, attempt) (try_append-IsSettled retry st w ih v)
    | inr (prev, e) ↦ rw (e, attempt) (seen-IsSettled retry st w prev e ih v)
  ]

  attempts-IsSettled :
      (left : ℕ) (st : InteractionState) (w : World)
      → Safe w st
      → Settled (attempts s limits tenant iid suffix ph gate cmd left st w)
  unfolding attempts
  attempts-IsSettled zero st w v = attempt-IsSettled none st w tt v
  attempts-IsSettled (suc left) st w v =
      attempt-IsSettled (some (attempts s limits tenant iid suffix ph gate cmd left)) st w
        (attempts-IsSettled left) v

  -- From a state that is in step with the log, `submit` leaves a legal log, a cache that acknowledges
  -- only what the log holds, and a state that is in step with the log, or poisoned and taken out of
  -- the table; and a command that it accepts is in the log. This holds whatever other routers write
  -- before each call, and when the acknowledgement of an append is lost.
  pub submit-IsSettled :
      (st : InteractionState) (w : World)
      → IsSafe s tenant iid p w st
      → IsSettled s limits tenant iid suffix ph gate cmd p
          (submit s limits tenant iid suffix ph gate cmd st w)
  unfolding submit
  submit-IsSettled st w v =
      if_Settled st.poisoned
        (answer-IsSettled s limits tenant iid suffix ph gate cmd p st w
          (reject cmd.command_id state_unavailable) v (λ a. cc))
        (attempts-IsSettled limits.max_refold st w v)
