-- ===== src/Signaling/Submit/Durable.antt =====
-- `submit`, the locked part of `HandleCommand` (internal/signaling/router.go), against a broker that keeps its
-- promises: the log, the cache, the state and what an accepted command has written.
use relaypoint.Common.{
  ℕ, zero, suc, String, ◌≡◌, inl, inr, Option, none, some, Bool, true, false, not, ◌&&◌, ◌==◌,
  arith, lookup, Bool-cases, Option-cases, if◌then◌else◌,
}
use relaypoint.Signaling.Wire.{Command, reject, hash_conflict, state_unavailable}
use relaypoint.Signaling.Participation.{is_participant_now}
use relaypoint.Signaling.State.{InteractionState, is_participation_fact, legal_transition}
use relaypoint.Signaling.Log.{LogStore, Promises, log_subject_for, dedup_id}
use relaypoint.Signaling.Sync.{Led, here, IsSafe}
use relaypoint.Signaling.Submit.{
  Limits, Outcome, is_accepted, try_append, attempt, attempts, submit,
}
use relaypoint.Signaling.Submit.Current.{IsCurrent, put_result-IsCurrent}
use relaypoint.Signaling.Submit.Written.{IsStored}
use relaypoint.Signaling.Submit.Endings.{IsSettled}
use relaypoint.Signaling.Submit.Safety.{submit-IsSettled}
use relaypoint.Signaling.Submit.Stored.{Since, Stored, Stores, answer-IsStored}
use relaypoint.Signaling.Submit.Appended.{append_step-IsStored}

module _ (s : LogStore) (limits : Limits) (tenant iid suffix ph : String) (gate : Bool)
    (cmd : Command) (p : Promises s (log_subject_for tenant iid) (dedup_id tenant iid))
    (plain : is_participation_fact cmd.type_name ≡ false) where
  open s use {World}
  open p use {facts, last, Others}

  module _ (start : World) where
    abbrev SinceStart : World → Type 0
    SinceStart = Since s limits tenant iid suffix ph gate cmd p start

    abbrev Ends : Outcome World → Type 0
    Ends = Stored s limits tenant iid suffix ph gate cmd p start

    abbrev SafeAt : World → InteractionState → Type 0
    SafeAt = IsSafe s tenant iid p

    abbrev CurrentAt : World → InteractionState → Type 0
    CurrentAt = IsCurrent s tenant iid p

    abbrev StoresNext : Option (InteractionState → World → Outcome World) → Type 0
    StoresNext = Stores s limits tenant iid suffix ph gate cmd p start

    -- The gate, by the membership of the state.
    abbrev IsLetIn : InteractionState → Type 0
    IsLetIn st = gate ≡ true → is_participant_now st.part suffix ≡ true

    let_in :
        (st : InteractionState)
        → (gate && not (is_participant_now st.part suffix)) ≡ false
        → IsLetIn st
    let_in st h t = ground arith

    try_append-IsStored :
        (retry : Option (InteractionState → World → Outcome World)) (st : InteractionState)
        (w : World)
        → StoresNext retry
        → SinceStart w
        → SafeAt w st
        → CurrentAt w st
        → Ends (try_append s limits tenant iid suffix ph gate cmd retry st w)
    unfolding try_append
    try_append-IsStored retry st w ih l v k =
        elim (Bool-cases (gate && not (is_participant_now st.part suffix))) [
          | inl g ↦
              rw g (
                answer-IsStored s limits tenant iid suffix ph gate cmd p start st w _ l k (λ a. cc))
          | inr g ↦ rw g (elim (Bool-cases (legal_transition st.status cmd.type_name)) [
            | inl t ↦ rw t (
                append_step-IsStored s limits tenant iid suffix ph gate cmd p plain start retry st w
                  ih l v k (let_in st g) t)
            | inr t ↦ rw t (
                answer-IsStored s limits tenant iid suffix ph gate cmd p start _ w _ l
                  (put_result-IsCurrent s tenant iid p w st _ _ _ k) (λ a. cc))
          ])
        ]

    if_Ends : (b : Bool) {x y : Outcome World} → Ends x → Ends y → Ends (if b then x else y)
    if_Ends true hx hy = hx
    if_Ends false hx hy = hy

    attempt-IsStored :
        (retry : Option (InteractionState → World → Outcome World)) (st : InteractionState)
        (w : World)
        → StoresNext retry
        → SinceStart w
        → SafeAt w st
        → CurrentAt w st
        → Ends (attempt s limits tenant iid suffix ph gate cmd retry st w)
    unfolding attempt
    attempt-IsStored retry st w ih l v k = elim (Option-cases (lookup cmd.command_id st.results)) [
      | inl e ↦ rw (e, attempt) (try_append-IsStored retry st w ih l v k)
      | inr (prev, e) ↦
          let known =
            answer-IsStored s limits tenant iid suffix ph gate cmd p start st w prev.result l k
              (v.cached cmd.command_id prev e) in
          let refused =
            answer-IsStored s limits tenant iid suffix ph gate cmd p start st w
              (reject cmd.command_id hash_conflict) l k (λ a. cc) in
          rw (e, attempt)
            (if_Ends (prev.payload_hash == "") known (
              if_Ends (not (prev.payload_hash == ph)) refused (
                if_Ends (is_accepted prev.result.status) known
                  (try_append-IsStored retry st w ih l v k))))
    ]

    attempts-IsStored :
        (left : ℕ) (st : InteractionState) (w : World)
        → SinceStart w
        → SafeAt w st
        → CurrentAt w st
        → Ends (attempts s limits tenant iid suffix ph gate cmd left st w)
    unfolding attempts
    attempts-IsStored zero st w l v k = attempt-IsStored none st w tt l v k
    attempts-IsStored (suc left) st w l v k =
        attempt-IsStored (some (attempts s limits tenant iid suffix ph gate cmd left)) st w
          (attempts-IsStored left) l v k

  pub submit-IsStored_since :
      (start : World) (st : InteractionState) (w : World)
      → Led s tenant iid p start w
      → IsSafe s tenant iid p w st
      → IsCurrent s tenant iid p w st
      → IsStored s limits tenant iid suffix ph gate cmd p start
          (submit s limits tenant iid suffix ph gate cmd st w)
  unfolding submit
  submit-IsStored_since start st w l v k =
      if_Ends start st.poisoned
        (answer-IsStored s limits tenant iid suffix ph gate cmd p start st w
          (reject cmd.command_id state_unavailable) l k (λ a. cc))
        (attempts-IsStored start limits.max_refold st w l v k)

  -- From a state whose number, token, status, membership and parents are those of the log when its token is
  -- the log's last stream sequence, for a command that is not a participation fact, whatever other routers
  -- write before each call. `submit` leaves a legal log and a cache that acknowledges only what it holds;
  -- the state's number, token and status are in step with the log, or the state is poisoned and taken out
  -- of the table; so are its membership and parents, unless the acknowledgement of this call's append was
  -- lost. An accepted command has in the log an event that this call wrote, with the command's type,
  -- author, body, reference and payload hash and, where the gate is on, by a member according to the log
  -- right before it; or the log held its command id before this call wrote anything.
  pub submit-IsStored :
      (st : InteractionState) (w : World)
      → IsSafe s tenant iid p w st
      → IsCurrent s tenant iid p w st
      → IsSettled s limits tenant iid suffix ph gate cmd p
          (submit s limits tenant iid suffix ph gate cmd st w)
        × IsStored s limits tenant iid suffix ph gate cmd p w
            (submit s limits tenant iid suffix ph gate cmd st w)
  submit-IsStored st w v k = (
    submit-IsSettled s limits tenant iid suffix ph gate cmd p st w v,
    submit-IsStored_since w st w here v k,
  )
