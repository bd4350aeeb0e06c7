-- ===== src/Signaling/Submit/Written.antt =====
-- What a command that the locked part of `HandleCommand` accepts has written (internal/signaling/router.go),
-- and what membership its state has then.
use relaypoint.Common.{
  ℕ, String, ◌≡◌, ◌≢◌, refl, ◌⊎◌, inl, inr, [], ◌∷◌, ◌++◌, Bool, true, ◌==◌, eq_iff, Bool-cases,
  Within,
}
use relaypoint.Signaling.Wire.{Event, Command, accepted}
use relaypoint.Signaling.Participation.{is_participant_now, fold_participation}
use relaypoint.Signaling.State.{InteractionState}
use relaypoint.Signaling.State.Fold.{Logged}
use relaypoint.Signaling.Log.{LogStore, Promises, log_subject_for, dedup_id, rebuild, failed}
use relaypoint.Signaling.Sync.{Led}
use relaypoint.Signaling.Submit.{Limits, Outcome, or_default, new_event}
use relaypoint.Signaling.Submit.Current.{IsCurrent}

module _ (s : LogStore) (limits : Limits) (tenant iid suffix ph : String) (gate : Bool)
    (cmd : Command) (p : Promises s (log_subject_for tenant iid) (dedup_id tenant iid)) where
  open s use {World}
  open p use {facts, last, Others}

  -- The event is the command's: each of its fields.
  pub record IsEventOf (e : Event) : Type 0 where
    pub schema : e.schema ≡ "relaypoint.interaction.v1"
    pub event_type : e.event_type ≡ cmd.type_name
    pub tenant_id : e.tenant_id ≡ tenant
    pub actor_id : e.actor_id ≡ cmd.actor_id
    pub medium : cmd.medium ≢ "" → e.medium ≡ cmd.medium
    pub chat : cmd.medium ≡ "" → e.medium ≡ "chat"
    pub command_id : e.command_id ≡ cmd.command_id
    pub payload_hash : e.payload_hash ≡ ph
    pub caused_by : e.caused_by ≡ cmd.command_id
    pub ref_id : e.ref_id ≡ cmd.ref_id
    pub body : e.body ≡ cmd.body

  pub new_event-IsEventOf :
      (st : InteractionState) (w : World)
      → IsEventOf (new_event s limits tenant iid suffix ph gate cmd st w)
  unfolding new_event or_default
  new_event-IsEventOf st w = record {
    schema = refl;
    event_type = refl;
    tenant_id = refl;
    actor_id = refl;
    medium = λ n. elim (Bool-cases (cmd.medium == "")) [
      | inl e ↦ absurd (n ((eq_iff cmd.medium "").0 e))
      | inr e ↦ rw e refl
    ];
    chat = λ e. rw ((eq_iff cmd.medium "").1 e) refl;
    command_id = refl;
    payload_hash = refl;
    caused_by = refl;
    ref_id = refl;
    body = refl;
  }

  module _ (start : World) where
    -- This call has written the command behind what others wrote: the log grew by its event, whose author
    -- was, where the gate is on, a member by the log before it; and others may have written since.
    pub record IsWritten (w : World) : Type 0 where
      pub before : World
      pub since_start : Led s tenant iid p start before
      pub event : Event
      pub event_of : IsEventOf event
      pub after : World
      pub grown : facts after ≡ facts before ++ event ∷ []
      pub gated : gate ≡ true → is_participant_now (fold_participation (facts before)) suffix ≡ true
      pub since : (e : Event) → Within e (facts after) → Within e (facts w)

    -- The command was in the log before this call wrote anything.
    abbrev pub IsEarlier : Type 0
    IsEarlier = (w : World) × Led s tenant iid p start w × Logged cmd.command_id (facts w)

    -- The acknowledgement of this call's append was lost, and the replay behind it ended in this world.
    abbrev pub IsUnsure : World → Type 0
    IsUnsure w =
        (u : World) × (e : Event) × (n : ℕ) × Led s tenant iid p start u
        × ((s.append u (log_subject_for tenant iid) e (dedup_id tenant iid e) n).1 ≡ failed)
        × (w
            ≡ (rebuild s limits.max_results tenant iid
                (s.append u (log_subject_for tenant iid) e (dedup_id tenant iid e) n).0).0)

    -- An accepted command was written by this call or is in the log since before; and the state's membership
    -- and parents are the log's, unless it is poisoned or an acknowledgement was lost.
    pub record IsStored (out : Outcome World) : Type 0 where
      pub durable : out.result.status ≡ accepted → IsWritten out.world ⊎ IsEarlier
      pub current :
          ((out.state.poisoned ≡ true) × (out.evicted ≡ true))
          ⊎ IsUnsure out.world
          ⊎ IsCurrent s tenant iid p out.world out.state
