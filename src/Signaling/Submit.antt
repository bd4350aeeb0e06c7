-- ===== src/Signaling/Submit.antt =====
-- internal/signaling/router.go: the part of `HandleCommand` that holds the interaction's lock, from
-- the test for a poisoned state to the end.
pub mod Appended
pub mod Current
pub mod Durable
pub mod Endings
pub mod Safety
pub mod Stored
pub mod Written
use relaypoint.Common.{
  ℕ, zero, suc, String, List, Option, none, some, Bool, true, false, not, ◌&&◌, ◌==◌, if◌then◌else◌,
  lookup, next64,
}
use relaypoint.Signaling.Wire.{
  Event, Command, CommandResult, Status, accepted, rejected, Reason, no_reason, reject, accept,
  state_unavailable, hash_conflict, not_a_participant, illegal_transition, lost_append,
  append_failed,
}
use relaypoint.Signaling.Participation.{is_participant_now}
use relaypoint.Signaling.State.{
  StoredResult, InteractionState, put_result, adopt, legal_transition, transition,
}
use relaypoint.Signaling.Log.{
  LogStore, log_subject_for, dedup_id, rebuild, AppendResult, committed, duplicate, conflict,
  failed,
}

abbrev pub schema_v1 : String
schema_v1 = "relaypoint.interaction.v1"

unfoldable pub or_default : String → String → String
or_default v d = if v == "" then d else v

abbrev pub is_accepted : Status → Bool
is_accepted accepted = true
is_accepted rejected = false

-- The options of a router that this part reads.
pub record Limits : Type 0 where
  pub max_results : ℕ
  pub max_refold : ℕ

-- `evicted` says that the state was taken out of the router's table.
pub record Outcome (World : Type 0) : Type 0 where
  pub state : InteractionState
  pub world : World
  pub evicted : Bool
  pub result : CommandResult

module _ (s : LogStore) (limits : Limits) (tenant iid suffix ph : String) (gate : Bool)
    (cmd : Command) where
  open s use {World, append, replay, new_id, now}

  unfoldable pub new_event : InteractionState → World → Event
  new_event st w = record {
    schema = schema_v1;
    event_type = cmd.type_name;
    event_id = new_id w;
    sequence = next64 st.seq;
    occurred_at = now w;
    tenant_id = tenant;
    actor_id = cmd.actor_id;
    medium = or_default cmd.medium "chat";
    command_id = cmd.command_id;
    payload_hash = ph;
    caused_by = cmd.command_id;
    ref_id = cmd.ref_id;
    body = cmd.body;
    commanded_by = "";
    reason = "";
    request_id = "";
  }

  abbrev answer : InteractionState → World → CommandResult → Outcome World
  answer st w res = record { state = st; world = w; evicted = false; result = res }

  -- `st.poisoned = true` and the eviction.
  abbrev poison : InteractionState → World → CommandResult → Outcome World
  poison st w res = record {
    state = record st { poisoned = true };
    world = w;
    evicted = true;
    result = res;
  }

  -- The append was stored.
  unfoldable pub on_committed : InteractionState → World → ℕ → Outcome World
  on_committed st w n =
      let status = transition st.status cmd.type_name in
      let moved : InteractionState = record st {
        seq = next64 st.seq;
        stream_seq = n;
        status = status;
      } in
      let stored : StoredResult = record { payload_hash = ph; result = accept cmd.command_id } in
      record {
        state = put_result moved cmd.command_id stored limits.max_results;
        world = w;
        evicted = status == "ended";
        result = accept cmd.command_id;
      }

  -- The committed entry decides a duplicate, and where there is none the command is stored.
  unfoldable pub settle_duplicate : InteractionState → World → Outcome World
  settle_duplicate st w = elim (lookup cmd.command_id st.results) [
    | some prev ↦
        if not (prev.payload_hash == "") && not (prev.payload_hash == ph)
        then answer st w (reject cmd.command_id hash_conflict)
        else answer st w prev.result
    | none ↦
        answer
          (put_result st cmd.command_id
            (record { payload_hash = ph; result = accept cmd.command_id }) limits.max_results)
          w (accept cmd.command_id)
  ]

  unfoldable pub on_duplicate : InteractionState → World → Outcome World
  unfolding settle_duplicate rebuild
  on_duplicate st w =
      let (w', r) = rebuild s limits.max_results tenant iid w in
      elim r [
        | none ↦ poison st w' (accept cmd.command_id)
        | some fresh ↦ settle_duplicate (adopt st fresh limits.max_results) w'
      ]

  -- Any other error: the append may have been stored before the acknowledgement was lost.
  unfoldable pub on_failed : InteractionState → World → Outcome World
  unfolding rebuild
  on_failed st w =
      let (w', r) = rebuild s limits.max_results tenant iid w in
      elim r [
        | none ↦ poison st w' (reject cmd.command_id append_failed)
        | some fresh ↦ elim (lookup cmd.command_id fresh.results) [
          | none ↦ poison st w' (reject cmd.command_id append_failed)
          | some prev ↦
              answer
                (record st {
                  seq = fresh.seq;
                  stream_seq = fresh.stream_seq;
                  status = fresh.status;
                })
                w' prev.result
        ]
      ]

  -- The lost race: `retry` is the next attempt, `none` when `maxRefold` attempts were made.
  unfoldable pub on_conflict :
      Option (InteractionState → World → Outcome World) → InteractionState → World → Outcome World
  unfolding rebuild
  on_conflict retry st w =
      let (w', r) = rebuild s limits.max_results tenant iid w in
      elim r [
        | none ↦ poison st w' (reject cmd.command_id lost_append)
        | some fresh ↦ elim retry [
          | none ↦ poison st w' (reject cmd.command_id lost_append)
          | some again ↦ again (adopt st fresh limits.max_results) w'
        ]
      ]

  unfoldable pub on_append :
      Option (InteractionState → World → Outcome World)
      → InteractionState
      → World
      → AppendResult
      → Outcome World
  unfolding on_committed on_duplicate on_failed on_conflict
  on_append retry st w (committed n) = on_committed st w n
  on_append retry st w (duplicate n) = on_duplicate st w
  on_append retry st w conflict = on_conflict retry st w
  on_append retry st w failed = on_failed st w

  unfoldable pub append_step :
      Option (InteractionState → World → Outcome World) → InteractionState → World → Outcome World
  unfolding on_append new_event
  append_step retry st w =
      let ev = new_event st w in
      let (w', r) =
        append w (log_subject_for tenant iid) ev (dedup_id tenant iid ev) st.stream_seq in
      on_append retry st w' r

  -- The gates of an attempt that no stored result answers.
  unfoldable pub try_append :
      Option (InteractionState → World → Outcome World) → InteractionState → World → Outcome World
  unfolding append_step
  try_append retry st w =
      let illegal = reject cmd.command_id (illegal_transition cmd.type_name st.status) in
      if gate && not (is_participant_now st.part suffix)
      then answer st w (reject cmd.command_id not_a_participant)
      else if not (legal_transition st.status cmd.type_name)
      then answer
          (put_result st cmd.command_id (record { payload_hash = ph; result = illegal })
            limits.max_results)
          w illegal
      else append_step retry st w

  unfoldable pub attempt :
      Option (InteractionState → World → Outcome World) → InteractionState → World → Outcome World
  unfolding try_append
  attempt retry st w = elim (lookup cmd.command_id st.results) [
    | none ↦ try_append retry st w
    | some prev ↦
        if prev.payload_hash == ""
        then answer st w prev.result
        else if not (prev.payload_hash == ph)
        then answer st w (reject cmd.command_id hash_conflict)
        else if is_accepted prev.result.status
        then answer st w prev.result
        else try_append retry st w
  ]

  -- `for attempt := 0; ; attempt++` with `left` attempts after this one.
  unfoldable pub attempts : ℕ → InteractionState → World → Outcome World
  unfolding attempt
  attempts zero = attempt none
  attempts (suc left) = attempt (some (attempts left))

  unfoldable pub submit : InteractionState → World → Outcome World
  unfolding attempts
  submit st w =
      if st.poisoned
      then answer st w (reject cmd.command_id state_unavailable)
      else attempts limits.max_refold st w
