-- ===== src/Signaling/Privileged.antt =====
-- internal/signaling/router.go: the participation commands of a trusted backend, and the facts that
-- they write.
pub mod Acknowledged
pub mod Stored
use Prim.Native.String.{◌++◌ as str_append}
use relaypoint.Common.{
  ℕ, zero, suc, String, List, [], ◌∷◌, map, Option, none, some, Bool, true, false, not, ◌&&◌, ◌||◌,
  ◌==◌, ◌⊎◌, inl, inr, if◌then◌else◌, lookup, insert, next64,
}
use relaypoint.Signaling.Wire.{
  Event, Command, CommandResult, Status, accepted, rejected, Reason, reject, accept,
  role_trusted_backend, needs_trusted_backend, bad_participation_payload, missing_agent,
  missing_from_or_agent, replay_failed, state_unavailable, hash_conflict, illegal_transition,
  lost_append, append_failed, partially_applied,
}
use relaypoint.Signaling.Participation.{apply_fact}
use relaypoint.Signaling.State.{
  StoredResult, InteractionState, put_result, adopt, legal_transition, transition, contains, add_id,
  ids_of,
}
use relaypoint.Signaling.Log.{
  LogStore, joined, log_subject_for, dedup_id, rebuild, AppendResult, committed, duplicate,
  conflict, failed,
}
use relaypoint.Signaling.Submit.{Limits, Outcome, or_default, schema_v1, is_accepted}
use relaypoint.Signaling.Table.{Config, Router, key_of, get_state, put_back}

-- `participationData`, as the JSON library read it.
pub record ParticipationData : Type 0 where
  pub agent : String
  pub from_agent : String
  pub reason : String
  pub request_id : String

-- A fact to write: its type, and the agent that it is about.
abbrev pub Step : Type 0
Step = String × String

-- The facts of a command, or what is missing in it. Another type has none.
unfoldable pub steps_of : String → ParticipationData → Reason ⊎ List Step
steps_of t pd =
    if t == "participant.assign"
    then (if pd.agent == "" then inl missing_agent else inr (("participant.joined", pd.agent) ∷ []))
    else if t == "participant.unassign"
    then (if pd.agent == "" then inl missing_agent else inr (("participant.left", pd.agent) ∷ []))
    else if t == "participant.transfer"
    then (if pd.agent == "" || pd.from_agent == ""
        then inl missing_from_or_agent
        else inr (("participant.joined", pd.agent) ∷ ("participant.left", pd.from_agent) ∷ []))
    else inr []

unfoldable pub sub_id : String → Step → String
unfolding joined
sub_id id f = joined (id ∷ ":" ∷ f.0 ∷ ":" ∷ f.1 ∷ [])

unfoldable pub recorded_subset_of : List String → List String → Bool
unfolding contains
recorded_subset_of [] want = true
recorded_subset_of (k ∷ ks) want = let rest = recorded_subset_of ks want in contains want k && rest

unfoldable pub add_ids : List String → List String → List String
unfolding add_id
add_ids [] ids = ids
add_ids (k ∷ ks) ids = add_ids ks (add_id k ids)

-- The last part of `appendParticipationFact`, on one fact's command. `ph` is its payload hash.
module _ (s : LogStore) (limits : Limits) (tenant iid commanded_by parent ph : String)
    (pd : ParticipationData) (fcmd : Command) where
  open s use {World, append, new_id, now}

  abbrev answer : InteractionState → World → Bool → CommandResult → Outcome World
  answer st w gone res = record { state = st; world = w; evicted = gone; result = res }

  abbrev poison : InteractionState → World → CommandResult → Outcome World
  poison st w res = answer (record st { poisoned = true }) w true res

  unfoldable pub fact_event : InteractionState → World → Event
  unfolding or_default
  fact_event st w = record {
    schema = schema_v1;
    event_type = fcmd.type_name;
    event_id = new_id w;
    sequence = next64 st.seq;
    occurred_at = now w;
    tenant_id = tenant;
    actor_id = fcmd.actor_id;
    medium = or_default fcmd.medium "chat";
    command_id = fcmd.command_id;
    payload_hash = ph;
    caused_by = parent;
    ref_id = "";
    body = [];
    commanded_by = commanded_by;
    reason = pd.reason;
    request_id = pd.request_id;
  }

  -- The append was stored, or the broker knew the fact: the code does not tell them apart.
  unfoldable pub fact_stored : InteractionState → World → Event → ℕ → Outcome World
  fact_stored st w ev n =
      let moved : InteractionState = record st {
        seq = next64 st.seq;
        stream_seq = n;
        status = transition st.status fcmd.type_name;
        part = apply_fact st.part ev;
      } in
      let stored : StoredResult = record { payload_hash = ph; result = accept fcmd.command_id } in
      answer (put_result moved fcmd.command_id stored limits.max_results) w
        (transition st.status fcmd.type_name == "ended") (accept fcmd.command_id)

  unfoldable pub fact_conflict :
      Option (InteractionState → World → Outcome World) → InteractionState → World → Outcome World
  unfolding rebuild
  fact_conflict retry st w =
      let (w', r) = rebuild s limits.max_results tenant iid w in
      elim r [
        | none ↦ poison st w' (reject fcmd.command_id lost_append)
        | some fresh ↦ elim retry [
          | none ↦ poison st w' (reject fcmd.command_id lost_append)
          | some again ↦ again (adopt st fresh limits.max_results) w'
        ]
      ]

  unfoldable pub fact_append :
      Option (InteractionState → World → Outcome World)
      → InteractionState
      → World
      → Event
      → AppendResult
      → Outcome World
  unfolding fact_stored fact_conflict
  fact_append retry st w ev (committed n) = fact_stored st w ev n
  fact_append retry st w ev (duplicate n) = fact_stored st w ev n
  fact_append retry st w ev conflict = fact_conflict retry st w
  fact_append retry st w ev failed = poison st w (reject fcmd.command_id append_failed)

  unfoldable pub fact_try :
      Option (InteractionState → World → Outcome World) → InteractionState → World → Outcome World
  unfolding fact_append fact_event
  fact_try retry st w =
      let ev = fact_event st w in
      let (w', r) =
        append w (log_subject_for tenant iid) ev (dedup_id tenant iid ev) st.stream_seq in
      if not (legal_transition st.status fcmd.type_name)
      then answer st w false (reject fcmd.command_id (illegal_transition fcmd.type_name st.status))
      else fact_append retry st w' ev r

  unfoldable pub fact_attempt :
      Option (InteractionState → World → Outcome World) → InteractionState → World → Outcome World
  unfolding fact_try
  fact_attempt retry st w = elim (lookup fcmd.command_id st.results) [
    | none ↦ fact_try retry st w
    | some prev ↦
        if not (prev.payload_hash == "") && not (prev.payload_hash == ph)
        then answer st w false (reject fcmd.command_id hash_conflict)
        else if is_accepted prev.result.status
        then answer st w (st.status == "ended") prev.result
        else fact_try retry st w
  ]

  -- `for attempt := 0; ; attempt++` with `left` attempts after this one.
  unfoldable pub fact_attempts : ℕ → InteractionState → World → Outcome World
  unfolding fact_attempt
  fact_attempts zero = fact_attempt none
  fact_attempts (suc left) = fact_attempt (some (fact_attempts left))

  unfoldable pub append_fact : InteractionState → World → Outcome World
  unfolding fact_attempts
  append_fact st w =
      if st.poisoned
      then answer st w false (reject fcmd.command_id state_unavailable)
      else fact_attempts limits.max_refold st w
