-- ===== src/Signaling/Handle.antt =====
-- internal/signaling/router.go: `handleParticipation`, and `HandleCommand` from end to end.
pub mod Sound
pub mod Acknowledged
pub mod Applied
pub mod Direct
pub mod Steps
pub mod Stored
mod Tests
use relaypoint.Common.{
  ℕ, suc, String, List, [], ◌∷◌, map, Option, none, some, Bool, true, false, not, ◌&&◌, ◌==◌, ◌⊎◌,
  inl, inr, if◌then◌else◌, lookup, insert,
}
use relaypoint.Signaling.Wire.{
  Command, CommandResult, Identity, Reason, reject, accept, role_trusted_backend,
  needs_trusted_backend, bad_participation_payload, replay_failed, hash_conflict, partially_applied,
}
use relaypoint.Signaling.State.{InteractionState, ids_of}
use relaypoint.Signaling.Log.{LogStore}
use relaypoint.Signaling.Submit.{Outcome, submit, is_accepted}
use relaypoint.Signaling.Hash.{hash_payload}
use relaypoint.Signaling.Subject.{Addressed}
use relaypoint.Signaling.Admission.{Admission, refused, privileged, direct, admit}
use relaypoint.Signaling.Table.{Config, Router, key_of, get_state, put_back}
use relaypoint.Signaling.Privileged.{
  ParticipationData, Step, steps_of, sub_id, recorded_subset_of, add_ids, append_fact,
}

abbrev empty_data : ParticipationData
empty_data = record { agent = ""; from_agent = ""; reason = ""; request_id = "" }

-- `decode` is the JSON library's reading of a command's data, `none` for an error.
unfoldable pub participation_data :
    (List ℕ → Option ParticipationData) → List ℕ → Option ParticipationData
participation_data decode [] = some empty_data
participation_data decode (b ∷ bs) = decode (b ∷ bs)

-- The command of one fact.
unfoldable pub fact_command : String → Command → Step → Command
unfolding sub_id
fact_command tenant cmd f = record {
  command_id = sub_id cmd.command_id f;
  tenant_id = tenant;
  actor_id = f.1;
  type_name = f.0;
  medium = cmd.medium;
  ref_id = "";
  body = [];
}

-- The answer for a fact that was not accepted, the first or a later one.
unfoldable pub not_applied : Bool → String → CommandResult → CommandResult
not_applied later id res = record res {
  command_id = id;
  reason = if later then partially_applied res.reason else res.reason;
}

-- `bytes`, `digest` and `decode` are the byte conversion, the hash and the JSON library.
module _ (s : LogStore) (bytes : String → List ℕ) (digest : List ℕ → String)
    (decode : List ℕ → Option ParticipationData) (config : Config) where
  open s use {World}

  unfoldable pub append_participation_fact :
      String
      → String
      → String
      → String
      → ParticipationData
      → Command
      → Router World
      → Router World × CommandResult
  unfolding append_fact hash_payload get_state put_back
  append_participation_fact tenant iid actor parent pd fcmd r =
      let (r', found) = get_state s config tenant iid r in
      elim found [
        | none ↦ (r', reject fcmd.command_id replay_failed)
        | some st ↦
            let out =
              append_fact s config.limits tenant iid actor parent (hash_payload bytes digest fcmd)
                pd fcmd st r'.world in
            (put_back s config tenant iid r' out, out.result)
      ]

  -- The loop over the facts; `none` when each was accepted.
  unfoldable pub append_steps :
      String
      → String
      → String
      → ParticipationData
      → Command
      → Bool
      → List Step
      → Router World
      → Router World × Option CommandResult
  unfolding append_participation_fact not_applied fact_command
  append_steps tenant iid actor pd cmd later [] r = (r, none)
  append_steps tenant iid actor pd cmd later (f ∷ fs) r =
      let (r', res) =
        append_participation_fact tenant iid actor cmd.command_id pd (fact_command tenant cmd f)
          r in
      let rest = append_steps tenant iid actor pd cmd true fs r' in
      if is_accepted res.status then rest else (r', some (not_applied later cmd.command_id res))

  -- Records the sub-ids under the command in the entry of the table, which is the state that the
  -- handler holds; where it was evicted the record is lost.
  unfoldable pub record_parent :
      String → String → String → List String → Router World → Router World
  unfolding add_ids key_of
  record_parent tenant iid id subs r =
      let key = key_of tenant iid in
      elim (lookup key r.inter) [
        | none ↦ r
        | some st ↦
            let st' = record st {
              parents = insert id (add_ids subs (ids_of (lookup id st.parents))) st.parents;
            } in
            record r { inter = insert key st' r.inter }
      ]

  -- A command id that is recorded with another payload is refused.
  unfoldable pub is_divergent : InteractionState → String → List String → Bool
  unfolding recorded_subset_of
  is_divergent st id subs = elim (lookup id st.parents) [
    | none ↦ false
    | some ids ↦ not (recorded_subset_of ids subs)
  ]

  unfoldable pub apply_participation :
      String
      → String
      → String
      → ParticipationData
      → Command
      → List Step
      → Router World
      → Router World × CommandResult
  unfolding append_steps record_parent is_divergent get_state
  apply_participation tenant iid actor pd cmd fs r =
      let subs = map (sub_id cmd.command_id) fs in
      let (r', found) = get_state s config tenant iid r in
      elim found [
        | none ↦ (r', reject cmd.command_id replay_failed)
        | some st ↦
            let (r'', failure) = append_steps tenant iid actor pd cmd false fs r' in
            if is_divergent st cmd.command_id subs
            then (r', reject cmd.command_id hash_conflict)
            else elim failure [
              | some res ↦ (r'', res)
              | none ↦ (record_parent tenant iid cmd.command_id subs r'', accept cmd.command_id)
            ]
      ]

  unfoldable pub handle_participation :
      String → String → String → String → Command → Router World → Router World × CommandResult
  unfolding apply_participation participation_data
  handle_participation tenant iid actor role cmd r =
      if not (role == role_trusted_backend)
      then (r, reject cmd.command_id needs_trusted_backend)
      else elim (participation_data decode cmd.body) [
        | none ↦ (r, reject cmd.command_id bad_participation_payload)
        | some pd ↦ elim (steps_of cmd.type_name pd) [
          | inl why ↦ (r, reject cmd.command_id why)
          | inr fs ↦ apply_participation tenant iid actor pd cmd fs r
        ]
      ]

  unfoldable pub handle_direct :
      Addressed → Bool → Command → Router World → Router World × CommandResult
  unfolding submit get_state put_back hash_payload
  handle_direct at gate cmd r =
      let (r', found) = get_state s config at.tenant at.iid r in
      elim found [
        | none ↦ (r', reject cmd.command_id replay_failed)
        | some st ↦
            let out =
              submit s config.limits at.tenant at.iid at.identity (hash_payload bytes digest cmd)
                gate cmd st r'.world in
            (put_back s config at.tenant at.iid r' out, out.result)
      ]

  -- `parsed` is the protobuf library's reading of the data.
  unfoldable pub handle_command :
      Identity → String → Option Command → Router World → Router World × CommandResult
  unfolding admit handle_direct handle_participation
  handle_command id subject parsed r = elim (admit config.dev_mode id subject parsed) [
    | refused res ↦ (r, res)
    | privileged at cmd ↦ handle_participation at.tenant at.iid at.identity id.role cmd r
    | direct at gate cmd ↦ handle_direct at gate cmd r
  ]
