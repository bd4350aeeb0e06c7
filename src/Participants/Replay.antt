-- ===== src/Participants/Replay.antt =====
-- internal/participation/projector.go: the checks of a replay and of a snapshot of the authority.
pub mod Range
mod Tests
use relaypoint.Common.{
  ℕ, ◌+◌, ◌-◌, ◌^◌, ◌%◌, String, List, [], ◌∷◌, Option, none, some, Bool, true, false, not, ◌&&◌,
  ◌||◌, ◌==◌, ◌⊎◌, inl, inr, eqb, ltb, if◌then◌else◌, length, next64,
}
use relaypoint.Participants.Records.{
  ParticipationCommand, Identity, Record, Fold, Refusal, invalid, divergent_history,
  unknown_history, out_of_range, Library, is_uuidv7, canonical, same_identity, with_member,
}

pub record Key : Type 0 where
  pub tenant_id : String
  pub interaction_id : String

pub record Intent : Type 0 where
  pub token : String
  pub key : Key
  pub observed_version : ℕ
  pub requested_from : ℕ
  pub requested_to : ℕ
  pub held : Identity

-- `head_hash` is `none` for bytes that are not 32.
pub record ReplayResponse : Type 0 where
  pub commands : List ParticipationCommand
  pub head_version : ℕ
  pub head_event_id : String
  pub head_hash : Option String
  pub history_floor : ℕ
  pub provenance : String

pub record SnapshotResponse : Type 0 where
  pub tenant_id : String
  pub interaction_id : String
  pub aggregate_version : ℕ
  pub head_event_id : String
  pub head_hash : Option String
  pub participant_ids : List String
  pub history_floor : ℕ
  pub provenance : String

pub record Snapshot : Type 0 where
  pub fold : Fold
  pub history_floor : ℕ
  pub provenance : String

-- `intent.RequestedTo-intent.RequestedFrom+1` on `uint64`.
abbrev pub asked : Intent → ℕ
asked intent = (intent.requested_to + 2 ^ 64 - intent.requested_from + 1) % 2 ^ 64

abbrev pub consed : Record → Option (List Record) → Option (List Record)
consed r none = none
consed r (some rs) = some (r ∷ rs)

-- The first loop of `validateReplay`, from the version that the next command is to have.
unfoldable pub canonical_run : Library → Key → ℕ → List ParticipationCommand → Option (List Record)
unfolding canonical
canonical_run lib key v [] = some []
canonical_run lib key v (c ∷ cs) =
    let rest = canonical_run lib key (next64 v) cs in
    elim (canonical lib c) [
      | none ↦ none
      | some r ↦
          if not (c.tenant_id == key.tenant_id)
            || not (c.interaction_id == key.interaction_id)
            || not (eqb c.aggregate_version v)
          then none
          else consed r rest
    ]

unfoldable pub last_record : List Record → Option Record
last_record [] = none
last_record (r ∷ []) = some r
last_record (r ∷ q ∷ rs) = last_record (q ∷ rs)

abbrev pub is_hash : Option String → String → Bool
is_hash none hash = false
is_hash (some h) hash = h == hash

-- Whether the head that the authority names is another one than the last record at its version.
unfoldable pub contradicts_head : ReplayResponse → Record → Bool
contradicts_head replay last =
    eqb replay.head_version last.command.aggregate_version
    && (not (replay.head_event_id == last.identity.event_id)
        || not (is_hash replay.head_hash last.identity.hash))

unfoldable pub holds : Record → List Record → Bool
unfolding same_identity
holds held [] = false
holds held (r ∷ rs) =
    let rest = holds held rs in
    (eqb r.command.aggregate_version held.command.aggregate_version
      && same_identity r.identity held.identity)
    || rest

-- What `validateReplay` does with the records; an empty list has no last record, and Go panics.
unfoldable pub settle_records : ReplayResponse → Record → List Record → Refusal ⊎ List Record
unfolding last_record contradicts_head holds
settle_records replay held records = elim (last_record records) [
  | none ↦ inl out_of_range
  | some last ↦
      if contradicts_head replay last
      then inl divergent_history
      else if holds held records
      then inr records
      else inl divergent_history
]

unfoldable pub validate_replay :
    Library → Option ReplayResponse → Intent → Record → Refusal ⊎ List Record
unfolding canonical_run settle_records
validate_replay lib none intent held = inl unknown_history
validate_replay lib (some replay) intent held =
    let checked : Refusal ⊎ List Record =
      elim (canonical_run lib intent.key intent.requested_from replay.commands) [
        | none ↦ inl divergent_history
        | some records ↦ settle_records replay held records
      ] in
    if eqb replay.history_floor 0
      || replay.provenance == ""
      || ltb replay.head_version intent.requested_to
      || not (eqb (length replay.commands) (asked intent))
    then inl unknown_history
    else checked

-- The participants of a snapshot, `none` where one is no UUID.
unfoldable pub snapshot_members : List String → List String → Option (List String)
unfolding is_uuidv7 with_member
snapshot_members found [] = some found
snapshot_members found (id ∷ ids) =
    let rest = snapshot_members (with_member id found) ids in if is_uuidv7 id then rest else none

unfoldable pub snapshot_of : SnapshotResponse → String → List String → Snapshot
snapshot_of wire hash members = record {
  fold = record {
    tenant_id = wire.tenant_id;
    interaction_id = wire.interaction_id;
    version = wire.aggregate_version;
    identity = record { event_id = wire.head_event_id; hash = hash; body = [] };
    participants = members;
    snapshot_provenance = wire.provenance;
  };
  history_floor = wire.history_floor;
  provenance = wire.provenance;
}

unfoldable pub validate_snapshot : Option SnapshotResponse → Intent → Record → Refusal ⊎ Snapshot
unfolding snapshot_members snapshot_of
validate_snapshot none intent held = inl unknown_history
validate_snapshot (some wire) intent held =
    let members : String → Refusal ⊎ Snapshot = λ hash.
      elim (snapshot_members [] wire.participant_ids) [
        | none ↦ inl invalid
        | some ids ↦ inr (snapshot_of wire hash ids)
      ] in
    let checked : Refusal ⊎ Snapshot = elim wire.head_hash [
      | none ↦ inl unknown_history
      | some hash ↦ members hash
    ] in
    if not (wire.tenant_id == intent.key.tenant_id)
      || not (wire.interaction_id == intent.key.interaction_id)
      || ltb wire.aggregate_version intent.observed_version
      || ltb wire.aggregate_version held.command.aggregate_version
      || not (is_uuidv7 wire.head_event_id)
      || eqb wire.history_floor 0
      || ltb wire.aggregate_version wire.history_floor
      || wire.provenance == ""
    then inl unknown_history
    else checked
