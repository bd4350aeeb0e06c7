-- ===== src/Routes/Facts.antt =====
-- internal/routeprojection/projector.go: the data, the checks of a fact and of a snapshot, and the hash.
-- A time is a number of nanoseconds, 0 for the zero time; a hash is a text, empty for the zero hash.
pub mod Hashing
use relaypoint.Common.{
  ℕ, String, List, [], ◌∷◌, Option, none, some, Bool, true, false, not, ◌&&◌, ◌||◌, ◌==◌, eqb, ltb,
  leb, if◌then◌else◌, big_endian, put_parts, next64,
}

abbrev pub fact_reserved : ℕ
fact_reserved = 1

abbrev pub fact_ringing : ℕ
fact_ringing = 2

abbrev pub fact_terminal : ℕ
fact_terminal = 3

abbrev pub hidden : ℕ
hidden = 0

abbrev pub visible : ℕ
visible = 1

-- `kind` is a `FactKind` that was not checked.
pub record RouteFact : Type 0 where
  pub tenant_id : String
  pub interaction_id : String
  pub event_id : String
  pub version : ℕ
  pub kind : ℕ
  pub delivery_authorization_id : String
  pub receipt_id : String
  pub visibility_generation : ℕ
  pub lease_until : ℕ

pub record FactIdentity : Type 0 where
  pub event_id : String
  pub hash : String

-- What `FoldBatch` computes, and what a projection holds beside its key.
pub record FoldedState : Type 0 where
  pub version : ℕ
  pub event_id : String
  pub hash : String
  pub visibility : ℕ
  pub delivery_authorization_id : String
  pub receipt_id : String
  pub visibility_generation : ℕ
  pub lease_until : ℕ

-- The fields of `Projection` that `FoldedState` has are its `state`.
pub record Projection : Type 0 where
  pub tenant_id : String
  pub interaction_id : String
  pub state : FoldedState
  pub database_now : ℕ

pub record ReconcileIntent : Type 0 where
  pub token : String
  pub tenant_id : String
  pub interaction_id : String
  pub observed_version : ℕ
  pub requested_from : ℕ
  pub requested_to : ℕ
  pub held_event_id : String
  pub held_hash : String

pub record ReplayResult : Type 0 where
  pub facts : List RouteFact
  pub router_head : ℕ

pub record Snapshot : Type 0 where
  pub projection : Projection
  pub history_floor : ℕ
  pub provenance : String

pub record AuthorizationBinding : Type 0 where
  pub interaction_id : String
  pub receipt_id : String

pub data Fault : Type 0 where
  divergent_history unknown_history invalid_fact invalid_replay authorization_pending : Fault
  other : ℕ → Fault

-- What the third-party `uuid.Parse` reads.
pub record Uuid : Type 0 where
  pub version : ℕ
  pub rfc4122 : Bool
  pub canonical : String

-- `parse_uuid`, `bytes` and `digest` are the UUID library, the byte conversion and SHA-256.
pub record Library : Type 0 where
  pub parse_uuid : String → Option Uuid
  pub bytes : String → List ℕ
  pub digest : List ℕ → String

-- A projection that has no tenant yet takes the key of its first fact.
unfoldable pub key_for : Projection → List RouteFact → String × String
key_for p [] = (p.tenant_id, p.interaction_id)
key_for p (f ∷ fs) =
    if p.tenant_id == "" then (f.tenant_id, f.interaction_id) else (p.tenant_id, p.interaction_id)

module _ (lib : Library) where
  -- `validateUUIDv7`, true when it gives no error.
  unfoldable pub is_uuid_v7 : String → Bool
  is_uuid_v7 value = elim (lib.parse_uuid value) [
    | none ↦ false
    | some id ↦ eqb id.version 7 && id.rfc4122 && id.canonical == value
  ]

  -- `validateFact`, true when it gives no error; each of its errors is `ErrInvalidFact`.
  unfoldable pub is_valid_fact : RouteFact → Bool
  is_valid_fact f =
      if not (is_uuid_v7 f.tenant_id && is_uuid_v7 f.interaction_id && is_uuid_v7 f.event_id)
      then false
      else if eqb f.version 0 || ltb f.kind fact_reserved || ltb fact_terminal f.kind
      then false
      else if eqb f.kind fact_ringing
          && not (is_uuid_v7 f.delivery_authorization_id && is_uuid_v7 f.receipt_id)
      then false
      else if eqb f.kind fact_ringing
          && (not (eqb f.visibility_generation f.version) || eqb f.lease_until 0)
      then false
      else not (
          eqb f.kind fact_terminal
          && (eqb f.visibility_generation 0 || leb f.version f.visibility_generation))

  unfoldable pub fact_parts : RouteFact → List (List ℕ)
  fact_parts f =
      lib.bytes f.tenant_id
      ∷ lib.bytes f.interaction_id
      ∷ lib.bytes f.event_id
      ∷ big_endian 8 f.version
      ∷ (f.kind ∷ [])
      ∷ lib.bytes f.delivery_authorization_id
      ∷ lib.bytes f.receipt_id
      ∷ big_endian 8 f.visibility_generation
      ∷ big_endian 8 f.lease_until
      ∷ []

  unfoldable pub hash_route_fact : RouteFact → String
  unfolding fact_parts
  hash_route_fact f = lib.digest (put_parts (fact_parts f))

  -- `validateSnapshot`, true when it gives no error; each of its errors is `ErrInvalidReplay`.
  unfoldable pub is_valid_snapshot : Snapshot → ReconcileIntent → RouteFact → Bool
  is_valid_snapshot snapshot intent held =
      let p = snapshot.projection in
      let st = p.state in
      if not (p.tenant_id == held.tenant_id)
        || not (p.interaction_id == held.interaction_id)
        || eqb st.version 0
        || ltb st.version intent.observed_version
      then false
      else if eqb snapshot.history_floor 0
          || ltb st.version snapshot.history_floor
          || snapshot.provenance == ""
      then false
      else if not (is_uuid_v7 st.event_id) || st.hash == ""
      then false
      else if not (eqb st.visibility hidden) && not (eqb st.visibility visible)
      then false
      else if eqb st.visibility visible && not (is_uuid_v7 st.delivery_authorization_id)
      then false
      else not (
          eqb st.visibility visible
          && (not (is_uuid_v7 st.receipt_id)
              || not (eqb st.visibility_generation st.version)
              || eqb st.lease_until 0))

  -- One round of the loop of `FoldBatch`, on a fact that passed its tests.
  unfoldable pub fold_fact : FoldedState → RouteFact → FoldedState
  unfolding hash_route_fact
  fold_fact st f =
      let moved : FoldedState = record st {
        version = f.version;
        event_id = f.event_id;
        hash = hash_route_fact f;
      } in
      if eqb f.kind fact_ringing
      then record moved {
        visibility = visible;
        delivery_authorization_id = f.delivery_authorization_id;
        receipt_id = f.receipt_id;
        visibility_generation = f.visibility_generation;
        lease_until = f.lease_until;
      }
      else if eqb f.kind fact_terminal
      then record moved { visibility = hidden; lease_until = 0 }
      else if eqb f.kind fact_reserved
      then record moved { visibility = hidden }
      else moved

  -- The loop of `FoldBatch` for a tenant and an interaction, `none` for `ErrInvalidReplay`.
  unfoldable pub fold_facts : String → String → FoldedState → List RouteFact → Option FoldedState
  unfolding fold_fact is_valid_fact
  fold_facts tenant iid st [] = some st
  fold_facts tenant iid st (f ∷ fs) =
      let rest = fold_facts tenant iid (fold_fact st f) fs in
      if not (is_valid_fact f) || not (eqb f.version (next64 st.version))
      then none
      else if not (f.tenant_id == tenant) || not (f.interaction_id == iid)
      then none
      else rest

  unfoldable pub fold_batch : Projection → List RouteFact → Option FoldedState
  unfolding fold_facts key_for
  fold_batch p fs = let (tenant, iid) = key_for p fs in fold_facts tenant iid p.state fs
