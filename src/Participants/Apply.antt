-- ===== src/Participants/Apply.antt =====
-- internal/participation/projector.go: the projector, over the ports of the store and of the authority.
-- Both lie outside of it: `World` is what they and the id generator read and change.
pub mod Contract
pub mod Guarded
mod Tests
use relaypoint.Common.{
  ℕ, String, List, [], ◌∷◌, Option, none, some, Bool, true, false, not, ◌&&◌, ◌||◌, ◌==◌, ◌⊎◌, inl,
  inr, ltb, leb, if◌then◌else◌, next64,
}
use relaypoint.Participants.Records.{
  ParticipationCommand, Identity, Record, Fold, Refusal, invalid, permission_denied,
  divergent_history, unknown_history, out_of_range, Library, is_uuidv7, canonical, same_identity,
  fold_records,
}
use relaypoint.Participants.Replay.{
  Key, Intent, ReplayResponse, SnapshotResponse, Snapshot, validate_replay, validate_snapshot,
}

-- An error: one of the package's, `ErrReconcileExhausted` joined with its cause, two joined ones, or one
-- from outside.
pub data Failure : Type 0 where
  refused : Refusal → Failure
  exhausted : Failure → Failure
  joint : Failure → Failure → Failure
  outside : ℕ → Failure

abbrev pub is_unknown_history : Refusal → Bool
is_unknown_history unknown_history = true
is_unknown_history invalid = false
is_unknown_history permission_denied = false
is_unknown_history divergent_history = false
is_unknown_history out_of_range = false

-- `errors.Is(err, ErrUnknownHistory)`.
unfoldable pub is_unknown : Failure → Bool
is_unknown (refused r) = is_unknown_history r
is_unknown (exhausted e) = is_unknown e
is_unknown (joint e e') = is_unknown e || is_unknown e'
is_unknown (outside n) = false

abbrev pub Answer : Type 0 → Type 0
Answer A = Failure ⊎ A

pub record Grant : Type 0 where
  pub service_id : String
  pub capability : String
  pub role : String

pub record Principal : Type 0 where
  pub tenant_id : String
  pub grant : Grant

-- `load` gives the projection and the identity that is retained for the asked version; the authority's
-- answers can be nil.
pub record Ports : Type 1 where
  pub World : Type 0
  pub load : World → Key → ℕ → World × Answer (Fold × Option Identity)
  pub install : World → ℕ → List Record → Fold → World × Answer Bool
  pub begin_reconcile : World → Intent → Record → World × Answer (Intent × Bool)
  pub install_reconcile : World → Intent → List Record → Fold → World × Answer Bool
  pub install_historical : World → Intent → Record → World × Answer Bool
  pub install_snapshot : World → Intent → Snapshot → Record → World × Answer Bool
  pub fail_reconcile : World → Intent → Record → Failure → World × Answer Bool
  pub record_poison : World → Record → World × Option Failure
  pub replay : World → Intent → World × Answer (Option ReplayResponse)
  pub snapshot : World → Intent → World × Answer (Option SnapshotResponse)
  pub new_id : World → String

-- `no_result` is the zero that goes with an error.
pub data Result : Type 0 where
  no_result applied duplicate compare_and_set_lost poisoned audited_snapshot : Result

pub record Outcome (World : Type 0) : Type 0 where
  pub world : World
  pub result : Result
  pub failure : Option Failure

abbrev pub capability_write : String
capability_write = "Corex-participation-write"

unfoldable pub valid_transport_grant : Grant → String → Bool
valid_transport_grant g capability =
    not (g.service_id == "") && g.role == "" && g.capability == capability

module _ (lib : Library) (ports : Ports) where
  open ports use {World}

  abbrev pub ended : World → Result → Failure → Outcome World
  ended w r e = record { world = w; result = r; failure = some e }

  abbrev pub done : World → Result → Outcome World
  done w r = record { world = w; result = r; failure = none }

  -- What an install's answer becomes.
  abbrev pub finish : Result → World × Answer Bool → Outcome World
  finish r (w, inl e) = ended w no_result e
  finish r (w, inr true) = done w r
  finish r (w, inr false) = done w compare_and_set_lost

  abbrev pub exhaust : Failure → World × Answer Bool → Outcome World
  exhaust cause (w, inl e) = ended w no_result (joint cause e)
  exhaust cause (w, inr true) = ended w poisoned (exhausted cause)
  exhaust cause (w, inr false) = ended w no_result cause

  unfoldable pub fail_reconcile : World → Intent → Record → Failure → Outcome World
  fail_reconcile w intent held cause = exhaust cause (ports.fail_reconcile w intent held cause)

  -- What the projector does with a checked snapshot.
  abbrev pub take_snapshot : World → Intent → Record → Refusal ⊎ Snapshot → Outcome World
  take_snapshot w intent held (inl e) = ended w poisoned (refused e)
  take_snapshot w intent held (inr s) =
      finish audited_snapshot (ports.install_snapshot w intent s held)

  unfoldable pub snapshot : World → Intent → Record → Outcome World
  unfolding fail_reconcile validate_snapshot
  snapshot w intent held =
      let (w', a) = ports.snapshot w intent in
      elim a [
        | inl e ↦ fail_reconcile w' intent held e
        | inr wire ↦ take_snapshot w' intent held (validate_snapshot wire intent held)
      ]

  -- The fold of the replayed records, and its install.
  abbrev pub take_folded : World → Intent → List Record → Option Fold → Outcome World
  take_folded w intent rs none = ended w poisoned (refused divergent_history)
  take_folded w intent rs (some final) = finish applied (ports.install_reconcile w intent rs final)

  -- The first of the replayed records is the historical one.
  abbrev pub take_historical : World → Intent → List Record → Outcome World
  take_historical w intent [] = ended w poisoned (refused out_of_range)
  take_historical w intent (r ∷ rs) = finish duplicate (ports.install_historical w intent r)

  abbrev pub take_replay : World → Intent → Fold → Bool → Refusal ⊎ List Record → Outcome World
  take_replay w intent f historical (inl e) = ended w poisoned (refused e)
  take_replay w intent f historical (inr rs) =
      if historical
      then take_historical w intent rs
      else take_folded w intent rs (fold_records f rs)

  unfoldable pub replay : World → Intent → Fold → Record → Bool → Outcome World
  unfolding snapshot fail_reconcile is_unknown validate_replay fold_records
  replay w intent f held historical =
      let (w', a) = ports.replay w intent in
      elim a [
        | inl e ↦ if is_unknown e then snapshot w' intent held else fail_reconcile w' intent held e
        | inr r ↦ take_replay w' intent f historical (validate_replay lib r intent held)
      ]

  abbrev pub take_begun : World → Fold → Record → Bool → Answer (Intent × Bool) → Outcome World
  take_begun w f held historical (inl e) = ended w no_result e
  take_begun w f held historical (inr (intent, true)) = replay w intent f held historical
  take_begun w f held historical (inr (intent, false)) = done w compare_and_set_lost

  unfoldable pub reconcile : World → Fold → Record → Bool → Outcome World
  unfolding replay is_uuidv7
  reconcile w f held historical =
      let c = held.command in
      let intent : Intent = record {
        token = ports.new_id w;
        key = record { tenant_id = c.tenant_id; interaction_id = c.interaction_id };
        observed_version = f.version;
        requested_from = if historical then c.aggregate_version else next64 f.version;
        requested_to = c.aggregate_version;
        held = held.identity;
      } in
      let (w', a) = ports.begin_reconcile w intent held in
      if is_uuidv7 intent.token
      then take_begun w' f held historical a
      else ended w poisoned (refused invalid)

  -- `RecordPoison`, and the error of a divergent history.
  abbrev pub diverge : World × Option Failure → Outcome World
  diverge (w, some e) = ended w poisoned e
  diverge (w, none) = ended w poisoned (refused divergent_history)

  -- A version that the projection is not behind of.
  abbrev pub apply_known : World → Fold → Option Identity → Record → Outcome World
  apply_known w f none r = reconcile w f r true
  apply_known w f (some i) r =
      if same_identity i r.identity then done w duplicate else diverge (ports.record_poison w r)

  abbrev pub apply_next : World → Fold → Record → Option Fold → Outcome World
  apply_next w f r none = ended w poisoned (refused divergent_history)
  apply_next w f r (some final) = finish applied (ports.install w f.version (r ∷ []) final)

  unfoldable pub apply_to : World → Fold → Option Identity → Record → Outcome World
  unfolding reconcile same_identity fold_records
  apply_to w f retained r =
      let v = r.command.aggregate_version in
      if leb v f.version
      then apply_known w f retained r
      else if ltb (next64 f.version) v
      then reconcile w f r false
      else apply_next w f r (fold_records f (r ∷ []))

  abbrev pub take_loaded : World → Record → Answer (Fold × Option Identity) → Outcome World
  take_loaded w r (inl e) = ended w no_result e
  take_loaded w r (inr (f, retained)) = apply_to w f retained r

  abbrev pub apply_record : World → Principal → Record → Outcome World
  apply_record w principal r =
      let c = r.command in
      let key : Key = record { tenant_id = c.tenant_id; interaction_id = c.interaction_id } in
      let (w', a) = ports.load w key c.aggregate_version in
      if not (principal.tenant_id == c.tenant_id)
        || not (valid_transport_grant principal.grant capability_write)
      then ended w poisoned (refused permission_denied)
      else take_loaded w' r a

  unfoldable pub apply : World → Principal → ParticipationCommand → Outcome World
  unfolding apply_to canonical valid_transport_grant
  apply w principal c = elim (canonical lib c) [
    | none ↦ ended w poisoned (refused permission_denied)
    | some r ↦ apply_record w principal r
  ]
