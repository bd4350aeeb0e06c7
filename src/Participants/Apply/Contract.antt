-- ===== src/Participants/Apply/Contract.antt =====
-- The store's side of each call that the projector of internal/participation/projector.go makes.
use relaypoint.Common.{ℕ, ◌≡◌, inr, List, [], ◌∷◌, Option, some, true}
use relaypoint.Participants.Records.{
  ParticipationCommand, Identity, Record, Fold, Library, canonical, fold_records,
}
use relaypoint.Participants.Replay.{
  Key, Intent, ReplayResponse, SnapshotResponse, Snapshot, validate_replay, validate_snapshot,
}
use relaypoint.Participants.Apply.{
  Failure, Ports, Principal, capability_write, valid_transport_grant,
}

-- The caller is of the command's tenant and holds the write grant, and the record is the command's
-- canonical form.
abbrev pub IsEntitled : Library → Principal → ParticipationCommand → Record → Type 0
IsEntitled lib principal command held =
    (canonical lib command ≡ some held)
    × (principal.tenant_id ≡ held.command.tenant_id)
    × (valid_transport_grant principal.grant capability_write ≡ true)

-- What a store may rely on in each call that the application of a command makes. `Inv` is any property of
-- the world that such calls keep, and `Loaded f` says that `load` gave `f`.
pub record Contract (lib : Library) (ports : Ports) (principal : Principal)
    (command : ParticipationCommand) : Type 1 where
  pub Inv : ports.World → Type 0
  pub Loaded : Fold → Type 0
  pub load_keeps : (w : ports.World) (k : Key) (v : ℕ) → Inv w → Inv (ports.load w k v).0
  pub load_gives :
      (w : ports.World) (k : Key) (v : ℕ) (f : Fold) (i : Option Identity)
      → (ports.load w k v).1 ≡ inr (f, i)
      → Loaded f
  pub begin_keeps :
      (w : ports.World) (intent : Intent) (r : Record)
      → Inv w
      → IsEntitled lib principal command r
      → Inv (ports.begin_reconcile w intent r).0
  pub fail_keeps :
      (w : ports.World) (intent : Intent) (r : Record) (e : Failure)
      → Inv w
      → IsEntitled lib principal command r
      → Inv (ports.fail_reconcile w intent r e).0
  pub poison_keeps :
      (w : ports.World) (r : Record)
      → Inv w
      → IsEntitled lib principal command r
      → Inv (ports.record_poison w r).0
  pub replay_keeps : (w : ports.World) (intent : Intent) → Inv w → Inv (ports.replay w intent).0
  pub snapshot_keeps : (w : ports.World) (intent : Intent) → Inv w → Inv (ports.snapshot w intent).0
  pub install_keeps :
      (w : ports.World) (f g : Fold) (r : Record)
      → Inv w
      → Loaded f
      → IsEntitled lib principal command r
      → fold_records f (r ∷ []) ≡ some g
      → Inv (ports.install w f.version (r ∷ []) g).0
  pub install_reconcile_keeps :
      (w : ports.World) (intent : Intent) (p : Option ReplayResponse) (held : Record)
      (rs : List Record) (f g : Fold)
      → Inv w
      → Loaded f
      → IsEntitled lib principal command held
      → validate_replay lib p intent held ≡ inr rs
      → fold_records f rs ≡ some g
      → Inv (ports.install_reconcile w intent rs g).0
  pub install_historical_keeps :
      (w : ports.World) (intent : Intent) (p : Option ReplayResponse) (held r : Record)
      (rs : List Record)
      → Inv w
      → IsEntitled lib principal command held
      → validate_replay lib p intent held ≡ inr (r ∷ rs)
      → Inv (ports.install_historical w intent r).0
  pub install_snapshot_keeps :
      (w : ports.World) (intent : Intent) (p : Option SnapshotResponse) (s : Snapshot)
      (held : Record)
      → Inv w
      → IsEntitled lib principal command held
      → validate_snapshot p intent held ≡ inr s
      → Inv (ports.install_snapshot w intent s held).0
