-- ===== src/Participants/Apply/Guarded.antt =====
-- Every call that `Apply` of internal/participation/projector.go makes is one that the store may rely
-- on.
use relaypoint.Common.{
  ◌≡◌, refl, inl, inr, List, [], ◌∷◌, Option, none, some, Bool, true, false, not, ◌||◌, ◌==◌, ◌⊎◌,
  eq_iff, arith, leb, ltb, if◌then◌else◌, next64, Sum-cases, Option-cases, Bool-cases,
}
use relaypoint.Participants.Records.{
  ParticipationCommand, Identity, Record, Fold, Refusal, Library, is_uuidv7, canonical,
  same_identity, fold_records,
}
use relaypoint.Participants.Replay.{
  Key, Intent, ReplayResponse, SnapshotResponse, Snapshot, validate_replay, validate_snapshot,
}
use relaypoint.Participants.Apply.{
  Failure, Answer, Ports, Principal, Result, Outcome, capability_write, valid_transport_grant,
  is_unknown, finish, exhaust, fail_reconcile, take_snapshot, snapshot, take_folded,
  take_historical, take_replay, replay, take_begun, reconcile, diverge, apply_known, apply_next,
  apply_to, take_loaded, apply_record, apply,
}
use relaypoint.Participants.Apply.Contract.{Contract, IsEntitled}

module _ (lib : Library) (ports : Ports) (principal : Principal) (command : ParticipationCommand)
    (c : Contract lib ports principal command) where
  open ports use {World}
  open c use {Inv, Loaded}

  abbrev Keeps : Outcome World → Type 0
  Keeps out = Inv out.world

  abbrev IsOwn : Record → Type 0
  IsOwn = IsEntitled lib principal command

  if_Inv :
      (b : Bool) (x y : Outcome World)
      → (b ≡ true → Keeps x)
      → (b ≡ false → Keeps y)
      → Keeps (if b then x else y)
  if_Inv true x y hx hy = hx refl
  if_Inv false x y hx hy = hy refl

  finish-Inv : (r : Result) (x : World × Answer Bool) → Inv x.0 → Keeps (finish lib ports r x)
  finish-Inv r (w, inl e) v = v
  finish-Inv r (w, inr true) v = v
  finish-Inv r (w, inr false) v = v

  exhaust-Inv : (e : Failure) (x : World × Answer Bool) → Inv x.0 → Keeps (exhaust lib ports e x)
  exhaust-Inv e (w, inl x) v = v
  exhaust-Inv e (w, inr true) v = v
  exhaust-Inv e (w, inr false) v = v

  fail_reconcile-Inv :
      (w : World) (intent : Intent) (held : Record) (e : Failure)
      → Inv w
      → IsOwn held
      → Keeps (fail_reconcile lib ports w intent held e)
  unfolding fail_reconcile
  fail_reconcile-Inv w intent held e v o =
      exhaust-Inv e (ports.fail_reconcile w intent held e) (c.fail_keeps w intent held e v o)

  diverge-Inv : (x : World × Option Failure) → Inv x.0 → Keeps (diverge lib ports x)
  diverge-Inv (w, none) v = v
  diverge-Inv (w, some e) v = v

  take_snapshot-Inv :
      (w : World) (intent : Intent) (p : Option SnapshotResponse) (held : Record)
      (x : Refusal ⊎ Snapshot)
      → Inv w
      → IsOwn held
      → validate_snapshot p intent held ≡ x
      → Keeps (take_snapshot lib ports w intent held x)
  take_snapshot-Inv w intent p held (inl e) v o q = v
  take_snapshot-Inv w intent p held (inr s) v o q =
      finish-Inv Result.audited_snapshot (ports.install_snapshot w intent s held)
        (c.install_snapshot_keeps w intent p s held v o q)

  snapshot-Inv :
      (w : World) (intent : Intent) (held : Record)
      → Inv w
      → IsOwn held
      → Keeps (snapshot lib ports w intent held)
  unfolding snapshot
  snapshot-Inv w intent held v o =
      let v' = c.snapshot_keeps w intent v in
      elim (Sum-cases (ports.snapshot w intent).1) [
        | inl (x, e) ↦ rw (e, snapshot) (fail_reconcile-Inv _ intent held x v' o)
        | inr (p, e) ↦ rw (e, snapshot) (take_snapshot-Inv _ intent p held _ v' o refl)
      ]

  take_folded-Inv :
      (w : World) (intent : Intent) (p : Option ReplayResponse) (held : Record) (rs : List Record)
      (f : Fold) (x : Option Fold)
      → Inv w
      → Loaded f
      → IsOwn held
      → validate_replay lib p intent held ≡ inr rs
      → fold_records f rs ≡ x
      → Keeps (take_folded lib ports w intent rs x)
  take_folded-Inv w intent p held rs f none v l o q n = v
  take_folded-Inv w intent p held rs f (some g) v l o q n =
      finish-Inv Result.applied (ports.install_reconcile w intent rs g)
        (c.install_reconcile_keeps w intent p held rs f g v l o q n)

  take_historical-Inv :
      (w : World) (intent : Intent) (p : Option ReplayResponse) (held : Record) (rs : List Record)
      → Inv w
      → IsOwn held
      → validate_replay lib p intent held ≡ inr rs
      → Keeps (take_historical lib ports w intent rs)
  take_historical-Inv w intent p held [] v o q = v
  take_historical-Inv w intent p held (r ∷ rs) v o q =
      finish-Inv Result.duplicate (ports.install_historical w intent r)
        (c.install_historical_keeps w intent p held r rs v o q)

  take_replay-Inv :
      (w : World) (intent : Intent) (p : Option ReplayResponse) (held : Record) (f : Fold)
      (historical : Bool) (x : Refusal ⊎ List Record)
      → Inv w
      → Loaded f
      → IsOwn held
      → validate_replay lib p intent held ≡ x
      → Keeps (take_replay lib ports w intent f historical x)
  take_replay-Inv w intent p held f historical (inl e) v l o q = v
  take_replay-Inv w intent p held f historical (inr rs) v l o q =
      if_Inv historical _ _ (λ _. take_historical-Inv w intent p held rs v o q)
        (λ _. take_folded-Inv w intent p held rs f _ v l o q refl)

  replay-Inv :
      (w : World) (intent : Intent) (f : Fold) (held : Record) (historical : Bool)
      → Inv w
      → Loaded f
      → IsOwn held
      → Keeps (replay lib ports w intent f held historical)
  unfolding replay
  replay-Inv w intent f held historical v l o =
      let v' = c.replay_keeps w intent v in
      elim (Sum-cases (ports.replay w intent).1) [
        | inl (x, e) ↦
            rw (e, replay)
              (if_Inv (is_unknown x) _ _ (λ _. snapshot-Inv _ intent held v' o)
                (λ _. fail_reconcile-Inv _ intent held x v' o))
        | inr (p, e) ↦ rw (e, replay) (take_replay-Inv _ intent p held f historical _ v' l o refl)
      ]

  take_begun-Inv :
      (w : World) (f : Fold) (held : Record) (historical : Bool) (a : Answer (Intent × Bool))
      → Inv w
      → Loaded f
      → IsOwn held
      → Keeps (take_begun lib ports w f held historical a)
  take_begun-Inv w f held historical (inl e) v l o = v
  take_begun-Inv w f held historical (inr (intent, true)) v l o =
      replay-Inv w intent f held historical v l o
  take_begun-Inv w f held historical (inr (intent, false)) v l o = v

  reconcile-Inv :
      (w : World) (f : Fold) (held : Record) (historical : Bool)
      → Inv w
      → Loaded f
      → IsOwn held
      → Keeps (reconcile lib ports w f held historical)
  unfolding reconcile
  reconcile-Inv w f held historical v l o =
      let v' = c.begin_keeps w _ held v o in
      if_Inv (is_uuidv7 (ports.new_id w)) _ _ (λ _. take_begun-Inv _ f held historical _ v' l o)
        (λ _. v)

  apply_known-Inv :
      (w : World) (f : Fold) (i : Option Identity) (r : Record)
      → Inv w
      → Loaded f
      → IsOwn r
      → Keeps (apply_known lib ports w f i r)
  apply_known-Inv w f none r v l o = reconcile-Inv w f r true v l o
  apply_known-Inv w f (some i) r v l o =
      if_Inv (same_identity i r.identity) _ _ (λ _. v)
        (λ _. diverge-Inv (ports.record_poison w r) (c.poison_keeps w r v o))

  apply_next-Inv :
      (w : World) (f : Fold) (r : Record) (x : Option Fold)
      → Inv w
      → Loaded f
      → IsOwn r
      → fold_records f (r ∷ []) ≡ x
      → Keeps (apply_next lib ports w f r x)
  apply_next-Inv w f r none v l o q = v
  apply_next-Inv w f r (some k) v l o q =
      finish-Inv Result.applied (ports.install w f.version (r ∷ []) k)
        (c.install_keeps w f k r v l o q)

  apply_to-Inv :
      (w : World) (f : Fold) (i : Option Identity) (r : Record)
      → Inv w
      → Loaded f
      → IsOwn r
      → Keeps (apply_to lib ports w f i r)
  unfolding apply_to
  apply_to-Inv w f i r v l o =
      if_Inv (leb r.command.aggregate_version f.version) _ _ (λ _. apply_known-Inv w f i r v l o)
        λ _.
          if_Inv (ltb (next64 f.version) r.command.aggregate_version) _ _
            (λ _. reconcile-Inv w f r false v l o) (λ _. apply_next-Inv w f r _ v l o refl)

  take_loaded-Inv :
      (w : World) (r : Record) (a : Answer (Fold × Option Identity))
      → Inv w
      → IsOwn r
      → ((f : Fold) (i : Option Identity) → a ≡ inr (f, i) → Loaded f)
      → Keeps (take_loaded lib ports w r a)
  take_loaded-Inv w r (inl e) v o l = v
  take_loaded-Inv w r (inr (f, i)) v o l = apply_to-Inv w f i r v (l f i refl) o

  apply_record-Inv :
      (w : World) (r : Record)
      → Inv w
      → canonical lib command ≡ some r
      → Keeps (apply_record lib ports w principal r)
  apply_record-Inv w r v form =
      let key : Key = record {
        tenant_id = r.command.tenant_id;
        interaction_id = r.command.interaction_id;
      } in
      let n = r.command.aggregate_version in
      elim (Bool-cases (
        not (principal.tenant_id == r.command.tenant_id)
        || not (valid_transport_grant principal.grant capability_write))) [
          | inl e ↦ rw e v
          | inr e ↦
              let own : principal.tenant_id ≡ r.command.tenant_id =
                ground (arith, eq_iff principal.tenant_id r.command.tenant_id) in
              rw e (
                take_loaded-Inv (ports.load w key n).0 r (ports.load w key n).1
                  (c.load_keeps w key n v) (form, own, ground arith) (c.load_gives w key n))
        ]

  -- Whatever the store, the authority and other writers do: a property of the world that the store
  -- keeps in the calls that the contract allows is kept by `apply`. So every call of `apply` that writes is
  -- for the canonical form of the command that was given, and for a caller of its tenant who holds the
  -- write grant; it installs that record only when it folds on the projection that was loaded; a
  -- reconciled batch and a historical record only out of a replay that passed its checks for it; and a
  -- snapshot only when it passed its own.
  pub apply-Inv : (w : World) → Inv w → Inv (apply lib ports w principal command).world
  unfolding apply
  apply-Inv w v = elim (Option-cases (canonical lib command)) [
    | inl e ↦ rw (e, apply) v
    | inr (r, e) ↦ rw (e, apply) (apply_record-Inv w r v e)
  ]
