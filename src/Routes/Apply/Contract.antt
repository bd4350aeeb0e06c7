-- ===== src/Routes/Apply/Contract.antt =====
-- The calls that the projector of internal/routeprojection/projector.go makes, and what its store may
-- rely on in each.
use relaypoint.Common.{
  ℕ, String, ◌≡◌, ◌⊎◌, inl, inr, List, [], ◌∷◌, Option, some, true, ◌&&◌, ◌==◌, eqb, eqb_iff,
  eq_iff, arith, Bool-cases,
}
use relaypoint.Routes.Facts.{
  RouteFact, FactIdentity, FoldedState, Projection, ReconcileIntent, Snapshot, AuthorizationBinding,
  Fault, Library, fact_ringing, visible, is_uuid_v7, is_valid_fact, hash_route_fact,
  is_valid_snapshot, fold_batch,
}
use relaypoint.Routes.Apply.{Ports, snapshot_fact, same_key, holds_fact}

-- A predicate of bindings: tenant, authorization, interaction and receipt.
abbrev pub Binding : Type 1
Binding = String → String → String → String → Type 0

abbrev pub IsBound : Binding → RouteFact → Type 0
IsBound Bound f =
    f.kind ≡ fact_ringing
    → Bound f.tenant_id f.delivery_authorization_id f.interaction_id f.receipt_id

abbrev pub AreBound : Binding → List RouteFact → Type 0
AreBound Bound [] = Unit {0}
AreBound Bound (f ∷ fs) = IsBound Bound f × AreBound Bound fs

-- Each of the facts is of the tenant and the interaction of the held one.
abbrev pub HaveKey : RouteFact → List RouteFact → Type 0
HaveKey held [] = Unit {0}
HaveKey held (f ∷ fs) =
    (f.tenant_id ≡ held.tenant_id) × (f.interaction_id ≡ held.interaction_id) × HaveKey held fs

-- The fact has the version, the event and the content of the held one.
abbrev pub IsHeld : Library → RouteFact → RouteFact → Type 0
IsHeld lib held f =
    (f.version ≡ held.version)
    × (f.event_id ≡ held.event_id)
    × (hash_route_fact lib f ≡ hash_route_fact lib held)

-- One of the facts is the held one.
abbrev pub Carry : Library → RouteFact → List RouteFact → Type 0
Carry lib held [] = ⊥
Carry lib held (f ∷ fs) = IsHeld lib held f ⊎ Carry lib held fs

pub same_key-HaveKey :
    (lib : Library) (ports : Ports) (held : RouteFact) (fs : List RouteFact)
    → same_key lib ports held fs ≡ true
    → HaveKey held fs
unfolding same_key
same_key-HaveKey lib ports held [] h = tt
same_key-HaveKey lib ports held (f ∷ fs) h = (
  ground (arith, eq_iff f.tenant_id held.tenant_id),
  ground (arith, eq_iff f.interaction_id held.interaction_id),
  same_key-HaveKey lib ports held fs (ground arith),
)

pub IsHeld-of_tests :
    (lib : Library) (held f : RouteFact)
    → (eqb f.version held.version
        && f.event_id == held.event_id
        && hash_route_fact lib f == hash_route_fact lib held)
      ≡ true
    → IsHeld lib held f
IsHeld-of_tests lib held f h = (
  ground (arith, eqb_iff f.version held.version),
  ground (arith, eq_iff f.event_id held.event_id),
  ground (arith, eq_iff (hash_route_fact lib f) (hash_route_fact lib held)),
)

pub holds_fact-Carry :
    (lib : Library) (ports : Ports) (held : RouteFact) (fs : List RouteFact)
    → holds_fact lib ports held fs ≡ true
    → Carry lib held fs
unfolding holds_fact
holds_fact-Carry lib ports held [] h = absurd (cc)
holds_fact-Carry lib ports held (f ∷ fs) h =
    elim (Bool-cases (
      eqb f.version held.version
      && f.event_id == held.event_id
      && hash_route_fact lib f == hash_route_fact lib held)) [
        | inl e ↦ inl (IsHeld-of_tests lib held f e)
        | inr e ↦ inr (holds_fact-Carry lib ports held fs (let g = rw e at h in g))
      ]

-- The reconciliation of the held fact that `apply` asks the store to begin: the fact is valid, and the
-- intent names it and its place behind the loaded projection.
pub record IsIntent (lib : Library) (held : RouteFact) (p : Projection) (intent : ReconcileIntent)
    : Type 0 where
  pub valid : is_valid_fact lib held ≡ true
  pub token : is_uuid_v7 lib intent.token ≡ true
  pub tenant : intent.tenant_id ≡ held.tenant_id
  pub interaction : intent.interaction_id ≡ held.interaction_id
  pub observed : intent.observed_version ≡ p.state.version
  pub to : intent.requested_to ≡ held.version
  pub event : intent.held_event_id ≡ held.event_id
  pub hash : intent.held_hash ≡ hash_route_fact lib held

-- What a store may rely on in each call that the application of the fact `held` makes. `Inv` is any
-- property of the world that such calls keep; `Loaded p` says that `load` gave `p`; `Begun intent` that
-- the store began that reconciliation of the fact; and
-- `Bound tenant authorization interaction receipt` that `authorization` gave that binding.
pub record Contract (lib : Library) (ports : Ports) (held : RouteFact) : Type 1 where
  pub Inv : ports.World → Type 0
  pub Loaded : Projection → Type 0
  pub Begun : ReconcileIntent → Type 0
  pub Bound : Binding
  pub load_keeps : (w : ports.World) (t i : String) (v : ℕ) → Inv w → Inv (ports.load w t i v).0
  pub load_gives :
      (w : ports.World) (p : Projection) (r : Option FactIdentity)
      → (ports.load w held.tenant_id held.interaction_id held.version).1 ≡ inr (p, r)
      → Loaded p
  pub authorization_keeps :
      (w : ports.World) (t a : String) → Inv w → Inv (ports.authorization w t a).0
  pub authorization_gives :
      (w : ports.World) (t a : String) (b : AuthorizationBinding)
      → (ports.authorization w t a).1 ≡ inr (some b)
      → Bound t a b.interaction_id b.receipt_id
  pub begin_keeps :
      (w : ports.World) (p : Projection) (intent : ReconcileIntent)
      → Inv w
      → Loaded p
      → IsIntent lib held p intent
      → Inv (ports.begin_reconcile w intent).0
  pub begin_gives :
      (w : ports.World) (p : Projection) (intent begun : ReconcileIntent)
      → Loaded p
      → IsIntent lib held p intent
      → (ports.begin_reconcile w intent).1 ≡ inr (begun, true)
      → Begun begun
  pub replay_keeps :
      (w : ports.World) (from to : ℕ)
      → Inv w
      → Inv (ports.replay_route_facts w held.tenant_id held.interaction_id from to).0
  pub snapshot_keeps :
      (w : ports.World)
      → Inv w
      → Inv (ports.get_route_snapshot w held.tenant_id held.interaction_id).0
  pub poison_keeps :
      (w : ports.World) (e : Fault)
      → Inv w
      → is_valid_fact lib held ≡ true
      → Inv (ports.record_poison w held e).0
  pub install_batch_keeps :
      (w : ports.World) (p : Projection) (st : FoldedState)
      → Inv w
      → Loaded p
      → fold_batch lib p (held ∷ []) ≡ some st
      → IsBound Bound held
      → Inv (ports.install_batch w p.state.version (held ∷ []) st).0
  pub install_reconcile_keeps :
      (w : ports.World) (intent : ReconcileIntent) (p : Projection) (fs : List RouteFact)
      (st : FoldedState)
      → Inv w
      → Loaded p
      → Begun intent
      → fold_batch lib p fs ≡ some st
      → AreBound Bound fs
      → HaveKey held fs
      → Carry lib held fs
      → Inv (ports.install_reconcile_batch w intent fs st).0
  pub install_history_keeps :
      (w : ports.World) (intent : ReconcileIntent) (f : RouteFact)
      → Inv w
      → Begun intent
      → IsBound Bound f
      → IsHeld lib held f
      → Inv (ports.install_historical_identity w intent f).0
  pub install_snapshot_keeps :
      (w : ports.World) (intent : ReconcileIntent) (s : Snapshot)
      → Inv w
      → Begun intent
      → is_valid_snapshot lib s intent held ≡ true
      → (s.projection.state.visibility ≡ visible → IsBound Bound (snapshot_fact lib ports s))
      → Inv (ports.install_snapshot_and_audit w intent s held).0
