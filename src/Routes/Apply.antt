-- ===== src/Routes/Apply.antt =====
-- internal/routeprojection/projector.go: the projector, over the ports of the store and of the router.
-- Both lie outside of it: `World` is what they and the id generator read and change.
pub mod Checked
pub mod Contract
pub mod Guarded
mod Tests
use relaypoint.Common.{
  ℕ, ◌+◌, String, List, [], ◌∷◌, Option, none, some, Bool, true, false, not, ◌&&◌, ◌||◌, ◌==◌, ◌⊎◌,
  inl, inr, eqb, ltb, leb, if◌then◌else◌, next64, length,
}
use relaypoint.Routes.Facts.{
  RouteFact, FactIdentity, FoldedState, Projection, ReconcileIntent, ReplayResult, Snapshot,
  AuthorizationBinding, Fault, divergent_history, unknown_history, invalid_fact, invalid_replay,
  authorization_pending, other, Library, fact_ringing, visible, is_uuid_v7, is_valid_fact,
  hash_route_fact, is_valid_snapshot, fold_batch,
}

-- The answer of a call that can fail.
abbrev pub Answer : Type 0 → Type 0
Answer A = Fault ⊎ A

-- The store's and the router's operations and the id generator. `load` gives the projection and the
-- identity that is retained for the asked version; `authorization` is `none` where there is none.
pub record Ports : Type 1 where
  pub World : Type 0
  pub load : World → String → String → ℕ → World × Answer (Projection × Option FactIdentity)
  pub authorization : World → String → String → World × Answer (Option AuthorizationBinding)
  pub install_batch : World → ℕ → List RouteFact → FoldedState → World × Answer Bool
  pub begin_reconcile : World → ReconcileIntent → World × Answer (ReconcileIntent × Bool)
  pub install_reconcile_batch :
      World → ReconcileIntent → List RouteFact → FoldedState → World × Answer Bool
  pub install_historical_identity : World → ReconcileIntent → RouteFact → World × Answer Bool
  pub install_snapshot_and_audit :
      World → ReconcileIntent → Snapshot → RouteFact → World × Answer Bool
  pub record_poison : World → RouteFact → Fault → World × Option Fault
  pub replay_route_facts : World → String → String → ℕ → ℕ → World × Answer ReplayResult
  pub get_route_snapshot : World → String → String → World × Answer Snapshot
  pub new_id : World → String

-- `no_result` is the zero that goes with an error.
pub data ApplyResult : Type 0 where
  no_result applied duplicate compare_and_set_lost poisoned audited_unknown_history : ApplyResult

pub record Outcome (World : Type 0) : Type 0 where
  pub world : World
  pub result : ApplyResult
  pub fault : Option Fault

module _ (lib : Library) (ports : Ports) where
  open ports use {World}

  abbrev pub failed : World → Fault → Outcome World
  failed w e = record { world = w; result = no_result; fault = some e }

  abbrev pub poison_with : World → Fault → Outcome World
  poison_with w e = record { world = w; result = poisoned; fault = some e }

  abbrev pub done : World → ApplyResult → Outcome World
  done w r = record { world = w; result = r; fault = none }

  -- What an install's answer becomes.
  abbrev pub finish : ApplyResult → World → Answer Bool → Outcome World
  finish r w (inl e) = failed w e
  finish r w (inr true) = done w r
  finish r w (inr false) = done w compare_and_set_lost

  abbrev pub is_bound_to : RouteFact → Option AuthorizationBinding → Bool
  is_bound_to f none = false
  is_bound_to f (some b) = b.interaction_id == f.interaction_id && b.receipt_id == f.receipt_id

  -- The test of one ringing fact in `validateAuthorizationBindings`, and what comes behind it.
  abbrev pub check_binding :
      RouteFact
      → World
      → Answer (Option AuthorizationBinding)
      → World × Option Fault
      → World × Option Fault
  check_binding f w (inl e) rest = (w, some e)
  check_binding f w (inr b) rest = if is_bound_to f b then rest else (w, some authorization_pending)

  unfoldable pub validate_authorization_bindings : World → List RouteFact → World × Option Fault
  validate_authorization_bindings w [] = (w, none)
  validate_authorization_bindings w (f ∷ fs) =
      let (w', b) = ports.authorization w f.tenant_id f.delivery_authorization_id in
      let skipped = validate_authorization_bindings w fs in
      let checked = check_binding f w' b (validate_authorization_bindings w' fs) in
      if not (eqb f.kind fact_ringing) then skipped else checked

  -- `RecordPoison`, and the error of a divergent history.
  unfoldable pub diverge : World → RouteFact → Outcome World
  diverge w f =
      let (w', e) = ports.record_poison w f divergent_history in
      elim e [ some e' ↦ poison_with w' e' | none ↦ poison_with w' divergent_history ]

  -- The next unit of version, from the binding check on.
  unfoldable pub install_next : World → Projection → RouteFact → Outcome World
  unfolding validate_authorization_bindings
  install_next w p f =
      let (w', e) = validate_authorization_bindings w (f ∷ []) in
      elim e [
        | some e' ↦ failed w' e'
        | none ↦ elim (fold_batch lib p (f ∷ [])) [
          | none ↦ poison_with w' invalid_replay
          | some final ↦
              let (w'', b) = ports.install_batch w' p.state.version (f ∷ []) final in
              finish applied w'' b
        ]
      ]

  -- The fact that `snapshotUnknown` has checked for its binding.
  abbrev pub snapshot_fact : Snapshot → RouteFact
  snapshot_fact s = record {
    tenant_id = s.projection.tenant_id;
    interaction_id = s.projection.interaction_id;
    event_id = "";
    version = 0;
    kind = fact_ringing;
    delivery_authorization_id = s.projection.state.delivery_authorization_id;
    receipt_id = s.projection.state.receipt_id;
    visibility_generation = 0;
    lease_until = 0;
  }

  -- The binding check of a snapshot, which a hidden one needs none of.
  unfoldable pub check_snapshot : World → Snapshot → World × Option Fault
  unfolding validate_authorization_bindings
  check_snapshot w s =
      let checked = validate_authorization_bindings w (snapshot_fact s ∷ []) in
      if eqb s.projection.state.visibility visible then checked else (w, none)

  unfoldable pub snapshot_unknown : World → ReconcileIntent → RouteFact → Outcome World
  unfolding check_snapshot
  snapshot_unknown w intent held =
      let (w', a) = ports.get_route_snapshot w held.tenant_id held.interaction_id in
      elim a [
        | inl e ↦ failed w' e
        | inr s ↦
            let (w'', e) = check_snapshot w' s in
            let checked : Outcome World = elim e [
              | some e' ↦ failed w'' e'
              | none ↦
                  let (w3, b) = ports.install_snapshot_and_audit w'' intent s held in
                  finish audited_unknown_history w3 b
            ] in
            if is_valid_snapshot lib s intent held then checked else poison_with w' invalid_replay
      ]

  -- The replayed fact of a version that the projection is past.
  unfoldable pub install_history :
      World → ReconcileIntent → RouteFact → List RouteFact → Outcome World
  unfolding validate_authorization_bindings diverge
  install_history w intent held (f ∷ []) =
      let (w', e) = validate_authorization_bindings w (f ∷ []) in
      let same = f.event_id == held.event_id && hash_route_fact lib f == hash_route_fact lib held in
      let checked : Outcome World = elim e [
        | some e' ↦ failed w' e'
        | none ↦
            let (w'', b) = ports.install_historical_identity w' intent f in finish duplicate w'' b
      ] in
      if not (eqb f.version held.version)
      then poison_with w invalid_replay
      else if same
      then checked
      else diverge w held
  install_history w intent held facts = poison_with w invalid_replay

  unfoldable pub same_key : RouteFact → List RouteFact → Bool
  same_key held [] = true
  same_key held (f ∷ fs) =
      let rest = same_key held fs in
      f.tenant_id == held.tenant_id && f.interaction_id == held.interaction_id && rest

  -- The version of the last fact, `none` where there is no fact.
  unfoldable pub last_version : List RouteFact → Option ℕ
  last_version [] = none
  last_version (f ∷ []) = some f.version
  last_version (f ∷ g ∷ fs) = last_version (g ∷ fs)

  unfoldable pub holds_fact : RouteFact → List RouteFact → Bool
  holds_fact held [] = false
  holds_fact held (f ∷ fs) =
      let rest = holds_fact held fs in
      (eqb f.version held.version
        && f.event_id == held.event_id
        && hash_route_fact lib f == hash_route_fact lib held)
      || rest

  -- The tests of the replayed facts' extent.
  unfoldable pub reaches : RouteFact → ReplayResult → Bool
  unfolding last_version
  reaches held replay = elim (last_version replay.facts) [
    | none ↦ false
    | some v ↦ leb held.version v && leb v replay.router_head
  ]

  unfoldable pub install_replay :
      World → ReconcileIntent → Projection → RouteFact → ReplayResult → Outcome World
  unfolding validate_authorization_bindings same_key holds_fact reaches
  install_replay w intent p held replay =
      let (w', e) = validate_authorization_bindings w replay.facts in
      let checked : Outcome World = elim e [
        | some e' ↦ failed w' e'
        | none ↦ elim (fold_batch lib p replay.facts) [
          | none ↦ poison_with w' invalid_replay
          | some final ↦
              let (w'', b) = ports.install_reconcile_batch w' intent replay.facts final in
              if reaches held replay && holds_fact held replay.facts
              then finish applied w'' b
              else poison_with w' invalid_replay
        ]
      ] in
      if same_key held replay.facts then checked else poison_with w invalid_replay

  abbrev pub is_unknown : Fault → Bool
  is_unknown unknown_history = true
  is_unknown divergent_history = false
  is_unknown invalid_fact = false
  is_unknown invalid_replay = false
  is_unknown authorization_pending = false
  is_unknown (other n) = false

  unfoldable pub replay :
      World → ReconcileIntent → Projection → RouteFact → Bool → ℕ → ℕ → Outcome World
  unfolding install_history install_replay snapshot_unknown
  replay w intent p held historical from to =
      let (w', a) = ports.replay_route_facts w held.tenant_id held.interaction_id from to in
      elim a [
        | inl e ↦ if is_unknown e then snapshot_unknown w' intent held else failed w' e
        | inr r ↦
            if historical
            then install_history w' intent held r.facts
            else install_replay w' intent p held r
      ]

  unfoldable pub reconcile : World → Projection → RouteFact → Bool → Outcome World
  unfolding replay
  reconcile w p held historical =
      let token = ports.new_id w in
      let from = if historical then held.version else next64 p.state.version in
      let intent : ReconcileIntent = record {
        token = token;
        tenant_id = held.tenant_id;
        interaction_id = held.interaction_id;
        observed_version = p.state.version;
        requested_from = from;
        requested_to = held.version;
        held_event_id = held.event_id;
        held_hash = hash_route_fact lib held;
      } in
      let (w', a) = ports.begin_reconcile w intent in
      let begun : Outcome World = elim a [
        | inl e ↦ failed w' e
        | inr (begun, started) ↦
            if started
            then replay w' begun p held historical from held.version
            else done w' compare_and_set_lost
      ] in
      if is_uuid_v7 lib token then begun else failed w invalid_fact

  abbrev pub is_retained : RouteFact → FactIdentity → Bool
  is_retained f r = r.event_id == f.event_id && r.hash == hash_route_fact lib f

  -- What `Apply` does with the loaded projection.
  unfoldable pub apply_to : World → Projection → Option FactIdentity → RouteFact → Outcome World
  unfolding reconcile diverge install_next
  apply_to w p retained f =
      let known : Outcome World = elim retained [
        | none ↦ reconcile w p f true
        | some r ↦ if is_retained f r then done w duplicate else diverge w f
      ] in
      if leb f.version p.state.version
      then known
      else if ltb (next64 p.state.version) f.version
      then reconcile w p f false
      else install_next w p f

  unfoldable pub apply : World → RouteFact → Outcome World
  unfolding apply_to
  apply w f =
      let (w', a) = ports.load w f.tenant_id f.interaction_id f.version in
      let loaded : Outcome World = elim a [
        | inl e ↦ failed w' e
        | inr (p, retained) ↦ apply_to w' p retained f
      ] in
      if is_valid_fact lib f then loaded else poison_with w invalid_fact

  -- `Visible`, `inl` for an error.
  unfoldable pub is_visible : World → String → String → Answer Bool
  is_visible w tenant iid = elim (ports.load w tenant iid 0).1 [
    | inl e ↦ inl e
    | inr (p, retained) ↦
        if not (eqb p.state.visibility visible) || eqb p.database_now 0
        then inr false
        else inr (ltb p.database_now p.state.lease_until)
  ]
