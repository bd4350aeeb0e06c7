-- ===== src/Routes/Apply/Guarded.antt =====
-- Every call that `Apply` of internal/routeprojection/projector.go makes is one that the store may rely
-- on.
use relaypoint.Common.{
  ℕ, ◌≡◌, refl, inl, inr, List, [], ◌∷◌, Option, none, some, Bool, true, false, not, ◌&&◌, ◌==◌,
  eqb, eqb_iff, eq_iff, leb, ltb, arith, if◌then◌else◌, next64, Bool-cases, Option-cases, Sum-cases,
}
use relaypoint.Routes.Facts.{
  RouteFact, FactIdentity, Projection, ReconcileIntent, ReplayResult, Snapshot, Library, visible,
  is_uuid_v7, is_valid_fact, hash_route_fact, is_valid_snapshot, fold_batch,
}
use relaypoint.Routes.Apply.{
  Ports, Outcome, ApplyResult, finish, validate_authorization_bindings, diverge, snapshot_fact,
  check_snapshot, snapshot_unknown, install_history, same_key, holds_fact, reaches, install_replay,
  is_unknown, replay, reconcile, is_retained, apply_to, apply, failed, done,
}
use relaypoint.Routes.Apply.Contract.{
  Contract, IsIntent, IsBound, same_key-HaveKey, holds_fact-Carry,
}
use relaypoint.Routes.Apply.Checked.{
  if_Inv, finish-Inv, validate-IsChecked, diverge-Inv, install_next-Inv,
}

module _ (lib : Library) (ports : Ports) (held : RouteFact) (c : Contract lib ports held) where
  open ports use {World}
  open c use {Inv, Loaded, Begun, Bound}

  abbrev Keeps : Outcome World → Type 0
  Keeps out = Inv out.world

  check_snapshot-Inv :
      (w : World) (s : Snapshot)
      → Inv w
      → Inv (check_snapshot lib ports w s).0
        × ((check_snapshot lib ports w s).1 ≡ none
            → s.projection.state.visibility ≡ visible
            → IsBound Bound (snapshot_fact lib ports s))
  unfolding check_snapshot
  check_snapshot-Inv w s v =
      let k = validate-IsChecked lib ports held c w (snapshot_fact lib ports s ∷ []) v in
      elim (Bool-cases (eqb s.projection.state.visibility visible)) [
        | inl e ↦ rw e (k.kept, λ n _. (k.bound n).0)
        | inr e ↦
            rw e (v, λ n q. absurd (ground (arith, eqb_iff s.projection.state.visibility visible)))
      ]

  snapshot_unknown-Inv :
      (w : World) (intent : ReconcileIntent)
      → Inv w
      → Begun intent
      → Inv (snapshot_unknown lib ports w intent held).world
  unfolding snapshot_unknown
  snapshot_unknown-Inv w intent v g =
      let v' = c.snapshot_keeps w v in
      let w' = (ports.get_route_snapshot w held.tenant_id held.interaction_id).0 in
      elim (Sum-cases (ports.get_route_snapshot w held.tenant_id held.interaction_id).1) [
        | inl (x, e) ↦ rw (e, snapshot_unknown) v'
        | inr (s, e) ↦
            let (k, b) = check_snapshot-Inv w' s v' in
            rw (e, snapshot_unknown)
              (if_Inv lib ports held c (is_valid_snapshot lib s intent held) _ _
                (λ h. checked w' s h k b) (λ h. v'))
      ]
    where
      checked :
          (w : World) (s : Snapshot)
          → is_valid_snapshot lib s intent held ≡ true
          → Inv (check_snapshot lib ports w s).0
          → ((check_snapshot lib ports w s).1 ≡ none
              → s.projection.state.visibility ≡ visible
              → IsBound Bound (snapshot_fact lib ports s))
          → Keeps (elim (check_snapshot lib ports w s).1 [
            | some x ↦ failed lib ports (check_snapshot lib ports w s).0 x
            | none ↦
                finish lib ports ApplyResult.audited_unknown_history
                  (ports.install_snapshot_and_audit
                    (check_snapshot lib ports w s).0
                    intent
                    s
                    held).0
                  (ports.install_snapshot_and_audit
                    (check_snapshot lib ports w s).0
                    intent
                    s
                    held).1
          ])
      checked w s h k b = elim (Option-cases (check_snapshot lib ports w s).1) [
        | inl e ↦
            rw e
              (finish-Inv lib ports held c _ _ _ (c.install_snapshot_keeps _ intent s k g h (b e)))
        | inr (x, e) ↦ rw e k
      ]

  install_history-Inv :
      (w : World) (intent : ReconcileIntent) (fs : List RouteFact)
      → Inv w
      → Begun intent
      → is_valid_fact lib held ≡ true
      → Inv (install_history lib ports w intent held fs).world
  unfolding install_history
  install_history-Inv w intent [] v u o = v
  install_history-Inv w intent (f ∷ g ∷ fs) v u o = v
  install_history-Inv w intent (f ∷ []) v u o =
      if_Inv lib ports held c (not (eqb f.version held.version)) _ _ (λ _. v)
        λ n.
          if_Inv lib ports held c
            (f.event_id == held.event_id && hash_route_fact lib f == hash_route_fact lib held) _ _
            (λ q.
              let k = validate-IsChecked lib ports held c w (f ∷ []) v in
              let a : f.version ≡ held.version = ground (arith, eqb_iff f.version held.version) in
              let b : f.event_id ≡ held.event_id =
                ground (arith, eq_iff f.event_id held.event_id) in
              let d : hash_route_fact lib f ≡ hash_route_fact lib held =
                ground (arith, eq_iff (hash_route_fact lib f) (hash_route_fact lib held)) in
              elim (Option-cases (validate_authorization_bindings lib ports w (f ∷ [])).1) [
                | inl e ↦ rw e (
                    finish-Inv lib ports held c _ _ _
                      (c.install_history_keeps _ intent f k.kept u (k.bound e).0 (a, b, d)))
                | inr (x, e) ↦ rw e k.kept
              ])
            (λ _. diverge-Inv lib ports held c w v o)

  install_replay-Inv :
      (w : World) (intent : ReconcileIntent) (p : Projection) (r : ReplayResult)
      → Inv w
      → Loaded p
      → Begun intent
      → Inv (install_replay lib ports w intent p held r).world
  unfolding install_replay
  install_replay-Inv w intent p r v l u =
      if_Inv lib ports held c (same_key lib ports held r.facts) _ _
        (λ s.
          let k = validate-IsChecked lib ports held c w r.facts v in
          elim (Option-cases (validate_authorization_bindings lib ports w r.facts).1) [
            | inr (x, e) ↦ rw e k.kept
            | inl e ↦ elim (Option-cases (fold_batch lib p r.facts)) [
              | inl n ↦ rw (e, n) k.kept
              | inr (st, n) ↦
                  rw (e, n)
                    (if_Inv lib ports held c
                      (reaches lib ports held r && holds_fact lib ports held r.facts) _ _
                      (λ q. finish-Inv lib ports held c _ _ _ (
                        c.install_reconcile_keeps _ intent p r.facts st k.kept l u n (k.bound e)
                          (same_key-HaveKey lib ports held r.facts s)
                          (holds_fact-Carry lib ports held r.facts (ground arith))))
                      (λ _. k.kept))
            ]
          ])
        (λ _. v)

  replay-Inv :
      (w : World) (intent : ReconcileIntent) (p : Projection) (historical : Bool) (from to : ℕ)
      → Inv w
      → Loaded p
      → Begun intent
      → is_valid_fact lib held ≡ true
      → Inv (replay lib ports w intent p held historical from to).world
  unfolding replay
  replay-Inv w intent p historical from to v l u o =
      let v' = c.replay_keeps w from to v in
      elim (Sum-cases (ports.replay_route_facts w held.tenant_id held.interaction_id from to).1) [
        | inl (x, e) ↦
            rw (e, replay)
              (if_Inv lib ports held c (is_unknown lib ports x) _ _
                (λ _. snapshot_unknown-Inv _ intent v' u) (λ _. v'))
        | inr (r, e) ↦
            rw (e, replay)
              (if_Inv lib ports held c historical _ _
                (λ _. install_history-Inv _ intent r.facts v' u o)
                (λ _. install_replay-Inv _ intent p r v' l u))
      ]

  reconcile-Inv :
      (w : World) (p : Projection) (historical : Bool)
      → Inv w
      → Loaded p
      → is_valid_fact lib held ≡ true
      → Inv (reconcile lib ports w p held historical).world
  unfolding reconcile
  reconcile-Inv w p historical v l o =
      if_Inv lib ports held c (is_uuid_v7 lib (ports.new_id w)) _ _
        (λ q. begun _ (intended q) (c.begin_keeps w p _ v l (intended q))) (λ _. v)
    where
      intended :
          is_uuid_v7 lib (ports.new_id w) ≡ true
          → IsIntent lib held p (record {
            token = ports.new_id w;
            tenant_id = held.tenant_id;
            interaction_id = held.interaction_id;
            observed_version = p.state.version;
            requested_from = if historical then held.version else next64 p.state.version;
            requested_to = held.version;
            held_event_id = held.event_id;
            held_hash = hash_route_fact lib held;
          })
      intended q = record {
        valid = o;
        token = q;
        tenant = refl;
        interaction = refl;
        observed = refl;
        to = refl;
        event = refl;
        hash = refl;
      }

      begun :
          (intent : ReconcileIntent)
          → IsIntent lib held p intent
          → Inv (ports.begin_reconcile w intent).0
          → Keeps (elim (ports.begin_reconcile w intent).1 [
            | inl e ↦ failed lib ports (ports.begin_reconcile w intent).0 e
            | inr (b, started) ↦
                if started
                then replay lib ports
                    (ports.begin_reconcile w intent).0
                    b
                    p
                    held
                    historical
                    (if historical then held.version else next64 p.state.version)
                    held.version
                else done lib ports
                    (ports.begin_reconcile w intent).0
                    ApplyResult.compare_and_set_lost
          ])
      begun intent i k = elim (Sum-cases (ports.begin_reconcile w intent).1) [
        | inl (x, e) ↦ rw e k
        | inr ((b, started), e) ↦ rw e (
            if_Inv lib ports held c started _ _
              (λ q.
                replay-Inv _ b p historical _ _ k l (c.begin_gives w p intent b l i (rw q at e)) o)
              (λ _. k))
      ]

  known-Inv :
      (w : World) (p : Projection) (retained : Option FactIdentity)
      → Inv w
      → Loaded p
      → is_valid_fact lib held ≡ true
      → Keeps (elim retained [
        | none ↦ reconcile lib ports w p held true
        | some r ↦
            if is_retained lib ports held r
            then done lib ports w ApplyResult.duplicate
            else diverge lib ports w held
      ])
  known-Inv w p none v l o = reconcile-Inv w p true v l o
  known-Inv w p (some r) v l o =
      if_Inv lib ports held c (is_retained lib ports held r) _ _ (λ _. v)
        (λ _. diverge-Inv lib ports held c w v o)

  apply_to-Inv :
      (w : World) (p : Projection) (retained : Option FactIdentity)
      → Inv w
      → Loaded p
      → is_valid_fact lib held ≡ true
      → Inv (apply_to lib ports w p retained held).world
  unfolding apply_to
  apply_to-Inv w p retained v l o =
      if_Inv lib ports held c (leb held.version p.state.version) _ _
        (λ _. known-Inv w p retained v l o)
        λ _.
          if_Inv lib ports held c (ltb (next64 p.state.version) held.version) _ _
            (λ _. reconcile-Inv w p false v l o) (λ _. install_next-Inv lib ports held c w p v l)

  -- Whatever the store, the router and other writers do: a property of the world that the store keeps
  -- in the calls that the contract allows for the fact is kept by the `apply` of this fact. So `apply`
  -- installs the fact itself only on the projection that was loaded, only when it folds on it, and only
  -- when it has the binding that the store gave for it if it is ringing; it begins a reconciliation only
  -- of this fact and only when it is valid. In a reconciliation that was begun it installs only a batch
  -- that folds, is bound, has the fact's key in each of its facts and has one with the fact's version,
  -- event and hash; only a historical identity with the fact's own version, event and hash; and only a
  -- snapshot that has passed its checks against the fact and, when it is visible, has its binding.
  pub apply-IsGuarded : (w : World) → Inv w → Inv (apply lib ports w held).world
  unfolding apply
  apply-IsGuarded w v =
      if_Inv lib ports held c (is_valid_fact lib held) _ _
        (λ o.
          let v' = c.load_keeps w held.tenant_id held.interaction_id held.version v in
          elim (Sum-cases (ports.load w held.tenant_id held.interaction_id held.version).1) [
            | inl (x, e) ↦ rw e v'
            | inr ((p, retained), e) ↦
                rw e (apply_to-Inv _ p retained v' (c.load_gives w p retained e) o)
          ])
        (λ _. v)
