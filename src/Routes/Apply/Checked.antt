-- ===== src/Routes/Apply/Checked.antt =====
-- What the checks of internal/routeprojection/projector.go find before it installs the next fact, and what
-- its calls keep.
use relaypoint.Common.{
  ◌≡◌, refl, subst, inl, inr, List, [], ◌∷◌, Option, none, some, Bool, true, false, ◌&&◌, ◌==◌, eqb,
  eqb_iff, eq_iff, arith, if◌then◌else◌, Bool-cases, Option-cases,
}
use relaypoint.Routes.Facts.{
  RouteFact, Projection, AuthorizationBinding, Fault, Library, divergent_history, fact_ringing,
  is_valid_fact, fold_batch,
}
use relaypoint.Routes.Apply.{
  Answer, Ports, Outcome, ApplyResult, finish, check_binding, validate_authorization_bindings,
  diverge, install_next,
}
use relaypoint.Routes.Apply.Contract.{Contract, AreBound}

module _ (lib : Library) (ports : Ports) (held : RouteFact) (c : Contract lib ports held) where
  open ports use {World}
  open c use {Inv, Loaded, Bound}

  pub if_Inv :
      (b : Bool) (x y : Outcome World)
      → (b ≡ true → Inv x.world)
      → (b ≡ false → Inv y.world)
      → Inv (if b then x else y).world
  if_Inv true x y hx hy = hx refl
  if_Inv false x y hx hy = hy refl

  pub finish-Inv :
      (r : ApplyResult) (w : World) (b : Answer Bool) → Inv w → Inv (finish lib ports r w b).world
  finish-Inv r w (inl e) v = v
  finish-Inv r w (inr true) v = v
  finish-Inv r w (inr false) v = v

  -- The check keeps the invariant, and where it finds no fault each ringing fact has its binding.
  pub record IsChecked (fs : List RouteFact) (out : World × Option Fault) : Type 0 where
    pub kept : Inv out.0
    pub bound : out.1 ≡ none → AreBound Bound fs

  check_binding-IsChecked :
      (f : RouteFact) (fs : List RouteFact) (w : World) (a : Answer (Option AuthorizationBinding))
      (rest : World × Option Fault)
      → Inv w
      → ((b : AuthorizationBinding)
          → a ≡ inr (some b)
          → Bound f.tenant_id f.delivery_authorization_id b.interaction_id b.receipt_id)
      → IsChecked fs rest
      → IsChecked (f ∷ fs) (check_binding lib ports f w a rest)
  check_binding-IsChecked f fs w (inl e) rest v g k = record { kept = v; bound = λ n. cc }
  check_binding-IsChecked f fs w (inr none) rest v g k = record { kept = v; bound = λ n. cc }
  check_binding-IsChecked f fs w (inr (some b)) rest v g k =
      elim (Bool-cases (b.interaction_id == f.interaction_id && b.receipt_id == f.receipt_id)) [
        | inl e ↦
            let i : b.interaction_id ≡ f.interaction_id =
              ground (arith, eq_iff b.interaction_id f.interaction_id) in
            let r : b.receipt_id ≡ f.receipt_id =
              ground (arith, eq_iff b.receipt_id f.receipt_id) in
            rw e (record {
              kept = k.kept;
              bound = λ n. (
                λ _.
                    subst (λ x. Bound f.tenant_id f.delivery_authorization_id x f.receipt_id) i
                      (subst (Bound f.tenant_id f.delivery_authorization_id b.interaction_id) r
                        (g b refl)),
                k.bound n,
              );
            })
        | inr e ↦ rw e (record { kept = v; bound = λ n. cc })
      ]

  pub validate-IsChecked :
      (w : World) (fs : List RouteFact)
      → Inv w
      → IsChecked fs (validate_authorization_bindings lib ports w fs)
  unfolding validate_authorization_bindings
  validate-IsChecked w [] v = record { kept = v; bound = λ e. tt }
  validate-IsChecked w (f ∷ fs) v =
      let w' = (ports.authorization w f.tenant_id f.delivery_authorization_id).0 in
      let v' = c.authorization_keeps w f.tenant_id f.delivery_authorization_id v in
      elim (Bool-cases (eqb f.kind fact_ringing)) [
        | inl e ↦ rw e (
            check_binding-IsChecked f fs w' _ _ v'
              (c.authorization_gives w f.tenant_id f.delivery_authorization_id)
              (validate-IsChecked w' fs v'))
        | inr e ↦
            let k = validate-IsChecked w fs v in
            rw e (record {
              kept = k.kept;
              bound = λ n. (λ q. absurd (ground (arith, eqb_iff f.kind fact_ringing)), k.bound n);
            })
      ]

  pub diverge-Inv :
      (w : World) → Inv w → is_valid_fact lib held ≡ true → Inv (diverge lib ports w held).world
  unfolding diverge
  diverge-Inv w v o = elim (Option-cases (ports.record_poison w held divergent_history).1) [
    | inl e ↦ rw (e, diverge) (c.poison_keeps w divergent_history v o)
    | inr (x, e) ↦ rw (e, diverge) (c.poison_keeps w divergent_history v o)
  ]

  pub install_next-Inv :
      (w : World) (p : Projection) → Inv w → Loaded p → Inv (install_next lib ports w p held).world
  unfolding install_next
  install_next-Inv w p v l =
      let k = validate-IsChecked w (held ∷ []) v in
      elim (Option-cases (validate_authorization_bindings lib ports w (held ∷ [])).1) [
        | inr (x, e) ↦ rw (e, install_next) k.kept
        | inl e ↦ elim (Option-cases (fold_batch lib p (held ∷ []))) [
          | inl n ↦ rw (e, n, install_next) k.kept
          | inr (st, n) ↦
              rw (e, n, install_next)
                (finish-Inv _ _ _ (c.install_batch_keeps _ p st k.kept l n (k.bound e).0))
        ]
      ]
