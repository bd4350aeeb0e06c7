-- ===== src/Routes/Fold.antt =====
-- What `FoldBatch` (internal/routeprojection/projector.go) computes, without its loop.
use relaypoint.Common.{
  ℕ, String, ◌≡◌, ◌≢◌, refl, sym, subst, ◌∙◌, ap, ◌⊎◌, List, [], ◌∷◌, ◌++◌, Option, none, some,
  true, eqb_iff, eq_iff, arith, next64,
}
use relaypoint.Routes.Facts.{
  RouteFact, FoldedState, Projection, Library, fact_ringing, fact_terminal, visible, hidden,
  is_valid_fact, hash_route_fact, fold_fact, fold_facts, fold_batch, key_for,
}

module _ (lib : Library) where
  -- Each fact is valid, of the tenant and the interaction, and one version behind the one before.
  abbrev pub IsChain : String → String → ℕ → List RouteFact → Type 0
  IsChain tenant iid v [] = Unit {0}
  IsChain tenant iid v (f ∷ fs) =
      (is_valid_fact lib f ≡ true)
      × (f.version ≡ next64 v)
      × (f.tenant_id ≡ tenant)
      × (f.interaction_id ≡ iid)
      × IsChain tenant iid f.version fs

  -- The state behind the facts: the version, the id and the hash are the last fact's; it is visible
  -- when the last fact is a ringing one; and the authorization is that of the last ringing fact.
  abbrev after : FoldedState → List RouteFact → FoldedState
  after st [] = st
  after st (f ∷ fs) = after (fold_fact lib st f) fs

  abbrev pub last_fact : RouteFact → List RouteFact → RouteFact
  last_fact f [] = f
  last_fact f (g ∷ fs) = last_fact g fs

  -- The state shows the fact `f` as the latest one.
  pub record Shows (f : RouteFact) (st : FoldedState) : Type 0 where
    pub version : st.version ≡ f.version
    pub event_id : st.event_id ≡ f.event_id
    pub hash : st.hash ≡ hash_route_fact lib f
    pub visibility :
        (st.visibility ≡ visible) × (f.kind ≡ fact_ringing)
        ⊎ (st.visibility ≡ hidden) × (f.kind ≢ fact_ringing)
    pub ringing :
        f.kind ≡ fact_ringing
        → (st.delivery_authorization_id ≡ f.delivery_authorization_id)
          × (st.receipt_id ≡ f.receipt_id)
          × (st.visibility_generation ≡ f.version)
          × (st.lease_until ≡ f.lease_until)
    pub terminal : f.kind ≡ fact_terminal → st.lease_until ≡ 0

  fold_fact-Shows :
      (st : FoldedState) (f : RouteFact) → is_valid_fact lib f ≡ true → Shows f (fold_fact lib st f)
  unfolding fold_fact is_valid_fact
  fold_fact-Shows st f h = record {
    version = ground arith;
    event_id = ground arith;
    hash = ground arith;
    visibility = ground arith;
    ringing = λ e. ground arith;
    terminal = λ e. ground arith;
  }

  version-fold_fact : (st : FoldedState) (f : RouteFact) → (fold_fact lib st f).version ≡ f.version
  unfolding fold_fact
  version-fold_fact st f = ground arith

  fold_facts-cons :
      (tenant iid : String) (st st' : FoldedState) (f : RouteFact) (fs : List RouteFact)
      → fold_facts lib tenant iid st (f ∷ fs) ≡ some st'
      → (is_valid_fact lib f ≡ true)
        × (f.version ≡ next64 st.version)
        × (f.tenant_id ≡ tenant)
        × (f.interaction_id ≡ iid)
        × (fold_facts lib tenant iid (fold_fact lib st f) fs ≡ some st')
  unfolding fold_facts
  fold_facts-cons tenant iid st st' f fs h = ground (
    arith,
    eqb_iff f.version (next64 st.version),
    eq_iff f.tenant_id tenant,
    eq_iff f.interaction_id iid,
  )

  fold_facts-IsChain :
      (tenant iid : String) (st st' : FoldedState) (fs : List RouteFact)
      → fold_facts lib tenant iid st fs ≡ some st'
      → IsChain tenant iid st.version fs × (st' ≡ after st fs)
  unfolding fold_facts
  fold_facts-IsChain tenant iid st st' [] h = (tt, cc)
  fold_facts-IsChain tenant iid st st' (f ∷ fs) h =
      let (v, n, t, i, r) = fold_facts-cons tenant iid st st' f fs h in
      let (c, e) = fold_facts-IsChain tenant iid (fold_fact lib st f) st' fs r in
      ((v, n, t, i, subst (λ k. IsChain tenant iid k fs) (version-fold_fact st f) c), e)

  after-Shows :
      (st : FoldedState) (f : RouteFact) (fs : List RouteFact) (tenant iid : String)
      → IsChain tenant iid st.version (f ∷ fs)
      → Shows (last_fact f fs) (after st (f ∷ fs))
  after-Shows st f [] tenant iid (v, n, t, i, c) = fold_fact-Shows st f v
  after-Shows st f (g ∷ fs) tenant iid (v, n, t, i, c) =
      after-Shows (fold_fact lib st f) g fs tenant iid
        (subst (λ k. IsChain tenant iid k (g ∷ fs)) (sym (version-fold_fact st f)) c)

  -- A batch that folds, from its first fact `f` on: each fact is valid, has the key of the projection
  -- (or the first fact's, when the projection has no tenant) and the next version; and the folded
  -- state shows the last fact: its version, id and hash, visible with its authorization and lease
  -- exactly when it is a ringing one, and without a lease when it is a terminal one.
  pub fold_batch-Shows :
      (p : Projection) (f : RouteFact) (fs : List RouteFact) (st : FoldedState)
      → fold_batch lib p (f ∷ fs) ≡ some st
      → IsChain (key_for p (f ∷ fs)).0 (key_for p (f ∷ fs)).1 p.state.version (f ∷ fs)
        × Shows (last_fact f fs) st
  unfolding fold_batch
  fold_batch-Shows p f fs st h =
      let (tenant, iid) = key_for p (f ∷ fs) in
      let (c, e) = fold_facts-IsChain tenant iid p.state st (f ∷ fs) h in
      (c, subst (Shows (last_fact f fs)) (sym e) (after-Shows p.state f fs tenant iid c))

  abbrev fold_then : String → String → Option FoldedState → List RouteFact → Option FoldedState
  fold_then tenant iid none ys = none
  fold_then tenant iid (some st) ys = fold_facts lib tenant iid st ys

  fold_facts-append :
      (tenant iid : String) (st : FoldedState) (xs ys : List RouteFact)
      → fold_facts lib tenant iid st (xs ++ ys)
        ≡ fold_then tenant iid (fold_facts lib tenant iid st xs) ys
  unfolding fold_facts
  fold_facts-append tenant iid st [] ys = refl
  fold_facts-append tenant iid st (f ∷ xs) ys =
      ground (arith, fold_facts-append tenant iid (fold_fact lib st f) xs ys)

  -- The projection that holds a folded state.
  abbrev pub installed : Projection → List RouteFact → FoldedState → Projection
  installed p fs st = record p {
    tenant_id = (key_for p fs).0;
    interaction_id = (key_for p fs).1;
    state = st;
  }

  key_for-installed :
      (p : Projection) (f : RouteFact) (xs ys : List RouteFact) (st : FoldedState)
      → f.tenant_id ≢ ""
      → key_for (installed p (f ∷ xs) st) ys ≡ key_for p (f ∷ xs)
  unfolding key_for
  key_for-installed p f xs [] st n = refl
  key_for-installed p f xs (g ∷ ys) st n =
      ground (arith, eq_iff p.tenant_id "", eq_iff f.tenant_id "")

  -- Batching does not matter: two batches one behind the other fold to what their concatenation folds
  -- to, when the first one folds, is not empty, and the facts' tenant is not the empty text.
  pub fold_batch-append :
      (p : Projection) (f : RouteFact) (xs ys : List RouteFact) (st : FoldedState)
      → f.tenant_id ≢ ""
      → fold_batch lib p (f ∷ xs) ≡ some st
      → fold_batch lib p (f ∷ xs ++ ys) ≡ fold_batch lib (installed p (f ∷ xs) st) ys
  unfolding fold_batch key_for
  fold_batch-append p f xs ys st n h =
      let key : String × String = key_for p (f ∷ xs) in
      fold_facts-append key.0 key.1 p.state (f ∷ xs) ys
      ∙ ap (λ o. fold_then key.0 key.1 o ys) h
      ∙ ap (λ (k : String × String). fold_facts lib k.0 k.1 st ys)
          (sym (key_for-installed p f xs ys st n))
