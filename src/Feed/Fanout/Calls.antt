-- ===== src/Feed/Fanout/Calls.antt =====
-- What the publishing of internal/projector/projector.go does to the calls: it adds publishes, and no
-- other call.
use relaypoint.Common.{
  ℕ, zero, suc, ◌+◌, ◌≤◌, String, ◌≡◌, refl, inl, inr, List, [], ◌∷◌, Option, none, some, Bool,
  true, false, arith, Within, Bool-cases, Option-cases, less_int64,
}
use relaypoint.Feed.Ports.{Call, published, dead_lettered, acked, nakked, saved, Trace, Env, is_nil}
use relaypoint.Feed.Fanout.{publish_once, retries, after_first, publish_with_retry}

-- `u` is `t` with publishes added.
pub data Publishes (t : Trace) : Trace → Type 0 where
  same : Publishes t t
  more :
      {u : Trace}
      → Publishes t u
      → (tenant agent iid dedup : String) (payload : List ℕ) (ok : Bool)
      → Publishes t (published tenant agent iid dedup payload ok ∷ u)

pub Publishes-trans : {t u v : Trace} → Publishes t u → Publishes u v → Publishes t v
Publishes-trans p same = p
Publishes-trans p (more q tenant agent iid dedup payload ok) =
    more (Publishes-trans p q) tenant agent iid dedup payload ok

pub Within-Publishes : (c : Call) {t u : Trace} → Publishes t u → Within c t → Within c u
Within-Publishes c same w = w
Within-Publishes c (more p tenant agent iid dedup payload ok) w = inr (Within-Publishes c p w)

-- The calls that settle a delivery.
abbrev pub settles : Trace → ℕ
settles [] = 0
settles (published tenant agent iid dedup payload ok ∷ t) = settles t
settles (dead_lettered tenant reason id seq ok ∷ t) = settles t
settles (acked f ok ∷ t) = suc (settles t)
settles (nakked f ok ∷ t) = suc (settles t)
settles (saved seq snap ok ∷ t) = settles t

-- `publishes t u`: the publishes that `u` has.
abbrev pub publishes : Trace → ℕ
publishes [] = 0
publishes (published tenant agent iid dedup payload ok ∷ t) = suc (publishes t)
publishes (dead_lettered tenant reason id seq ok ∷ t) = publishes t
publishes (acked f ok ∷ t) = publishes t
publishes (nakked f ok ∷ t) = publishes t
publishes (saved seq snap ok ∷ t) = publishes t

pub settles-Publishes : {t u : Trace} → Publishes t u → settles u ≡ settles t
settles-Publishes same = refl
settles-Publishes (more p tenant agent iid dedup payload ok) = settles-Publishes p

-- A publish of one message: it grows the calls by publishes, and a nil error has a publish that
-- succeeded.
pub record IsSent (tenant agent iid dedup : String) (payload : List ℕ) (left : ℕ) (t : Trace)
    (out : Trace × Option String) : Type 0 where
  pub grows : Publishes t out.0
  pub succeeds : out.1 ≡ none → Within (published tenant agent iid dedup payload true) out.0
  pub bounded : publishes out.0 ≤ publishes t + left

module _ (env : Env) (tenant agent iid dedup : String) (payload : List ℕ) where
  retries-IsSent :
      (left : ℕ) (e : String) (t : Trace)
      → IsSent tenant agent iid dedup payload left t
          (retries env tenant agent iid dedup payload left (some e) t)
  unfolding retries publish_once
  retries-IsSent zero e t = record {
    grows = same;
    succeeds = λ h. absurd (cc);
    bounded = omega arith;
  }
  retries-IsSent (suc left) e t = elim (Bool-cases (env.cancelled t)) [
    | inl c ↦ rw c (record { grows = same; succeeds = λ h. absurd (cc); bounded = omega arith })
    | inr c ↦ elim (Option-cases (env.publish t tenant agent iid dedup payload)) [
      | inl n ↦
          rw (c, n)
            (record {
              grows = more same tenant agent iid dedup payload true;
              succeeds = λ _. inl refl;
              bounded = omega arith;
            })
      | inr (e', n) ↦
          let k = retries-IsSent left e' (published tenant agent iid dedup payload false ∷ t) in
          rw (c, n)
            (record {
              grows = Publishes-trans (more same tenant agent iid dedup payload false) k.grows;
              succeeds = k.succeeds;
              bounded = omega (arith, k.bounded);
            })
    ]
  ]

  after_first-IsSent :
      (left : ℕ) (t : Trace) (r : Option String)
      → IsSent tenant agent iid dedup payload (suc left) t (
          after_first env tenant agent iid dedup payload left
            (published tenant agent iid dedup payload (is_nil r) ∷ t, r))
  after_first-IsSent left t none = record {
    grows = more same tenant agent iid dedup payload true;
    succeeds = λ _. inl refl;
    bounded = omega arith;
  }
  after_first-IsSent left t (some e) =
      let k = retries-IsSent left e (published tenant agent iid dedup payload false ∷ t) in
      record {
        grows = Publishes-trans (more same tenant agent iid dedup payload false) k.grows;
        succeeds = k.succeeds;
        bounded = omega (arith, k.bounded);
      }

  -- With a positive `PublishRetry`, `publishWithRetry` makes at most that many publishes, and a nil
  -- error means that one of them succeeded.
  pub publish_with_retry-IsSent :
      (retry : ℕ) (t : Trace)
      → less_int64 0 retry ≡ true
      → IsSent tenant agent iid dedup payload retry t
          (publish_with_retry env tenant agent iid dedup payload retry t)
  unfolding publish_with_retry
  publish_with_retry-IsSent zero t h = cc
  publish_with_retry-IsSent (suc left) t h = rw h (
      unfold publish_once in
      after_first-IsSent left t (env.publish t tenant agent iid dedup payload))
