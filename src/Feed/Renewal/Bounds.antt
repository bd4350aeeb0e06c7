-- ===== src/Feed/Renewal/Bounds.antt =====
-- The bounds of `renewBudget`, and what a tick of `renewLoop` (internal/projector/projector.go) leaves.
use relaypoint.Common.{
  ℕ, zero, suc, ◌+◌, ◌-◌, ◌*◌, ◌/◌, ◌^◌, ◌≤◌, ◌<◌, String, ◌≡◌, ◌≢◌, ◌⊎◌, inl, inr, refl, Option,
  none, some, Bool, true, false, ◌&&◌, ◌||◌, arith, ltb, less_int64, has, Bool-cases, Option-cases,
}
use relaypoint.Feed.{Config, or_positive, below_ttl, with_defaults}
use relaypoint.Feed.Fence.{Fence, pause, resume, fail}
use relaypoint.Feed.Fence.Moves.{pauses, resumes, fails, Reach, here, next}
use relaypoint.Feed.Renewal.{
  Budget, sub_int64, mul_int64, quot_int64, split_budget, renew_budget, Lease, renew_from,
  renew_with_retry, after_renewal, tick,
}

-- All attempts and the waits between them.
abbrev pub spent : Budget → ℕ
spent b = b.attempts * b.per_attempt + (b.attempts - 1) * b.backoff

split_budget_bounds :
    (budget : ℕ)
    → budget < 2 ^ 62
    → (spent (split_budget budget) ≤ budget)
      × (1 ≤ (split_budget budget).attempts)
      × (1 ≤ budget → 0 < (split_budget budget).per_attempt)
unfolding split_budget
split_budget_bounds budget h = ground arith

slack_of :
    (ttl interval : ℕ) → interval < ttl → ttl < 2 ^ 58 → sub_int64 ttl interval ≡ ttl - interval
slack_of ttl interval h k = omega arith

slack_pos : (slack : ℕ) → 0 < slack → slack < 2 ^ 58 → less_int64 0 slack ≡ true
slack_pos slack h k = ground arith

budget_of : (slack : ℕ) → slack < 2 ^ 58 → quot_int64 (mul_int64 slack 9) 10 ≡ slack * 9 / 10
budget_of slack h = ground arith

-- With a renewal interval below a lease TTL of less than nine years, a tick's attempts and the waits
-- between them take at most nine tenths of the time between the two, there is at least one attempt, and
-- each has a positive time where that time is two nanoseconds or more.
pub renew_budget_bounds :
    (ttl interval : ℕ)
    → interval < ttl
    → ttl < 2 ^ 58
    → (spent (renew_budget ttl interval) ≤ (ttl - interval) * 9 / 10)
      × (1 ≤ (renew_budget ttl interval).attempts)
      × (2 ≤ ttl - interval → 0 < (renew_budget ttl interval).per_attempt)
unfolding renew_budget
renew_budget_bounds ttl interval h k =
    let (a, b, c) = split_budget_bounds ((ttl - interval) * 9 / 10) (omega arith) in
    rw
      (
        slack_of ttl interval h k,
        slack_pos (ttl - interval) (omega arith) (omega arith),
        budget_of (ttl - interval) (omega arith),
      )
      (a, b, λ m. c (omega arith))

abbrev pub is_stopped : Fence → Bool
is_stopped f = f.paused || has f.lost

-- How the renewals of a tick leave the fence.
pub record IsRenewed (lease : Lease) (f : Fence) (out : Fence × Option String) : Type 0 where
  pub reach : Reach f out.0
  pub renewed :
      out.1 ≡ none
      → ((i : ℕ) × (lease.renew i ≡ none)) × ((out.0.paused ≡ false) ⊎ (has out.0.lost ≡ true))
  pub stalled : out.1 ≢ none → is_stopped out.0 ≡ true

pause-is_stopped : (f : Fence) → is_stopped (pause f) ≡ true
unfolding pause
pause-is_stopped f = ground arith

resume_frees : (f : Fence) → ((resume f).paused ≡ false) ⊎ (has (resume f).lost ≡ true)
unfolding resume
resume_frees f = ground arith

Reach-trans : {f g h : Fence} → Reach f g → Reach g h → Reach f h
Reach-trans r here = r
Reach-trans r (next q s) = next (Reach-trans r q) s

renew_from-IsRenewed :
    (lease : Lease) (left i : ℕ) (e : String) (f : Fence)
    → is_stopped f ≡ true
    → IsRenewed lease f (renew_from lease left i (some e) f)
unfolding renew_from
renew_from-IsRenewed lease zero i e f s = record {
  reach = here;
  renewed = λ h. absurd (cc);
  stalled = λ _. s;
}
renew_from-IsRenewed lease (suc left) i e f s = elim (Bool-cases (ltb 0 i && lease.stopped i)) [
  | inl c ↦ rw c (record { reach = here; renewed = λ h. absurd (cc); stalled = λ _. s })
  | inr c ↦ elim (Option-cases (lease.renew i)) [
    | inl n ↦
        rw (c, n, renew_from)
          (record {
            reach = next here (resumes f);
            renewed = λ _. ((i, n), resume_frees f);
            stalled = λ h. absurd (h refl);
          })
    | inr (e', n) ↦
        let k = renew_from-IsRenewed lease left (suc i) e' (pause f) (pause-is_stopped f) in
        rw (c, n, renew_from)
          (record {
            reach = Reach-trans (next here (pauses f)) k.reach;
            renewed = k.renewed;
            stalled = k.stalled;
          })
  ]
]

first-IsRenewed :
    (lease : Lease) (left : ℕ) (f : Fence)
    → IsRenewed lease f (renew_from lease (suc left) 0 none f)
unfolding renew_from
first-IsRenewed lease left f = elim (Option-cases (lease.renew 0)) [
  | inl n ↦
      rw (n, renew_from)
        (record {
          reach = next here (resumes f);
          renewed = λ _. ((0, n), resume_frees f);
          stalled = λ h. absurd (h refl);
        })
  | inr (e, n) ↦
      let k = renew_from-IsRenewed lease left 1 e (pause f) (pause-is_stopped f) in
      rw (n, renew_from)
        (record {
          reach = Reach-trans (next here (pauses f)) k.reach;
          renewed = k.renewed;
          stalled = k.stalled;
        })
]

pub record IsTicked (lease : Lease) (f : Fence) (out : Fence × Bool) : Type 0 where
  pub reach : Reach f out.0
  pub goes_on :
      out.1 ≡ true
      → ((i : ℕ) × (lease.renew i ≡ none)) × ((out.0.paused ≡ false) ⊎ (has out.0.lost ≡ true))
  pub ends : out.1 ≡ false → is_stopped out.0 ≡ true

fail-is_stopped : (err : String) (f : Fence) → is_stopped (fail err f) ≡ true
unfolding fail
fail-is_stopped err f = ground arith

after_renewal-IsTicked :
    (lease : Lease) (done : Bool) (f : Fence) (out : Fence × Option String)
    → IsRenewed lease f out
    → IsTicked lease f (after_renewal done out)
after_renewal-IsTicked lease done f (g, none) k = record {
  reach = k.reach;
  goes_on = λ _. k.renewed refl;
  ends = λ h. absurd (cc);
}
after_renewal-IsTicked lease true f (g, some err) k = record {
  reach = k.reach;
  goes_on = λ h. absurd (cc);
  ends = λ _. k.stalled (λ h. absurd (cc));
}
after_renewal-IsTicked lease false f (g, some err) k = record {
  reach = next k.reach (fails g err);
  goes_on = λ h. absurd (cc);
  ends = λ _. fail-is_stopped err g;
}

renew_from_all :
    (lease : Lease) (n : ℕ) (f : Fence) → 1 ≤ n → IsRenewed lease f (renew_from lease n 0 none f)
renew_from_all lease zero f h = absurd (omega arith)
renew_from_all lease (suc n) f h = first-IsRenewed lease n f

-- A tick only pauses, resumes and fails the fence. The loop goes on only when an attempt of the tick
-- renewed the lease, and then the fence is not paused unless the lease was lost before; where it ends, the fence
-- is paused or lost. The renewal interval is below a TTL of less than nine years.
pub tick-IsTicked :
    (config : Config) (lease : Lease) (done : Bool) (f : Fence)
    → config.lease_renew < config.lease_ttl
    → config.lease_ttl < 2 ^ 58
    → IsTicked lease f (tick config lease done f)
unfolding tick renew_with_retry
tick-IsTicked config lease done f h k =
    after_renewal-IsTicked lease done f
      (renew_from lease (renew_budget config.lease_ttl config.lease_renew).attempts 0 none f)
      (renew_from_all lease (renew_budget config.lease_ttl config.lease_renew).attempts f
        (renew_budget_bounds config.lease_ttl config.lease_renew h k).1)

-- A configuration in use: every number is positive, and the renewal interval is below the TTL; the
-- interval itself is positive but for a TTL of one nanosecond.
pub record IsUsable (c : Config) : Type 0 where
  pub max_deliver : less_int64 0 c.max_deliver ≡ true
  pub snapshot_every : less_int64 0 c.snapshot_every ≡ true
  pub publish_retry : less_int64 0 c.publish_retry ≡ true
  pub retry_backoff : less_int64 0 c.retry_backoff ≡ true
  pub lease_ttl : less_int64 0 c.lease_ttl ≡ true
  pub fanout_concurrency : less_int64 0 c.fanout_concurrency ≡ true
  pub lease_renew : c.lease_renew < c.lease_ttl
  pub renews : (less_int64 0 c.lease_renew ≡ true) ⊎ (c.lease_ttl ≡ 1)

positive : (v d : ℕ) → less_int64 0 d ≡ true → less_int64 0 (or_positive v d) ≡ true
positive v d h = ground arith

or_positive-lt : (v d : ℕ) → v < 2 ^ 64 → d < 2 ^ 63 → or_positive v d < 2 ^ 63
or_positive-lt v d h k = ground arith

below :
    (renew ttl : ℕ)
    → less_int64 0 ttl ≡ true
    → ttl < 2 ^ 63
    → renew < 2 ^ 63
    → below_ttl renew ttl < ttl
below renew ttl h k m = ground arith

renews_or :
    (renew ttl : ℕ)
    → less_int64 0 renew ≡ true
    → less_int64 0 ttl ≡ true
    → ttl < 2 ^ 63
    → (less_int64 0 (below_ttl renew ttl) ≡ true) ⊎ (ttl ≡ 1)
renews_or renew ttl h k m = ground arith

-- Whatever the configuration, `withDefaults` makes it usable.
pub with_defaults-IsUsable :
    (c : Config) → c.lease_renew < 2 ^ 64 → c.lease_ttl < 2 ^ 64 → IsUsable (with_defaults c)
unfolding with_defaults
with_defaults-IsUsable c h k = record {
  max_deliver = positive c.max_deliver 5 refl;
  snapshot_every = positive c.snapshot_every 50 refl;
  publish_retry = positive c.publish_retry 4 refl;
  retry_backoff = positive c.retry_backoff 50_000_000 refl;
  lease_ttl = positive c.lease_ttl 5_000_000_000 refl;
  fanout_concurrency = positive c.fanout_concurrency 32 refl;
  lease_renew =
      below (or_positive c.lease_renew 2_000_000_000) (or_positive c.lease_ttl 5_000_000_000)
        (positive c.lease_ttl 5_000_000_000 refl)
        (or_positive-lt c.lease_ttl 5_000_000_000 k (omega arith))
        (or_positive-lt c.lease_renew 2_000_000_000 h (omega arith));
  renews =
      renews_or (or_positive c.lease_renew 2_000_000_000) (or_positive c.lease_ttl 5_000_000_000)
        (positive c.lease_renew 2_000_000_000 refl) (positive c.lease_ttl 5_000_000_000 refl)
        (or_positive-lt c.lease_ttl 5_000_000_000 k (omega arith));
}
