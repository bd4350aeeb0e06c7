-- ===== src/Feed/Renewal.antt =====
-- internal/projector/projector.go: the renewal of the lease, `renewBudget`, `renewWithRetry` and a tick of
-- `renewLoop`.
pub mod Bounds
use relaypoint.Common.{
  ℕ, zero, suc, ◌+◌, ◌-◌, ◌*◌, ◌/◌, ◌%◌, ◌^◌, String, Option, none, some, Bool, true, false, not,
  ◌&&◌, if◌then◌else◌, ltb, less_int64,
}
use relaypoint.Feed.{Config}
use relaypoint.Feed.Fence.{Fence, pause, resume, fail}

-- `a - b`, `a * b` and `a / d` on an `int64`, for a small positive `d`.
abbrev pub sub_int64 : ℕ → ℕ → ℕ
sub_int64 a b = (a + 2 ^ 64 - b) % 2 ^ 64

abbrev pub mul_int64 : ℕ → ℕ → ℕ
mul_int64 a b = (a * b) % 2 ^ 64

abbrev pub quot_int64 : ℕ → ℕ → ℕ
quot_int64 a d = if less_int64 a 0 then (2 ^ 64 - (2 ^ 64 - a) / d) % 2 ^ 64 else a / d

pub record Budget : Type 0 where
  pub per_attempt : ℕ
  pub attempts : ℕ
  pub backoff : ℕ

-- `leaseRenewAttempts` and `leaseRenewRetryBackoff`.
abbrev pub renew_attempts : ℕ
renew_attempts = 3

abbrev pub renew_backoff : ℕ
renew_backoff = 300_000_000

-- The backoff that a budget has room for.
abbrev pub backoff_for : ℕ → ℕ
backoff_for budget =
    if less_int64 (mul_int64 (renew_attempts - 1) renew_backoff) budget
    then renew_backoff
    else quot_int64 (quot_int64 budget renew_attempts) 2

unfoldable pub split_budget : ℕ → Budget
split_budget budget =
    let backoff = backoff_for budget in
    let per =
      quot_int64 (sub_int64 budget (mul_int64 (renew_attempts - 1) backoff)) renew_attempts in
    if less_int64 0 per
    then record { per_attempt = per; attempts = renew_attempts; backoff = backoff }
    else record { per_attempt = budget; attempts = 1; backoff = 0 }

unfoldable pub renew_budget : ℕ → ℕ → Budget
unfolding split_budget
renew_budget ttl interval =
    let slack = sub_int64 ttl interval in
    if less_int64 0 slack
    then split_budget (quot_int64 (mul_int64 slack 9) 10)
    else record { per_attempt = 1_000_000; attempts = 1; backoff = 0 }

-- What the lease answers to the attempt of this place in a tick, and whether the context is done in the
-- wait before it.
pub record Lease : Type 0 where
  pub renew : ℕ → Option String
  pub stopped : ℕ → Bool

unfoldable pub renew_from : Lease → ℕ → ℕ → Option String → Fence → Fence × Option String
unfolding pause resume
renew_from lease zero i err f = (f, err)
renew_from lease (suc left) i err f =
    if ltb 0 i && lease.stopped i then (f, some "context canceled") else elim (lease.renew i) [
      | none ↦ (resume f, none)
      | some e ↦ renew_from lease left (suc i) (some e) (pause f)
    ]

unfoldable pub renew_with_retry : Config → Lease → Fence → Fence × Option String
unfolding renew_from renew_budget
renew_with_retry config lease f =
    renew_from lease (renew_budget config.lease_ttl config.lease_renew).attempts 0 none f

-- A tick of `renewLoop`; `done` is its context's error, and the result says whether the loop goes on.
abbrev pub after_renewal : Bool → Fence × Option String → Fence × Bool
after_renewal done (f, none) = (f, true)
after_renewal done (f, some err) = if done then (f, false) else (fail err f, false)

unfoldable pub tick : Config → Lease → Bool → Fence → Fence × Bool
unfolding renew_with_retry fail
tick config lease done f = after_renewal done (renew_with_retry config lease f)
