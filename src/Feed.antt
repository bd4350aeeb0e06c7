-- ===== src/Feed.antt =====
-- internal/projector: the worker that fans the log out to the feeds of an interaction's participants.
-- This file has the data of ports.go and projector.go and the configuration.
pub mod Views
pub mod Ports
pub mod Fanout
pub mod Process
pub mod Hydrate
pub mod Reached
pub mod Fence
pub mod Renewal
mod Tests
use relaypoint.Common.{ℕ, ◌/◌, String, List, Option, Bool, not, if◌then◌else◌, ◌==◌, less_int64}
use relaypoint.Signaling.Wire.{Event}
use relaypoint.Signaling.Participation.{Interval}
use relaypoint.Common.{Map}

-- `Event` is nil for an envelope that could not be read; the message handle is the port's.
pub record Fact : Type 0 where
  pub event : Option Event
  pub iid : String
  pub stream_seq : ℕ
  pub traceparent : String
  pub handle : ℕ

-- The `Intervals` of projector.go's `Snapshot`.
abbrev pub Snapshot : Type 0
Snapshot = Map (Map (List Interval))

-- `signaling.FeedControl`.
pub record FeedControl : Type 0 where
  pub schema : String
  pub control : String
  pub interaction_id : String
  pub at_sequence : ℕ

-- A duration is nanoseconds, and all numbers are `int64` patterns.
pub record Config : Type 0 where
  pub max_deliver : ℕ
  pub snapshot_every : ℕ
  pub publish_retry : ℕ
  pub retry_backoff : ℕ
  pub lease_renew : ℕ
  pub lease_ttl : ℕ
  pub health_addr : String
  pub fanout_concurrency : ℕ

-- `v`, and `d` where `v <= 0`.
abbrev pub or_positive : ℕ → ℕ → ℕ
or_positive v d = if less_int64 0 v then v else d

-- `LeaseRenew`, once both durations are positive.
abbrev pub below_ttl : ℕ → ℕ → ℕ
below_ttl renew ttl = if less_int64 renew ttl then renew else ttl / 2

unfoldable pub with_defaults : Config → Config
with_defaults c =
    let ttl = or_positive c.lease_ttl 5_000_000_000 in
    record {
      max_deliver = or_positive c.max_deliver 5;
      snapshot_every = or_positive c.snapshot_every 50;
      publish_retry = or_positive c.publish_retry 4;
      retry_backoff = or_positive c.retry_backoff 50_000_000;
      lease_renew = below_ttl (or_positive c.lease_renew 2_000_000_000) ttl;
      lease_ttl = ttl;
      health_addr = if c.health_addr == "" then ":8222" else c.health_addr;
      fanout_concurrency = or_positive c.fanout_concurrency 32;
    }
