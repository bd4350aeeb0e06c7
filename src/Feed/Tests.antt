-- ===== src/Feed/Tests.antt =====
-- Runs of internal/projector/projector.go.
use relaypoint.Common.{
  zero, suc, ℕ, String, ◌≡◌, ◌≢◌, ◌⊎◌, ◌↔◌, ◌≤◌, ◌<◌, refl, inl, inr, List, [], ◌∷◌, none, some,
  true, false, ◌||◌, arith, has, lookup, insert, Within,
}
use relaypoint.Signaling.Wire.{Event}
use relaypoint.Signaling.Log.{joined}
use relaypoint.Signaling.Participation.{
  agents, apply_fact, open_interval, last_open, intervals_of, covers_any, covers,
}
use relaypoint.Signaling.Participation.Presence.{present, present_after}
use relaypoint.Feed.{Fact, Config, with_defaults}
use relaypoint.Feed.Views.{view_of, fold_event, view_key, snapshot}
use relaypoint.Feed.Ports.{published, acked, Env, decimal}
use relaypoint.Feed.Fanout.{Message, dedup_for, fanout}
use relaypoint.Feed.Fanout.Sent.{IsFannedOut, fanout-IsFannedOut}
use relaypoint.Feed.Process.{Projector, process}
use relaypoint.Feed.Process.Settled.{IsSettledOnce, process-IsSettledOnce, reached_by}
use relaypoint.Feed.Hydrate.{Sources, hydrate}
use relaypoint.Feed.Hydrate.Snapshots.{Same}
use relaypoint.Feed.Hydrate.Restored.{live_views, Resumes, hydrate-Resumes}
use relaypoint.Feed.Reached.{events_of, reached_by-present, fold_event_again}
use relaypoint.Feed.Fence.{Fence, new_fence, ended, context, waits, begin, pause, fail, ready}
use relaypoint.Feed.Fence.Moves.{
  Reach, here, next, begins, pauses, fails, live, live_once, lost_for_good, no_lost_wakeup,
  ready_iff_begins,
}
use relaypoint.Feed.Renewal.{Lease, renew_budget, tick}
use relaypoint.Feed.Renewal.Bounds.{
  spent, renew_budget_bounds, IsTicked, tick-IsTicked, IsUsable, with_defaults-IsUsable,
}

abbrev event_of : String → String → ℕ → Event
event_of kind agent seq = record {
  schema = "relaypoint.interaction.v1";
  event_type = kind;
  event_id = "e";
  sequence = seq;
  occurred_at = 0;
  tenant_id = "t";
  actor_id = agent;
  medium = "chat";
  command_id = "c";
  payload_hash = "";
  caused_by = "";
  ref_id = "";
  body = [];
  commanded_by = "";
  reason = "";
  request_id = "";
}

abbrev fact_of : String → String → ℕ → Fact
fact_of kind agent seq = record {
  event = some (event_of kind agent seq);
  iid = "i";
  stream_seq = seq;
  traceparent = "";
  handle = 0;
}

-- An outside where every call succeeds.
abbrev calm : Env
calm = record {
  publish = λ t tenant agent iid dedup payload. none;
  dlq = λ t tenant reason id seq. none;
  ack = λ t f. none;
  nak = λ t f. none;
  delivered = λ t f. 1;
  save = λ t seq snap. none;
  cancelled = λ t. false;
  turn = λ t. 0;
  marshal = λ e. some (7 ∷ []);
  marshal_control = λ c. some (8 ∷ []);
}

abbrev config : Config
config = record {
  max_deliver = 5;
  snapshot_every = 50;
  publish_retry = 2;
  retry_backoff = 1;
  lease_renew = 2_000_000_000;
  lease_ttl = 5_000_000_000;
  health_addr = "";
  fanout_concurrency = 4;
}

abbrev fresh_projector : Projector
fresh_projector = record { views = []; since_snap = 0; last_ack_seq = 0 }

process-IsSettledOnce_example :
    IsSettledOnce calm fresh_projector
      (fact_of "participant.joined" "a" 1)
      []
      (process calm config fresh_projector (fact_of "participant.joined" "a" 1) [])
process-IsSettledOnce_example =
    process-IsSettledOnce calm config fresh_projector (fact_of "participant.joined" "a" 1) [] refl

joined_is_published :
    (process calm config fresh_projector (fact_of "participant.joined" "a" 1) []).trace
    ≡ acked (fact_of "participant.joined" "a" 1) true
      ∷ published "t" "a" "i" "t.a.i.1" (7 ∷ []) true
      ∷ []
unfolding process agents lookup insert apply_fact open_interval last_open intervals_of covers_any
    covers dedup_for joined decimal
joined_is_published = refl

abbrev message : Message
message = record { tenant = "t"; iid = "i"; sequence = 12; payload = 7 ∷ [] }

fanout-IsFannedOut_example :
    IsFannedOut calm message ("a" ∷ "b" ∷ []) 2 [] (fanout calm message ("a" ∷ "b" ∷ []) 2 [])
fanout-IsFannedOut_example = fanout-IsFannedOut calm message ("a" ∷ "b" ∷ []) 2 [] refl

abbrev sources : Sources
sources = record {
  ack_floor = inr 2;
  load =
      λ floor. inr (some (snapshot (live_views [] (fact_of "participant.joined" "a" 1 ∷ []))), 1);
  fold_range = λ lo hi. inr (fact_of "participant.left" "a" 2 ∷ []);
}

hydrate-Resumes_example :
    Resumes 2
      (fact_of "participant.joined" "a" 1 ∷ fact_of "participant.left" "a" 2 ∷ [])
      (hydrate sources fresh_projector)
hydrate-Resumes_example =
    hydrate-Resumes sources fresh_projector 2 1
      (some (snapshot (live_views [] (fact_of "participant.joined" "a" 1 ∷ []))))
      (fact_of "participant.joined" "a" 1 ∷ []) (fact_of "participant.left" "a" 2 ∷ []) refl refl
      refl (inl (omega arith, refl)) ((event_of "participant.left" "a" 2, refl, refl, refl), tt)

abbrev joined_first : List Fact
joined_first = fact_of "participant.joined" "a" 1 ∷ []

reached_by-present_example :
    Within "a" (
      reached_by
        (live_views [] joined_first)
        (fact_of "message.sent" "b" 2)
        (event_of "message.sent" "b" 2))
    ↔ ((present "a" (events_of (view_key "t" "i") joined_first)
          || present_after
              (event_of "message.sent" "b" 2)
              "a"
              (present "a" (events_of (view_key "t" "i") joined_first)))
        ≡ true)
reached_by-present_example =
    reached_by-present joined_first (fact_of "message.sent" "b" 2) (event_of "message.sent" "b" 2) 1
      "a" ((event_of "participant.joined" "a" 1, refl, refl, refl), tt)
      (unfold view_key in omega arith) (omega arith) (omega arith)

fold_event_again_example :
    Same
      (fold_event
        (fold_event [] "i" (event_of "participant.joined" "a" 1))
        "i"
        (event_of "participant.joined" "a" 1))
      (fold_event [] "i" (event_of "participant.joined" "a" 1))
    × ((a : String)
        → Within a (
            reached_by
              (fold_event [] "i" (event_of "participant.joined" "a" 1))
              (fact_of "participant.joined" "a" 1)
              (event_of "participant.joined" "a" 1))
          ↔ Within a (
              reached_by []
                (fact_of "participant.joined" "a" 1)
                (event_of "participant.joined" "a" 1)))
fold_event_again_example =
    fold_event_again [] (fact_of "participant.joined" "a" 1) (event_of "participant.joined" "a" 1) 0
      (λ a. unfold view_of lookup intervals_of in omega arith) (omega arith)

abbrev begun : Fence
begun = record { done = false; paused = false; lost = none; contexts = false ∷ []; closed = 0 }

abbrev stalled : Fence
stalled = record { done = false; paused = true; lost = none; contexts = true ∷ []; closed = 0 }

abbrev gone : Fence
gone = record {
  done = false;
  paused = true;
  lost = some "timeout";
  contexts = true ∷ [];
  closed = 1;
}

begin_then_pause : Reach (new_fence false) stalled
unfolding new_fence begin pause
begin_then_pause = next (next here (begins (new_fence false))) (pauses begun)

live_once_example :
    (live stalled ≤ 1)
    × ((stalled.paused || has stalled.lost || stalled.done) ≡ true → live stalled ≡ 0)
live_once_example = live_once false stalled begin_then_pause

fail_then_begin : Reach gone gone
unfolding begin
fail_then_begin = next here (begins gone)

lost_for_good_example :
    (gone.lost ≡ some "timeout") × (begin gone ≡ (gone, ended)) × (ready (some gone) ≢ none)
lost_for_good_example = lost_for_good "timeout" refl fail_then_begin

stalled_waits : (begin stalled).1 ≡ waits 0
unfolding begin
stalled_waits = refl

stalled_fails : Reach stalled gone
unfolding fail
stalled_fails = next here (fails stalled "timeout")

no_lost_wakeup_example : (0 < gone.closed) ⊎ (gone.done ≡ true) ⊎ ((begin gone).1 ≡ waits 0)
no_lost_wakeup_example = no_lost_wakeup 0 stalled_waits stalled_fails

a_held_fence_is_ready : (ready (some begun) ≡ none) ↔ ((begin begun).1 ≡ context)
a_held_fence_is_ready = ready_iff_begins begun

renew_budget_bounds_example :
    (spent (renew_budget 5_000_000_000 2_000_000_000) ≤ 2_700_000_000)
    × (1 ≤ (renew_budget 5_000_000_000 2_000_000_000).attempts)
    × (2 ≤ 3_000_000_000 → 0 < (renew_budget 5_000_000_000 2_000_000_000).per_attempt)
renew_budget_bounds_example =
    renew_budget_bounds 5_000_000_000 2_000_000_000 (omega arith) (omega arith)

-- The second attempt of a tick renews the lease.
abbrev lease : Lease
lease = record {
  renew = λ i. elim i [ zero ↦ some "timeout" | suc j ↦ none ];
  stopped = λ i. false;
}

tick-IsTicked_example : IsTicked lease begun (tick config lease false begun)
tick-IsTicked_example = tick-IsTicked config lease false begun (omega arith) (omega arith)

the_defaults_are_enough : IsUsable (with_defaults config)
the_defaults_are_enough = with_defaults-IsUsable config (omega arith) (omega arith)
