-- ===== src/Feed/Process.antt =====
-- internal/projector/projector.go: `process`, `dlqOrNak`, `tombstone` and `maybeSnapshot` on one fact.
pub mod Endings
pub mod Settled
use Prim.Native.String.{◌++◌ as str_append}
use relaypoint.Common.{
  ℕ, String, List, [], ◌∷◌, Option, none, some, Bool, true, false, not, ◌||◌, ◌==◌, if◌then◌else◌,
  less_int64, next64,
}
use relaypoint.Signaling.Wire.{Event}
use relaypoint.Signaling.Log.{joined}
use relaypoint.Signaling.Submit.{schema_v1}
use relaypoint.Feed.{Fact, FeedControl, Config}
use relaypoint.Feed.Views.{Views, snapshot, view_key, view_of, fold_event, covered_by}
use relaypoint.Feed.Ports.{
  Call, published, dead_lettered, acked, nakked, saved, Trace, Env, is_nil, decimal,
}
use relaypoint.Feed.Fanout.{Message, dedup_for, publish_with_retry, fanout}

-- The state of a `Projector` that a fact changes.
pub record Projector : Type 0 where
  pub views : Views
  pub since_snap : ℕ
  pub last_ack_seq : ℕ

-- The projector, the calls, and the error that `process` returns.
pub record Processed : Type 0 where
  pub state : Projector
  pub trace : Trace
  pub err : Option String

abbrev pub tenant_of : Option Event → String
tenant_of none = ""
tenant_of (some e) = e.tenant_id

abbrev pub event_id_of : Option Event → String
event_id_of none = ""
event_id_of (some e) = e.event_id

abbrev pub sequence_of : Option Event → ℕ
sequence_of none = 0
sequence_of (some e) = e.sequence

unfoldable pub control_of : Event → String → FeedControl
control_of e iid = record {
  schema = schema_v1;
  control = "feed.revoked";
  interaction_id = iid;
  at_sequence = e.sequence;
}

-- `"%s.%s.%s.%d.revoked"`.
unfoldable pub dedup_for_revoked : Event → String → String
dedup_for_revoked e iid =
    joined (e.tenant_id ∷ "." ∷ e.actor_id ∷ "." ∷ iid ∷ "." ∷ decimal e.sequence ∷ ".revoked" ∷ [])

abbrev pub message_of : Event → String → List ℕ → Message
message_of e iid payload = record {
  tenant = e.tenant_id;
  iid = iid;
  sequence = e.sequence;
  payload = payload;
}

module _ (env : Env) (config : Config) where
  -- `nak`: its error is what the caller returns.
  unfoldable pub nak : Projector → Fact → Trace → Processed
  nak p f t =
      let err = env.nak t f in record { state = p; trace = nakked f (is_nil err) ∷ t; err = err }

  -- `p.src.Ack(f)`, with `wrap` the text that an error gets, and `done` for a nil one.
  abbrev pub on_ack :
      String → (Trace → Processed) → Projector → Fact → Trace → Option String → Processed
  on_ack wrap done p f t none = done t
  on_ack wrap done p f t (some err) = record {
    state = p;
    trace = t;
    err = some (str_append wrap err);
  }

  abbrev ack_then : String → (Trace → Processed) → Projector → Fact → Trace → Processed
  ack_then wrap done p f t =
      let err = env.ack t f in on_ack wrap done p f (acked f (is_nil err) ∷ t) err

  unfoldable pub dead_letter : Projector → Fact → String → Trace → Processed
  unfolding nak
  dead_letter p f reason t =
      let tenant = tenant_of f.event in
      let id = event_id_of f.event in
      let seq = sequence_of f.event in
      let err = env.dlq t tenant reason id seq in
      let t' = dead_lettered tenant reason id seq (is_nil err) ∷ t in
      if not (is_nil err)
      then nak p f t'
      else ack_then "ack dlq: "
          (λ t''. record {
            state = record p { last_ack_seq = f.stream_seq };
            trace = t'';
            err = none;
          })
          p f t'

  unfoldable pub dlq_or_nak : Projector → Fact → String → Trace → Processed
  unfolding dead_letter nak
  dlq_or_nak p f reason t =
      if less_int64 (env.delivered t f) config.max_deliver
      then nak p f t
      else dead_letter p f reason t

  -- `maybeSnapshot`.
  unfoldable pub maybe_snapshot : Projector → ℕ → Trace → Projector × Trace
  unfolding snapshot
  maybe_snapshot p seq t =
      let q : Projector = record p { since_snap = next64 p.since_snap } in
      if less_int64 q.since_snap config.snapshot_every
      then (q, t)
      else (let snap = snapshot q.views in
          let err = env.save t seq snap in
          (if is_nil err then record q { since_snap = 0 } else q, saved seq snap (is_nil err) ∷ t))

  -- Behind the ack: the position, and the snapshot.
  unfoldable pub after_ack : Projector → Fact → Trace → Processed
  unfolding maybe_snapshot
  after_ack p f t =
      let (q, t') = maybe_snapshot (record p { last_ack_seq = f.stream_seq }) f.stream_seq t in
      record { state = q; trace = t'; err = none }

  -- The end of `process`: the fact's own ack.
  unfoldable pub complete : Projector → Fact → Trace → Processed
  unfolding after_ack nak
  complete p f t = if env.cancelled t then nak p f t else ack_then "ack: " (after_ack p f) p f t

  -- A publish that failed: fenced, or a delivery that is given up.
  unfoldable pub on_failed_publish : String → Projector → Fact → String → Trace → Processed
  unfolding nak dlq_or_nak
  on_failed_publish what p f err t =
      if env.cancelled t then nak p f t else dlq_or_nak p f (str_append what err) t

  unfoldable pub tombstone : Event → String → Trace → Trace × Option String
  unfolding publish_with_retry control_of dedup_for_revoked
  tombstone e iid t = elim (env.marshal_control (control_of e iid)) [
    | none ↦ (t, some "marshal control")
    | some payload ↦
        publish_with_retry env e.tenant_id e.actor_id iid (dedup_for_revoked e iid) payload
          config.publish_retry t
  ]

  -- From the end of the fan-out on.
  abbrev pub after_tombstone : Projector → Fact → Trace × Option String → Processed
  after_tombstone p f (t, none) = complete p f t
  after_tombstone p f (t, some err) = on_failed_publish "revoked tombstone failed: " p f err t

  abbrev pub after_fanout : Projector → Fact → Event → Trace × Option String → Processed
  after_fanout p f e (t, none) =
      if e.event_type == "participant.left"
      then after_tombstone p f (tombstone e f.iid t)
      else complete p f t
  after_fanout p f e (t, some err) = on_failed_publish "feed publish failed: " p f err t

  -- A fact whose envelope and interaction are known.
  unfoldable pub project : Projector → Fact → Event → Trace → Processed
  unfolding fold_event view_of view_key covered_by fanout tombstone complete on_failed_publish
      dlq_or_nak
  project p f e t =
      let q : Projector = record p { views = fold_event p.views f.iid e } in
      let recipients = covered_by (view_of q.views (view_key e.tenant_id f.iid)) e.sequence in
      elim (env.marshal e) [
        | none ↦ dlq_or_nak q f "marshal event" t
        | some payload ↦
            after_fanout q f e
              (fanout env (message_of e f.iid payload) recipients config.publish_retry t)
      ]

  abbrev pub process_event : Projector → Fact → Option Event → Trace → Processed
  process_event p f none t = dlq_or_nak p f "malformed envelope" t
  process_event p f (some e) t =
      if e.tenant_id == "" || e.event_type == ""
      then dlq_or_nak p f "malformed envelope" t
      else if f.iid == ""
      then dlq_or_nak p f "unresolved interaction id" t
      else project p f e t

  unfoldable pub process : Projector → Fact → Trace → Processed
  unfolding project dlq_or_nak
  process p f t = process_event p f f.event t
