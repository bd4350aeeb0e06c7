-- ===== src/Feed/Process/Settled.antt =====
-- What `process` of internal/projector/projector.go owes before it acknowledges a fact.
use relaypoint.Common.{
  eq_iff, ℕ, suc, String, ◌≡◌, refl, ◌∙◌, ◌⊎◌, inl, inr, List, ◌∷◌, Option, none, some, Bool, true,
  ◌||◌, ◌==◌, arith, if◌then◌else◌, Within, Bool-cases, Option-cases, less_int64,
}
use relaypoint.Signaling.Wire.{Event}
use relaypoint.Feed.{Fact, Config}
use relaypoint.Feed.Views.{Views, view_key, view_of, fold_event, covered_by}
use relaypoint.Feed.Ports.{Call, published, dead_lettered, acked, Trace, Env}
use relaypoint.Feed.Fanout.Calls.{
  Publishes, same, Publishes-trans, Within-Publishes, settles, publish_with_retry-IsSent,
}
use relaypoint.Feed.Fanout.Sent.{call_to, fanout-IsFannedOut}
use relaypoint.Feed.Process.{
  Projector, Processed, tenant_of, event_id_of, sequence_of, control_of, dedup_for_revoked,
  tombstone, after_tombstone, after_fanout, message_of, project, process_event, process,
}
use relaypoint.Feed.Process.Endings.{
  SavesAcked, IsEnded, dlq_or_nak-IsEnded, complete-IsEnded, on_failed_publish-IsEnded,
  IsEnded-Publishes,
}

-- The calls of the process of a fact whose publishes are what it owes: the message to every agent that
-- the view with the fact in it covers, and to one that left the revocation of its feed.
abbrev pub reached_by : Views → Fact → Event → List String
reached_by views f e =
    covered_by (view_of (fold_event views f.iid e) (view_key e.tenant_id f.iid)) e.sequence

pub record IsDelivered (env : Env) (views : Views) (f : Fact) (t : Trace) : Type 0 where
  pub event : Event
  pub is_event : f.event ≡ some event
  pub payload : List ℕ
  pub is_payload : env.marshal event ≡ some payload
  pub reached :
      (a : String)
      → Within a (reached_by views f event)
      → Within (call_to env (message_of event f.iid payload) a) t
  pub revoked :
      event.event_type ≡ "participant.left"
      → (control : List ℕ) × (env.marshal_control (control_of event f.iid) ≡ some control)
        × Within
            (published event.tenant_id event.actor_id f.iid
              (dedup_for_revoked event f.iid)
              control
              true)
            t

abbrev pub Lettered : Fact → Trace → Type 0
Lettered f t =
    (reason : String) × Within
      (dead_lettered (tenant_of f.event) reason (event_id_of f.event) (sequence_of f.event) true) t

abbrev pub IsOwed : Env → Views → Fact → Trace → Type 0
IsOwed env views f t = IsDelivered env views f t ⊎ Lettered f t

IsOwed-grow :
    (env : Env) (views : Views) (f : Fact) (c : Call) (t : Trace)
    → IsOwed env views f t
    → IsOwed env views f (c ∷ t)
IsOwed-grow env views f c t (inr (r, w)) = inr (r, inr w)
IsOwed-grow env views f c t (inl d) = inl (record {
  event = d.event;
  is_event = d.is_event;
  payload = d.payload;
  is_payload = d.is_payload;
  reached = λ a w. inr (d.reached a w);
  revoked = λ e. let (k, m, w) = d.revoked e in (k, m, inr w);
})

-- The views with the fact in them, where its envelope and its interaction are known.
abbrev pub taken_in : Views → Fact → Option Event → Views
taken_in views f none = views
taken_in views f (some e) =
    if e.tenant_id == "" || e.event_type == ""
    then views
    else if f.iid == ""
    then views
    else fold_event views f.iid e

-- One delivery of a fact: one settling call, snapshots behind acks, the position and the views.
pub record IsSettledOnce (env : Env) (p : Projector) (f : Fact) (t : Trace) (out : Processed)
    : Type 0 where
  pub settled : settles out.trace ≡ suc (settles t)
  pub saves : SavesAcked t → SavesAcked out.trace
  pub views : out.state.views ≡ taken_in p.views f f.event
  pub position :
      (out.state.last_ack_seq ≡ p.last_ack_seq)
      ⊎ ((out.state.last_ack_seq ≡ f.stream_seq) × Within (acked f true) out.trace)
  pub owed :
      (ok : Bool)
      → Within (acked f ok) out.trace
      → Within (acked f ok) t ⊎ IsOwed env p.views f out.trace

module _ (env : Env) (config : Config) (positive : less_int64 0 config.publish_retry ≡ true)
    (f : Fact) (p : Projector) where
  abbrev Owed : Trace → Type 0
  Owed = IsOwed env p.views f

  abbrev grown : (c : Call) (t : Trace) → Owed t → Owed (c ∷ t)
  grown = IsOwed-grow env p.views f

  abbrev lettered :
      (reason : String) (t : Trace)
      → Within
          (dead_lettered
            (tenant_of f.event)
            reason
            (event_id_of f.event)
            (sequence_of f.event)
            true)
          t
      → Owed t
  lettered reason t w = inr (reason, w)

  -- What a publishing step did, and what is delivered if it returned nil.
  record IsStep (D : Trace → Type 0) (t : Trace) (out : Trace × Option String) : Type 0 where
    grows : Publishes t out.0
    gives : out.1 ≡ none → D out.0

  after_tombstone-IsEnded :
      (q : Projector) (t : Trace) (out : Trace × Option String)
      → IsStep (IsDelivered env p.views f) t out
      → IsEnded Owed f q t (after_tombstone env config q f out)
  after_tombstone-IsEnded q t (u, none) k =
      IsEnded-Publishes env config f Owed grown lettered q _ k.grows
        (complete-IsEnded env config f Owed grown lettered q u (inl (k.gives refl)))
  after_tombstone-IsEnded q t (u, some err) k =
      IsEnded-Publishes env config f Owed grown lettered q _ k.grows (
        on_failed_publish-IsEnded env config f Owed grown lettered "revoked tombstone failed: " q
          err u)

  module _ (e : Event) (is_event : f.event ≡ some e) (payload : List ℕ)
      (is_payload : env.marshal e ≡ some payload) where
    abbrev Reached : Trace → Type 0
    Reached t =
        (a : String)
        → Within a (reached_by p.views f e)
        → Within (call_to env (message_of e f.iid payload) a) t

    abbrev Revoked : Trace → Type 0
    Revoked t =
        (control : List ℕ) × (env.marshal_control (control_of e f.iid) ≡ some control)
        × Within (published e.tenant_id e.actor_id f.iid (dedup_for_revoked e f.iid) control true) t

    tombstone-IsStep : (t : Trace) → IsStep Revoked t (tombstone env config e f.iid t)
    unfolding tombstone
    tombstone-IsStep t = elim (Option-cases (env.marshal_control (control_of e f.iid))) [
      | inl n ↦ rw (n, tombstone) (record { grows = same; gives = λ h. absurd (cc) })
      | inr (control, n) ↦
          let k =
            publish_with_retry-IsSent env e.tenant_id e.actor_id f.iid (dedup_for_revoked e f.iid)
              control config.publish_retry t positive in
          rw (n, tombstone) (record { grows = k.grows; gives = λ h. (control, n, k.succeeds h) })
    ]

    delivered :
        (t : Trace)
        → Reached t
        → (e.event_type ≡ "participant.left" → Revoked t)
        → IsDelivered env p.views f t
    delivered t r k = record {
      event = e;
      is_event = is_event;
      payload = payload;
      is_payload = is_payload;
      reached = r;
      revoked = k;
    }

    after_fanout-IsEnded :
        (q : Projector) (t : Trace) (out : Trace × Option String)
        → IsStep Reached t out
        → IsEnded Owed f q t (after_fanout env config q f e out)
    after_fanout-IsEnded q t (u, some err) k =
        IsEnded-Publishes env config f Owed grown lettered q _ k.grows (
          on_failed_publish-IsEnded env config f Owed grown lettered "feed publish failed: " q err
            u)
    after_fanout-IsEnded q t (u, none) k = elim (Bool-cases (e.event_type == "participant.left")) [
      | inr n ↦ rw n (
          IsEnded-Publishes env config f Owed grown lettered q _ k.grows (
            complete-IsEnded env config f Owed grown lettered q u (
              inl (
                delivered u (k.gives refl)
                  (λ h. absurd (ground (arith, n, eq_iff e.event_type "participant.left", h)))))))
      | inl l ↦
          let s = tombstone-IsStep u in
          rw l (
            after_tombstone-IsEnded q t (tombstone env config e f.iid u) (record {
              grows = Publishes-trans k.grows s.grows;
              gives = λ h.
                  delivered _ (λ a w. Within-Publishes _ s.grows (k.gives refl a w))
                    (λ _. s.gives h);
            }))
    ]

  project-IsEnded :
      (e : Event) (t : Trace)
      → f.event ≡ some e
      → IsEnded Owed f
          (record p { views = fold_event p.views f.iid e })
          t
          (project env config p f e t)
  unfolding project
  project-IsEnded e t is_event = elim (Option-cases (env.marshal e)) [
    | inl n ↦
        rw (n, project) (dlq_or_nak-IsEnded env config f Owed grown lettered _ "marshal event" t)
    | inr (payload, n) ↦
        let k =
          fanout-IsFannedOut env (message_of e f.iid payload) (reached_by p.views f e)
            config.publish_retry t positive in
        rw (n, project)
          (after_fanout-IsEnded e is_event payload n _ t _
            (record { grows = k.grows; gives = k.reaches }))
  ]

  ended-IsSettledOnce :
      (t : Trace) (out : Processed) (q : Projector)
      → q.views ≡ taken_in p.views f f.event
      → q.last_ack_seq ≡ p.last_ack_seq
      → IsEnded Owed f q t out
      → IsSettledOnce env p f t out
  ended-IsSettledOnce t out q v l k = record {
    settled = k.settled;
    saves = k.saves;
    views = k.views ∙ v;
    position = elim k.position [ inl x ↦ inl (x ∙ l) | inr x ↦ inr x ];
    owed = k.reason;
  }

  process_event-IsSettledOnce :
      (o : Option Event) (t : Trace)
      → f.event ≡ o
      → IsSettledOnce env p f t (process_event env config p f o t)
  process_event-IsSettledOnce none t h =
      ended-IsSettledOnce t _ p (rw h refl) refl
        (dlq_or_nak-IsEnded env config f Owed grown lettered p "malformed envelope" t)
  process_event-IsSettledOnce (some e) t h =
      elim (Bool-cases (e.tenant_id == "" || e.event_type == "")) [
        | inl m ↦ rw m (
            ended-IsSettledOnce t _ p (rw (h, m) refl) refl
              (dlq_or_nak-IsEnded env config f Owed grown lettered p "malformed envelope" t))
        | inr m ↦ elim (Bool-cases (f.iid == "")) [
          | inl i ↦
              rw (m, i)
                (ended-IsSettledOnce t _ p (rw (h, m, i) refl) refl (
                  dlq_or_nak-IsEnded env config f Owed grown lettered p "unresolved interaction id"
                    t))
          | inr i ↦
              rw (m, i)
                (ended-IsSettledOnce t _ (record p { views = fold_event p.views f.iid e })
                  (rw (h, m, i) refl) refl (project-IsEnded e t h))
        ]
      ]

-- Whatever the outside answers and however the goroutines of a fan-out are scheduled, the process of a
-- fact, with a positive `PublishRetry`, makes exactly one call of Ack or Nak. It saves a snapshot only
-- directly behind a successful ack and at that fact's place in the stream. The views take the fact in
-- exactly when its envelope and interaction are known, however the delivery ends. The position stays, or
-- it is the fact's and its ack succeeded. A new ack stands only where the fact went to the dead
-- letters, or where its message was sent to every agent that the view with the fact in it covers and, for
-- a participant that left, the revocation of its feed was sent too.
pub process-IsSettledOnce :
    (env : Env) (config : Config) (p : Projector) (f : Fact) (t : Trace)
    → less_int64 0 config.publish_retry ≡ true
    → IsSettledOnce env p f t (process env config p f t)
unfolding process
process-IsSettledOnce env config p f t positive =
    process_event-IsSettledOnce env config positive f p f.event t refl
