-- ===== src/Feed/Process/Endings.antt =====
-- How `process` of internal/projector/projector.go ends on a fact.
use relaypoint.Common.{
  ℕ, suc, String, ◌≡◌, refl, ap, ◌∙◌, ◌⊎◌, inl, inr, [], ◌∷◌, Option, none, some, Bool, true, false,
  Within, Bool-cases, Option-cases, less_int64, next64,
}
use relaypoint.Feed.{Fact, Config}
use relaypoint.Feed.Views.{snapshot}
use relaypoint.Feed.Ports.{Call, published, dead_lettered, acked, nakked, saved, Trace, Env, is_nil}
use relaypoint.Feed.Fanout.Calls.{Publishes, same, more, settles, settles-Publishes}
use relaypoint.Feed.Process.{
  Projector, Processed, nak, on_ack, tenant_of, event_id_of, sequence_of, dead_letter, dlq_or_nak,
  maybe_snapshot, after_ack, complete, on_failed_publish,
}

-- A snapshot is saved directly behind a successful ack, at that fact's place in the stream.
abbrev pub BehindAck : ℕ → Trace → Type 0
BehindAck seq [] = ⊥
BehindAck seq (published tenant agent iid dedup payload ok ∷ t) = ⊥
BehindAck seq (dead_lettered tenant reason id n ok ∷ t) = ⊥
BehindAck seq (acked f ok ∷ t) = (ok ≡ true) × (f.stream_seq ≡ seq)
BehindAck seq (nakked f ok ∷ t) = ⊥
BehindAck seq (saved n snap ok ∷ t) = ⊥

abbrev pub SavesAcked : Trace → Type 0
SavesAcked [] = Unit {0}
SavesAcked (published tenant agent iid dedup payload ok ∷ t) = SavesAcked t
SavesAcked (dead_lettered tenant reason id n ok ∷ t) = SavesAcked t
SavesAcked (acked f ok ∷ t) = SavesAcked t
SavesAcked (nakked f ok ∷ t) = SavesAcked t
SavesAcked (saved seq snap ok ∷ t) = BehindAck seq t × SavesAcked t

SavesAcked-Publishes : {t u : Trace} → Publishes t u → SavesAcked t → SavesAcked u
SavesAcked-Publishes same h = h
SavesAcked-Publishes (more p tenant agent iid dedup payload ok) h = SavesAcked-Publishes p h

acked-Publishes :
    (f : Fact) (ok : Bool) {t u : Trace}
    → Publishes t u
    → Within (acked f ok) u
    → Within (acked f ok) t
acked-Publishes f ok same w = w
acked-Publishes f ok (more p tenant agent iid dedup payload done) (inl e) = absurd (cc)
acked-Publishes f ok (more p tenant agent iid dedup payload done) (inr w) = acked-Publishes f ok p w

-- A way to end: the delivery is settled once, snapshots stay behind acks, the views are those before,
-- the position follows a successful ack, and an ack has `P` for its reason.
pub record IsEnded (P : Trace → Type 0) (f : Fact) (p : Projector) (t : Trace) (out : Processed)
    : Type 0 where
  pub settled : settles out.trace ≡ suc (settles t)
  pub saves : SavesAcked t → SavesAcked out.trace
  pub views : out.state.views ≡ p.views
  pub position :
      (out.state.last_ack_seq ≡ p.last_ack_seq)
      ⊎ ((out.state.last_ack_seq ≡ f.stream_seq) × Within (acked f true) out.trace)
  pub reason : (ok : Bool) → Within (acked f ok) out.trace → Within (acked f ok) t ⊎ P out.trace

module _ (env : Env) (config : Config) (f : Fact) (P : Trace → Type 0)
    (grow : (c : Call) (t : Trace) → P t → P (c ∷ t))
    (dead : (reason : String) (t : Trace)
      → Within
          (dead_lettered
            (tenant_of f.event)
            reason
            (event_id_of f.event)
            (sequence_of f.event)
            true)
          t
      → P t) where
  pub nak-IsEnded : (p : Projector) (t : Trace) → IsEnded P f p t (nak env config p f t)
  unfolding nak
  nak-IsEnded p t = record {
    settled = refl;
    saves = λ h. h;
    views = refl;
    position = inl refl;
    reason = λ ok w. elim w [ inl e ↦ absurd (cc) | inr w' ↦ inl w' ];
  }

  abbrev letter : String → Bool → Call
  letter reason ok =
      dead_lettered (tenant_of f.event) reason (event_id_of f.event) (sequence_of f.event) ok

  -- What follows a successful ack: no other settling call, and a snapshot at the acked position.
  record IsAfter (p : Projector) (u : Trace) (out : Processed) : Type 0 where
    settled : settles out.trace ≡ settles u
    saves : SavesAcked u → SavesAcked out.trace
    views : out.state.views ≡ p.views
    position : out.state.last_ack_seq ≡ f.stream_seq
    kept : Within (acked f true) u → Within (acked f true) out.trace
    reason : P u → P out.trace

  ack-IsEnded :
      (wrap : String) (p : Projector) (t : Trace) (after : Trace → Processed) (r : Option String)
      → P t
      → IsAfter p (acked f true ∷ t) (after (acked f true ∷ t))
      → IsEnded P f p t (on_ack env config wrap after p f (acked f (is_nil r) ∷ t) r)
  ack-IsEnded wrap p t after none h k = record {
    settled = k.settled;
    saves = k.saves;
    views = k.views;
    position = inr (k.position, k.kept (inl refl));
    reason = λ ok w. inr (k.reason (grow _ _ h));
  }
  ack-IsEnded wrap p t after (some e) h k = record {
    settled = refl;
    saves = λ s. s;
    views = refl;
    position = inl refl;
    reason = λ ok w. inr (grow _ _ h);
  }

  -- The same from a trace with one more call that settles nothing.
  dead_letter-IsEnded :
      (p : Projector) (reason : String) (t : Trace)
      → IsEnded P f p t (dead_letter env config p f reason t)
  unfolding dead_letter
  dead_letter-IsEnded p reason t =
      elim (Option-cases
        (env.dlq t (tenant_of f.event) reason (event_id_of f.event) (sequence_of f.event))) [
          | inl n ↦
              let k =
                ack-IsEnded "ack dlq: " p (letter reason true ∷ t)
                  (λ u. record {
                    state = record p { last_ack_seq = f.stream_seq };
                    trace = u;
                    err = none;
                  })
                  (env.ack (letter reason true ∷ t) f) (dead reason _ (inl refl))
                  (record {
                    settled = refl;
                    saves = λ s. s;
                    views = refl;
                    position = refl;
                    kept = λ w. w;
                    reason = λ h. h;
                  }) in
              rw n (lettered p reason true t _ k)
          | inr (e, n) ↦
              rw n (lettered p reason false t _ (nak-IsEnded p (letter reason false ∷ t)))
        ]
    where
      lettered :
          (p : Projector) (reason : String) (ok : Bool) (t : Trace) (out : Processed)
          → IsEnded P f p (letter reason ok ∷ t) out
          → IsEnded P f p t out
      lettered p reason ok t out k = record {
        settled = k.settled;
        saves = k.saves;
        views = k.views;
        position = k.position;
        reason = λ done w. elim (k.reason done w) [
          | inl x ↦ elim x [ inl e ↦ absurd (cc) | inr y ↦ inl y ]
          | inr h ↦ inr h
        ];
      }

  pub dlq_or_nak-IsEnded :
      (p : Projector) (reason : String) (t : Trace)
      → IsEnded P f p t (dlq_or_nak env config p f reason t)
  unfolding dlq_or_nak
  dlq_or_nak-IsEnded p reason t =
      elim (Bool-cases (less_int64 (env.delivered t f) config.max_deliver)) [
        | inl c ↦ rw c (nak-IsEnded p t)
        | inr c ↦ rw c (dead_letter-IsEnded p reason t)
      ]

  after_ack-IsAfter :
      (p : Projector) (t : Trace)
      → IsAfter p (acked f true ∷ t) (after_ack env config p f (acked f true ∷ t))
  unfolding after_ack maybe_snapshot
  after_ack-IsAfter p t =
      elim (Bool-cases (less_int64 (next64 p.since_snap) config.snapshot_every)) [
        | inl c ↦ rw c (record {
          settled = refl;
          saves = λ s. s;
          views = refl;
          position = refl;
          kept = λ w. w;
          reason = λ h. h;
        })
        | inr c ↦
            elim (Bool-cases
              (is_nil (env.save (acked f true ∷ t) f.stream_seq (snapshot p.views)))) [
                | inl n ↦
                    rw (c, n)
                      (record {
                        settled = refl;
                        saves = λ s. ((refl, refl), s);
                        views = refl;
                        position = refl;
                        kept = λ w. inr w;
                        reason = λ h. grow _ _ h;
                      })
                | inr n ↦
                    rw (c, n)
                      (record {
                        settled = refl;
                        saves = λ s. ((refl, refl), s);
                        views = refl;
                        position = refl;
                        kept = λ w. inr w;
                        reason = λ h. grow _ _ h;
                      })
              ]
      ]

  pub complete-IsEnded :
      (p : Projector) (t : Trace) → P t → IsEnded P f p t (complete env config p f t)
  unfolding complete
  complete-IsEnded p t h = elim (Bool-cases (env.cancelled t)) [
    | inl c ↦ rw c (nak-IsEnded p t)
    | inr c ↦
        rw c (
          ack-IsEnded "ack: " p t (after_ack env config p f) (env.ack t f) h
            (after_ack-IsAfter p t))
  ]

  pub on_failed_publish-IsEnded :
      (what : String) (p : Projector) (err : String) (t : Trace)
      → IsEnded P f p t (on_failed_publish env config what p f err t)
  unfolding on_failed_publish
  on_failed_publish-IsEnded what p err t = elim (Bool-cases (env.cancelled t)) [
    | inl c ↦ rw c (nak-IsEnded p t)
    | inr c ↦ rw c (dlq_or_nak-IsEnded p _ t)
  ]

  -- The same behind publishes.
  pub IsEnded-Publishes :
      (p : Projector) {t u : Trace} (out : Processed)
      → Publishes t u
      → IsEnded P f p u out
      → IsEnded P f p t out
  IsEnded-Publishes p out g k = record {
    settled = k.settled ∙ ap suc (settles-Publishes g);
    saves = λ s. k.saves (SavesAcked-Publishes g s);
    views = k.views;
    position = k.position;
    reason =
        λ ok w. elim (k.reason ok w) [ inl x ↦ inl (acked-Publishes f ok g x) | inr h ↦ inr h ];
  }
