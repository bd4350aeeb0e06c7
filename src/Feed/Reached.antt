-- ===== src/Feed/Reached.antt =====
-- Who a fact goes to (internal/projector/projector.go), against the history of its interaction.
use relaypoint.Common.{
  eq_refl, ℕ, String, ◌≡◌, refl, sym, ap, ◌∙◌, ◌↔◌, ◌≤◌, ◌<◌, inl, inr, List, [], ◌∷◌, Option, none,
  some, true, false, ◌||◌, ◌==◌, eq_iff, arith, if◌then◌else◌, lookup, max_int64, Bool-cases,
  Option-cases, Within,
}
use relaypoint.Signaling.Wire.{Event}
use relaypoint.Signaling.Participation.{
  Interval, ParticipationView, intervals_of, agents, apply_fact, fold_from, fold_participation,
  covers_any,
}
use relaypoint.Signaling.Participation.Order.{
  Ascends, Chain, IsOrderly, stepped, opened, closed, close_last-none, Chain-closed,
}
use relaypoint.Signaling.Participation.Presence.{
  present, present_after, last_open-opened, last_open-closed,
}
use relaypoint.Signaling.Participation.Coverage.{covers_any-apply_fact}
use relaypoint.Feed.{Fact}
use relaypoint.Feed.Views.{Views, view_of, view_key, fold_event, covered_in, covered_by}
use relaypoint.Feed.Process.Settled.{reached_by}
use relaypoint.Feed.Hydrate.Snapshots.{
  Same, view_of-nil, view_of-insert, Within-keys, intervals_of-none, intervals_of-fold_event,
}
use relaypoint.Feed.Hydrate.Restored.{live_views, EachKnown}

covered_in-exact :
    (v : ParticipationView) (s : ℕ) (names : List String) (a : String)
    → Within a (covered_in v s names) ↔ (Within a names × (covers_any s (intervals_of v a) ≡ true))
unfolding covered_in
covered_in-exact v s [] a = (λ h. absurd h, λ h. absurd h.0)
covered_in-exact v s (b ∷ rest) a = elim (Bool-cases (covers_any s (intervals_of v b))) [
  | inl c ↦ rw c (
    λ h. elim h [
      | inl e ↦ (inl e, ap (λ x. covers_any s (intervals_of v x)) e ∙ c)
      | inr w ↦ let (n, k) = (covered_in-exact v s rest a).0 w in (inr n, k)
    ],
    λ h. elim h.0 [ inl e ↦ inl e | inr n ↦ inr ((covered_in-exact v s rest a).1 (n, h.1)) ],
  )
  | inr c ↦ rw c (
    λ w. let (n, k) = (covered_in-exact v s rest a).0 w in (inr n, k),
    λ h. elim h.0 [
      | inl e ↦ absurd (cc (ap (λ x. covers_any s (intervals_of v x)) e, c, h.1))
      | inr n ↦ (covered_in-exact v s rest a).1 (n, h.1)
    ],
  )
]

covers_any-nil : (s : ℕ) → covers_any s [] ≡ false
unfolding covers_any
covers_any-nil s = refl

-- An agent is covered exactly when one of its intervals covers the sequence.
covered_by-exact :
    (v : ParticipationView) (s : ℕ) (a : String)
    → Within a (covered_by v s) ↔ (covers_any s (intervals_of v a) ≡ true)
unfolding covered_by
covered_by-exact v s a = (
  λ w. ((covered_in-exact v s (agents v) a).0 w).1,
  λ c. (covered_in-exact v s (agents v) a).1 (named c, c),
)
  where
    named : covers_any s (intervals_of v a) ≡ true → Within a (agents v)
    named c = elim (Option-cases (lookup a v.intervals)) [
      | inl n ↦ absurd (ground (arith, c, intervals_of-none v a n, covers_any-nil s))
      | inr (cur, n) ↦ unfold agents in Within-keys v.intervals a cur n
    ]

abbrev event_in : String → String → Option Event → List Event → List Event
event_in key iid none rest = rest
event_in key iid (some e) rest = if view_key e.tenant_id iid == key then e ∷ rest else rest

-- The events of one interaction, in their order.
abbrev pub events_of : String → List Fact → List Event
events_of key [] = []
events_of key (f ∷ rest) = event_in key f.iid f.event (events_of key rest)

view_of-fold_event :
    (views : Views) (iid : String) (e : Event) (key : String)
    → view_of (fold_event views iid e) key ≡ (
        if view_key e.tenant_id iid == key
        then apply_fact (view_of views key) e
        else view_of views key)
unfolding fold_event
view_of-fold_event views iid e key = ground (
  arith,
  eq_iff (view_key e.tenant_id iid) key,
  view_of-insert (view_key e.tenant_id iid) key
      (apply_fact (view_of views (view_key e.tenant_id iid)) e) views,
)

-- The view under a key is the fold of its own events.
view_of-live_views :
    (views : Views) (facts : List Fact) (key : String)
    → EachKnown facts
    → view_of (live_views views facts) key ≡ fold_from (view_of views key) (events_of key facts)
unfolding fold_from
view_of-live_views views [] key k = refl
view_of-live_views views (f ∷ rest) key ((e, is_event, m, i), k) =
    elim (Bool-cases (view_key e.tenant_id f.iid == key)) [
      | inl c ↦
          rw (is_event, m, i, c)
            (view_of-live_views (fold_event views f.iid e) rest key k
              ∙ ap (λ v. fold_from v (events_of key rest))
                  (view_of-fold_event views f.iid e key ∙ rw c refl))
      | inr c ↦
          rw (is_event, m, i, c)
            (view_of-live_views (fold_event views f.iid e) rest key k
              ∙ ap (λ v. fold_from v (events_of key rest))
                  (view_of-fold_event views f.iid e key ∙ rw c refl))
    ]

-- In a projector that took in the facts `pre`, all with a known envelope and interaction and those of
-- this fact's interaction in sequence order before it, the fact goes to exactly the agents that the history
-- of the interaction has in just before it or just after it.
pub reached_by-present :
    (pre : List Fact) (f : Fact) (e : Event) (hi : ℕ) (a : String)
    → EachKnown pre
    → Ascends 0 hi (events_of (view_key e.tenant_id f.iid) pre)
    → hi < e.sequence
    → e.sequence < max_int64
    → Within a (reached_by (live_views [] pre) f e) ↔ (
        (present a (events_of (view_key e.tenant_id f.iid) pre)
          || present_after e a (present a (events_of (view_key e.tenant_id f.iid) pre)))
        ≡ true)
reached_by-present pre f e hi a known order below fits =
    let key : String = view_key e.tenant_id f.iid in
    let (to, from) =
      covered_by-exact (view_of (fold_event (live_views [] pre) f.iid e) key) e.sequence a in
    let same = covers_any-apply_fact hi (events_of key pre) e a order below fits in
    let view = folded in
    (
      λ w. sym same ∙ ap (λ v. covers_any e.sequence (intervals_of v a)) (sym view) ∙ to w,
      λ b. from (ap (λ v. covers_any e.sequence (intervals_of v a)) view ∙ same ∙ b),
    )
  where
    folded :
        view_of (fold_event (live_views [] pre) f.iid e) (view_key e.tenant_id f.iid)
        ≡ apply_fact (fold_participation (events_of (view_key e.tenant_id f.iid) pre)) e
    folded =
        view_of-fold_event (live_views [] pre) f.iid e (view_key e.tenant_id f.iid)
        ∙ rw (eq_refl (view_key e.tenant_id f.iid)) (
            ap (λ v. apply_fact v e)
              (view_of-live_views [] pre (view_key e.tenant_id f.iid) known
                ∙ ap (λ v. fold_from v (events_of (view_key e.tenant_id f.iid) pre))
                    (view_of-nil (view_key e.tenant_id f.iid))
                ∙ unfold fold_participation in refl))

opened-opened : (s : ℕ) (cur : List Interval) → opened s (opened s cur) ≡ opened s cur
opened-opened s cur = rw (last_open-opened s cur) refl

closed-closed :
    (hi s : ℕ) (cur : List Interval)
    → hi ≤ s
    → Chain 0 hi cur
    → closed s (closed s cur) ≡ closed s cur
closed-closed hi s cur h c =
    rw
      (close_last-none 0 s s (closed s cur) (Chain-closed hi s cur h c)
        (last_open-closed hi s cur h c))
      refl

stepped-stepped :
    (hi : ℕ) (e : Event) (a : String) (cur : List Interval)
    → hi ≤ e.sequence
    → Chain 0 hi cur
    → stepped e a (stepped e a cur) ≡ stepped e a cur
stepped-stepped hi e a cur h c =
    ground (arith, opened-opened e.sequence cur, closed-closed hi e.sequence cur h c)

-- A fact that is delivered again changes nothing more and goes to the same agents, when the intervals of
-- its interaction are in order and none starts or ends after it.
pub fold_event_again :
    (views : Views) (f : Fact) (e : Event) (hi : ℕ)
    → IsOrderly hi (view_of views (view_key e.tenant_id f.iid))
    → hi ≤ e.sequence
    → Same (fold_event (fold_event views f.iid e) f.iid e) (fold_event views f.iid e)
      × ((a : String)
          → Within a (reached_by (fold_event views f.iid e) f e) ↔ Within a (reached_by views f e))
fold_event_again views f e hi order h = (
  again,
  λ a. (
    λ w. (exact (fold_event views f.iid e) a).1 (
        ap (covers_any e.sequence) (sym (again (view_key e.tenant_id f.iid) a))
        ∙ (exact (fold_event (fold_event views f.iid e) f.iid e) a).0 w),
    λ w. (exact (fold_event (fold_event views f.iid e) f.iid e) a).1 (
        ap (covers_any e.sequence) (again (view_key e.tenant_id f.iid) a)
        ∙ (exact (fold_event views f.iid e) a).0 w),
  ),
)
  where
    again : Same (fold_event (fold_event views f.iid e) f.iid e) (fold_event views f.iid e)
    again key a = elim (Bool-cases (view_key e.tenant_id f.iid == key)) [
      | inr c ↦ intervals_of-fold_event (fold_event views f.iid e) f.iid e key a ∙ rw c refl
      | inl c ↦ ground (
        arith,
        c,
        eq_iff (view_key e.tenant_id f.iid) key,
        intervals_of-fold_event (fold_event views f.iid e) f.iid e key a,
        intervals_of-fold_event views f.iid e key a,
        stepped-stepped hi e a (intervals_of (view_of views (view_key e.tenant_id f.iid)) a) h
            (order a),
      )
    ]

    exact :
        (views' : Views) (a : String)
        → Within a (covered_by (view_of views' (view_key e.tenant_id f.iid)) e.sequence) ↔ (
            covers_any e.sequence (intervals_of (view_of views' (view_key e.tenant_id f.iid)) a)
            ≡ true)
    exact views' a = covered_by-exact (view_of views' (view_key e.tenant_id f.iid)) e.sequence a
