-- ===== src/Feed/Hydrate/Snapshots.antt =====
-- `restore` of internal/projector/projector.go undoes `snapshot`.
use relaypoint.Common.{
  String, ◌≡◌, refl, sym, ap, ◌∙◌, ◌⊎◌, inl, inr, List, [], ◌∷◌, map, Option, none, some, ◌==◌,
  eq_iff, arith, if◌then◌else◌, Map, lookup, insert, lookup-insert, Distinct, Bool-cases,
  Option-cases, Within,
}
use relaypoint.Signaling.Wire.{Event}
use relaypoint.Signaling.Participation.{
  Interval, ParticipationView, empty_view, intervals_of, agents, set_intervals, apply_fact,
}
use relaypoint.Signaling.Participation.Order.{stepped, intervals_of-insert, intervals_of-apply_fact}
use relaypoint.Feed.Views.{
  Views, view_of, agents_of, snapshot, restore_agents, restore_from, restore, view_key, fold_event,
}

-- The same intervals for every agent of every interaction.
abbrev pub Same : Views → Views → Type 0
Same u v = (key a : String) → intervals_of (view_of u key) a ≡ intervals_of (view_of v key) a

pub view_of-insert :
    (key held : String) (w : ParticipationView) (views : Views)
    → view_of (insert key w views) held ≡ (if key == held then w else view_of views held)
unfolding view_of
view_of-insert key held w views = ground (arith, lookup-insert key held w views)

pub intervals_of-fold_event :
    (views : Views) (iid : String) (e : Event) (key a : String)
    → intervals_of (view_of (fold_event views iid e) key) a ≡ (
        if view_key e.tenant_id iid == key
        then stepped e a (intervals_of (view_of views key) a)
        else intervals_of (view_of views key) a)
unfolding fold_event
intervals_of-fold_event views iid e key a = ground (
  arith,
  eq_iff (view_key e.tenant_id iid) key,
  view_of-insert (view_key e.tenant_id iid) key
      (apply_fact (view_of views (view_key e.tenant_id iid)) e) views,
  intervals_of-apply_fact (view_of views (view_key e.tenant_id iid)) e a,
)

pub Same-fold_event :
    (u v : Views) (iid : String) (e : Event)
    → Same u v
    → Same (fold_event u iid e) (fold_event v iid e)
Same-fold_event u v iid e h key a =
    intervals_of-fold_event u iid e key a
    ∙ rw (h key a) refl
    ∙ sym (intervals_of-fold_event v iid e key a)

-- What `SetIntervals` leaves: an empty list is not set.
abbrev or_old : List Interval → List Interval → List Interval
or_old [] old = old
or_old (i ∷ r) old = i ∷ r

intervals_of-set_intervals :
    (v : ParticipationView) (a b : String) (cur : List Interval)
    → intervals_of (set_intervals v a cur) b
      ≡ (if a == b then or_old cur (intervals_of v b) else intervals_of v b)
unfolding set_intervals
intervals_of-set_intervals v a b [] = ground arith
intervals_of-set_intervals v a b (i ∷ r) = intervals_of-insert v a b (i ∷ r)

or_old_lem : (cur old : List Interval) → (old ≡ []) ⊎ (old ≡ cur) → or_old cur old ≡ cur
or_old_lem [] old (inl e) = e
or_old_lem [] old (inr e) = e
or_old_lem (i ∷ r) old h = refl

module _ (v : ParticipationView) where
  abbrev entries : List String → Map (List Interval)
  entries = map (λ b. (b, intervals_of v b))

  -- One agent's intervals are set again and again to the same list.
  restore_agents_kept :
      (u : ParticipationView) (names : List String) (a : String)
      → intervals_of u a ≡ intervals_of v a
      → intervals_of (restore_agents u (entries names)) a ≡ intervals_of v a
  unfolding restore_agents
  restore_agents_kept u [] a h = h
  restore_agents_kept u (b ∷ rest) a h =
      restore_agents_kept (set_intervals u b (intervals_of v b)) rest a (
        ground (
          arith,
          eq_iff b a,
          intervals_of-set_intervals u b a (intervals_of v b),
          or_old_lem (intervals_of v a) (intervals_of u a) (inr h),
        ))

  restore_agents_set :
      (u : ParticipationView) (names : List String) (a : String)
      → intervals_of u a ≡ []
      → Within a names
      → intervals_of (restore_agents u (entries names)) a ≡ intervals_of v a
  unfolding restore_agents
  restore_agents_set u [] a h w = absurd w
  restore_agents_set u (b ∷ rest) a h w = elim (Bool-cases (b == a)) [
    | inl e ↦ restore_agents_kept (set_intervals u b (intervals_of v b)) rest a (
        ground (
          arith,
          eq_iff b a,
          intervals_of-set_intervals u b a (intervals_of v b),
          or_old_lem (intervals_of v a) (intervals_of u a) (inl h),
        ))
    | inr e ↦ elim w [
      | inl q ↦ absurd (ground (arith, eq_iff b a, q, e))
      | inr w' ↦
          restore_agents_set (set_intervals u b (intervals_of v b)) rest a
            (ground (arith, intervals_of-set_intervals u b a (intervals_of v b))) w'
    ]
  ]

pub Within-keys :
    {V : Type 0} (m : Map V) (a : String) (x : V)
    → lookup a m ≡ some x
    → Within a (map (λ p. p.0) m)
unfolding lookup
Within-keys [] a x h = absurd (cc)
Within-keys ((b, y) ∷ rest) a x h = elim (Bool-cases (b == a)) [
  | inl e ↦ inl (ground (arith, eq_iff b a, e))
  | inr e ↦ inr (Within-keys rest a x (sym (rw e refl) ∙ h))
]

pub intervals_of-none :
    (v : ParticipationView) (a : String) → lookup a v.intervals ≡ none → intervals_of v a ≡ []
unfolding intervals_of
intervals_of-none v a h = ground arith

-- A view comes back from its own entries.
restore_agents-agents_of :
    (u v : ParticipationView) (a : String)
    → intervals_of u a ≡ []
    → intervals_of (restore_agents u (agents_of v)) a ≡ intervals_of v a
unfolding agents_of agents
restore_agents-agents_of u v a h = elim (Option-cases (lookup a v.intervals)) [
  | inl n ↦ restore_agents_kept v u (agents v) a (h ∙ sym (intervals_of-none v a n))
  | inr (cur, n) ↦ restore_agents_set v u (agents v) a h (Within-keys v.intervals a cur n)
]

abbrev restored_at : ParticipationView → Option ParticipationView → ParticipationView
restored_at u none = u
restored_at u (some v) = restore_agents u (agents_of v)

view_of-restore_from :
    (u views : Views) (key : String)
    → Distinct views
    → view_of (restore_from u (snapshot views)) key ≡ restored_at (view_of u key) (lookup key views)
unfolding restore_from snapshot lookup
view_of-restore_from u [] key d = refl
view_of-restore_from u ((held, v) ∷ rest) key (n, d) = ground (
  arith,
  eq_iff held key,
  view_of-insert held key (restore_agents (view_of u held) (agents_of v)) u,
  view_of-restore_from (insert held (restore_agents (view_of u held) (agents_of v)) u) rest key d,
)

view_of-some :
    (views : Views) (key : String) (v : ParticipationView)
    → lookup key views ≡ some v
    → view_of views key ≡ v
unfolding view_of
view_of-some views key v e = ground arith

view_of-none :
    (views : Views) (key : String) → lookup key views ≡ none → view_of views key ≡ empty_view
unfolding view_of
view_of-none views key e = ground arith

intervals_of-empty : (a : String) → intervals_of empty_view a ≡ []
unfolding intervals_of lookup
intervals_of-empty a = refl

pub view_of-nil : (key : String) → view_of [] key ≡ empty_view
unfolding lookup
view_of-nil key = view_of-none [] key refl

-- Restoring the snapshot of a table gives the intervals of the table.
pub Same-restore : (views : Views) → Distinct views → Same (restore (some (snapshot views))) views
unfolding restore
Same-restore views d key a =
    ap (λ v. intervals_of v a) (view_of-restore_from [] views key d)
    ∙ ap (λ v. intervals_of (restored_at v (lookup key views)) a) (view_of-nil key)
    ∙ elim (Option-cases (lookup key views)) [
      | inl e ↦ rw (e, view_of-none views key e) refl
      | inr (v, e) ↦
          rw (e, view_of-some views key v e)
            (restore_agents-agents_of empty_view v a (intervals_of-empty a))
    ]
