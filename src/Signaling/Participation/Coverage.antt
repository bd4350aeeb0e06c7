-- ===== src/Signaling/Participation/Coverage.antt =====
-- `coveredBy` of internal/projector on one agent, against the history: a fact reaches an agent that
-- was in just before it or is in just after it.
use relaypoint.Common.{
  ℕ, String, ◌≤◌, ◌<◌, ◌≡◌, refl, ◌∙◌, ap, inl, inr, List, [], ◌∷◌, ◌++◌, some, true, ◌||◌, arith,
  ltb, less_int64, max_int64, Bool-cases, Option-cases,
}
use relaypoint.Signaling.Wire.{Event}
use relaypoint.Signaling.Participation.{
  Interval, intervals_of, last_open, close_last, apply_fact, fold_participation, covers, covers_any,
  is_participant_now,
}
use relaypoint.Signaling.Participation.Order.{
  Chain, Ascends, fresh, stepped, opened, closed, close_last-some, close_last-none,
  intervals_of-apply_fact, fold_participation-IsOrderly,
}
use relaypoint.Signaling.Participation.Presence.{
  present, present_after, is_participant_now-fold_participation,
}

less_int64-eq-ltb : (a b : ℕ) → a < max_int64 → b < max_int64 → less_int64 a b ≡ ltb a b
less_int64-eq-ltb a b h k = ground arith

Chain-le : (lo hi : ℕ) (cur : List Interval) → Chain lo hi cur → lo ≤ hi
Chain-le lo hi [] c = c
Chain-le lo hi (i ∷ r) (l, inl (o, e, j)) = omega arith
Chain-le lo hi (i ∷ r) (l, inr (o, j, c)) = omega (arith, Chain-le i.left_seq hi r c)

-- At a sequence behind all of them, the intervals cover it when the last one is open.
covers_any-behind :
    (lo hi s : ℕ) (cur : List Interval)
    → hi < s
    → s < max_int64
    → Chain lo hi cur
    → covers_any s cur ≡ last_open cur
unfolding covers_any covers last_open
covers_any-behind lo hi s [] h k c = refl
covers_any-behind lo hi s (i ∷ []) h k (l, inl (o, e, j)) =
    ground (arith, less_int64-eq-ltb s i.join_seq)
covers_any-behind lo hi s (i ∷ m ∷ r) h k (l, inl (o, e, j)) = cc
covers_any-behind lo hi s (i ∷ []) h k (l, inr (o, j, c)) =
    ground (arith, less_int64-eq-ltb s i.join_seq, less_int64-eq-ltb i.left_seq s)
covers_any-behind lo hi s (i ∷ m ∷ r) h k (l, inr (o, j, c)) = ground (
  arith,
  less_int64-eq-ltb s i.join_seq,
  less_int64-eq-ltb i.left_seq s,
  Chain-le i.left_seq hi (m ∷ r) c,
  covers_any-behind i.left_seq hi s (m ∷ r) h k c,
)

covers_any-append_fresh : (s : ℕ) (cur : List Interval) → covers_any s (cur ++ fresh s ∷ []) ≡ true
unfolding covers_any covers
covers_any-append_fresh s [] = ground arith
covers_any-append_fresh s (i ∷ r) = ground (arith, covers_any-append_fresh s r)

covers_any-opened :
    (lo hi s : ℕ) (cur : List Interval)
    → hi < s
    → s < max_int64
    → Chain lo hi cur
    → covers_any s (opened s cur) ≡ true
covers_any-opened lo hi s cur h k c =
    ground (arith, covers_any-append_fresh s cur, covers_any-behind lo hi s cur h k c)

-- The interval that `close_last` ends at `s` still covers `s`.
covers_any-close_last :
    (lo hi s : ℕ) (cur cur' : List Interval)
    → hi < s
    → s < max_int64
    → Chain lo hi cur
    → close_last s cur ≡ some cur'
    → covers_any s cur' ≡ true
unfolding covers_any covers close_last
covers_any-close_last lo hi s [] cur' h k c e = cc
covers_any-close_last lo hi s (i ∷ []) cur' h k (l, inl (o, _, j)) e =
    ground (arith, less_int64-eq-ltb s i.join_seq, less_int64-eq-ltb s s)
covers_any-close_last lo hi s (i ∷ m ∷ r) cur' h k (l, inl (o, q, j)) e = cc
covers_any-close_last lo hi s (i ∷ r) cur' h k (l, inr (o, j, c)) e =
    elim (Option-cases (close_last s r)) [
      | inl n ↦ ground arith
      | inr (r', n) ↦ ground (arith, covers_any-close_last i.left_seq hi s r r' h k c n)
    ]

covers_any-closed :
    (hi s : ℕ) (cur : List Interval)
    → hi < s
    → s < max_int64
    → Chain 0 hi cur
    → covers_any s (closed s cur) ≡ last_open cur
covers_any-closed hi s cur h k c = elim (Bool-cases (last_open cur)) [
  | inl e ↦
      let (cur', e', c', n) = close_last-some 0 hi s cur (omega arith) c e in
      rw (e', e) (covers_any-close_last 0 hi s cur cur' h k c e')
  | inr e ↦ rw (close_last-none 0 hi s cur c e) (covers_any-behind 0 hi s cur h k c)
]

covers_any-stepped :
    (hi : ℕ) (e : Event) (a : String) (cur : List Interval)
    → hi < e.sequence
    → e.sequence < max_int64
    → Chain 0 hi cur
    → covers_any e.sequence (stepped e a cur) ≡ (last_open cur || present_after e a (last_open cur))
covers_any-stepped hi e a cur h k c = ground (
  arith,
  covers_any-opened 0 hi e.sequence cur h k c,
  covers_any-closed hi e.sequence cur h k c,
  covers_any-behind 0 hi e.sequence cur h k c,
)

-- When the facts before `e` are in sequence order and end before it, the view that has taken in `e`
-- covers `e.sequence` for exactly the agents that the history has in just before or just after `e`.
pub covers_any-apply_fact :
    (hi : ℕ) (es : List Event) (e : Event) (a : String)
    → Ascends 0 hi es
    → hi < e.sequence
    → e.sequence < max_int64
    → covers_any e.sequence (intervals_of (apply_fact (fold_participation es) e) a)
      ≡ (present a es || present_after e a (present a es))
covers_any-apply_fact hi es e a h k m = rw (intervals_of-apply_fact (fold_participation es) e a) (
    covers_any-stepped hi e a (intervals_of (fold_participation es) a) k m
      (fold_participation-IsOrderly hi es h a)
    ∙ ap (λ b. b || present_after e a b)
        (unfold is_participant_now in is_participant_now-fold_participation hi es a h))
