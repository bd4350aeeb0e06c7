-- ===== src/Signaling/Participation/Presence.antt =====
-- `is_participant_now` against the history: an agent is in the interaction when the latest fact
-- about it is a join.
use relaypoint.Common.{
  ℕ, String, ◌≤◌, ◌≡◌, refl, ◌∙◌, ap, inl, inr, List, [], ◌∷◌, Bool, true, false, ◌==◌, arith,
  lookup, Bool-cases, if◌then◌else◌,
}
use relaypoint.Signaling.Wire.{Event}
use relaypoint.Signaling.Participation.{
  Interval, ParticipationView, empty_view, intervals_of, last_open, apply_fact, fold_from,
  fold_participation, is_participant_now,
}
use relaypoint.Signaling.Participation.Order.{
  Chain, Ascends, stepped, opened, closed, close_last-some, close_last-none, last_open-append_fresh,
  intervals_of-apply_fact, Chain-stepped,
}

-- Whether `a` is in after the fact `e`, when it was in before it as `b` says.
abbrev pub present_after : Event → String → Bool → Bool
present_after e a b =
    if e.actor_id == a
    then (if e.event_type == "participant.joined"
        then true
        else if e.event_type == "participant.left"
        then false
        else b)
    else b

abbrev pub present_from : String → Bool → List Event → Bool
present_from a b [] = b
present_from a b (e ∷ es) = present_from a (present_after e a b) es

-- The history's own answer, with no intervals.
abbrev pub present : String → List Event → Bool
present a = present_from a false

pub last_open-opened : (s : ℕ) (cur : List Interval) → last_open (opened s cur) ≡ true
last_open-opened s cur = elim (Bool-cases (last_open cur)) [
  | inl e ↦ rw e e
  | inr e ↦ rw e (last_open-append_fresh s cur)
]

pub last_open-closed :
    (hi s : ℕ) (cur : List Interval) → hi ≤ s → Chain 0 hi cur → last_open (closed s cur) ≡ false
last_open-closed hi s cur h c = elim (Bool-cases (last_open cur)) [
  | inl e ↦ let (cur', e', c', n) = close_last-some 0 hi s cur h c e in rw e' n
  | inr e ↦ rw (close_last-none 0 hi s cur c e) e
]

pub last_open-stepped :
    (hi : ℕ) (e : Event) (a : String) (cur : List Interval)
    → hi ≤ e.sequence
    → Chain 0 hi cur
    → last_open (stepped e a cur) ≡ present_after e a (last_open cur)
last_open-stepped hi e a cur h c =
    ground (arith, last_open-opened e.sequence cur, last_open-closed hi e.sequence cur h c)

fold_from-present :
    (lo hi : ℕ) (v : ParticipationView) (es : List Event) (a : String)
    → Ascends lo hi es
    → Chain 0 lo (intervals_of v a)
    → last_open (intervals_of (fold_from v es) a) ≡ present_from a (last_open (intervals_of v a)) es
unfolding fold_from
fold_from-present lo hi v [] a h c = refl
fold_from-present lo hi v (e ∷ es) a h c =
    fold_from-present e.sequence hi (apply_fact v e) es a h.1
      (rw (intervals_of-apply_fact v e a) (Chain-stepped lo e a (intervals_of v a) h.0 c))
    ∙ ap (λ b. present_from a b es)
        (ap last_open (intervals_of-apply_fact v e a)
          ∙ last_open-stepped lo e a (intervals_of v a) h.0 c)

-- For facts in sequence order, the folded membership answers what the history says: the agent is a
-- participant exactly when the latest joined or left fact about it is a joined one.
pub is_participant_now-fold_participation :
    (hi : ℕ) (es : List Event) (a : String)
    → Ascends 0 hi es
    → is_participant_now (fold_participation es) a ≡ present a es
unfolding is_participant_now fold_participation
is_participant_now-fold_participation hi es a h =
    fold_from-present 0 hi empty_view es a h (unfold intervals_of lookup in omega arith)
    ∙ ap (λ b. present_from a b es) (unfold intervals_of lookup last_open in refl)
