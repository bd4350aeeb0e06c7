-- ===== src/Signaling/Participation/Order.antt =====
-- The shape of an agent's intervals: ascending, disjoint, and open at the end only.
use relaypoint.Common.{
  ℕ, String, ◌≤◌, ◌≡◌, refl, sym, ◌∙◌, ◌⊎◌, inl, inr, List, [], ◌∷◌, ◌++◌, Option, none, some, true,
  false, ◌==◌, eq_iff, arith, lookup, insert, lookup-insert, Bool-cases, Option-cases,
  if◌then◌else◌,
}
use relaypoint.Signaling.Wire.{Event}
use relaypoint.Signaling.Participation.{
  Interval, ParticipationView, empty_view, intervals_of, last_open, open_interval, close_last,
  close_interval, apply_fact, fold_from, fold_participation,
}

-- The intervals lie one behind the other between `lo` and `hi`, and an open one is the last.
abbrev pub Chain : ℕ → ℕ → List Interval → Type 0
Chain lo hi [] = lo ≤ hi
Chain lo hi (i ∷ r) =
    (lo ≤ i.join_seq)
    × (((i.left_open ≡ true) × (r ≡ []) × (i.join_seq ≤ hi))
        ⊎ ((i.left_open ≡ false) × (i.join_seq ≤ i.left_seq) × Chain i.left_seq hi r))

pub Chain-mono : (lo hi s : ℕ) (cur : List Interval) → hi ≤ s → Chain lo hi cur → Chain lo s cur
Chain-mono lo hi s [] h c = omega arith
Chain-mono lo hi s (i ∷ r) h (l, inl (o, e, j)) = (l, inl (o, e, omega arith))
Chain-mono lo hi s (i ∷ r) h (l, inr (o, j, c)) = (l, inr (o, j, Chain-mono i.left_seq hi s r h c))

last_open-cons :
    (i : Interval) (r : List Interval) → i.left_open ≡ false → last_open (i ∷ r) ≡ last_open r
unfolding last_open
last_open-cons i [] h = h
last_open-cons i (j ∷ r) h = refl

abbrev pub fresh : ℕ → Interval
fresh s = record { join_seq = s; left_seq = 0; left_open = true }

pub Chain-open :
    (lo hi s : ℕ) (cur : List Interval)
    → hi ≤ s
    → last_open cur ≡ false
    → Chain lo hi cur
    → Chain lo s (cur ++ fresh s ∷ [])
unfolding last_open
Chain-open lo hi s [] h n c = (omega arith, inl (refl, refl, omega arith))
Chain-open lo hi s (i ∷ []) h n (l, inl (o, e, j)) = cc
Chain-open lo hi s (i ∷ k ∷ r) h n (l, inl (o, e, j)) = cc
Chain-open lo hi s (i ∷ r) h n (l, inr (o, j, c)) =
    (l, inr (o, j, Chain-open i.left_seq hi s r h (n' r n) c))
  where
    n' : (r : List Interval) → last_open (i ∷ r) ≡ false → last_open r ≡ false
    n' [] e = refl
    n' (k ∷ r) e = e

pub last_open-append_fresh : (s : ℕ) (cur : List Interval) → last_open (cur ++ fresh s ∷ []) ≡ true
unfolding last_open
last_open-append_fresh s [] = refl
last_open-append_fresh s (i ∷ []) = refl
last_open-append_fresh s (i ∷ j ∷ r) = last_open-append_fresh s (j ∷ r)

-- Nothing to close where the last interval is closed.
pub close_last-none :
    (lo hi s : ℕ) (cur : List Interval)
    → Chain lo hi cur
    → last_open cur ≡ false
    → close_last s cur ≡ none
unfolding close_last last_open
close_last-none lo hi s [] c n = refl
close_last-none lo hi s (i ∷ []) (l, inl (o, e, j)) n = cc
close_last-none lo hi s (i ∷ k ∷ r) (l, inl (o, e, j)) n = cc
close_last-none lo hi s (i ∷ r) (l, inr (o, j, c)) n =
    ground (arith, close_last-none i.left_seq hi s r c (sym (last_open-cons i r o) ∙ n))

-- Where the last interval is open, `close_last` ends it at `s` and keeps the order.
pub close_last-some :
    (lo hi s : ℕ) (cur : List Interval)
    → hi ≤ s
    → Chain lo hi cur
    → last_open cur ≡ true
    → (cur' : List Interval) × (close_last s cur ≡ some cur')
      × Chain lo s cur'
      × (last_open cur' ≡ false)
unfolding close_last last_open
close_last-some lo hi s [] h c n = cc
close_last-some lo hi s (i ∷ []) h (l, inl (o, e, j)) n =
    (closed ∷ [], ground arith, (l, inr (refl, omega arith, omega arith)), refl)
  where
    closed : Interval
    closed = record i { left_seq = s; left_open = false }
close_last-some lo hi s (i ∷ k ∷ r) h (l, inl (o, e, j)) n = cc
close_last-some lo hi s (i ∷ r) h (l, inr (o, j, c)) n =
    let (r', e, c', n') = close_last-some i.left_seq hi s r h c (sym (last_open-cons i r o) ∙ n) in
    (i ∷ r', ground arith, (l, inr (o, j, c')), last_open-cons i r' o ∙ n')

pub intervals_of-insert :
    (v : ParticipationView) (a b : String) (cur : List Interval)
    → intervals_of (record { intervals = insert a cur v.intervals }) b
      ≡ (if a == b then cur else intervals_of v b)
unfolding intervals_of
intervals_of-insert v a b cur = ground (arith, lookup-insert a b cur v.intervals)

-- What a joined and a left fact do to the intervals of their agent, and a fact to those of `a`.
abbrev pub opened : ℕ → List Interval → List Interval
opened s cur = if last_open cur then cur else cur ++ fresh s ∷ []

abbrev pub or_same : Option (List Interval) → List Interval → List Interval
or_same none cur = cur
or_same (some cur') cur = cur'

abbrev pub closed : ℕ → List Interval → List Interval
closed s cur = or_same (close_last s cur) cur

abbrev pub stepped : Event → String → List Interval → List Interval
stepped e a cur =
    if e.actor_id == a
    then (if e.event_type == "participant.joined"
        then opened e.sequence cur
        else if e.event_type == "participant.left"
        then closed e.sequence cur
        else cur)
    else cur

intervals_of-open_interval :
    (v : ParticipationView) (a b : String) (s : ℕ)
    → intervals_of (open_interval v a s) b
      ≡ (if a == b then opened s (intervals_of v b) else intervals_of v b)
unfolding open_interval
intervals_of-open_interval v a b s =
    ground (arith, eq_iff a b, intervals_of-insert v a b (intervals_of v a ++ fresh s ∷ []))

intervals_of-close_interval :
    (v : ParticipationView) (a b : String) (s : ℕ)
    → intervals_of (close_interval v a s) b
      ≡ (if a == b then closed s (intervals_of v b) else intervals_of v b)
unfolding close_interval
intervals_of-close_interval v a b s = elim (Option-cases (close_last s (intervals_of v a))) [
  | inl e ↦ ground (arith, eq_iff a b)
  | inr (cur, e) ↦ ground (arith, eq_iff a b, intervals_of-insert v a b cur)
]

-- The view is one list of intervals for each agent, and a fact moves its own agent's alone.
pub intervals_of-apply_fact :
    (v : ParticipationView) (e : Event) (a : String)
    → intervals_of (apply_fact v e) a ≡ stepped e a (intervals_of v a)
unfolding apply_fact
intervals_of-apply_fact v e a = ground (
  arith,
  intervals_of-open_interval v e.actor_id a e.sequence,
  intervals_of-close_interval v e.actor_id a e.sequence,
)

pub Chain-opened :
    (hi s : ℕ) (cur : List Interval) → hi ≤ s → Chain 0 hi cur → Chain 0 s (opened s cur)
Chain-opened hi s cur h c = elim (Bool-cases (last_open cur)) [
  | inl e ↦ rw e (Chain-mono 0 hi s cur h c)
  | inr e ↦ rw e (Chain-open 0 hi s cur h e c)
]

pub Chain-closed :
    (hi s : ℕ) (cur : List Interval) → hi ≤ s → Chain 0 hi cur → Chain 0 s (closed s cur)
Chain-closed hi s cur h c = elim (Bool-cases (last_open cur)) [
  | inl e ↦ let (cur', e', c', n) = close_last-some 0 hi s cur h c e in rw e' c'
  | inr e ↦ rw (close_last-none 0 hi s cur c e) (Chain-mono 0 hi s cur h c)
]

pub Chain-stepped :
    (hi : ℕ) (e : Event) (a : String) (cur : List Interval)
    → hi ≤ e.sequence
    → Chain 0 hi cur
    → Chain 0 e.sequence (stepped e a cur)
Chain-stepped hi e a cur h c = ground (
  arith,
  Chain-opened hi e.sequence cur h c,
  Chain-closed hi e.sequence cur h c,
  Chain-mono 0 hi e.sequence cur h c,
)

abbrev pub IsOrderly : ℕ → ParticipationView → Type 0
IsOrderly hi v = (a : String) → Chain 0 hi (intervals_of v a)

-- Facts in sequence order from `lo`, ending at `hi`.
abbrev pub Ascends : ℕ → ℕ → List Event → Type 0
Ascends lo hi [] = lo ≤ hi
Ascends lo hi (e ∷ es) = (lo ≤ e.sequence) × Ascends e.sequence hi es

fold_from-IsOrderly :
    (lo hi : ℕ) (v : ParticipationView) (es : List Event)
    → Ascends lo hi es
    → IsOrderly lo v
    → IsOrderly hi (fold_from v es)
unfolding fold_from
fold_from-IsOrderly lo hi v [] h w = λ a. Chain-mono 0 lo hi (intervals_of v a) h (w a)
fold_from-IsOrderly lo hi v (e ∷ es) h w =
    fold_from-IsOrderly e.sequence hi (apply_fact v e) es h.1
      λ a. rw (intervals_of-apply_fact v e a) (Chain-stepped lo e a (intervals_of v a) h.0 (w a))

-- The fold of facts in sequence order keeps each agent's intervals ascending and disjoint, each
-- with its end at or after its start, and only the last one open.
pub fold_participation-IsOrderly :
    (hi : ℕ) (es : List Event) → Ascends 0 hi es → IsOrderly hi (fold_participation es)
unfolding fold_participation
fold_participation-IsOrderly hi es h =
    fold_from-IsOrderly 0 hi empty_view es h (unfold intervals_of lookup in λ a. omega arith)
