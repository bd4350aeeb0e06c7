-- ===== src/Signaling/Participation.antt =====
-- internal/signaling/participation.go: membership of an interaction, folded from its log.
pub mod Order
pub mod Presence
pub mod Coverage
use relaypoint.Common.{
  ℕ, String, ◌≡◌, refl, List, [], ◌∷◌, ◌++◌, map, Option, none, some, Bool, true, false, not, ◌&&◌,
  ◌||◌, foldl, ◌==◌, if◌then◌else◌, Map, lookup, insert, less_int64,
}
use relaypoint.Signaling.Wire.{Event}

-- Membership over `[join_seq, left_seq)`; `left_open` stands for no end yet.
pub record Interval : Type 0 where
  pub join_seq : ℕ
  pub left_seq : ℕ
  pub left_open : Bool

pub record ParticipationView : Type 0 where
  pub intervals : Map (List Interval)

abbrev pub empty_view : ParticipationView
empty_view = record { intervals = [] }

-- `v.intervals[agent]`, with Go's nil slice for a missing key.
unfoldable pub intervals_of : ParticipationView → String → List Interval
intervals_of v agent = elim (lookup agent v.intervals) [ none ↦ [] | some cur ↦ cur ]

-- `len(cur) > 0 && cur[len(cur)-1].LeftOpen`.
unfoldable pub last_open : List Interval → Bool
last_open [] = false
last_open (i ∷ []) = i.left_open
last_open (i ∷ j ∷ r) = last_open (j ∷ r)

unfoldable pub open_interval : ParticipationView → String → ℕ → ParticipationView
open_interval v agent seq =
    let cur = intervals_of v agent in
    if last_open cur then v else record {
      intervals =
          insert agent (cur ++ record { join_seq = seq; left_seq = 0; left_open = true } ∷ [])
            v.intervals;
    }

-- The loop of `close`, from the last interval back: the last open one ends at `seq`.
unfoldable pub close_last : ℕ → List Interval → Option (List Interval)
close_last seq [] = none
close_last seq (i ∷ r) = elim (close_last seq r) [
  | some r' ↦ some (i ∷ r')
  | none ↦ if i.left_open then some (record i { left_seq = seq; left_open = false } ∷ r) else none
]

unfoldable pub close_interval : ParticipationView → String → ℕ → ParticipationView
close_interval v agent seq = elim (close_last seq (intervals_of v agent)) [
  | none ↦ v
  | some cur ↦ record { intervals = insert agent cur v.intervals }
]

unfoldable pub apply_fact : ParticipationView → Event → ParticipationView
apply_fact v e =
    if e.event_type == "participant.joined"
    then open_interval v e.actor_id e.sequence
    else if e.event_type == "participant.left"
    then close_interval v e.actor_id e.sequence
    else v

unfoldable pub fold_from : ParticipationView → List Event → ParticipationView
fold_from v [] = v
fold_from v (e ∷ es) = fold_from (apply_fact v e) es

unfoldable pub fold_participation : List Event → ParticipationView
unfolding fold_from
fold_participation facts = fold_from empty_view facts

unfoldable pub is_participant_now : ParticipationView → String → Bool
is_participant_now v agent = last_open (intervals_of v agent)

unfoldable pub agents : ParticipationView → List String
agents v = map (λ p. p.0) v.intervals

unfoldable pub set_intervals : ParticipationView → String → List Interval → ParticipationView
set_intervals v agent [] = v
set_intervals v agent (i ∷ r) = record { intervals = insert agent (i ∷ r) v.intervals }

-- The test of projector.go's `coveredBy` on one interval, at sequence `s`.
unfoldable pub covers : ℕ → Interval → Bool
covers s i = not (less_int64 s i.join_seq) && (i.left_open || not (less_int64 i.left_seq s))

unfoldable pub covers_any : ℕ → List Interval → Bool
covers_any s [] = false
covers_any s (i ∷ r) = covers s i || covers_any s r
