-- ===== src/Feed/Views.antt =====
-- internal/projector/projector.go: the folded views of the interactions, their snapshot, and who a fact
-- goes to.
use Prim.Native.String.{◌++◌ as str_append}
use relaypoint.Common.{
  ℕ, String, List, [], ◌∷◌, map, Option, none, some, if◌then◌else◌, Map, lookup, insert,
}
use relaypoint.Signaling.Wire.{Event}
use relaypoint.Signaling.Participation.{
  Interval, ParticipationView, empty_view, intervals_of, agents, set_intervals, covers_any,
  apply_fact,
}
use relaypoint.Feed.{Snapshot}

-- `s.views`.
abbrev pub Views : Type 0
Views = Map ParticipationView

-- `s.view(iid)`: the view under the key, and a new one where there is none.
unfoldable pub view_of : Views → String → ParticipationView
view_of views key = elim (lookup key views) [ none ↦ empty_view | some v ↦ v ]

-- `agents[a] = v.Intervals(a)` for each agent of the view.
unfoldable pub agents_of : ParticipationView → Map (List Interval)
agents_of v = map (λ a. (a, intervals_of v a)) (agents v)

unfoldable pub snapshot : Views → Snapshot
unfolding agents_of
snapshot views = map (λ e. (e.0, agents_of e.1)) views

unfoldable pub restore_agents : ParticipationView → Map (List Interval) → ParticipationView
restore_agents v [] = v
restore_agents v ((a, in_) ∷ rest) = restore_agents (set_intervals v a in_) rest

unfoldable pub restore_from : Views → Snapshot → Views
unfolding restore_agents view_of
restore_from views [] = views
restore_from views ((key, held) ∷ rest) =
    restore_from (insert key (restore_agents (view_of views key) held) views) rest

-- `restore`, on the empty state that `Hydrate` makes; a missing snapshot is nil.
unfoldable pub restore : Option Snapshot → Views
unfolding restore_from
restore none = []
restore (some snap) = restore_from [] snap

-- `e.TenantId + "/" + iid`.
unfoldable pub view_key : String → String → String
view_key tenant iid = str_append tenant (str_append "/" iid)

-- `p.st.view(key).ApplyFact(e)`.
unfoldable pub fold_event : Views → String → Event → Views
unfolding view_of
fold_event views iid e =
    let key = view_key e.tenant_id iid in insert key (apply_fact (view_of views key) e) views

-- `coveredBy`.
unfoldable pub covered_in : ParticipationView → ℕ → List String → List String
covered_in v s [] = []
covered_in v s (a ∷ rest) =
    let found = covered_in v s rest in if covers_any s (intervals_of v a) then a ∷ found else found

unfoldable pub covered_by : ParticipationView → ℕ → List String
unfolding covered_in
covered_by v s = covered_in v s (agents v)
