-- ===== src/Signaling/State.antt =====
-- internal/signaling/router.go: the state that the router keeps for an interaction, its dedup cache,
-- the transition rule, and the rebuild from the log.
pub mod Cache
pub mod Fold
pub mod Rebuild
pub mod Copy
use relaypoint.Common.{
  ℕ, zero, suc, String, ◌≡◌, List, [], ◌∷◌, ◌++◌, Option, none, some, Bool, true, false, not, ◌&&◌,
  ◌||◌, ◌==◌, ltb, if◌then◌else◌, Map, lookup, insert, erase, has, length, less_int64,
}
use relaypoint.Signaling.Wire.{Event, CommandResult, accept}
use relaypoint.Signaling.Participation.{ParticipationView, fold_participation, empty_view}

-- `payload_hash` is empty for facts of before it existed.
pub record StoredResult : Type 0 where
  pub payload_hash : String
  pub result : CommandResult

-- `parents` maps a privileged command to the set of its facts' command ids; `last_used` is a time.
pub record InteractionState : Type 0 where
  pub seq : ℕ
  pub stream_seq : ℕ
  pub status : String
  pub results : Map StoredResult
  pub result_order : List String
  pub part : ParticipationView
  pub parents : Map (List String)
  pub poisoned : Bool
  pub last_used : ℕ

-- The loop of `putResult`. Its index into an empty order would panic in Go: `Cache.put_result-IsCache`
-- shows that the loop ends before that.
unfoldable pub evict_oldest : ℕ → List String → Map StoredResult → List String × Map StoredResult
evict_oldest max [] results = ([], results)
evict_oldest max (oldest ∷ order) results = elim (ltb 0 max && ltb max (length results)) [
  | true ↦ evict_oldest max order (erase oldest results)
  | false ↦ (oldest ∷ order, results)
]

unfoldable pub put_result : InteractionState → String → StoredResult → ℕ → InteractionState
unfolding evict_oldest
put_result st id sr max =
    let order =
      if has (lookup id st.results) then st.result_order else st.result_order ++ id ∷ [] in
    let (order', results') = evict_oldest max order (insert id sr st.results) in
    record st { results = results'; result_order = order' }

-- The loop of `copyMissingResults` over `fresh.resultOrder`.
unfoldable pub copy_in_order :
    InteractionState → Map StoredResult → List String → ℕ → InteractionState
copy_in_order st fresh [] max = st
copy_in_order st fresh (id ∷ order) max = elim (lookup id fresh) [
  | none ↦ copy_in_order st fresh order max
  | some sr ↦
      let kept = copy_in_order st fresh order max in
      let put = copy_in_order (put_result st id sr max) fresh order max in
      if has (lookup id st.results) then kept else put
]

unfoldable pub copy_missing_results : InteractionState → InteractionState → ℕ → InteractionState
unfolding copy_in_order
copy_missing_results st fresh max = copy_in_order st fresh.results fresh.result_order max

unfoldable pub legal_transition : String → String → Bool
legal_transition status cmd_type =
    if cmd_type == "interaction.started" then status == "" else status == "started"

-- The status that `applyTransition` leaves.
unfoldable pub transition : String → String → String
transition status cmd_type =
    if cmd_type == "interaction.started"
    then "started"
    else if cmd_type == "interaction.ended"
    then "ended"
    else status

unfoldable pub is_participation_command : String → Bool
is_participation_command t =
    t == "participant.assign" || t == "participant.unassign" || t == "participant.transfer"

unfoldable pub is_participation_fact : String → Bool
is_participation_fact t = t == "participant.joined" || t == "participant.left"

unfoldable pub contains : List String → String → Bool
contains [] id = false
contains (j ∷ ids) id = j == id || contains ids id

-- `set[id] = true`.
unfoldable pub add_id : String → List String → List String
unfolding contains
add_id id ids = if contains ids id then ids else ids ++ id ∷ []

abbrev pub ids_of : Option (List String) → List String
ids_of none = []
ids_of (some ids) = ids

unfoldable pub add_parent : InteractionState → String → String → InteractionState
unfolding add_id
add_parent st parent id = record st {
  parents = insert parent (add_id id (ids_of (lookup parent st.parents))) st.parents;
}

unfoldable pub fold_result : ℕ → InteractionState → Event → InteractionState
fold_result max st e =
    if e.command_id == ""
    then st
    else put_result st e.command_id
        (record { payload_hash = e.payload_hash; result = accept e.command_id }) max

unfoldable pub fold_parent : InteractionState → Event → InteractionState
unfolding is_participation_fact
fold_parent st e =
    if is_participation_fact e.event_type && not (e.caused_by == "")
    then add_parent st e.caused_by e.command_id
    else st

-- One round of the loop of `rebuild`.
unfoldable pub fold_fact : ℕ → InteractionState → Event → InteractionState
unfolding fold_result fold_parent transition
fold_fact max st e =
    fold_parent
      (fold_result max
        (record st {
          seq = if less_int64 st.seq e.sequence then e.sequence else st.seq;
          status = transition st.status e.event_type;
        })
        e)
      e

unfoldable pub fold_facts : ℕ → InteractionState → List Event → InteractionState
fold_facts max st [] = st
fold_facts max st (e ∷ es) = fold_facts max (fold_fact max st e) es

-- `rebuild`, after a replay that gave the facts and the subject's last stream sequence.
unfoldable pub rebuilt : ℕ → List Event → ℕ → InteractionState
unfolding fold_facts fold_participation
rebuilt max facts last =
    fold_facts max
      (record {
        seq = 0;
        stream_seq = last;
        status = "";
        results = [];
        result_order = [];
        part = fold_participation facts;
        parents = [];
        poisoned = false;
        last_used = 0;
      })
      facts

-- `st.seq, st.streamSeq, st.status, st.part, st.parents = fresh...`, and the missing results.
unfoldable pub adopt : InteractionState → InteractionState → ℕ → InteractionState
adopt st fresh max =
    copy_missing_results
      (record st {
        seq = fresh.seq;
        stream_seq = fresh.stream_seq;
        status = fresh.status;
        part = fresh.part;
        parents = fresh.parents;
      })
      fresh max
