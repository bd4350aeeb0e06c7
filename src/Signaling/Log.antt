-- ===== src/Signaling/Log.antt =====
-- internal/signaling/store.go: the port `LogStore`, and what the router relies on from the broker
-- behind it. The broker is not in the repository: its operations and its behaviour are parameters.
use Prim.Native.String.{◌++◌ as str_append}
use relaypoint.Common.{
  ℕ, String, ◌<◌, ◌≡◌, ◌⊎◌, List, [], ◌∷◌, ◌++◌, Option, none, some, some, length, Within,
  max_int64,
}
use relaypoint.Signaling.Wire.{Event}
use relaypoint.Signaling.State.{InteractionState, rebuilt}
use relaypoint.Signaling.State.Fold.{IsLegal}

-- The results of `Append`: stored under a stream sequence, a duplicate of the fact with that stream
-- sequence, `ErrOCCConflict`, or another error, after which the fact may have been stored or not.
pub data AppendResult : Type 0 where
  committed duplicate : ℕ → AppendResult
  conflict failed : AppendResult

-- `World` is all that lies outside of the router. `append` takes the subject, the fact, the dedup id
-- and the expected last stream sequence. `replay` gives the facts and the last stream sequence, or
-- `none` for an error. `new_id` and `now` are what the id generator and the clock would give.
pub record LogStore : Type 1 where
  pub World : Type 0
  pub append : World → String → Event → String → ℕ → World × AppendResult
  pub replay : World → String → World × Option (List Event × ℕ)
  pub new_id : World → String
  pub now : World → ℕ

-- What the comments on the port promise, for one subject. `facts` and `last` are the subject's log
-- and its last stream sequence. `Others w w'` says that other writers led from `w` to `w'`; they are
-- routers too, so they keep a legal log legal, and they may act before any call. A log holds fewer
-- than 2 ^ 63 - 1 facts.
pub record Promises (s : LogStore) (subject : String) (dedup_of : Event → String) : Type 1 where
  pub facts : s.World → List Event
  pub last : s.World → ℕ
  pub Others : s.World → s.World → Type 0
  pub others_legal : (w w' : s.World) → Others w w' → IsLegal (facts w) → IsLegal (facts w')
  pub others_keep :
      (w w' : s.World) → Others w w' → (e : Event) → Within e (facts w) → Within e (facts w')
  pub others_last :
      (w w' : s.World)
      → Others w w'
      → ((last w' ≡ last w) × (facts w' ≡ facts w)) ⊎ (last w < last w')
  pub replay_others : (w : s.World) → Others w (s.replay w subject).0
  pub replay_all :
      (w : s.World) (es : List Event) (n : ℕ)
      → (s.replay w subject).1 ≡ some (es, n)
      → (es ≡ facts (s.replay w subject).0)
        × (n ≡ last (s.replay w subject).0)
        × (length es < max_int64)
  pub append_committed :
      (w : s.World) (e : Event) (expected n : ℕ)
      → (s.append w subject e (dedup_of e) expected).1 ≡ committed n
      → let w' = (s.append w subject e (dedup_of e) expected).0 in
        (m : s.World) × Others w m
        × (last m ≡ expected)
        × (facts w' ≡ facts m ++ e ∷ [])
        × (last w' ≡ n)
        × (last m < n)
        × (length (facts w') < max_int64)
  pub append_duplicate :
      (w : s.World) (e : Event) (expected n : ℕ)
      → (s.append w subject e (dedup_of e) expected).1 ≡ duplicate n
      → let w' = (s.append w subject e (dedup_of e) expected).0 in
        Others w w' × (d : Event) × Within d (facts w') × (dedup_of d ≡ dedup_of e)
  pub append_conflict :
      (w : s.World) (e : Event) (expected : ℕ)
      → (s.append w subject e (dedup_of e) expected).1 ≡ conflict
      → Others w (s.append w subject e (dedup_of e) expected).0
  pub append_failed :
      (w : s.World) (e : Event) (expected : ℕ)
      → (s.append w subject e (dedup_of e) expected).1 ≡ failed
      → let w' = (s.append w subject e (dedup_of e) expected).0 in
        Others w w'
        ⊎ ((m : s.World) × Others w m
            × (last m ≡ expected)
            × (facts w' ≡ facts m ++ e ∷ [])
            × (last m < last w')
            × (length (facts w') < max_int64))

-- The parts of a text, one behind the other.
unfoldable pub joined : List String → String
joined [] = ""
joined (t ∷ ts) = str_append t (joined ts)

unfoldable pub log_subject_for : String → String → String
unfolding joined
log_subject_for tenant iid = joined ("tenant." ∷ tenant ∷ ".interaction." ∷ iid ∷ ".log" ∷ [])

-- `tenant+"."+iid+"."+cmd.CommandId`, on the fact that carries the command id.
unfoldable pub dedup_id : String → String → Event → String
unfolding joined
dedup_id tenant iid e = str_append (joined (tenant ∷ "." ∷ iid ∷ "." ∷ [])) e.command_id

-- `rebuild`: the replay, and the fold of what it gave; `none` for a replay that failed.
unfoldable pub rebuild :
    (s : LogStore) → ℕ → String → String → s.World → s.World × Option InteractionState
rebuild s max tenant iid w =
    let (w', r) = s.replay w (log_subject_for tenant iid) in
    (w', elim r [ none ↦ none | some (facts, last) ↦ some (rebuilt max facts last) ])
