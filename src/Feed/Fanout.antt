-- ===== src/Feed/Fanout.antt =====
-- internal/projector/projector.go: `fanout`, its goroutines, and `publishWithRetry`.
pub mod Addressed
pub mod Calls
pub mod Sent
use Prim.Native.String.{◌++◌ as str_append}
use relaypoint.Common.{
  ℕ, zero, suc, ◌+◌, String, List, [], ◌∷◌, map, Option, none, some, Bool, true, false, not, ◌&&◌,
  ◌||◌, if◌then◌else◌, less_int64,
}
use relaypoint.Feed.Ports.{Call, published, Trace, Env, is_nil, decimal}
use relaypoint.Signaling.Log.{joined}

-- A message for one feed: the arguments of `Publish` but the agent and its dedup id.
pub record Message : Type 0 where
  pub tenant : String
  pub iid : String
  pub sequence : ℕ
  pub payload : List ℕ

-- `"%s.%s.%s.%d"`.
unfoldable pub dedup_for : Message → String → String
dedup_for m agent = joined (m.tenant ∷ "." ∷ agent ∷ "." ∷ m.iid ∷ "." ∷ decimal m.sequence ∷ [])

-- One call of `Publish`, which is recorded.
unfoldable pub publish_once :
    Env → String → String → String → String → List ℕ → Trace → Trace × Option String
publish_once env tenant agent iid dedup payload t =
    let err = env.publish t tenant agent iid dedup payload in
    (published tenant agent iid dedup payload (is_nil err) ∷ t, err)

-- The attempts from the second on, of which `left` are left. `err` is that of the attempt before.
unfoldable pub retries :
    Env
    → String
    → String
    → String
    → String
    → List ℕ
    → ℕ
    → Option String
    → Trace
    → Trace × Option String
unfolding publish_once
retries env tenant agent iid dedup payload zero err t = (t, err)
retries env tenant agent iid dedup payload (suc left) err t =
    let (t', err') = publish_once env tenant agent iid dedup payload t in
    let more = retries env tenant agent iid dedup payload left err' t' in
    if env.cancelled t
    then (t, some "context canceled")
    else if is_nil err'
    then (t', none)
    else more

-- The attempts that `PublishRetry` allows.
abbrev pub rounds : ℕ → ℕ
rounds retry = if less_int64 0 retry then retry else 0

abbrev pub after_first :
    Env
    → String
    → String
    → String
    → String
    → List ℕ
    → ℕ
    → Trace × Option String
    → Trace × Option String
after_first env tenant agent iid dedup payload left (t, none) = (t, none)
after_first env tenant agent iid dedup payload left (t, some err) =
    retries env tenant agent iid dedup payload left (some err) t

abbrev pub first_of :
    Env → String → String → String → String → List ℕ → ℕ → Trace → Trace × Option String
first_of env tenant agent iid dedup payload zero t = (t, none)
first_of env tenant agent iid dedup payload (suc left) t =
    after_first env tenant agent iid dedup payload left
      (publish_once env tenant agent iid dedup payload t)

-- `publishWithRetry` on its own, as `tombstone` calls it.
unfoldable pub publish_with_retry :
    Env → String → String → String → String → List ℕ → ℕ → Trace → Trace × Option String
unfolding retries publish_once
publish_with_retry env tenant agent iid dedup payload retry t =
    first_of env tenant agent iid dedup payload (rounds retry) t

-- A goroutine of the fan-out: `begun` once it made an attempt, and the attempts after the next one.
pub record Task : Type 0 where
  pub agent : String
  pub begun : Bool
  pub left : ℕ

pub data Turn : Type 0 where
  sent : Turn
  again : Task → Turn
  gave_up : String → Turn

abbrev pub after_failure : String → ℕ → String → Turn
after_failure agent zero err = gave_up err
after_failure agent (suc left) err = again (record { agent = agent; begun = true; left = left })

abbrev pub after_attempt : Task → Option String → Turn
after_attempt task none = sent
after_attempt task (some err) = after_failure task.agent task.left err

-- The next attempt of a goroutine. `stopped` says that the group's context is cancelled, which the wait
-- before an attempt that is not the first looks at.
unfoldable pub try_publish : Env → Message → Bool → Task → Trace → Trace × Turn
unfolding publish_once
try_publish env m stopped task t =
    if task.begun && stopped
    then (t, gave_up "context canceled")
    else (let (t', err) =
          publish_once env m.tenant task.agent m.iid (dedup_for m task.agent) m.payload t in
        (t', after_attempt task err))

-- The goroutine in place `i`, or the last one, and the others.
unfoldable pub pick : ℕ → Task → List Task → Task × List Task
pick i task [] = (task, [])
pick zero task (next ∷ rest) = (task, next ∷ rest)
pick (suc i) task (next ∷ rest) = let (chosen, others) = pick i next rest in (chosen, task ∷ others)

-- What the group has so far: the goroutines that run, and the first error.
pub record Group : Type 0 where
  pub running : List Task
  pub failed : Option String
  pub trace : Trace

abbrev pub first_error : Option String → String → Option String
first_error none e = some e
first_error (some first) e = some first

abbrev pub settle : List Task → Option String → Trace × Turn → Group
settle others failed (t, sent) = record { running = others; failed = failed; trace = t }
settle others failed (t, again task) = record {
  running = task ∷ others;
  failed = failed;
  trace = t;
}
settle others failed (t, gave_up e) = record {
  running = others;
  failed = first_error failed e;
  trace = t;
}

-- One attempt of one goroutine.
unfoldable pub advance : Env → Message → Task → List Task → Option String → Trace → Group
unfolding try_publish pick
advance env m task rest failed t =
    let (chosen, others) = pick (env.turn t) task rest in
    settle others failed (try_publish env m (not (is_nil failed) || env.cancelled t) chosen t)

abbrev pub run_running :
    (List Task → Option String → Trace → Group)
    → Env
    → Message
    → List Task
    → Option String
    → Trace
    → Group
run_running next env m [] failed t = record { running = []; failed = failed; trace = t }
run_running next env m (task ∷ rest) failed t =
    let g = advance env m task rest failed t in next g.running g.failed g.trace

-- `g.Wait()`, in at most `fuel` attempts.
unfoldable pub run_group : ℕ → Env → Message → List Task → Option String → Trace → Group
unfolding advance
run_group zero env m running failed t = record { running = running; failed = failed; trace = t }
run_group (suc fuel) env m running failed t =
    run_running (λ r f t'. run_group fuel env m r f t') env m running failed t

abbrev pub fresh_task : ℕ → String → Task
fresh_task left agent = record { agent = agent; begun = false; left = left }

abbrev pub tasks_for : ℕ → List String → List Task
tasks_for zero recipients = []
tasks_for (suc left) recipients = map (fresh_task left) recipients

-- The attempts that the goroutines have left.
unfoldable pub attempts_left : List Task → ℕ
attempts_left [] = 0
attempts_left (task ∷ rest) = suc task.left + attempts_left rest

-- `fanout`: the goroutines of the recipients, interleaved by `turn`.
unfoldable pub fanout : Env → Message → List String → ℕ → Trace → Trace × Option String
unfolding run_group attempts_left
fanout env m recipients retry t =
    let tasks = tasks_for (rounds retry) recipients in
    let g = run_group (attempts_left tasks) env m tasks none t in (g.trace, g.failed)
