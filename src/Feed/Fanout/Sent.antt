-- ===== src/Feed/Fanout/Sent.antt =====
-- What the goroutines of `fanout` (internal/projector/projector.go) have done when all have ended, in
-- whatever order their attempts are made.
use relaypoint.Common.{
  ℕ, zero, suc, ◌+◌, ◌*◌, ◌≤◌, ◌<◌, String, ◌≡◌, ◌≢◌, refl, sym, ap, ◌⊎◌, inl, inr, List, [], ◌∷◌,
  Option, none, some, true, false, not, ◌&&◌, ◌||◌, arith, Within, length, Bool-cases, less_int64,
}
use relaypoint.Feed.Ports.{Call, published, Trace, Env, is_nil}
use relaypoint.Feed.Fanout.{
  Message, dedup_for, publish_once, rounds, Task, gave_up, try_publish, pick, Group, first_error,
  settle, after_attempt, after_failure, advance, run_group, tasks_for, attempts_left, fanout,
}
use relaypoint.Feed.Fanout.Addressed.{
  Sends, times, publishes_to, run_group-IsAccounted, tasks_for-All, attempts_of-tasks_for,
}
use relaypoint.Feed.Fanout.Calls.{
  Publishes, same, more, Publishes-trans, Within-Publishes, publishes,
}

-- Some goroutine is the agent's.
abbrev pub Runs : String → List Task → Type 0
Runs a [] = ⊥
Runs a (task ∷ rest) = (task.agent ≡ a) ⊎ Runs a rest

-- The one that is chosen and the others are all of them.
record IsPick (task : Task) (rest : List Task) (got : Task × List Task) : Type 0 where
  left : suc got.0.left + attempts_left got.1 ≡ suc task.left + attempts_left rest
  kept : (a : String) → (task.agent ≡ a) ⊎ Runs a rest → (got.0.agent ≡ a) ⊎ Runs a got.1

pick-IsPick : (i : ℕ) (task : Task) (rest : List Task) → IsPick task rest (pick i task rest)
unfolding pick attempts_left
pick-IsPick i task [] = record { left = refl; kept = λ a h. h }
pick-IsPick zero task (next ∷ rest) = record { left = refl; kept = λ a h. h }
pick-IsPick (suc i) task (next ∷ rest) =
    let k = pick-IsPick i next rest in
    record {
      left = omega (arith, k.left);
      kept = λ a h. elim h [
        | inl e ↦ inr (inl e)
        | inr r ↦ elim (k.kept a r) [ inl e ↦ inl e | inr r' ↦ inr (inr r') ]
      ];
    }

module _ (env : Env) (m : Message) where
  -- The publish of the message to an agent, where it succeeded.
  abbrev pub call_to : String → Call
  call_to a = published m.tenant a m.iid (dedup_for m a) m.payload true

  -- Whatever the choice, the group after one attempt: fewer attempts are left, and each agent that ran
  -- runs on, was sent the message, or leaves an error.
  record IsAdvance (running : List Task) (failed : Option String) (t : Trace) (g : Group)
      : Type 0 where
    grows : Publishes t g.trace
    fewer : attempts_left g.running < attempts_left running
    counted : publishes g.trace + attempts_left g.running ≤ publishes t + attempts_left running
    kept_error : failed ≢ none → g.failed ≢ none
    kept :
        (a : String)
        → Runs a running
        → Runs a g.running ⊎ Within (call_to a) g.trace ⊎ (g.failed ≢ none)

  first_error-ne : (failed : Option String) (e : String) → first_error failed e ≢ none
  first_error-ne none e h = cc
  first_error-ne (some first) e h = cc

  -- A goroutine that ends with an error.
  ended :
      (task : Task) (others running : List Task) (failed : Option String) (t u : Trace) (e : String)
      → Publishes t u
      → publishes u ≤ publishes t + 1
      → suc task.left + attempts_left others ≡ attempts_left running
      → IsAdvance running failed t (settle others failed (u, gave_up e))
  ended task others running failed t u e p c n = record {
    grows = p;
    fewer = omega arith;
    counted = omega arith;
    kept_error = λ _. first_error-ne failed e;
    kept = λ a h. inr (inr (first_error-ne failed e));
  }

  failed_once :
      (agent : String) (left : ℕ) (others running : List Task) (failed : Option String) (t : Trace)
      (e : String)
      → suc left + attempts_left others ≡ attempts_left running
      → ((a : String) → Runs a running → (agent ≡ a) ⊎ Runs a others)
      → IsAdvance running failed t (
          settle others failed (
            published m.tenant agent m.iid (dedup_for m agent) m.payload false ∷ t,
            after_failure agent left e,
          ))
  failed_once agent zero others running failed t e n k =
      ended (record { agent = agent; begun = true; left = 0 }) others running failed t _ e
        (more same m.tenant agent m.iid (dedup_for m agent) m.payload false) (omega arith) n
  failed_once agent (suc left) others running failed t e n k = record {
    grows = more same m.tenant agent m.iid (dedup_for m agent) m.payload false;
    fewer = unfold attempts_left in omega arith;
    counted = unfold attempts_left in omega arith;
    kept_error = λ h. h;
    kept = λ a h. inl (k a h);
  }

  settled :
      (task : Task) (others running : List Task) (failed : Option String) (t : Trace)
      (r : Option String)
      → suc task.left + attempts_left others ≡ attempts_left running
      → ((a : String) → Runs a running → (task.agent ≡ a) ⊎ Runs a others)
      → IsAdvance running failed t (
          settle others failed (
            published m.tenant task.agent m.iid (dedup_for m task.agent) m.payload (is_nil r) ∷ t,
            after_attempt task r,
          ))
  settled task others running failed t none n k = record {
    grows = more same m.tenant task.agent m.iid (dedup_for m task.agent) m.payload true;
    fewer = omega arith;
    counted = omega arith;
    kept_error = λ h. h;
    kept = λ a h. elim (k a h) [ inl e ↦ inr (inl (inl (ap call_to (sym e)))) | inr r ↦ inl r ];
  }
  settled task others running failed t (some e) n k =
      failed_once task.agent task.left others running failed t e n k

  advance-IsAdvance :
      (task : Task) (rest : List Task) (failed : Option String) (t : Trace)
      → IsAdvance (task ∷ rest) failed t (advance env m task rest failed t)
  unfolding advance try_publish publish_once attempts_left
  advance-IsAdvance task rest failed t =
      let (chosen, others) = pick (env.turn t) task rest in
      let k = pick-IsPick (env.turn t) task rest in
      elim (Bool-cases (chosen.begun && (not (is_nil failed) || env.cancelled t))) [
        | inl s ↦ rw s (
            ended chosen others (task ∷ rest) failed t t "context canceled" same (omega arith)
              k.left)
        | inr s ↦ rw s (
            settled chosen others (task ∷ rest) failed t
              (env.publish t m.tenant chosen.agent m.iid (dedup_for m chosen.agent) m.payload)
              k.left k.kept)
      ]

  -- With the attempts that are left as fuel, the group ends with no goroutine running.
  record IsGroup (running : List Task) (failed : Option String) (t : Trace) (g : Group)
      : Type 0 where
    grows : Publishes t g.trace
    done : g.running ≡ []
    counted : publishes g.trace ≤ publishes t + attempts_left running
    kept_error : failed ≢ none → g.failed ≢ none
    kept : (a : String) → Runs a running → Within (call_to a) g.trace ⊎ (g.failed ≢ none)

  run_group-IsGroup :
      (fuel : ℕ) (running : List Task) (failed : Option String) (t : Trace)
      → attempts_left running ≤ fuel
      → IsGroup running failed t (run_group fuel env m running failed t)
  unfolding run_group
  run_group-IsGroup zero [] failed t h = record {
    grows = same;
    done = refl;
    counted = omega arith;
    kept_error = λ e. e;
    kept = λ a r. absurd r;
  }
  run_group-IsGroup zero (task ∷ rest) failed t h = absurd (unfold attempts_left in omega arith)
  run_group-IsGroup (suc fuel) [] failed t h = record {
    grows = same;
    done = refl;
    counted = omega arith;
    kept_error = λ e. e;
    kept = λ a r. absurd r;
  }
  run_group-IsGroup (suc fuel) (task ∷ rest) failed t h =
      let k = advance-IsAdvance task rest failed t in
      let g = advance env m task rest failed t in
      let r = run_group-IsGroup fuel g.running g.failed g.trace (omega (arith, k.fewer)) in
      record {
        grows = Publishes-trans k.grows r.grows;
        done = r.done;
        counted = omega (arith, k.counted, r.counted);
        kept_error = λ e. r.kept_error (k.kept_error e);
        kept = λ a x. elim (k.kept a x) [
          | inl y ↦ r.kept a y
          | inr y ↦ elim y [
            | inl w ↦ inl (Within-Publishes (call_to a) r.grows w)
            | inr e ↦ inr (r.kept_error e)
          ]
        ];
      }

  Runs-tasks_for :
      (left : ℕ) (a : String) (recipients : List String)
      → Within a recipients
      → Runs a (tasks_for (suc left) recipients)
  Runs-tasks_for left a [] w = absurd w
  Runs-tasks_for left a (r ∷ rest) (inl e) = inl (sym e)
  Runs-tasks_for left a (r ∷ rest) (inr w) = inr (Runs-tasks_for left a rest w)

  attempts_left-tasks_for :
      (left : ℕ) (recipients : List String)
      → attempts_left (tasks_for (suc left) recipients) ≡ length recipients * suc left
  unfolding attempts_left
  attempts_left-tasks_for left [] = omega arith
  attempts_left-tasks_for left (r ∷ rest) = grind (arith, attempts_left-tasks_for left rest)

  -- What a fan-out did: every call that it added is a publish of the message to a recipient, an agent gets
  -- at most `PublishRetry` of them for each time it is among the recipients, and when it returns nil the
  -- message was sent to every recipient.
  pub record IsFannedOut (recipients : List String) (retry : ℕ) (t : Trace)
      (out : Trace × Option String) : Type 0 where
    pub finished :
        (run_group
          (attempts_left (tasks_for (rounds retry) recipients))
          env
          m
          (tasks_for (rounds retry) recipients)
          none
          t).running
        ≡ []
    pub grows : Publishes t out.0
    pub counted : publishes out.0 ≤ publishes t + length recipients * retry
    pub addressed : Sends m (λ a. Within a recipients) t out.0
    pub counted_to :
        (a : String) → publishes_to a out.0 ≤ publishes_to a t + times a recipients * retry
    pub reaches : out.1 ≡ none → (a : String) → Within a recipients → Within (call_to a) out.0

  -- Whatever the order in which the goroutines are scheduled and whatever the publishes answer, the
  -- fan-out with a positive `PublishRetry` ends within the attempts it has. Every call that it adds is a
  -- publish of the message, in its tenant, interaction and payload and under the agent's own dedup id, to
  -- one of the recipients; an agent gets at most `PublishRetry` of them for each time it is among the
  -- recipients; and a nil result means that the message was sent to every recipient.
  pub fanout-IsFannedOut :
      (recipients : List String) (retry : ℕ) (t : Trace)
      → less_int64 0 retry ≡ true
      → IsFannedOut recipients retry t (fanout env m recipients retry t)
  unfolding fanout
  fanout-IsFannedOut recipients zero t h = cc
  fanout-IsFannedOut recipients (suc left) t h = rw h (
      let tasks = tasks_for (suc left) recipients in
      let k = run_group-IsGroup (attempts_left tasks) tasks none t (omega arith) in
      let s =
        run_group-IsAccounted m (λ a. Within a recipients) env (attempts_left tasks) tasks none t
          (tasks_for-All m (λ a. Within a recipients) left recipients λ a w. w) in
      record {
        finished = rw h k.done;
        grows = k.grows;
        counted = omega (arith, k.counted, attempts_left-tasks_for left recipients);
        addressed = s.grows;
        counted_to = λ a. omega (arith, s.counted a, attempts_of-tasks_for a left recipients);
        reaches = λ e a w. elim (k.kept a (Runs-tasks_for left a recipients w)) [
          | inl x ↦ x
          | inr x ↦ absurd (x e)
        ];
      })
