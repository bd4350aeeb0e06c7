-- ===== src/Feed/Fanout/Addressed.antt =====
-- To whom the goroutines of `fanout` (internal/projector/projector.go) publish, and how often to each, in
-- whatever order their attempts are made.
use relaypoint.Common.{
  ℕ, zero, suc, ◌+◌, ◌*◌, ◌≤◌, String, ◌≡◌, refl, inl, inr, List, [], ◌∷◌, Option, none, some, Bool,
  true, false, not, ◌&&◌, ◌||◌, ◌==◌, arith, Within, Bool-cases,
}
use relaypoint.Feed.Ports.{published, dead_lettered, acked, nakked, saved, Trace, Env, is_nil}
use relaypoint.Feed.Fanout.{
  Message, dedup_for, publish_once, Task, gave_up, try_publish, pick, Group, settle, after_attempt,
  after_failure, advance, run_group, tasks_for,
}

abbrev pub share : Bool → ℕ → ℕ
share true n = n
share false n = 0

share-suc : (b : Bool) (n : ℕ) → share b (suc n) ≡ share b 1 + share b n
share-suc true n = omega arith
share-suc false n = refl

-- How often an agent is among the recipients.
abbrev pub times : String → List String → ℕ
times a [] = 0
times a (r ∷ rest) = share (r == a) 1 + times a rest

-- How many publishes a trace has for an agent.
abbrev pub publishes_to : String → Trace → ℕ
publishes_to a [] = 0
publishes_to a (published tenant agent iid dedup payload ok ∷ t) =
    share (agent == a) 1 + publishes_to a t
publishes_to a (dead_lettered tenant reason id seq ok ∷ t) = publishes_to a t
publishes_to a (acked f ok ∷ t) = publishes_to a t
publishes_to a (nakked f ok ∷ t) = publishes_to a t
publishes_to a (saved seq snap ok ∷ t) = publishes_to a t

-- The attempts that the goroutines of an agent have left.
abbrev pub attempts_of : String → List Task → ℕ
attempts_of a [] = 0
attempts_of a (task ∷ rest) = share (task.agent == a) (suc task.left) + attempts_of a rest

-- `u` is `t` with publishes of the message itself added, each under the dedup id of its agent and to an
-- agent of which `P` holds.
pub data Sends (m : Message) (P : String → Type 0) (t : Trace) : Trace → Type 0 where
  unsent : Sends m P t t
  sends :
      {u : Trace}
      → Sends m P t u
      → (a : String) (ok : Bool) → P a
      → Sends m P t (published m.tenant a m.iid (dedup_for m a) m.payload ok ∷ u)

module _ (m : Message) (P : String → Type 0) where
  Sends-trans : {t u v : Trace} → Sends m P t u → Sends m P u v → Sends m P t v
  Sends-trans p unsent = p
  Sends-trans p (sends q a ok h) = sends (Sends-trans p q) a ok h

  abbrev pub All : List Task → Type 0
  All [] = Unit {0}
  All (task ∷ rest) = P task.agent × All rest

  pick-All :
      (i : ℕ) (task : Task) (rest : List Task)
      → P task.agent
      → All rest
      → P (pick i task rest).0.agent × All (pick i task rest).1
  unfolding pick
  pick-All i task [] p k = (p, k)
  pick-All zero task (next ∷ rest) p k = (p, k)
  pick-All (suc i) task (next ∷ rest) p (q, k) =
      let (x, y) = pick-All i next rest q k in (x, (p, y))

  pick-attempts_of :
      (a : String) (i : ℕ) (task : Task) (rest : List Task)
      → attempts_of a ((pick i task rest).0 ∷ (pick i task rest).1) ≡ attempts_of a (task ∷ rest)
  unfolding pick
  pick-attempts_of a i task [] = refl
  pick-attempts_of a zero task (next ∷ rest) = refl
  pick-attempts_of a (suc i) task (next ∷ rest) =
      let h = pick-attempts_of a i next rest in omega arith

  -- From these goroutines and calls to those: only the message was published and only to agents of which `P` holds, and
  -- each publish to an agent took one of its attempts.
  pub record IsAccounted (running : List Task) (t : Trace) (g : Group) : Type 0 where
    pub grows : Sends m P t g.trace
    pub all : All g.running
    pub counted :
        (a : String)
        → publishes_to a g.trace + attempts_of a g.running
          ≤ publishes_to a t + attempts_of a running

  module _ (env : Env) where
    stopped_once :
        (task : Task) (others : List Task) (failed : Option String) (t : Trace) (e : String)
        → All others
        → IsAccounted (task ∷ others) t (settle others failed (t, gave_up e))
    stopped_once task others failed t e k = record {
      grows = unsent;
      all = k;
      counted = λ a. omega arith;
    }

    sent_once :
        (task : Task) (others : List Task) (failed : Option String) (t : Trace) (r : Option String)
        → P task.agent
        → All others
        → IsAccounted (task ∷ others) t (
            settle others failed (
              published m.tenant task.agent m.iid (dedup_for m task.agent) m.payload (is_nil r) ∷ t,
              after_attempt task r,
            ))
    sent_once task others failed t none p k = record {
      grows = sends unsent task.agent true p;
      all = k;
      counted = λ a. omega (arith, share-suc (task.agent == a) task.left);
    }
    sent_once task others failed t (some e) p k = failed_once task.agent task.begun task.left p
      where
        failed_once :
            (agent : String) (begun : Bool) (left : ℕ)
            → P agent
            → IsAccounted (record { agent = agent; begun = begun; left = left } ∷ others) t (
                settle others failed (
                  published m.tenant agent m.iid (dedup_for m agent) m.payload false ∷ t,
                  after_failure agent left e,
                ))
        failed_once agent begun zero p = record {
          grows = sends unsent agent false p;
          all = k;
          counted = λ a. omega arith;
        }
        failed_once agent begun (suc left) p = record {
          grows = sends unsent agent false p;
          all = (p, k);
          counted = λ a. omega (arith, share-suc (agent == a) (suc left));
        }

    advance-IsAccounted :
        (task : Task) (rest : List Task) (failed : Option String) (t : Trace)
        → P task.agent
        → All rest
        → IsAccounted (task ∷ rest) t (advance env m task rest failed t)
    unfolding advance try_publish publish_once
    advance-IsAccounted task rest failed t p q =
        let (chosen, others) = pick (env.turn t) task rest in
        let (x, y) = pick-All (env.turn t) task rest p q in
        elim (Bool-cases (chosen.begun && (not (is_nil failed) || env.cancelled t))) [
          | inl s ↦ rw s (same_attempts (stopped_once chosen others failed t "context canceled" y))
          | inr s ↦ rw s (
              same_attempts (
                sent_once chosen others failed t
                  (env.publish t m.tenant chosen.agent m.iid (dedup_for m chosen.agent) m.payload) x
                  y))
        ]
      where
        same_attempts :
            {g : Group}
            → IsAccounted ((pick (env.turn t) task rest).0 ∷ (pick (env.turn t) task rest).1) t g
            → IsAccounted (task ∷ rest) t g
        same_attempts k = record {
          grows = k.grows;
          all = k.all;
          counted = λ a. omega (arith, k.counted a, pick-attempts_of a (env.turn t) task rest);
        }

    pub run_group-IsAccounted :
        (fuel : ℕ) (running : List Task) (failed : Option String) (t : Trace)
        → All running
        → IsAccounted running t (run_group fuel env m running failed t)
    unfolding run_group
    run_group-IsAccounted zero running failed t k = record {
      grows = unsent;
      all = k;
      counted = λ a. omega arith;
    }
    run_group-IsAccounted (suc fuel) [] failed t k = record {
      grows = unsent;
      all = k;
      counted = λ a. omega arith;
    }
    run_group-IsAccounted (suc fuel) (task ∷ rest) failed t (p, q) =
        let g = advance env m task rest failed t in
        let k = advance-IsAccounted task rest failed t p q in
        let r = run_group-IsAccounted fuel g.running g.failed g.trace k.all in
        record {
          grows = Sends-trans k.grows r.grows;
          all = r.all;
          counted = λ a. omega (arith, k.counted a, r.counted a);
        }

  pub tasks_for-All :
      (left : ℕ) (recipients : List String)
      → ((a : String) → Within a recipients → P a)
      → All (tasks_for (suc left) recipients)
  tasks_for-All left [] h = tt
  tasks_for-All left (r ∷ rest) h = (h r (inl refl), tasks_for-All left rest λ a w. h a (inr w))

pub attempts_of-tasks_for :
    (a : String) (left : ℕ) (recipients : List String)
    → attempts_of a (tasks_for (suc left) recipients) ≡ times a recipients * suc left
attempts_of-tasks_for a left [] = omega arith
attempts_of-tasks_for a left (r ∷ rest) = elim (Bool-cases (r == a)) [
  | inl e ↦ rw e (grind (arith, attempts_of-tasks_for a left rest))
  | inr e ↦ rw e (grind (arith, attempts_of-tasks_for a left rest))
]
