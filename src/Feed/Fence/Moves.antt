-- ===== src/Feed/Fence/Moves.antt =====
-- What holds of the fence of internal/projector/projector.go whatever the order of its calls.
use relaypoint.Common.{
  ℕ, suc, ◌≤◌, ◌<◌, ◌+◌, String, ◌≡◌, ◌≢◌, ◌⊎◌, ◌↔◌, inl, inr, refl, List, [], ◌∷◌, none, some,
  Bool, true, ◌||◌, arith, if◌then◌else◌, has, Bool-cases,
}
use relaypoint.Feed.Fence.{
  Fence, new_fence, cancel_latest, ended, context, waits, begin, pause, resume, fail, health, ready,
}

-- The loop, the renewals and the shutdown call the fence in any order.
pub data Step : Fence → Fence → Type 0 where
  begins : (f : Fence) → Step f (begin f).0
  pauses : (f : Fence) → Step f (pause f)
  resumes : (f : Fence) → Step f (resume f)
  fails : (f : Fence) (err : String) → Step f (fail err f)
  shuts : (f : Fence) → Step f (record f { done = true })

pub data Reach (f : Fence) : Fence → Type 0 where
  here : Reach f f
  next : {g h : Fence} → Reach f g → Step g h → Reach f h

-- The contexts that are not cancelled, by their own cancel functions or by the parent.
abbrev pub live_in : List Bool → ℕ
live_in [] = 0
live_in (c ∷ rest) = (if c then 0 else 1) + live_in rest

abbrev pub live : Fence → ℕ
live f = if f.done then 0 else live_in f.contexts

-- Only the latest context can be live, and none is while the fence is paused or lost.
pub record IsFenced (f : Fence) : Type 0 where
  pub latest : live_in (cancel_latest f.contexts) ≡ 0
  pub stopped : (f.paused || has f.lost) ≡ true → live_in f.contexts ≡ 0

live_in-cancel_latest : (c : List Bool) → live_in c ≤ suc (live_in (cancel_latest c))
live_in-cancel_latest [] = omega arith
live_in-cancel_latest (c ∷ rest) = ground arith

cancel_latest_twice :
    (c : List Bool) → live_in (cancel_latest (cancel_latest c)) ≡ live_in (cancel_latest c)
cancel_latest_twice [] = refl
cancel_latest_twice (c ∷ rest) = refl

Step-IsFenced : {f g : Fence} → Step f g → IsFenced f → IsFenced g
unfolding begin pause resume fail
Step-IsFenced (begins f) v = ground (arith, cancel_latest_twice f.contexts)
Step-IsFenced (pauses f) v = ground (arith, cancel_latest_twice f.contexts)
Step-IsFenced (resumes f) v = ground arith
Step-IsFenced (fails f err) v = ground (arith, cancel_latest_twice f.contexts)
Step-IsFenced (shuts f) v = record { latest = v.latest; stopped = v.stopped }

Reach-IsFenced : {f g : Fence} → Reach f g → IsFenced f → IsFenced g
Reach-IsFenced here v = v
Reach-IsFenced (next r s) v = Step-IsFenced s (Reach-IsFenced r v)

-- Through any calls of a new fence, at most one of the contexts it gave is live, and none while it is
-- paused, lost or shut down.
pub live_once :
    (done : Bool) (f : Fence)
    → Reach (new_fence done) f
    → (live f ≤ 1) × ((f.paused || has f.lost || f.done) ≡ true → live f ≡ 0)
unfolding new_fence
live_once done f r =
    let v = Reach-IsFenced r (record { latest = refl; stopped = λ h. refl }) in
    ground (arith, live_in-cancel_latest f.contexts, v.latest, v.stopped)

Step-lost : {f g : Fence} (err : String) → Step f g → f.lost ≡ some err → g.lost ≡ some err
unfolding begin pause resume fail
Step-lost err (begins f) h = ground arith
Step-lost err (pauses f) h = ground arith
Step-lost err (resumes f) h = ground arith
Step-lost err (fails f e) h = ground arith
Step-lost err (shuts f) h = h

begin-lost : (f : Fence) (err : String) → f.lost ≡ some err → begin f ≡ (f, ended)
unfolding begin
begin-lost f err h = ground arith

health-lost : (f : Fence) (err : String) → f.lost ≡ some err → health f ≢ none
unfolding health
health-lost f err h e = ground arith

-- A lost lease is lost for good: whatever is called afterwards, the first error stays, `begin` gives no
-- context and readiness fails.
pub lost_for_good :
    {f g : Fence} (err : String)
    → f.lost ≡ some err
    → Reach f g
    → (g.lost ≡ some err) × (begin g ≡ (g, ended)) × (ready (some g) ≢ none)
unfolding ready
lost_for_good {f} {g} err h r = let l = kept r in (l, begin-lost g err l, health-lost g err l)
  where
    kept : {g : Fence} → Reach f g → g.lost ≡ some err
    kept here = h
    kept (next r s) = Step-lost err s (kept r)

-- What a wait on the channel `n` relies on: it is closed, or the fence is paused and not lost.
abbrev IsAwaited : ℕ → Fence → Type 0
IsAwaited n f = (n < f.closed) ⊎ ((f.closed ≡ n) × (f.paused ≡ true) × (f.lost ≡ none))

Step-IsAwaited : (n : ℕ) {f g : Fence} → Step f g → IsAwaited n f → IsAwaited n g
unfolding begin pause resume fail
Step-IsAwaited n (begins f) v = ground arith
Step-IsAwaited n (pauses f) v = ground arith
Step-IsAwaited n (resumes f) v = ground arith
Step-IsAwaited n (fails f err) v = ground arith
Step-IsAwaited n (shuts f) v = v

begin-IsAwaited : (n : ℕ) (f : Fence) → (begin f).1 ≡ waits n → IsAwaited n f
unfolding begin
begin-IsAwaited n f h = elim (Bool-cases (has f.lost || f.done)) [
  | inl c ↦ absurd (ground arith)
  | inr c ↦ elim (Bool-cases f.paused) [ inl p ↦ ground arith | inr p ↦ absurd (ground arith) ]
]

begin_waits :
    (n : ℕ) (f : Fence) → IsAwaited n f → (n < f.closed) ⊎ (f.done ≡ true) ⊎ ((begin f).1 ≡ waits n)
unfolding begin
begin_waits n f v = ground arith

-- No wake-up is lost: when `begin` waits on a channel, then after any further calls either that channel is
-- closed or the parent is done, and the wait ends, or `begin` would still wait on the same channel.
pub no_lost_wakeup :
    (n : ℕ) {f g : Fence}
    → (begin f).1 ≡ waits n
    → Reach f g
    → (n < g.closed) ⊎ (g.done ≡ true) ⊎ ((begin g).1 ≡ waits n)
no_lost_wakeup n {f} {g} h r = begin_waits n g (kept r)
  where
    kept : {g : Fence} → Reach f g → IsAwaited n g
    kept here = begin-IsAwaited n f h
    kept (next r s) = Step-IsAwaited n s (kept r)

-- Readiness passes exactly when `begin` would give a context.
pub ready_iff_begins : (f : Fence) → (ready (some f) ≡ none) ↔ ((begin f).1 ≡ context)
unfolding ready health begin
ready_iff_begins f = (λ h. ground arith, λ h. ground arith)
