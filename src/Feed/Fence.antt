-- ===== src/Feed/Fence.antt =====
-- internal/projector/projector.go: `fence`, which cancels the work on a fact while the lease is not
-- renewed, and what readiness reads from it. Each method holds the fence's lock.
pub mod Moves
use Prim.Native.String.{◌++◌ as str_append}
use relaypoint.Common.{
  ℕ, suc, String, List, [], ◌∷◌, Option, none, some, Bool, true, false, not, ◌||◌, if◌then◌else◌,
  has,
}

-- `done` is `parent.Err() != nil`. `contexts` has, for each context that `begin` made, the latest first,
-- whether its cancel function was called; `cancel` is the first one's, nil where there is none.
-- `closed` counts the wake-up channels that were closed, and so names the one that is in place.
pub record Fence : Type 0 where
  pub done : Bool
  pub paused : Bool
  pub lost : Option String
  pub contexts : List Bool
  pub closed : ℕ

unfoldable pub new_fence : Bool → Fence
new_fence done = record { done = done; paused = false; lost = none; contexts = []; closed = 0 }

-- `if f.cancel != nil { f.cancel() }`.
abbrev pub cancel_latest : List Bool → List Bool
cancel_latest [] = []
cancel_latest (c ∷ rest) = true ∷ rest

-- One round of `begin`: nil, a context, or the wait on a channel, behind which it goes round again.
pub data Begun : Type 0 where
  ended : Begun
  context : Begun
  waits : ℕ → Begun

unfoldable pub begin : Fence → Fence × Begun
begin f =
    if has f.lost || f.done
    then (f, ended)
    else if not f.paused
    then (record f { contexts = false ∷ cancel_latest f.contexts }, context)
    else (f, waits f.closed)

unfoldable pub pause : Fence → Fence
pause f =
    if f.paused || has f.lost
    then f
    else record f { paused = true; contexts = cancel_latest f.contexts }

unfoldable pub resume : Fence → Fence
resume f =
    if not f.paused || has f.lost then f else record f { paused = false; closed = suc f.closed }

unfoldable pub fail : String → Fence → Fence
fail err f =
    if has f.lost
    then f
    else record f { lost = some err; contexts = cancel_latest f.contexts; closed = suc f.closed }

abbrev pub lost_or : Option String → Option String → Option String
lost_or none other = other
lost_or (some err) other = some (str_append "lease lost: " err)

abbrev pub parent_err : Bool → Option String
parent_err done = if done then some "context canceled" else none

unfoldable pub exit_err : Fence → Option String
exit_err f = lost_or f.lost (parent_err f.done)

unfoldable pub health : Fence → Option String
health f = lost_or f.lost (
    if f.done
    then parent_err f.done
    else if f.paused
    then some "projector: lease renew stalled"
    else none)

-- `Ready`, on the fence in place, nil on a standby.
unfoldable pub ready : Option Fence → Option String
unfolding health
ready none = some "projector: not holding lease"
ready (some f) = health f
