-- ===== src/Feed/Hydrate.antt =====
-- internal/projector/projector.go: `Hydrate`.
pub mod Snapshots
pub mod Restored
use relaypoint.Common.{
  ℕ, String, ◌⊎◌, inl, inr, List, [], ◌∷◌, Option, none, some, if◌then◌else◌, ltb,
}
use relaypoint.Feed.{Fact, Snapshot}
use relaypoint.Feed.Views.{Views, restore, fold_event}
use relaypoint.Feed.Process.{Projector}

-- What the log source and the snapshot store answer; an error is its text.
pub record Sources : Type 0 where
  pub ack_floor : String ⊎ ℕ
  pub load : ℕ → String ⊎ (Option Snapshot × ℕ)
  pub fold_range : ℕ → ℕ → String ⊎ List Fact

-- The loop over the tail; `none` is the panic on a fact with a nil event.
unfoldable pub fold_tail : Views → List Fact → Option Views
fold_tail views [] = some views
fold_tail views (f ∷ rest) = elim f.event [
  | none ↦ none
  | some e ↦ fold_tail (fold_event views f.iid e) rest
]

pub data Hydrated : Type 0 where
  hydrated : Projector → Hydrated
  failed : String → Hydrated
  panicked : Hydrated

abbrev pub of_tail : Projector → ℕ → Option Views → Hydrated
of_tail p floor none = panicked
of_tail p floor (some views) = hydrated (record p { views = views; last_ack_seq = floor })

abbrev pub of_range : Projector → Views → ℕ → String ⊎ List Fact → Hydrated
of_range p views floor (inl err) = failed err
of_range p views floor (inr tail) = of_tail p floor (fold_tail views tail)

abbrev pub of_load : Sources → Projector → ℕ → String ⊎ (Option Snapshot × ℕ) → Hydrated
of_load sources p floor (inl err) = failed err
of_load sources p floor (inr (snap, seq)) =
    if ltb seq floor
    then of_range p (restore snap) floor (sources.fold_range seq floor)
    else of_tail p floor (some (restore snap))

abbrev pub of_floor : Sources → Projector → String ⊎ ℕ → Hydrated
of_floor sources p (inl err) = failed err
of_floor sources p (inr floor) = of_load sources p floor (sources.load floor)

unfoldable pub hydrate : Sources → Projector → Hydrated
unfolding restore fold_tail
hydrate sources p = of_floor sources p sources.ack_floor
