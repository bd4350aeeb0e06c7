-- ===== src/Feed/Hydrate/Restored.antt =====
-- The views that `Hydrate` of internal/projector/projector.go rebuilds, against those of a projector
-- that never stopped.
use relaypoint.Common.{
  ℕ, String, ◌≡◌, refl, sym, ap, ◌∙◌, ◌⊎◌, inl, inr, List, [], ◌∷◌, ◌++◌, Option, none, some, true,
  false, ◌||◌, ◌==◌, ◌<◌, arith, ltb, Distinct, Distinct-insert, Bool-cases,
}
use relaypoint.Signaling.Wire.{Event}
use relaypoint.Signaling.Participation.{intervals_of}
use relaypoint.Feed.{Fact, Snapshot}
use relaypoint.Feed.Views.{Views, view_of, snapshot, restore, fold_event}
use relaypoint.Feed.Process.{Projector}
use relaypoint.Feed.Process.Settled.{taken_in}
use relaypoint.Feed.Hydrate.{Sources, fold_tail, Hydrated, hydrated, hydrate}
use relaypoint.Feed.Hydrate.Snapshots.{Same, Same-fold_event, Same-restore}

-- The views of a projector that took in the facts one after the other.
abbrev pub live_views : Views → List Fact → Views
live_views views [] = views
live_views views (f ∷ rest) = live_views (taken_in views f f.event) rest

-- An envelope with a tenant and a type, and an interaction.
abbrev pub IsKnown : Fact → Type 0
IsKnown f =
    (e : Event) × (f.event ≡ some e)
    × ((e.tenant_id == "" || e.event_type == "") ≡ false)
    × ((f.iid == "") ≡ false)

abbrev pub EachKnown : List Fact → Type 0
EachKnown [] = Unit {0}
EachKnown (f ∷ rest) = IsKnown f × EachKnown rest

live_views-append :
    (views : Views) (xs ys : List Fact)
    → live_views views (xs ++ ys) ≡ live_views (live_views views xs) ys
live_views-append views [] ys = refl
live_views-append views (f ∷ xs) ys = live_views-append (taken_in views f f.event) xs ys

Distinct-taken_in :
    (views : Views) (f : Fact) (o : Option Event) → Distinct views → Distinct (taken_in views f o)
unfolding fold_event
Distinct-taken_in views f none d = d
Distinct-taken_in views f (some e) d = elim (Bool-cases (e.tenant_id == "" || e.event_type == "")) [
  | inl m ↦ rw m d
  | inr m ↦ elim (Bool-cases (f.iid == "")) [
    | inl i ↦ rw (m, i) d
    | inr i ↦ rw (m, i) (Distinct-insert _ _ views d)
  ]
]

Distinct-live_views :
    (views : Views) (facts : List Fact) → Distinct views → Distinct (live_views views facts)
Distinct-live_views views [] d = d
Distinct-live_views views (f ∷ rest) d =
    Distinct-live_views (taken_in views f f.event) rest (Distinct-taken_in views f f.event d)

fold_tail-Same :
    (u v : Views) (facts : List Fact)
    → EachKnown facts
    → Same u v
    → (w : Views) × (fold_tail u facts ≡ some w) × Same w (live_views v facts)
unfolding fold_tail
fold_tail-Same u v [] k h = (u, refl, h)
fold_tail-Same u v (f ∷ rest) ((e, is_event, m, i), k) h =
    let (w, g, same) =
      fold_tail-Same (fold_event u f.iid e) (fold_event v f.iid e) rest k
        (Same-fold_event u v f.iid e h) in
    (w, rw (is_event, fold_tail) g, rw (is_event, m, i) same)

-- Where the snapshot store has nothing, nothing was taken in.
abbrev pub IsSaved : Option Snapshot → List Fact → Type 0
IsSaved none pre = pre ≡ []
IsSaved (some snap) pre = snap ≡ snapshot (live_views [] pre)

-- The tail from the snapshot's place to the floor.
abbrev pub IsTail : Sources → ℕ → ℕ → List Fact → Type 0
IsTail sources seq floor post =
    ((seq < floor) × (sources.fold_range seq floor ≡ inr post))
    ⊎ ((ltb seq floor ≡ false) × (post ≡ []))

Same-restored :
    (snap : Option Snapshot) (pre : List Fact)
    → IsSaved snap pre
    → Same (restore snap) (live_views [] pre)
Same-restored none pre h key a = rw h (unfold restore in refl)
Same-restored (some snap) pre h key a =
    rw h (Same-restore (live_views [] pre) (Distinct-live_views [] pre tt) key a)

pub record Resumes (floor : ℕ) (facts : List Fact) (got : Hydrated) : Type 0 where
  pub state : Projector
  pub is_hydrated : got ≡ hydrated state
  pub position : state.last_ack_seq ≡ floor
  pub views : Same state.views (live_views [] facts)

-- When the store's snapshot is that of a projector that took in the facts up to it, and the log gives the
-- facts from there to the ack floor, all with a known envelope and interaction, then Hydrate succeeds
-- at the floor, and every agent has in every interaction the intervals it has in a projector that
-- took in all of those facts and never stopped. Where the store has no snapshot, the log gives all.
pub hydrate-Resumes :
    (sources : Sources) (p : Projector) (floor seq : ℕ) (snap : Option Snapshot)
    (pre post : List Fact)
    → sources.ack_floor ≡ inr floor
    → sources.load floor ≡ inr (snap, seq)
    → IsSaved snap pre
    → IsTail sources seq floor post
    → EachKnown post
    → Resumes floor (pre ++ post) (hydrate sources p)
unfolding hydrate
hydrate-Resumes sources p floor seq snap pre post at got saved tail known =
    let (w, g, same) =
      fold_tail-Same (restore snap) (live_views [] pre) post known (Same-restored snap pre saved) in
    elim tail [
      | inl (below, range) ↦
          let less : ltb seq floor ≡ true = ground arith in
          record {
            state = record p { views = w; last_ack_seq = floor };
            is_hydrated = rw (at, got, less, range, g) refl;
            position = refl;
            views = λ key a. same key a ∙ sym (appended key a);
          }
      | inr (equal, empty) ↦ record {
        state = record p { views = restore snap; last_ack_seq = floor };
        is_hydrated = rw (at, got, equal) refl;
        position = refl;
        views = λ key a.
            Same-restored snap pre saved key a
            ∙ ap (λ ys. intervals_of (view_of (live_views (live_views [] pre) ys) key) a)
                (sym empty)
            ∙ sym (appended key a);
      }
    ]
  where
    appended :
        (key a : String)
        → intervals_of (view_of (live_views [] (pre ++ post)) key) a
          ≡ intervals_of (view_of (live_views (live_views [] pre) post) key) a
    appended key a =
        ap (λ views. intervals_of (view_of views key) a) (live_views-append [] pre post)
