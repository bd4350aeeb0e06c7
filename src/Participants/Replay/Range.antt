-- ===== src/Participants/Replay/Range.antt =====
-- What a replay that passes the checks of internal/participation/projector.go holds.
use relaypoint.Common.{
  ℕ, ◌≤◌, ◌≡◌, refl, sym, subst, ◌∙◌, ap, ◌⊎◌, inl, inr, List, [], ◌∷◌, Option, none, some, Bool,
  true, false, not, ◌||◌, ◌==◌, eqb, eqb_iff, eq_iff, ltb, arith, if◌then◌else◌, length, next64,
  Bool-cases, Option-cases,
}
use relaypoint.Participants.Records.{
  ParticipationCommand, Record, Fold, Refusal, Library, divergent_history, unknown_history,
  canonical, is_well_formed, fold_records,
}
use relaypoint.Participants.Membership.{IsRun, fold_records-run}
use relaypoint.Participants.Replay.{
  Key, Intent, ReplayResponse, asked, consed, canonical_run, last_record, contradicts_head, holds,
  settle_records, validate_replay,
}

abbrev pub commands_of : List Record → List ParticipationCommand
commands_of [] = []
commands_of (r ∷ rs) = r.command ∷ commands_of rs

picked :
    {A : Type 0} (b : Bool) (o : Option A) (a : A) → (if b then o else none) ≡ some a → o ≡ some a
picked true o a h = h
picked false o a h = absurd (cc)

skipped :
    {A : Type 0} (b : Bool) (o : Option A) (a : A)
    → (if b then none else o) ≡ some a
    → (b ≡ false) × (o ≡ some a)
skipped true o a h = absurd (cc)
skipped false o a h = (refl, h)

in_some : {A : Type 0} {x y : A} → some x ≡ some y → x ≡ y
in_some h = cc

-- The canonical form of a command that passed the tests: its identity is its event and its encoding.
abbrev pub IsCanonical : Library → Record → Type 0
IsCanonical lib r =
    (is_well_formed lib r.command ≡ true)
    × (lib.marshal r.command ≡ some r.identity.body)
    × (r.identity.hash ≡ lib.sum256 r.identity.body)
    × (r.identity.event_id ≡ r.command.event_id)

abbrev pub AreCanonical : Library → List Record → Type 0
AreCanonical lib [] = Unit {0}
AreCanonical lib (r ∷ rs) = IsCanonical lib r × AreCanonical lib rs

written-IsCanonical :
    (lib : Library) (c : ParticipationCommand) (r : Record)
    → canonical lib c ≡ some r
    → IsCanonical lib r
unfolding canonical
written-IsCanonical lib c r h = elim (Bool-cases (is_well_formed lib c)) [
  | inl w ↦ elim (Option-cases (lib.marshal c)) [
    | inl n ↦ absurd (ground (arith, w, n))
    | inr (body, e) ↦
        let form : Record = record {
          command = c;
          identity = record { event_id = c.event_id; hash = lib.sum256 body; body = body };
        } in
        subst (IsCanonical lib) (in_some (rw (w, e) at h)) (w, e, refl, refl)
  ]
  | inr w ↦ absurd (ground (arith, w))
]

canonical_command :
    (lib : Library) (c : ParticipationCommand) (r : Record)
    → canonical lib c ≡ some r
    → r.command ≡ c
unfolding canonical
canonical_command lib c r h = written (lib.marshal c) (picked (is_well_formed lib c) _ r h)
  where
    written :
        (o : Option (List ℕ))
        → elim o as (λ _. Option Record) [
          | none ↦ none
          | some body ↦ some (record {
            command = c;
            identity = record { event_id = c.event_id; hash = lib.sum256 body; body = body };
          })
        ]
          ≡ some r
        → r.command ≡ c
    written none e = absurd (cc)
    written (some body) e = cc

length-commands_of : (rs : List Record) → length (commands_of rs) ≡ length rs
length-commands_of [] = refl
length-commands_of (r ∷ rs) = omega (arith, length-commands_of rs)

-- The versions count up from `v`.
abbrev pub CountsFrom : Key → ℕ → List Record → Type 0
CountsFrom key v [] = Unit {0}
CountsFrom key v (r ∷ rs) =
    (r.command.aggregate_version ≡ v)
    × (r.command.tenant_id ≡ key.tenant_id)
    × (r.command.interaction_id ≡ key.interaction_id)
    × CountsFrom key (next64 v) rs

consed-some :
    (r : Record) (o : Option (List Record)) (rs : List Record)
    → consed r o ≡ some rs
    → (q : List Record) × (o ≡ some q) × (rs ≡ r ∷ q)
consed-some r none rs h = absurd (cc)
consed-some r (some q) rs h = (q, refl, cc)

keyed :
    (key : Key) (v : ℕ) (c : ParticipationCommand)
    → (not (c.tenant_id == key.tenant_id)
        || not (c.interaction_id == key.interaction_id)
        || not (eqb c.aggregate_version v))
      ≡ false
    → (c.aggregate_version ≡ v)
      × (c.tenant_id ≡ key.tenant_id)
      × (c.interaction_id ≡ key.interaction_id)
keyed key v c h = ground (
  arith,
  eq_iff c.tenant_id key.tenant_id,
  eq_iff c.interaction_id key.interaction_id,
  eqb_iff c.aggregate_version v,
)

canonical_run-CountsFrom :
    (lib : Library) (key : Key) (v : ℕ) (cs : List ParticipationCommand) (rs : List Record)
    → canonical_run lib key v cs ≡ some rs
    → CountsFrom key v rs × (commands_of rs ≡ cs)
unfolding canonical_run
canonical_run-CountsFrom lib key v [] [] h = (tt, refl)
canonical_run-CountsFrom lib key v [] (r ∷ rs) h = absurd (cc)
canonical_run-CountsFrom lib key v (c ∷ cs) rs h = elim (Option-cases (canonical lib c)) [
  | inl e ↦ absurd (refused (canonical lib c) e h)
  | inr (r, e) ↦
      let (t, o) = skipped _ _ rs (subst Read e h) in
      let (q, n, w) = consed-some r (canonical_run lib key (next64 v) cs) rs o in
      let (a, b) = canonical_run-CountsFrom lib key (next64 v) cs q n in
      let k = canonical_command lib c r e in
      let (x, y, z) = keyed key v c t in
      let d : ParticipationCommand = r.command in
      subst (λ l. CountsFrom key v l × (commands_of l ≡ c ∷ cs)) (sym w)
        (
          (
            ap (λ (c : ParticipationCommand). c.aggregate_version) k ∙ x,
            ap (λ (c : ParticipationCommand). c.tenant_id) k ∙ y,
            ap (λ (c : ParticipationCommand). c.interaction_id) k ∙ z,
            a,
          ),
          ap (λ c. c ∷ commands_of q) k ∙ ap (λ l. c ∷ l) b,
        )
]
  where
    Read : Option Record → Type 0
    Read o =
        elim o as (λ _. Option (List Record)) [
          | none ↦ none
          | some r ↦
              if not (c.tenant_id == key.tenant_id)
                || not (c.interaction_id == key.interaction_id)
                || not (eqb c.aggregate_version v)
              then none
              else consed r (canonical_run lib key (next64 v) cs)
        ]
        ≡ some rs

    refused : (o : Option Record) → o ≡ none → Read o → ⊥
    refused none e k = cc
    refused (some r) e k = cc

canonical_run-AreCanonical :
    (lib : Library) (key : Key) (v : ℕ) (cs : List ParticipationCommand) (rs : List Record)
    → canonical_run lib key v cs ≡ some rs
    → AreCanonical lib rs
unfolding canonical_run
canonical_run-AreCanonical lib key v [] [] h = tt
canonical_run-AreCanonical lib key v [] (r ∷ rs) h = absurd (cc)
canonical_run-AreCanonical lib key v (c ∷ cs) rs h = elim (Option-cases (canonical lib c)) [
  | inl e ↦ absurd (let k = rw (e, canonical_run) at h in cc)
  | inr (r, e) ↦
      let (t, o) = skipped _ _ rs (rw (e, canonical_run) at h) in
      let (q, n, w) = consed-some r (canonical_run lib key (next64 v) cs) rs o in
      subst (AreCanonical lib) (sym w)
        (written-IsCanonical lib c r e, canonical_run-AreCanonical lib key (next64 v) cs q n)
]

-- The records are the replayed commands in their canonical form, of the key, with the versions that the intent asked for, and
-- the held command is one of them.
pub record IsRange (lib : Library) (replay : ReplayResponse) (intent : Intent) (held : Record)
    (rs : List Record) : Type 0 where
  pub counts : CountsFrom intent.key intent.requested_from rs
  pub complete : commands_of rs ≡ replay.commands
  pub formed : AreCanonical lib rs
  pub size : length rs ≡ asked intent
  pub holds_held : holds held rs ≡ true
  pub head : intent.requested_to ≤ replay.head_version
  pub agrees : (last : Record) → last_record rs ≡ some last → contradicts_head replay last ≡ false

settle_records-some :
    (replay : ReplayResponse) (held : Record) (records rs : List Record)
    → settle_records replay held records ≡ inr rs
    → (records ≡ rs)
      × (holds held records ≡ true)
      × ((last : Record) → last_record records ≡ some last → contradicts_head replay last ≡ false)
unfolding settle_records
settle_records-some replay held records rs h = elim (Option-cases (last_record records)) [
  | inl e ↦ absurd (ground (arith, e))
  | inr (last, e) ↦ elim (Bool-cases (contradicts_head replay last)) [
    | inl k ↦ absurd (ground (arith, e, k))
    | inr k ↦ elim (Bool-cases (holds held records)) [
      | inr n ↦ absurd (ground (arith, e, k, n))
      | inl n ↦ (
        ground (arith, e, k, n),
        n,
        λ l q. subst (λ (x : Record). contradicts_head replay x ≡ false) (in_some (sym e ∙ q)) k,
      )
    ]
  ]
]

passed :
    (b : Bool) (u : Refusal) (x : Refusal ⊎ List Record) (rs : List Record)
    → (if b then inl u else x) ≡ inr rs
    → (b ≡ false) × (x ≡ inr rs)
passed true u x rs h = absurd (cc)
passed false u x rs h = (refl, h)

settled :
    (replay : ReplayResponse) (held : Record) (o : Option (List Record)) (rs : List Record)
    → elim o as (λ _. Refusal ⊎ List Record) [
      | none ↦ inl divergent_history
      | some records ↦ settle_records replay held records
    ]
      ≡ inr rs
    → (records : List Record) × (o ≡ some records) × (settle_records replay held records ≡ inr rs)
settled replay held none rs h = absurd (cc)
settled replay held (some records) rs h = (records, refl, h)

-- A replay that passes the checks gives exactly the commands that it replayed, each in its canonical
-- form and of the intent's key; their versions count up from the first one that was asked for, as many
-- as were asked for; the held record is among them; the authority's head is not before the last one
-- asked for; and where the head is the last record's version, it is that record.
pub validate_replay-IsRange :
    (lib : Library) (replay : ReplayResponse) (intent : Intent) (held : Record) (rs : List Record)
    → validate_replay lib (some replay) intent held ≡ inr rs
    → IsRange lib replay intent held rs
unfolding validate_replay
validate_replay-IsRange lib replay intent held rs h =
    let (g, x) = passed _ unknown_history _ rs h in
    let (records, e, k) =
      settled replay held (canonical_run lib intent.key intent.requested_from replay.commands) rs
        x in
    let (same, n, a) = settle_records-some replay held records rs k in
    let (counts, complete) =
      canonical_run-CountsFrom lib intent.key intent.requested_from replay.commands records e in
    subst (IsRange lib replay intent held) same (record {
      counts = counts;
      complete = complete;
      formed =
          canonical_run-AreCanonical lib intent.key intent.requested_from replay.commands records e;
      size = size_of g (sym (length-commands_of records) ∙ ap length complete);
      holds_held = n;
      head = head_of g;
      agrees = a;
    })
  where
    Guard : Bool
    Guard =
        eqb replay.history_floor 0
        || replay.provenance == ""
        || ltb replay.head_version intent.requested_to
        || not (eqb (length replay.commands) (asked intent))

    size_of : {n : ℕ} → Guard ≡ false → n ≡ length replay.commands → n ≡ asked intent
    size_of g q = q ∙ ground (arith, eqb_iff (length replay.commands) (asked intent))

    head_of : Guard ≡ false → intent.requested_to ≤ replay.head_version
    head_of g = ground arith

CountsFrom-IsRun :
    (key : Key) (v : ℕ) (rs : List Record)
    → CountsFrom key (next64 v) rs
    → IsRun key.tenant_id key.interaction_id v rs
CountsFrom-IsRun key v [] c = tt
CountsFrom-IsRun key v (r ∷ rs) (n, t, i, c) = (
  n,
  t,
  i,
  CountsFrom-IsRun key r.command.aggregate_version rs
      (subst (λ k. CountsFrom key (next64 k) rs) (sym n) c),
)

-- A replay that passes the checks for the versions behind the projection's folds on it, when the
-- projection is empty or of the intent's key.
pub validate_replay-fold_records :
    (lib : Library) (replay : ReplayResponse) (intent : Intent) (held : Record) (rs : List Record)
    (f : Fold)
    → intent.requested_from ≡ next64 f.version
    → (f.tenant_id ≡ "")
      ⊎ ((f.tenant_id ≡ intent.key.tenant_id) × (f.interaction_id ≡ intent.key.interaction_id))
    → validate_replay lib (some replay) intent held ≡ inr rs
    → (g : Fold) × (fold_records f rs ≡ some g)
validate_replay-fold_records lib replay intent held rs f e k h =
    let range = validate_replay-IsRange lib replay intent held rs h in
    fold_records-run intent.key.tenant_id intent.key.interaction_id f rs k (
      CountsFrom-IsRun intent.key f.version rs
        (subst (λ v. CountsFrom intent.key v rs) e range.counts))
