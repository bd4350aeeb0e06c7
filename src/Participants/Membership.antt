-- ===== src/Participants/Membership.antt =====
-- What the batch fold of internal/participation/projector.go computes, without its loop.
use relaypoint.Common.{
  ℕ, String, ◌≡◌, refl, sym, subst, ◌∙◌, ap, ◌⊎◌, inr, List, [], ◌∷◌, some, Bool, true, false, ◌==◌,
  eqb, eqb_iff, eq_iff, arith, if◌then◌else◌, next64,
}
use relaypoint.Participants.Records.{
  Record, Fold, state_assigned, has_member, with_member, without_member, fold_record, fold_records,
}

-- Each command has the key, and the version behind the one before.
abbrev pub IsRun : String → String → ℕ → List Record → Type 0
IsRun tenant iid v [] = Unit {0}
IsRun tenant iid v (r ∷ rs) =
    (r.command.aggregate_version ≡ next64 v)
    × (r.command.tenant_id ≡ tenant)
    × (r.command.interaction_id ≡ iid)
    × IsRun tenant iid r.command.aggregate_version rs

-- Whether `a` is desired after a command, when it was before as `b` says: the latest command about it
-- decides.
abbrev pub desired_after : String → Bool → List Record → Bool
desired_after a b [] = b
desired_after a b (r ∷ rs) =
    desired_after a
      (if r.command.participant_id == a then eqb r.command.desired_state state_assigned else b) rs

has_member-with_member :
    (a id : String) (ids : List String)
    → has_member a (with_member id ids) ≡ (if id == a then true else has_member a ids)
unfolding has_member with_member
has_member-with_member a id ids = ground (arith, eq_iff id a)

has_member-without_member :
    (a id : String) (ids : List String)
    → has_member a (without_member id ids) ≡ (if id == a then false else has_member a ids)
unfolding has_member without_member
has_member-without_member a id [] = ground arith
has_member-without_member a id (j ∷ ids) =
    ground (arith, has_member-without_member a id ids, eq_iff j id, eq_iff j a, eq_iff id a)

has_member-fold_record :
    (a : String) (f : Fold) (r : Record)
    → has_member a (fold_record f r).participants ≡ (
        if r.command.participant_id == a
        then eqb r.command.desired_state state_assigned
        else has_member a f.participants)
unfolding fold_record
has_member-fold_record a f r = ground (
  arith,
  has_member-with_member a r.command.participant_id f.participants,
  has_member-without_member a r.command.participant_id f.participants,
)

fold_records-cons :
    (f g : Fold) (r : Record) (rs : List Record)
    → fold_records f (r ∷ rs) ≡ some g
    → (r.command.aggregate_version ≡ next64 f.version)
      × (fold_records (fold_record f r) rs ≡ some g)
unfolding fold_records
fold_records-cons f g r rs h =
    ground (arith, eqb_iff r.command.aggregate_version (next64 f.version))

-- In a batch that folds, a participant is in at the end exactly when the latest command about it
-- assigns it, or there is no command about it and it was in before.
pub has_member-fold_records :
    (a : String) (f g : Fold) (rs : List Record)
    → fold_records f rs ≡ some g
    → has_member a g.participants ≡ desired_after a (has_member a f.participants) rs
unfolding fold_records
has_member-fold_records a f g [] h = ap (has_member a) (sym (in_some h))
  where
    in_some : {x y : Fold} → some x ≡ some y → x.participants ≡ y.participants
    in_some e = cc
has_member-fold_records a f g (r ∷ rs) h =
    let (v, k) = fold_records-cons f g r rs h in
    has_member-fold_records a (fold_record f r) g rs k
    ∙ ap (λ b. desired_after a b rs) (has_member-fold_record a f r)

fold_record_key :
    (f : Fold) (r : Record)
    → ((fold_record f r).tenant_id ≡ r.command.tenant_id)
      × ((fold_record f r).interaction_id ≡ r.command.interaction_id)
      × (r.command.aggregate_version ≡ (fold_record f r).version)
unfolding fold_record
fold_record_key f r = (refl, refl, refl)

-- A run on the projection folds.
pub fold_records-run :
    (tenant iid : String) (f : Fold) (rs : List Record)
    → (f.tenant_id ≡ "") ⊎ ((f.tenant_id ≡ tenant) × (f.interaction_id ≡ iid))
    → IsRun tenant iid f.version rs
    → (g : Fold) × (fold_records f rs ≡ some g)
unfolding fold_records
fold_records-run tenant iid f [] k run = (f, refl)
fold_records-run tenant iid f (r ∷ rs) k (v, t, i, run) =
    let (a, b, c) = fold_record_key f r in
    let (g, e) =
      fold_records-run tenant iid (fold_record f r) rs (inr (a ∙ t, b ∙ i))
        (subst (λ n. IsRun tenant iid n rs) c run) in
    (
      g,
      ground (
        arith,
        e,
        eqb_iff r.command.aggregate_version (next64 f.version),
        eq_iff f.tenant_id "",
        eq_iff f.tenant_id r.command.tenant_id,
        eq_iff f.interaction_id r.command.interaction_id,
      ),
    )
