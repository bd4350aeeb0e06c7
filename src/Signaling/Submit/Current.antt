-- ===== src/Signaling/Submit/Current.antt =====
-- Membership and parents of the router's states against the log (internal/signaling/router.go).
use relaypoint.Common.{
  ℕ, String, ◌≡◌, refl, sym, ◌∙◌, ap, inl, inr, List, [], ◌∷◌, ◌++◌, some, false, arith, Map,
  Option-cases,
}
use relaypoint.Signaling.Wire.{Event}
use relaypoint.Signaling.Participation.{
  ParticipationView, apply_fact, fold_from, fold_participation,
}
use relaypoint.Signaling.State.{
  StoredResult, InteractionState, put_result, adopt, rebuilt, is_participation_fact,
}
use relaypoint.Signaling.State.Fold.{IsLegal}
use relaypoint.Signaling.State.Rebuild.{parents_from, rebuilt-position, rebuilt-parents}
use relaypoint.Signaling.Log.{LogStore, Promises, log_subject_for, dedup_id, rebuild}
use relaypoint.Signaling.Sync.{IsSafe, adopt-core}

fold_from-append :
    (v : ParticipationView) (es : List Event) (e : Event)
    → fold_from v (es ++ e ∷ []) ≡ apply_fact (fold_from v es) e
unfolding fold_from
fold_from-append v [] e = refl
fold_from-append v (d ∷ es) e = fold_from-append (apply_fact v d) es e

-- A fact that is not one of participation leaves the membership and the parents.
fold_participation-plain :
    (es : List Event) (e : Event)
    → is_participation_fact e.event_type ≡ false
    → fold_participation (es ++ e ∷ []) ≡ fold_participation es
unfolding fold_participation is_participation_fact apply_fact
fold_participation-plain es e h = fold_from-append _ es e ∙ ground arith

parents_from-plain :
    (es : List Event) (m : Map (List String)) (e : Event)
    → is_participation_fact e.event_type ≡ false
    → parents_from m (es ++ e ∷ []) ≡ parents_from m es
parents_from-plain [] m e h = rw h refl
parents_from-plain (d ∷ es) m e h = parents_from-plain es _ e h

module _ (s : LogStore) (tenant iid : String)
    (p : Promises s (log_subject_for tenant iid) (dedup_id tenant iid)) where
  open s use {World}
  open p use {facts, last, Others}

  -- When the token is the subject's last stream sequence, the membership and the parents are the log's.
  pub record IsCurrent (w : World) (st : InteractionState) : Type 0 where
    pub members : st.stream_seq ≡ last w → st.part ≡ fold_participation (facts w)
    pub parents : st.stream_seq ≡ last w → st.parents ≡ parents_from [] (facts w)

  pub Others-IsCurrent :
      (w w' : World) (st : InteractionState)
      → Others w w'
      → IsSafe s tenant iid p w st
      → IsCurrent w st
      → IsCurrent w' st
  Others-IsCurrent w w' st o v k = elim (p.others_last w w' o) [
    | inl (l, f) ↦ record {
      members = λ e. k.members (e ∙ l) ∙ ap fold_participation (sym f);
      parents = λ e. k.parents (e ∙ l) ∙ ap (parents_from []) (sym f);
    }
    | inr lt ↦ record {
      members = λ e. absurd (omega (arith, v.synced.behind));
      parents = λ e. absurd (omega (arith, v.synced.behind));
    }
  ]

  pub put_result-IsCurrent :
      (w : World) (st : InteractionState) (id : String) (sr : StoredResult) (max : ℕ)
      → IsCurrent w st
      → IsCurrent w (put_result st id sr max)
  unfolding put_result
  put_result-IsCurrent w st id sr max k = record { members = k.members; parents = k.parents }

  pub rebuild-IsCurrent :
      (max : ℕ) (w : World) (fresh : InteractionState)
      → IsLegal (facts w)
      → (rebuild s max tenant iid w).1 ≡ some fresh
      → IsCurrent (rebuild s max tenant iid w).0 fresh
  unfolding rebuild
  rebuild-IsCurrent max w fresh l h =
      elim (Option-cases (s.replay w (log_subject_for tenant iid)).1) [
        | inl e ↦ cc
        | inr ((es, n), e) ↦
            let (a, _, c) = p.replay_all w es n e in
            let l' =
              p.others_legal w (s.replay w (log_subject_for tenant iid)).0 (p.replay_others w) l in
            let q : rebuilt max es n ≡ fresh = ground (arith, e, h) in
            record {
              members = λ _.
                  ap (λ (f : InteractionState). f.part) (sym q)
                  ∙ (rebuilt-position max es n (rw a l') c).1
                  ∙ ap fold_participation a;
              parents = λ _.
                  ap (λ (f : InteractionState). f.parents) (sym q)
                  ∙ rebuilt-parents max es n
                  ∙ ap (parents_from []) a;
            }
      ]

  pub adopt-IsCurrent :
      (max : ℕ) (w : World) (st fresh : InteractionState)
      → IsCurrent w fresh
      → IsCurrent w (adopt st fresh max)
  adopt-IsCurrent max w st fresh k =
      let (t, m, q) = adopt-core s tenant iid p max st fresh in
      record { members = λ e. m ∙ k.members (sym t ∙ e); parents = λ e. q ∙ k.parents (sym t ∙ e) }

  -- A fact that is not one of participation keeps a current state current.
  pub plain-IsCurrent :
      (m w' : World) (st next : InteractionState) (e : Event)
      → IsCurrent m st
      → st.stream_seq ≡ last m
      → facts w' ≡ facts m ++ e ∷ []
      → is_participation_fact e.event_type ≡ false
      → next.part ≡ st.part
      → next.parents ≡ st.parents
      → IsCurrent w' next
  plain-IsCurrent m w' st next e k t f h a b = record {
    members = λ _.
        a
        ∙ k.members t
        ∙ sym (fold_participation-plain (facts m) e h)
        ∙ ap fold_participation (sym f);
    parents = λ _.
        b ∙ k.parents t ∙ sym (parents_from-plain (facts m) [] e h) ∙ ap (parents_from []) (sym f);
  }
