-- ===== src/Signaling/Handle/Steps.antt =====
-- The facts that a participation command writes, one behind the other (internal/signaling/router.go).
use relaypoint.Common.{
  ℕ, String, ◌≡◌, refl, subst, inl, inr, List, [], ◌∷◌, map, Option, none, some, Bool, true, false,
  arith, lookup, Bool-cases, Option-cases,
}
use relaypoint.Signaling.Wire.{Command, CommandResult, accepted, accept}
use relaypoint.Signaling.Log.{LogStore, Promises, log_subject_for, dedup_id, rebuild}
use relaypoint.Signaling.Sync.{Led, here, led, Led-trans, rebuild-Others}
use relaypoint.Signaling.Submit.{Outcome, is_accepted}
use relaypoint.Signaling.Table.{Config, Router, key_of, get_state}
use relaypoint.Signaling.Hash.{hash_payload}
use relaypoint.Signaling.Privileged.{ParticipationData, Step, sub_id, append_fact}
use relaypoint.Signaling.Privileged.Acknowledged.{append_fact-IsAcknowledged}
use relaypoint.Signaling.Privileged.Stored.{IsStoredFact, append_fact-IsStoredFact}
use relaypoint.Signaling.Handle.{
  fact_command, append_participation_fact, append_steps, record_parent, is_divergent,
  apply_participation,
}
use relaypoint.Signaling.Handle.Sound.{IsSound, Holds, get_state-IsFetched, put_back-IsSound}
use relaypoint.Signaling.Handle.Acknowledged.{
  append_participation_fact-IsWritten, append_steps-AreWritten, Unaccepted,
}

module _ (s : LogStore) (tenant iid : String)
    (p : Promises s (log_subject_for tenant iid) (dedup_id tenant iid)) (bytes : String → List ℕ)
    (digest : List ℕ → String) (decode : List ℕ → Option ParticipationData) (config : Config) where
  open s use {World}

  abbrev pub Sound : Router World → Type 0
  Sound = IsSound s tenant iid p

  abbrev After : World → World → Type 0
  After = Led s tenant iid p

  -- One fact of the command: from one world to the other others wrote, and in between this call the event
  -- of the step; or others only, and the log has its id.
  abbrev pub IsStepStored : String → ParticipationData → Command → Step → World → World → Type 0
  IsStepStored actor pd cmd f start end =
      IsStoredFact s tenant iid p actor cmd.command_id
        (hash_payload bytes digest (fact_command tenant cmd f)) pd (sub_id cmd.command_id f) f.0 f.1
        start end

  -- The facts of the command, one behind the other.
  abbrev pub AreStored : String → ParticipationData → Command → List Step → World → World → Type 0
  AreStored actor pd cmd [] start end = Led s tenant iid p start end
  AreStored actor pd cmd (f ∷ fs) start end =
      (mid : World) × IsStepStored actor pd cmd f start mid × AreStored actor pd cmd fs mid end

  IsStepStored-earlier :
      (actor : String) (pd : ParticipationData) (cmd : Command) (f : Step) (u v w : World)
      → After u v
      → IsStepStored actor pd cmd f v w
      → IsStepStored actor pd cmd f u w
  IsStepStored-earlier actor pd cmd f u v w l (inl (b, a, e, k, q, g, t)) =
      inl (b, a, e, Led-trans s tenant iid p l k, q, g, t)
  IsStepStored-earlier actor pd cmd f u v w l (inr (k, q)) = inr (Led-trans s tenant iid p l k, q)

  AreStored-earlier :
      (actor : String) (pd : ParticipationData) (cmd : Command) (fs : List Step) (u v w : World)
      → After u v
      → AreStored actor pd cmd fs v w
      → AreStored actor pd cmd fs u w
  AreStored-earlier actor pd cmd [] u v w l k = Led-trans s tenant iid p l k
  AreStored-earlier actor pd cmd (f ∷ fs) u v w l (mid, h, k) =
      (mid, IsStepStored-earlier actor pd cmd f u v mid l h, k)

  get_state-Led : (r : Router World) → After r.world (get_state s config tenant iid r).0.world
  unfolding get_state
  get_state-Led r = elim (Option-cases (lookup (key_of tenant iid) r.inter)) [
    | inr (st, e) ↦ rw (e, get_state) here
    | inl e ↦
        let o = rebuild-Others s tenant iid p config.limits.max_results r.world in
        elim (Option-cases (rebuild s config.limits.max_results tenant iid r.world).1) [
          | inl n ↦ rw (e, n, get_state) (led here o)
          | inr (fresh, n) ↦ rw (e, n, get_state) (led here o)
        ]
  ]

  step-IsStepStored :
      (actor : String) (pd : ParticipationData) (cmd : Command) (f : Step) (r : Router World)
      → Sound r
      → (append_participation_fact s bytes digest decode config tenant iid actor cmd.command_id pd
          (fact_command tenant cmd f)
          r).1.status
        ≡ accepted
      → IsStepStored actor pd cmd f r.world
          (append_participation_fact s bytes digest decode config tenant iid actor cmd.command_id pd
            (fact_command tenant cmd f)
            r).0.world
  unfolding append_participation_fact fact_command
  step-IsStepStored actor pd cmd f r v =
      let got = get_state-IsFetched s tenant iid p config r v in
      let fcmd = fact_command tenant cmd f in
      elim (Option-cases (get_state s config tenant iid r).1) [
        | inl e ↦ rw (e, append_participation_fact) (λ a. absurd (cc))
        | inr (st, e) ↦
            let ph = hash_payload bytes digest fcmd in
            let w' = (get_state s config tenant iid r).0.world in
            let out : Outcome World =
              append_fact s config.limits tenant iid actor cmd.command_id ph pd fcmd st w' in
            let h : Holds s tenant iid p w' (some st) =
              subst (Holds s tenant iid p w') e got.holds in
            let a =
              append_fact-IsAcknowledged s tenant iid p config.limits actor cmd.command_id ph pd
                fcmd st w' h in
            let (_, w) =
              put_back-IsSound s tenant iid p config (get_state s config tenant iid r).0 out
                got.sound a.grows a.cached in
            rw (e, append_participation_fact)
              (rw w (
                append_fact-IsStoredFact s tenant iid p config.limits actor cmd.command_id ph pd
                  fcmd r.world st w' (get_state-Led r) h))
      ]

  steps-AreStored :
      (actor : String) (pd : ParticipationData) (cmd : Command) (later : Bool) (fs : List Step)
      (r : Router World)
      → Sound r
      → (append_steps s bytes digest decode config tenant iid actor pd cmd later fs r).1 ≡ none
      → AreStored actor pd cmd fs r.world
          (append_steps s bytes digest decode config tenant iid actor pd cmd later fs r).0.world
  unfolding append_steps
  steps-AreStored actor pd cmd later [] r v = λ n. here
  steps-AreStored actor pd cmd later (f ∷ fs) r v =
      let one =
        append_participation_fact-IsWritten s tenant iid p bytes digest decode config actor
          cmd.command_id pd (fact_command tenant cmd f) r v in
      let res =
        (append_participation_fact s bytes digest decode config tenant iid actor cmd.command_id pd
          (fact_command tenant cmd f) r).1 in
      elim (Bool-cases (is_accepted res.status)) [
        | inl e ↦ rw e λ n. (
          _,
          step-IsStepStored actor pd cmd f r v (ground arith),
          steps-AreStored actor pd cmd true fs _ one.sound n,
        )
        | inr e ↦ rw e (λ n. absurd (cc))
      ]

  record_parent-world :
      (id : String) (subs : List String) (r : Router World)
      → (record_parent s bytes digest decode config tenant iid id subs r).world ≡ r.world
  unfolding record_parent
  record_parent-world id subs r = elim (Option-cases (lookup (key_of tenant iid) r.inter)) [
    | inl e ↦ rw (e, record_parent) refl
    | inr (st, e) ↦ rw (e, record_parent) refl
  ]

  accepted-AreStored :
      (actor : String) (pd : ParticipationData) (cmd : Command) (fs : List Step) (r : Router World)
      (o : Option CommandResult)
      → Sound r
      → (append_steps s bytes digest decode config tenant iid actor pd cmd false fs r).1 ≡ o
      → let out : Router World × CommandResult = elim o [
        | some res ↦
            ((append_steps s bytes digest decode config tenant iid actor pd cmd false fs r).0, res)
        | none ↦ (
          record_parent s bytes digest decode config tenant iid cmd.command_id
              (map (sub_id cmd.command_id) fs)
              (append_steps s bytes digest decode config tenant iid actor pd cmd false fs r).0,
          accept cmd.command_id,
        )
      ] in
        out.1.status ≡ accepted → AreStored actor pd cmd fs r.world out.0.world
  accepted-AreStored actor pd cmd fs r none v e h =
      rw (record_parent-world cmd.command_id (map (sub_id cmd.command_id) fs) _)
        (steps-AreStored actor pd cmd false fs r v e)
  accepted-AreStored actor pd cmd fs r (some res) v e h =
      let a =
        append_steps-AreWritten s tenant iid p bytes digest decode config actor pd cmd false fs r
          v in
      absurd (subst (Unaccepted s tenant iid p bytes digest decode config) e a.refused h)

  pub apply_participation-AreStored :
      (actor : String) (pd : ParticipationData) (cmd : Command) (fs : List Step) (r : Router World)
      → Sound r
      → (apply_participation s bytes digest decode config tenant iid actor pd cmd fs r).1.status
        ≡ accepted
      → AreStored actor pd cmd fs r.world
          (apply_participation s bytes digest decode config tenant iid actor pd cmd fs r).0.world
  unfolding apply_participation
  apply_participation-AreStored actor pd cmd fs r v =
      let got = get_state-IsFetched s tenant iid p config r v in
      elim (Option-cases (get_state s config tenant iid r).1) [
        | inl e ↦ rw (e, apply_participation) (λ h. absurd (cc))
        | inr (st, e) ↦
            elim (Bool-cases (
              is_divergent s bytes digest decode config st cmd.command_id
                (map (sub_id cmd.command_id) fs))) [
                  | inl d ↦ rw (e, d, apply_participation) (λ h. absurd (cc))
                  | inr d ↦
                      rw (e, d, apply_participation)
                        (λ h. AreStored-earlier actor pd cmd fs r.world _ _ (get_state-Led r) (
                          accepted-AreStored actor pd cmd fs (get_state s config tenant iid r).0 _
                            got.sound refl h))
                ]
      ]
