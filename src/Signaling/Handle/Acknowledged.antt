-- ===== src/Signaling/Handle/Acknowledged.antt =====
-- What a participation command acknowledges is in the log (internal/signaling/router.go).
use relaypoint.Common.{
  ℕ, String, ◌≡◌, ◌≢◌, refl, subst, ◌⊎◌, inl, inr, List, [], ◌∷◌, map, Option, none, some, Bool,
  true, false, ◌==◌, arith, eq_iff, lookup, Bool-cases, Option-cases, lookup-Each, Each-insert,
}
use relaypoint.Signaling.Wire.{
  Command, CommandResult, Reason, Status, accepted, rejected, accept, reject, role_trusted_backend,
}
use relaypoint.Signaling.State.Fold.{Logged}
use relaypoint.Signaling.Log.{LogStore, Promises, log_subject_for, dedup_id}
use relaypoint.Signaling.Submit.{Outcome, is_accepted}
use relaypoint.Signaling.Table.{Config, Router, key_of, get_state}
use relaypoint.Signaling.Hash.{hash_payload}
use relaypoint.Signaling.Privileged.{ParticipationData, Step, steps_of, sub_id, append_fact}
use relaypoint.Signaling.Privileged.Acknowledged.{Grows, append_fact-IsAcknowledged}
use relaypoint.Signaling.Handle.{
  participation_data, fact_command, not_applied, append_participation_fact, append_steps,
  record_parent, is_divergent, apply_participation, handle_participation,
}
use relaypoint.Signaling.Handle.Sound.{
  IsSound, SoundAt, Holds, get_state-IsFetched, put_back-IsSound,
}

module _ (s : LogStore) (tenant iid : String)
    (p : Promises s (log_subject_for tenant iid) (dedup_id tenant iid)) (bytes : String → List ℕ)
    (digest : List ℕ → String) (decode : List ℕ → Option ParticipationData) (config : Config) where
  open s use {World}
  open p use {facts}

  abbrev pub Sound : Router World → Type 0
  Sound = IsSound s tenant iid p

  -- After a fact: the table is sound, the log lost nothing, and an accepted fact is in the log.
  pub record IsWritten (id : String) (r : Router World) (out : Router World × CommandResult)
      : Type 0 where
    grows : Grows s tenant iid p r.world out.0.world
    pub sound : Sound out.0
    durable : out.1.status ≡ accepted → Logged id (facts out.0.world)

  pub append_participation_fact-IsWritten :
      (actor parent : String) (pd : ParticipationData) (fcmd : Command) (r : Router World)
      → Sound r
      → IsWritten fcmd.command_id r
          (append_participation_fact s bytes digest decode config tenant iid actor parent pd fcmd r)
  unfolding append_participation_fact
  append_participation_fact-IsWritten actor parent pd fcmd r v =
      let got = get_state-IsFetched s tenant iid p config r v in
      elim (Option-cases (get_state s config tenant iid r).1) [
        | inl e ↦
            rw (e, append_participation_fact)
              (record { grows = got.grows; sound = got.sound; durable = λ a. cc })
        | inr (st, e) ↦
            let ph = hash_payload bytes digest fcmd in
            let w' = (get_state s config tenant iid r).0.world in
            let out : Outcome World =
              append_fact s config.limits tenant iid actor parent ph pd fcmd st w' in
            let a =
              append_fact-IsAcknowledged s tenant iid p config.limits actor parent ph pd fcmd st w'
                (subst (Holds s tenant iid p (get_state s config tenant iid r).0.world) e
                  got.holds) in
            let (k, w) =
              put_back-IsSound s tenant iid p config (get_state s config tenant iid r).0 out
                got.sound a.grows a.cached in
            rw (e, append_participation_fact)
              (record {
                grows = rw w (λ id l. a.grows id (got.grows id l));
                sound = k;
                durable = rw w a.durable;
              })
      ]

  abbrev pub AllLogged : String → List Step → World → Type 0
  AllLogged id [] w = Unit {0}
  AllLogged id (f ∷ fs) w = Logged (sub_id id f) (facts w) × AllLogged id fs w

  abbrev pub Unaccepted : Option CommandResult → Type 0
  Unaccepted none = Unit {0}
  Unaccepted (some res) = res.status ≢ accepted

  unaccepted : (st : Status) → is_accepted st ≡ false → st ≢ accepted
  unaccepted accepted h = absurd (ground arith)
  unaccepted rejected h = λ e. cc

  pub record AreWritten (id : String) (fs : List Step) (r : Router World)
      (out : Router World × Option CommandResult) : Type 0 where
    grows : Grows s tenant iid p r.world out.0.world
    pub sound : Sound out.0
    durable : out.1 ≡ none → AllLogged id fs out.0.world
    pub refused : Unaccepted out.1

  pub append_steps-AreWritten :
      (actor : String) (pd : ParticipationData) (cmd : Command) (later : Bool) (fs : List Step)
      (r : Router World)
      → Sound r
      → AreWritten cmd.command_id fs r
          (append_steps s bytes digest decode config tenant iid actor pd cmd later fs r)
  unfolding append_steps fact_command not_applied
  append_steps-AreWritten actor pd cmd later [] r v = record {
    grows = λ id l. l;
    sound = v;
    durable = λ e. tt;
    refused = tt;
  }
  append_steps-AreWritten actor pd cmd later (f ∷ fs) r v =
      let one =
        append_participation_fact-IsWritten actor cmd.command_id pd (fact_command tenant cmd f) r
          v in
      let rest = append_steps-AreWritten actor pd cmd true fs _ one.sound in
      elim (Bool-cases (
        is_accepted
          (append_participation_fact s bytes digest decode config tenant iid actor cmd.command_id pd
            (fact_command tenant cmd f) r).1.status)) [
              | inl e ↦ rw e (record {
                grows = λ id l. rest.grows id (one.grows id l);
                sound = rest.sound;
                durable = λ n. (rest.grows _ (one.durable (ground arith)), rest.durable n);
                refused = rest.refused;
              })
              | inr e ↦ rw e (record {
                grows = one.grows;
                sound = one.sound;
                durable = λ n. cc;
                refused = unaccepted _ e;
              })
            ]

  pub record_parent-IsSound :
      (id : String) (subs : List String) (r : Router World)
      → Sound r
      → Sound (record_parent s bytes digest decode config tenant iid id subs r)
        × ((record_parent s bytes digest decode config tenant iid id subs r).world ≡ r.world)
  unfolding record_parent
  record_parent-IsSound id subs r v = elim (Option-cases (lookup (key_of tenant iid) r.inter)) [
    | inl e ↦ rw (e, record_parent) (v, refl)
    | inr (st, e) ↦
        let c =
          lookup-Each (SoundAt s tenant iid p r.world) (key_of tenant iid) st r.inter v e refl in
        rw (e, record_parent)
          (
            Each-insert (SoundAt s tenant iid p r.world) (key_of tenant iid) _ r.inter v (λ h. c),
            refl,
          )
  ]

  -- After a participation command, with the facts that an accepted one has written.
  pub record IsApplied (role : String) (cmd : Command) (r : Router World)
      (out : Router World × CommandResult) : Type 0 where
    pub grows : Grows s tenant iid p r.world out.0.world
    pub sound : Sound out.0
    pub durable :
        out.1.status ≡ accepted
        → (role ≡ role_trusted_backend)
          × (pd : ParticipationData) × (fs : List Step) × (participation_data decode cmd.body
              ≡ some pd)
          × (steps_of cmd.type_name pd ≡ inr fs)
          × AllLogged cmd.command_id fs out.0.world

  -- The same for given facts.
  record AreApplied (id : String) (fs : List Step) (r : Router World)
      (out : Router World × CommandResult) : Type 0 where
    grows : Grows s tenant iid p r.world out.0.world
    pub sound : Sound out.0
    durable : out.1.status ≡ accepted → AllLogged id fs out.0.world

  steps-AreApplied :
      (actor : String) (pd : ParticipationData) (cmd : Command) (fs : List Step) (r : Router World)
      (o : Option CommandResult)
      → Sound r
      → (append_steps s bytes digest decode config tenant iid actor pd cmd false fs r).1 ≡ o
      → AreApplied cmd.command_id fs r (elim o [
        | some res ↦
            ((append_steps s bytes digest decode config tenant iid actor pd cmd false fs r).0, res)
        | none ↦ (
          record_parent s bytes digest decode config tenant iid cmd.command_id
              (map (sub_id cmd.command_id) fs)
              (append_steps s bytes digest decode config tenant iid actor pd cmd false fs r).0,
          accept cmd.command_id,
        )
      ])
  steps-AreApplied actor pd cmd fs r none v e =
      let a = append_steps-AreWritten actor pd cmd false fs r v in
      let (k, w) =
        record_parent-IsSound cmd.command_id (map (sub_id cmd.command_id) fs)
          (append_steps s bytes digest decode config tenant iid actor pd cmd false fs r).0
          a.sound in
      record { grows = rw w a.grows; sound = k; durable = λ h. rw w (a.durable e) }
  steps-AreApplied actor pd cmd fs r (some res) v e =
      let a = append_steps-AreWritten actor pd cmd false fs r v in
      record {
        grows = a.grows;
        sound = a.sound;
        durable = λ h. absurd (subst Unaccepted e a.refused h);
      }

  earlier-AreApplied :
      (id : String) (fs : List Step) (r r' : Router World) (out : Router World × CommandResult)
      → Grows s tenant iid p r.world r'.world
      → AreApplied id fs r' out
      → AreApplied id fs r out
  earlier-AreApplied id fs r r' out g a = record {
    grows = λ i l. a.grows i (g i l);
    sound = a.sound;
    durable = a.durable;
  }

  refused-AreApplied :
      (id : String) (fs : List Step) (r r' : Router World) (res : CommandResult)
      → Grows s tenant iid p r.world r'.world
      → Sound r'
      → res.status ≢ accepted
      → AreApplied id fs r (r', res)
  refused-AreApplied id fs r r' res g v n = record {
    grows = g;
    sound = v;
    durable = λ h. absurd (n h);
  }

  apply_participation-AreApplied :
      (actor : String) (pd : ParticipationData) (cmd : Command) (fs : List Step) (r : Router World)
      → Sound r
      → AreApplied cmd.command_id fs r
          (apply_participation s bytes digest decode config tenant iid actor pd cmd fs r)
  unfolding apply_participation
  apply_participation-AreApplied actor pd cmd fs r v =
      let got = get_state-IsFetched s tenant iid p config r v in
      elim (Option-cases (get_state s config tenant iid r).1) [
        | inl e ↦
            rw (e, apply_participation)
              (refused-AreApplied cmd.command_id fs r _ _ got.grows got.sound (λ h. cc))
        | inr (st, e) ↦
            elim (Bool-cases (
              is_divergent s bytes digest decode config st cmd.command_id
                (map (sub_id cmd.command_id) fs))) [
                  | inl d ↦
                      rw (e, d, apply_participation)
                        (refused-AreApplied cmd.command_id fs r _ _ got.grows got.sound (λ h. cc))
                  | inr d ↦
                      rw (e, d, apply_participation)
                        (earlier-AreApplied cmd.command_id fs r (get_state s config tenant iid r).0
                          _ got.grows
                          (steps-AreApplied actor pd cmd fs (get_state s config tenant iid r).0 _
                            got.sound refl))
                ]
      ]

  refused-IsApplied :
      (role : String) (cmd : Command) (r : Router World) (res : CommandResult)
      → Sound r
      → res.status ≢ accepted
      → IsApplied role cmd r (r, res)
  refused-IsApplied role cmd r res v n = record {
    grows = λ id l. l;
    sound = v;
    durable = λ h. absurd (n h);
  }

  decoded-IsApplied :
      (actor role : String) (cmd : Command) (r : Router World) (pd : ParticipationData)
      (o : Reason ⊎ List Step)
      → Sound r
      → role ≡ role_trusted_backend
      → participation_data decode cmd.body ≡ some pd
      → steps_of cmd.type_name pd ≡ o
      → IsApplied role cmd r (elim o [
        | inl why ↦ (r, reject cmd.command_id why)
        | inr fs ↦ apply_participation s bytes digest decode config tenant iid actor pd cmd fs r
      ])
  decoded-IsApplied actor role cmd r pd (inl why) v t d q =
      refused-IsApplied role cmd r _ v (λ h. cc)
  decoded-IsApplied actor role cmd r pd (inr fs) v t d q =
      let a = apply_participation-AreApplied actor pd cmd fs r v in
      record { grows = a.grows; sound = a.sound; durable = λ h. (t, pd, fs, d, q, a.durable h) }

  -- Whatever the broker answers and other writers do: from a table that acknowledges only what the
  -- log holds, a participation command leaves such a table and loses no command id of the log; and
  -- when it is accepted, the caller is a trusted backend, its data names the agents that its type
  -- needs, and the log holds each of the facts that it stands for, both for a transfer.
  pub handle_participation-IsApplied :
      (actor role : String) (cmd : Command) (r : Router World)
      → Sound r
      → IsApplied role cmd r
          (handle_participation s bytes digest decode config tenant iid actor role cmd r)
  unfolding handle_participation
  handle_participation-IsApplied actor role cmd r v =
      elim (Bool-cases (role == role_trusted_backend)) [
        | inr e ↦ rw e (refused-IsApplied role cmd r _ v (λ h. cc))
        | inl e ↦ elim (Option-cases (participation_data decode cmd.body)) [
          | inl n ↦ rw (e, n) (refused-IsApplied role cmd r _ v (λ h. cc))
          | inr (pd, n) ↦
              rw (e, n, handle_participation)
                (decoded-IsApplied actor role cmd r pd (steps_of cmd.type_name pd) v
                  ((eq_iff role role_trusted_backend).0 e) n refl)
        ]
      ]
