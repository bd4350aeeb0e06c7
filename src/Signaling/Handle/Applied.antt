-- ===== src/Signaling/Handle/Applied.antt =====
-- What an accepted participation command has written (internal/signaling/router.go).
use relaypoint.Common.{
  ℕ, String, ◌≡◌, ◌≢◌, refl, subst, ◌⊎◌, inl, inr, List, [], ◌∷◌, Option, some, ◌==◌, arith, eq_iff,
  Bool-cases, Option-cases,
}
use relaypoint.Signaling.Wire.{
  Command, CommandResult, Reason, accepted, reject, role_trusted_backend,
}
use relaypoint.Signaling.Log.{LogStore, Promises, log_subject_for, dedup_id}
use relaypoint.Signaling.Sync.{Led}
use relaypoint.Signaling.Table.{Config, Router}
use relaypoint.Signaling.Privileged.{ParticipationData, Step, steps_of}
use relaypoint.Signaling.Handle.{participation_data, apply_participation, handle_participation}
use relaypoint.Signaling.Handle.Sound.{IsSound}
use relaypoint.Signaling.Handle.Acknowledged.{IsApplied, handle_participation-IsApplied}
use relaypoint.Signaling.Handle.Steps.{AreStored, apply_participation-AreStored}

module _ (s : LogStore) (tenant iid : String)
    (p : Promises s (log_subject_for tenant iid) (dedup_id tenant iid)) (bytes : String → List ℕ)
    (digest : List ℕ → String) (decode : List ℕ → Option ParticipationData) (config : Config) where
  open s use {World}

  abbrev pub Sound : Router World → Type 0
  Sound = IsSound s tenant iid p

  abbrev pub Stored : String → ParticipationData → Command → List Step → World → World → Type 0
  Stored = AreStored s tenant iid p bytes digest decode config

  -- What an accepted participation command is, and what it has written from one world to the other.
  pub record IsCarriedOut (actor role : String) (cmd : Command) (start end : World) : Type 0 where
    pub backend : role ≡ "trusted-backend"
    pub data_of : ParticipationData
    pub is_data : participation_data decode cmd.body ≡ some data_of
    pub assign :
        cmd.type_name ≡ "participant.assign"
        → (data_of.agent ≢ "")
          × Stored actor data_of cmd (("participant.joined", data_of.agent) ∷ []) start end
    pub unassign :
        cmd.type_name ≡ "participant.unassign"
        → (data_of.agent ≢ "")
          × Stored actor data_of cmd (("participant.left", data_of.agent) ∷ []) start end
    pub transfer :
        cmd.type_name ≡ "participant.transfer"
        → (data_of.agent ≢ "")
          × (data_of.from_agent ≢ "")
          × Stored actor data_of cmd
              (("participant.joined", data_of.agent)
                ∷ ("participant.left", data_of.from_agent)
                ∷ [])
              start
              end
    pub other :
        cmd.type_name ≢ "participant.assign"
        → cmd.type_name ≢ "participant.unassign"
        → cmd.type_name ≢ "participant.transfer"
        → Led s tenant iid p start end

  -- Where the agents that a command needs are missing, it has no steps.
  steps_of-named :
      (pd : ParticipationData) (fs : List Step)
      → (steps_of "participant.assign" pd ≡ inr fs → pd.agent ≢ "")
        × (steps_of "participant.unassign" pd ≡ inr fs → pd.agent ≢ "")
        × (steps_of "participant.transfer" pd ≡ inr fs → pd.agent ≢ "")
        × (steps_of "participant.transfer" pd ≡ inr fs → pd.from_agent ≢ "")
  unfolding steps_of
  steps_of-named pd fs = (
    λ h e. ground (arith, eq_iff pd.agent ""),
    λ h e. ground (arith, eq_iff pd.agent ""),
    λ h e. ground (arith, eq_iff pd.agent ""),
    λ h e. ground (arith, eq_iff pd.from_agent ""),
  )

  steps_of-assign :
      (pd : ParticipationData) (fs : List Step)
      → steps_of "participant.assign" pd ≡ inr fs
      → fs ≡ ("participant.joined", pd.agent) ∷ []
  unfolding steps_of
  steps_of-assign pd fs h = ground arith

  steps_of-unassign :
      (pd : ParticipationData) (fs : List Step)
      → steps_of "participant.unassign" pd ≡ inr fs
      → fs ≡ ("participant.left", pd.agent) ∷ []
  unfolding steps_of
  steps_of-unassign pd fs h = ground arith

  steps_of-transfer :
      (pd : ParticipationData) (fs : List Step)
      → steps_of "participant.transfer" pd ≡ inr fs
      → fs ≡ ("participant.joined", pd.agent) ∷ ("participant.left", pd.from_agent) ∷ []
  unfolding steps_of
  steps_of-transfer pd fs h = ground arith

  steps_of-other :
      (t : String) (pd : ParticipationData) (fs : List Step)
      → t ≢ "participant.assign"
      → t ≢ "participant.unassign"
      → t ≢ "participant.transfer"
      → steps_of t pd ≡ inr fs
      → fs ≡ []
  unfolding steps_of
  steps_of-other t pd fs a u r h = ground (
    arith,
    eq_iff t "participant.assign",
    eq_iff t "participant.unassign",
    eq_iff t "participant.transfer",
  )

  steps-IsCarriedOut :
      (actor role : String) (cmd : Command) (pd : ParticipationData) (fs : List Step)
      (start end : World)
      → role ≡ role_trusted_backend
      → participation_data decode cmd.body ≡ some pd
      → steps_of cmd.type_name pd ≡ inr fs
      → Stored actor pd cmd fs start end
      → IsCarriedOut actor role cmd start end
  steps-IsCarriedOut actor role cmd pd fs start end t d q h =
      let stored : List Step → Type 0 = λ l. Stored actor pd cmd l start end in
      let (na, nu, nt, nf) = steps_of-named pd fs in
      record {
        backend = t;
        data_of = pd;
        is_data = d;
        assign = λ e.
            let q' = subst (λ k. steps_of k pd ≡ inr fs) e q in
            (na q', subst stored (steps_of-assign pd fs q') h);
        unassign = λ e.
            let q' = subst (λ k. steps_of k pd ≡ inr fs) e q in
            (nu q', subst stored (steps_of-unassign pd fs q') h);
        transfer = λ e.
            let q' = subst (λ k. steps_of k pd ≡ inr fs) e q in
            (nt q', nf q', subst stored (steps_of-transfer pd fs q') h);
        other = λ a u r. subst stored (steps_of-other cmd.type_name pd fs a u r q) h;
      }

  decoded-IsCarriedOut :
      (actor role : String) (cmd : Command) (r : Router World) (pd : ParticipationData)
      (o : Reason ⊎ List Step)
      → Sound r
      → role ≡ role_trusted_backend
      → participation_data decode cmd.body ≡ some pd
      → steps_of cmd.type_name pd ≡ o
      → let out : Router World × CommandResult = elim o [
        | inl why ↦ (r, reject cmd.command_id why)
        | inr fs ↦ apply_participation s bytes digest decode config tenant iid actor pd cmd fs r
      ] in
        out.1.status ≡ accepted → IsCarriedOut actor role cmd r.world out.0.world
  decoded-IsCarriedOut actor role cmd r pd (inl why) v t d q h = absurd (cc)
  decoded-IsCarriedOut actor role cmd r pd (inr fs) v t d q h =
      steps-IsCarriedOut actor role cmd pd fs _ _ t d q (
        apply_participation-AreStored s tenant iid p bytes digest decode config actor pd cmd fs r v
          h)

  carried_out :
      (actor role : String) (cmd : Command) (r : Router World)
      → Sound r
      → (handle_participation s bytes digest decode config tenant iid actor role cmd r).1.status
        ≡ accepted
      → IsCarriedOut actor role cmd r.world
          (handle_participation s bytes digest decode config tenant iid actor role cmd r).0.world
  unfolding handle_participation
  carried_out actor role cmd r v = elim (Bool-cases (role == role_trusted_backend)) [
    | inr e ↦ rw e (λ h. absurd (cc))
    | inl e ↦ elim (Option-cases (participation_data decode cmd.body)) [
      | inl n ↦ rw (e, n) (λ h. absurd (cc))
      | inr (pd, n) ↦
          rw (e, n, handle_participation)
            (decoded-IsCarriedOut actor role cmd r pd (steps_of cmd.type_name pd) v
              ((eq_iff role role_trusted_backend).0 e) n refl)
    ]
  ]

  -- After a participation command: what the table and the log keep, and what an accepted one has written.
  pub record IsEntered (actor role : String) (cmd : Command) (r : Router World)
      (out : Router World × CommandResult) : Type 0 where
    pub applied : IsApplied s tenant iid p bytes digest decode config role cmd r out
    pub carried : out.1.status ≡ accepted → IsCarriedOut actor role cmd r.world out.0.world

  -- Whatever the broker answers and other writers do: from a table that acknowledges only what the log
  -- holds, a participation command leaves such a table and loses no command id of the log. When it is
  -- accepted, the caller is a trusted backend, and from the log before the command to the log behind it
  -- only others wrote and, one behind the other, the facts of the command: for an assign that the agent
  -- joined, for an unassign that it left, and for a transfer that the agent joined and then that the one
  -- it replaces left. Each is an event with that type and agent, the command as its cause, the caller as
  -- its commander, and the reason and the request of the data; or only others wrote and the log then has
  -- the fact's command id. The agents are not empty, and a command of another type writes nothing.
  pub handle_participation-IsEntered :
      (actor role : String) (cmd : Command) (r : Router World)
      → Sound r
      → IsEntered actor role cmd r
          (handle_participation s bytes digest decode config tenant iid actor role cmd r)
  handle_participation-IsEntered actor role cmd r v = record {
    applied =
        handle_participation-IsApplied s tenant iid p bytes digest decode config actor role cmd r v;
    carried = carried_out actor role cmd r v;
  }
