-- ===== src/Signaling/Handle/Stored.antt =====
-- A direct command from end to end (internal/signaling/router.go): what an accepted one has written, and
-- the membership that the table holds then.
use relaypoint.Common.{
  ℕ, String, ◌≡◌, refl, subst, ◌⊎◌, inl, inr, List, Option, none, some, Bool, false, eq_refl, arith,
  Map, lookup, insert, erase, has, lookup-insert, lookup-erase, Bool-cases, Option-cases,
}
use relaypoint.Signaling.Wire.{Command, CommandResult, accepted}
use relaypoint.Signaling.State.{InteractionState, is_participation_fact}
use relaypoint.Signaling.Log.{LogStore, Promises, log_subject_for, dedup_id, rebuild}
use relaypoint.Signaling.Sync.{rebuild-Others, Led, here, led}
use relaypoint.Signaling.Hash.{hash_payload}
use relaypoint.Signaling.Submit.{Outcome, submit}
use relaypoint.Signaling.Submit.Current.{IsCurrent, rebuild-IsCurrent}
use relaypoint.Signaling.Submit.Written.{IsWritten, IsEarlier, IsUnsure, IsStored}
use relaypoint.Signaling.Submit.Durable.{submit-IsStored_since}
use relaypoint.Signaling.Privileged.{ParticipationData}
use relaypoint.Signaling.Table.{Config, Router, key_of, prune, get_state, evict, put_back}
use relaypoint.Signaling.Table.Recency.{AreKeys}
use relaypoint.Signaling.Table.Pruning.{prune-IsPruned}
use relaypoint.Signaling.Handle.{handle_direct}
use relaypoint.Signaling.Handle.Direct.{
  IsInStep, SafeIn, get_state-IsTaken, AreKeys-insert, key_of-ne, IsHandled,
  handle_direct-IsHandled,
}

module _ (s : LogStore) (tenant iid : String)
    (p : Promises s (log_subject_for tenant iid) (dedup_id tenant iid)) where
  open s use {World}
  open p use {facts}

  -- The membership and the parents of the state, where there is one, are the log's.
  abbrev pub CurrentIn : World → Option InteractionState → Type 0
  CurrentIn w none = Unit {0}
  CurrentIn w (some st) = IsCurrent s tenant iid p w st

  IsCurrent-used :
      (w : World) (st : InteractionState) (t : ℕ)
      → IsCurrent s tenant iid p w st
      → IsCurrent s tenant iid p w (record st { last_used = t })
  IsCurrent-used w st t k = record { members = k.members; parents = k.parents }

  CurrentIn-insert :
      (w : World) (st : InteractionState) (m : Map InteractionState)
      → IsCurrent s tenant iid p w st
      → CurrentIn w (lookup (key_of tenant iid) (insert (key_of tenant iid) st m))
  CurrentIn-insert w st m v =
      rw (lookup-insert (key_of tenant iid) (key_of tenant iid) st m, eq_refl (key_of tenant iid)) v

  CurrentIn-erase :
      (w : World) (m : Map InteractionState)
      → CurrentIn w (lookup (key_of tenant iid) (erase (key_of tenant iid) m))
  CurrentIn-erase w m =
      rw (lookup-erase (key_of tenant iid) (key_of tenant iid) m, eq_refl (key_of tenant iid)) tt

  CurrentIn-prune :
      (config : Config) (now : ℕ) (w : World) (m : Map InteractionState)
      → AreKeys m
      → CurrentIn w (lookup (key_of tenant iid) m)
      → CurrentIn w (lookup (key_of tenant iid) (prune config now m))
  CurrentIn-prune config now w m u v =
      elim (Option-cases (lookup (key_of tenant iid) (prune config now m))) [
        | inl e ↦ rw e tt
        | inr (st, e) ↦
            rw e (
              subst (CurrentIn w) ((prune-IsPruned config now m u).only (key_of tenant iid) st e) v)
      ]

  put_back-world :
      (config : Config) (r : Router World) (out : Outcome World)
      → (put_back s config tenant iid r out).world ≡ out.world
  unfolding put_back evict
  put_back-world config r out = elim (Bool-cases out.evicted) [
    | inl e ↦ rw e refl
    | inr e ↦ rw e refl
  ]

  module _ (bytes : String → List ℕ) (digest : List ℕ → String)
      (decode : List ℕ → Option ParticipationData) (config : Config) (identity : String)
      (gate : Bool) (cmd : Command) where
    abbrev ph : String
    ph = hash_payload bytes digest cmd

    abbrev Reached : World → World → Type 0
    Reached = Led s tenant iid p

    abbrev Unsure : World → World → Type 0
    Unsure = IsUnsure s config.limits tenant iid identity ph gate cmd p

    -- What taking the state from the table, or from the log, leaves.
    record IsTakenCurrent (start : World) (got : Router World × Option InteractionState)
        : Type 0 where
      since : Reached start got.0.world
      table : CurrentIn got.0.world (lookup (key_of tenant iid) got.0.inter)
      state : CurrentIn got.0.world got.1

    get_state-IsTakenCurrent :
        (r : Router World)
        → IsInStep s tenant iid p r
        → CurrentIn r.world (lookup (key_of tenant iid) r.inter)
        → IsTakenCurrent r.world (get_state s config tenant iid r)
    unfolding get_state
    get_state-IsTakenCurrent r v c = elim (Option-cases (lookup (key_of tenant iid) r.inter)) [
      | inr (st, e) ↦
          let k = IsCurrent-used r.world st (s.now r.world) (subst (CurrentIn r.world) e c) in
          rw (e, get_state)
            (record { since = here; table = CurrentIn-insert r.world _ r.inter k; state = k })
      | inl e ↦
          let w' = (rebuild s config.limits.max_results tenant iid r.world).0 in
          let o = rebuild-Others s tenant iid p config.limits.max_results r.world in
          elim (Option-cases (rebuild s config.limits.max_results tenant iid r.world).1) [
            | inl n ↦
                rw (e, n, get_state) (record { since = led here o; table = rw e tt; state = tt })
            | inr (fresh, n) ↦
                let k = IsCurrent-used w' fresh (s.now w') (
                  rebuild-IsCurrent s tenant iid p config.limits.max_results r.world fresh v.legal
                    n) in
                let u =
                  AreKeys-insert (key_of tenant iid) _ r.inter (key_of-ne tenant iid) v.keys in
                rw (e, n, get_state)
                  (record {
                    since = led here o;
                    table = CurrentIn-prune config _ w' _ u (CurrentIn-insert w' _ r.inter k);
                    state = k;
                  })
          ]
    ]

    put_back-current :
        (start : World) (r : Router World) (out : Outcome World)
        → IsStored s config.limits tenant iid identity ph gate cmd p start out
        → Unsure start out.world
          ⊎ CurrentIn
              (put_back s config tenant iid r out).world
              (lookup (key_of tenant iid) (put_back s config tenant iid r out).inter)
    unfolding put_back evict
    put_back-current start r out y =
        let key : String = key_of tenant iid in
        elim (Bool-cases (has (lookup key r.inter))) [
          | inl h ↦ elim (Bool-cases out.evicted) [
            | inl e ↦ rw (h, e) (inr (CurrentIn-erase out.world _))
            | inr e ↦
                rw (h, e)
                  (elim y.current [
                    | inl (_, t) ↦ absurd (ground (arith, t, e))
                    | inr k ↦ elim k [
                      | inl u ↦ inl u
                      | inr c ↦ inr (CurrentIn-insert out.world out.state r.inter c)
                    ]
                  ])
          ]
          | inr h ↦ elim (Bool-cases out.evicted) [
            | inl e ↦ rw (h, e) (inr (CurrentIn-erase out.world _))
            | inr e ↦ rw (h, e) (inr (absent out.world (lookup key r.inter) h))
          ]
        ]
      where
        absent : (w : World) (o : Option InteractionState) → has o ≡ false → CurrentIn w o
        absent w none h = tt
        absent w (some st) h = absurd (ground arith)

    -- What a direct command has written, and what its entry of the table knows of the membership.
    pub record IsRecorded (start : World) (out : Router World × CommandResult) : Type 0 where
      pub durable :
          out.1.status ≡ accepted
          → IsWritten s config.limits tenant iid identity ph gate cmd p start out.0.world
            ⊎ IsEarlier s config.limits tenant iid identity ph gate cmd p start
      pub current :
          IsUnsure s config.limits tenant iid identity ph gate cmd p start out.0.world
          ⊎ CurrentIn out.0.world (lookup (key_of tenant iid) out.0.inter)

    -- For a command that is not a participation fact, from a legal log and a table whose entry for the
    -- interaction, where there is one, has the number, status, membership and parents of the log when its
    -- token is the log's last stream sequence. A direct command leaves a legal log and a table whose entry has
    -- the number and the status so, through a rebuild, pruning and eviction and whatever other routers write
    -- before each call; and the membership and the parents too, unless the acknowledgement of this call's
    -- append was lost. An accepted command has in the log an event that this call wrote, with the command's
    -- type, author, body, reference and payload hash and, where the gate is on, by a member according to the
    -- log right before it; or the log held its command id before this call wrote anything.
    pub handle_direct-IsRecorded :
        (r : Router World)
        → is_participation_fact cmd.type_name ≡ false
        → IsInStep s tenant iid p r
        → CurrentIn r.world (lookup (key_of tenant iid) r.inter)
        → IsHandled s tenant iid p bytes digest decode config identity gate cmd (
            handle_direct s bytes digest decode config
              (record { tenant = tenant; iid = iid; identity = identity })
              gate
              cmd
              r)
          × IsRecorded r.world (
              handle_direct s bytes digest decode config
                (record { tenant = tenant; iid = iid; identity = identity })
                gate
                cmd
                r)
    unfolding handle_direct
    handle_direct-IsRecorded r plain v c = (
      handle_direct-IsHandled s tenant iid p bytes digest decode config identity gate cmd r v,
      recorded,
    )
      where
        recorded : IsRecorded r.world (
            handle_direct s bytes digest decode config
              (record { tenant = tenant; iid = iid; identity = identity })
              gate
              cmd
              r)
        recorded =
            let got = get_state-IsTaken s tenant iid p config r v in
            let g = get_state-IsTakenCurrent r v c in
            let r' : Router World = (get_state s config tenant iid r).0 in
            elim (Option-cases (get_state s config tenant iid r).1) [
              | inl e ↦
                  rw (e, handle_direct)
                    (record { durable = λ a. absurd (cc); current = inr g.table })
              | inr (st, e) ↦
                  let out : Outcome World =
                    submit s config.limits tenant iid identity ph gate cmd st r'.world in
                  let y =
                    submit-IsStored_since s config.limits tenant iid identity ph gate cmd p plain
                      r.world st r'.world g.since
                      (subst (SafeIn s tenant iid p r'.world) e got.state)
                      (subst (CurrentIn r'.world) e g.state) in
                  let w : (put_back s config tenant iid r' out).world ≡ out.world =
                    put_back-world config r' out in
                  rw (e, handle_direct)
                    (record {
                      durable = rw w y.durable;
                      current = elim (put_back-current r.world r' out y) [
                        | inl u ↦ inl (rw w u)
                        | inr k ↦ inr k
                      ];
                    })
            ]
