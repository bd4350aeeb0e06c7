-- ===== src/Signaling/Handle/Direct.antt =====
-- A direct command from end to end against the log (internal/signaling/router.go): the table, the
-- rebuild, the locked part and the eviction.
use text.Mathlib.TextLemmas.{append-eq-nil_iff}
use relaypoint.Common.{
  ℕ, zero, suc, String, ◌≡◌, ◌≢◌, refl, subst, inl, inr, List, [], ◌∷◌, Option, none, some, Bool,
  false, eq_iff, eq_refl, arith, ltb, length, Map, lookup, insert, erase, has, lookup-insert,
  lookup-erase, Bool-cases, Option-cases,
}
use relaypoint.Signaling.Wire.{Command, CommandResult, accepted}
use relaypoint.Signaling.State.{InteractionState}
use relaypoint.Signaling.State.Fold.{IsLegal, Logged}
use relaypoint.Signaling.Log.{LogStore, Promises, log_subject_for, dedup_id, rebuild, joined}
use relaypoint.Signaling.Sync.{IsSafe, rebuild-Others, rebuild-IsSafe}
use relaypoint.Signaling.Hash.{hash_payload}
use relaypoint.Signaling.Subject.{Addressed}
use relaypoint.Signaling.Submit.{Outcome, submit}
use relaypoint.Signaling.Submit.Endings.{IsSettled}
use relaypoint.Signaling.Submit.Safety.{submit-IsSettled}
use relaypoint.Signaling.Privileged.{ParticipationData}
use relaypoint.Signaling.Table.{
  Config, Router, key_of, drop_lru, lru_from, prune, get_state, evict, put_back,
}
use relaypoint.Signaling.Table.Recency.{AreKeys, AreKeys-erase}
use relaypoint.Signaling.Table.Pruning.{prune-IsPruned, AreKeys-drop_idle}
use relaypoint.Signaling.Handle.{handle_direct}

pub key_of-ne : (tenant iid : String) → key_of tenant iid ≢ ""
unfolding key_of joined
key_of-ne tenant iid h =
    let (a, b) = append-eq-nil_iff.0 h in
    let (c, d) = append-eq-nil_iff.0 b in ground (arith, eq_iff "/" "")

pub AreKeys-insert :
    (k : String) (st : InteractionState) (m : Map InteractionState)
    → k ≢ ""
    → AreKeys m
    → AreKeys (insert k st m)
unfolding insert lookup
AreKeys-insert k st [] n u = (n, refl, tt)
AreKeys-insert k st ((j, x) ∷ m) n (e, a, u) =
    ground (arith, eq_iff j k, AreKeys-insert k st m n u, lookup-insert k j st m, eq_iff k j)

AreKeys-drop_lru :
    (rounds max : ℕ) (m : Map InteractionState) → AreKeys m → AreKeys (drop_lru rounds max m)
unfolding drop_lru
AreKeys-drop_lru zero max m u = u
AreKeys-drop_lru (suc rounds) max m u = ground (
  arith,
  AreKeys-drop_lru rounds max (erase (lru_from "" 0 m) m) (AreKeys-erase (lru_from "" 0 m) m u),
)

AreKeys-prune :
    (config : Config) (now : ℕ) (m : Map InteractionState)
    → AreKeys m
    → AreKeys (prune config now m)
unfolding prune
AreKeys-prune config now m u = elim (Bool-cases (ltb 0 config.idle_ttl)) [
  | inl h ↦ rw h (AreKeys-drop_lru _ config.max_inter _ (AreKeys-drop_idle config.idle_ttl now m u))
  | inr h ↦ rw h (AreKeys-drop_lru (length m) config.max_inter m u)
]

module _ (s : LogStore) (tenant iid : String)
    (p : Promises s (log_subject_for tenant iid) (dedup_id tenant iid)) where
  open s use {World}
  open p use {facts}

  abbrev pub SafeIn : World → Option InteractionState → Type 0
  SafeIn w none = Unit {0}
  SafeIn w (some st) = IsSafe s tenant iid p w st

  -- The log is legal, the table's keys are not empty and stand once, and the entry of the interaction,
  -- where there is one, is in step with the log.
  pub record IsInStep (r : Router World) : Type 0 where
    pub legal : IsLegal (facts r.world)
    pub keys : AreKeys r.inter
    pub safe : SafeIn r.world (lookup (key_of tenant iid) r.inter)

  IsSafe-used :
      (w : World) (st : InteractionState) (t : ℕ)
      → IsSafe s tenant iid p w st
      → IsSafe s tenant iid p w (record st { last_used = t })
  IsSafe-used w st t v = record { legal = v.legal; cached = v.cached; synced = v.synced }

  SafeIn-insert :
      (w : World) (st : InteractionState) (m : Map InteractionState)
      → IsSafe s tenant iid p w st
      → SafeIn w (lookup (key_of tenant iid) (insert (key_of tenant iid) st m))
  SafeIn-insert w st m v =
      rw (lookup-insert (key_of tenant iid) (key_of tenant iid) st m, eq_refl (key_of tenant iid)) v

  SafeIn-prune :
      (config : Config) (now : ℕ) (w : World) (m : Map InteractionState)
      → AreKeys m
      → SafeIn w (lookup (key_of tenant iid) m)
      → SafeIn w (lookup (key_of tenant iid) (prune config now m))
  SafeIn-prune config now w m u v =
      elim (Option-cases (lookup (key_of tenant iid) (prune config now m))) [
        | inl e ↦ rw e tt
        | inr (st, e) ↦
            rw e
              (subst (SafeIn w) ((prune-IsPruned config now m u).only (key_of tenant iid) st e) v)
      ]

  pub record IsTaken (got : Router World × Option InteractionState) : Type 0 where
    pub table : IsInStep got.0
    pub state : SafeIn got.0.world got.1

  pub get_state-IsTaken :
      (config : Config) (r : Router World) → IsInStep r → IsTaken (get_state s config tenant iid r)
  unfolding get_state
  get_state-IsTaken config r v = elim (Option-cases (lookup (key_of tenant iid) r.inter)) [
    | inr (st, e) ↦
        let k = IsSafe-used r.world st (s.now r.world) (subst (SafeIn r.world) e v.safe) in
        rw (e, get_state)
          (record {
            table = record {
              legal = v.legal;
              keys = AreKeys-insert (key_of tenant iid) _ r.inter (key_of-ne tenant iid) v.keys;
              safe = SafeIn-insert r.world _ r.inter k;
            };
            state = k;
          })
    | inl e ↦
        let w' = (rebuild s config.limits.max_results tenant iid r.world).0 in
        let l =
          p.others_legal r.world w'
            (rebuild-Others s tenant iid p config.limits.max_results r.world) v.legal in
        elim (Option-cases (rebuild s config.limits.max_results tenant iid r.world).1) [
          | inl n ↦
              rw (e, n, get_state)
                (record { table = record { legal = l; keys = v.keys; safe = rw e tt }; state = tt })
          | inr (fresh, n) ↦
              let (f, _) =
                rebuild-IsSafe s tenant iid p config.limits.max_results r.world fresh v.legal n in
              let k = IsSafe-used w' fresh (s.now w') f in
              let u = AreKeys-insert (key_of tenant iid) _ r.inter (key_of-ne tenant iid) v.keys in
              rw (e, n, get_state)
                (record {
                  table = record {
                    legal = l;
                    keys = AreKeys-prune config _ _ u;
                    safe = SafeIn-prune config _ w' _ u (SafeIn-insert w' _ r.inter k);
                  };
                  state = k;
                })
        ]
  ]

  module _ (bytes : String → List ℕ) (digest : List ℕ → String)
      (decode : List ℕ → Option ParticipationData) (config : Config) (identity : String)
      (gate : Bool) (cmd : Command) where
    abbrev at : Addressed
    at = record { tenant = tenant; iid = iid; identity = identity }

    abbrev ph : String
    ph = hash_payload bytes digest cmd

    -- What the locked part left goes back into the table.
    put_back-IsInStep :
        (r : Router World) (out : Outcome World)
        → AreKeys r.inter
        → SafeIn r.world (lookup (key_of tenant iid) r.inter)
        → IsSettled s config.limits tenant iid identity ph gate cmd p out
        → IsInStep (put_back s config tenant iid r out)
          × ((put_back s config tenant iid r out).world ≡ out.world)
    unfolding put_back evict
    put_back-IsInStep r out u v y =
        let key : String = key_of tenant iid in
        let new = AreKeys-insert key out.state r.inter (key_of-ne tenant iid) u in
        elim (Bool-cases (has (lookup key r.inter))) [
          | inl h ↦ elim (Bool-cases out.evicted) [
            | inl e ↦ rw (h, e) (evicted out _ y new, refl)
            | inr e ↦
                rw (h, e)
                  (
                    record {
                      legal = y.legal;
                      keys = new;
                      safe = SafeIn-insert out.world out.state r.inter (in_step out y e);
                    },
                    refl,
                  )
          ]
          | inr h ↦ elim (Bool-cases out.evicted) [
            | inl e ↦ rw (h, e) (evicted out _ y u, refl)
            | inr e ↦
                rw (h, e)
                  (
                    record {
                      legal = y.legal;
                      keys = u;
                      safe = absent out.world (lookup key r.inter) h;
                    },
                    refl,
                  )
          ]
        ]
      where
        evicted :
            (out : Outcome World) (m : Map InteractionState)
            → IsSettled s config.limits tenant iid identity ph gate cmd p out
            → AreKeys m
            → IsInStep (record { inter = erase (key_of tenant iid) m; world = out.world })
        evicted out m y u = record {
          legal = y.legal;
          keys = AreKeys-erase (key_of tenant iid) m u;
          safe =
              rw
                (
                  lookup-erase (key_of tenant iid) (key_of tenant iid) m,
                  eq_refl (key_of tenant iid),
                )
                tt;
        }

        in_step :
            (out : Outcome World)
            → IsSettled s config.limits tenant iid identity ph gate cmd p out
            → out.evicted ≡ false
            → IsSafe s tenant iid p out.world out.state
        in_step out y e = elim y.in_step [
          | inl (_, t) ↦ absurd (ground (arith, t, e))
          | inr k ↦ record { legal = y.legal; cached = y.cached; synced = k }
        ]

        absent : (w : World) (o : Option InteractionState) → has o ≡ false → SafeIn w o
        absent w none h = tt
        absent w (some st) h = absurd (ground arith)

    -- After a direct command: the table is in step with the log, and an accepted command is in the log.
    pub record IsHandled (out : Router World × CommandResult) : Type 0 where
      pub table : IsInStep out.0
      pub durable : out.1.status ≡ accepted → Logged cmd.command_id (facts out.0.world)

    -- From a table whose entry for the interaction, where there is one, is in step with a legal log, a
    -- direct command leaves such a table and a legal log, and an accepted command is in the log. This
    -- holds when the entry has to be rebuilt, through pruning and eviction, whatever other routers
    -- write before each call and when the acknowledgement of an append is lost.
    pub handle_direct-IsHandled :
        (r : Router World)
        → IsInStep r
        → IsHandled (handle_direct s bytes digest decode config at gate cmd r)
    unfolding handle_direct
    handle_direct-IsHandled r v =
        let got = get_state-IsTaken config r v in
        let r' : Router World = (get_state s config tenant iid r).0 in
        elim (Option-cases (get_state s config tenant iid r).1) [
          | inl e ↦ rw (e, handle_direct) (record { table = got.table; durable = λ a. cc })
          | inr (st, e) ↦
              let out : Outcome World =
                submit s config.limits tenant iid identity ph gate cmd st r'.world in
              let y =
                submit-IsSettled s config.limits tenant iid identity ph gate cmd p st r'.world
                  (subst (SafeIn r'.world) e got.state) in
              let (k, w) = put_back-IsInStep r' out got.table.keys got.table.safe y in
              rw (e, handle_direct) (record { table = k; durable = rw w y.durable })
        ]
