-- ===== src/Signaling/Handle/Sound.antt =====
-- The table of internal/signaling/router.go: what it holds for an interaction acknowledges only what
-- the log holds, through `get_state`, `put_back` and pruning.
use relaypoint.Common.{
  ℕ, zero, suc, String, ◌≡◌, refl, inl, inr, [], ◌∷◌, Option, none, some, arith, lookup, erase, has,
  Bool-cases, Option-cases, length, ltb, Map, Each, lookup-Each, Each-insert, Each-erase, Each-mono,
}
use relaypoint.Signaling.State.{InteractionState}
use relaypoint.Signaling.State.Fold.{Cached}
use relaypoint.Signaling.Log.{LogStore, Promises, log_subject_for, dedup_id, rebuild}
use relaypoint.Signaling.Submit.{Outcome}
use relaypoint.Signaling.Table.{
  Config, Router, key_of, drop_idle, drop_lru, lru_from, prune, get_state, evict, put_back,
}
use relaypoint.Signaling.Privileged.Acknowledged.{
  Grows, Grows-Cached, rebuild-Grows, rebuild-Cached,
}

Each-drop_idle :
    (P : String → InteractionState → Type 0) (ttl now : ℕ) (m : Map InteractionState)
    → Each P m
    → Each P (drop_idle ttl now m)
unfolding drop_idle
Each-drop_idle P ttl now [] e = tt
Each-drop_idle P ttl now ((k, st) ∷ m) (p, e) = ground (arith, Each-drop_idle P ttl now m e)

Each-drop_lru :
    (P : String → InteractionState → Type 0) (rounds max : ℕ) (m : Map InteractionState)
    → Each P m
    → Each P (drop_lru rounds max m)
unfolding drop_lru
Each-drop_lru P zero max m e = e
Each-drop_lru P (suc rounds) max m e = ground (
  arith,
  Each-drop_lru P rounds max (erase (lru_from "" 0 m) m) (Each-erase P (lru_from "" 0 m) m e),
)

Each-prune :
    (P : String → InteractionState → Type 0) (config : Config) (now : ℕ) (m : Map InteractionState)
    → Each P m
    → Each P (prune config now m)
unfolding prune
Each-prune P config now m e = elim (Bool-cases (ltb 0 config.idle_ttl)) [
  | inl h ↦ rw h (Each-drop_lru P _ config.max_inter _ (Each-drop_idle P config.idle_ttl now m e))
  | inr h ↦ rw h (Each-drop_lru P (length m) config.max_inter m e)
]

module _ (s : LogStore) (tenant iid : String)
    (p : Promises s (log_subject_for tenant iid) (dedup_id tenant iid)) where
  open s use {World}
  open p use {facts}

  abbrev pub SoundAt : World → String → InteractionState → Type 0
  SoundAt w k st = k ≡ key_of tenant iid → Cached (facts w) st.results

  -- What the table holds for the interaction acknowledges only what the log holds.
  abbrev pub IsSound : Router World → Type 0
  IsSound r = Each (SoundAt r.world) r.inter

  pub Grows-Each :
      (w w' : World) (m : Map InteractionState)
      → Grows s tenant iid p w w'
      → Each (SoundAt w) m
      → Each (SoundAt w') m
  Grows-Each w w' m g e =
      Each-mono (SoundAt w) (SoundAt w') m (λ k st c h. Grows-Cached s tenant iid p w w' st g (c h))
        e

  abbrev pub Holds : World → Option InteractionState → Type 0
  Holds w none = Unit {0}
  Holds w (some st) = Cached (facts w) st.results

  pub record IsFetched (r : Router World) (got : Router World × Option InteractionState)
      : Type 0 where
    pub grows : Grows s tenant iid p r.world got.0.world
    pub sound : IsSound got.0
    pub holds : Holds got.0.world got.1

  pub get_state-IsFetched :
      (config : Config) (r : Router World)
      → IsSound r
      → IsFetched r (get_state s config tenant iid r)
  unfolding get_state
  get_state-IsFetched config r v = elim (Option-cases (lookup (key_of tenant iid) r.inter)) [
    | inr (st, e) ↦
        let c = lookup-Each (SoundAt r.world) (key_of tenant iid) st r.inter v e refl in
        rw (e, get_state)
          (record {
            grows = λ id l. l;
            sound = Each-insert (SoundAt r.world) (key_of tenant iid) _ r.inter v (λ h. c);
            holds = c;
          })
    | inl e ↦
        let g = rebuild-Grows s tenant iid p config.limits.max_results r.world in
        let v' =
          Grows-Each r.world (rebuild s config.limits.max_results tenant iid r.world).0 r.inter g
            v in
        elim (Option-cases (rebuild s config.limits.max_results tenant iid r.world).1) [
          | inl n ↦ rw (e, n, get_state) (record { grows = g; sound = v'; holds = tt })
          | inr (fresh, n) ↦
              let c = rebuild-Cached s tenant iid p config.limits.max_results r.world fresh n in
              rw (e, n, get_state)
                (record {
                  grows = g;
                  sound =
                      Each-prune _ config _ _
                        (Each-insert _ (key_of tenant iid) _ r.inter v' (λ h. c));
                  holds = c;
                })
        ]
  ]

  pub put_back-IsSound :
      (config : Config) (r : Router World) (out : Outcome World)
      → IsSound r
      → Grows s tenant iid p r.world out.world
      → Cached (facts out.world) out.state.results
      → IsSound (put_back s config tenant iid r out)
        × ((put_back s config tenant iid r out).world ≡ out.world)
  unfolding put_back evict
  put_back-IsSound config r out v g c =
      let old = Grows-Each r.world out.world r.inter g v in
      let new =
        Each-insert (SoundAt out.world) (key_of tenant iid) out.state r.inter old (λ h. c) in
      elim (Bool-cases (has (lookup (key_of tenant iid) r.inter))) [
        | inl h ↦ elim (Bool-cases out.evicted) [
          | inl e ↦ rw (h, e) (Each-erase (SoundAt out.world) (key_of tenant iid) _ new, refl)
          | inr e ↦ rw (h, e) (new, refl)
        ]
        | inr h ↦ elim (Bool-cases out.evicted) [
          | inl e ↦ rw (h, e) (Each-erase (SoundAt out.world) (key_of tenant iid) _ old, refl)
          | inr e ↦ rw (h, e) (old, refl)
        ]
      ]
