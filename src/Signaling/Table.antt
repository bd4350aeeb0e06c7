-- ===== src/Signaling/Table.antt =====
-- internal/signaling/router.go: the router's table of interactions, bounded in number and in idle time.
pub mod Recency
mod Tests
pub mod Pruning
use relaypoint.Common.{
  ℕ, zero, suc, ◌+◌, String, List, [], ◌∷◌, Option, none, some, Bool, true, false, not, ◌&&◌, ◌||◌,
  ◌==◌, ltb, if◌then◌else◌, Map, lookup, insert, erase, has, length,
}
use relaypoint.Signaling.State.{InteractionState}
use relaypoint.Signaling.Log.{LogStore, joined, rebuild}
use relaypoint.Signaling.Submit.{Limits, Outcome}

-- `idle_ttl` is in the clock's unit; 0 switches a bound off.
pub record Config : Type 0 where
  pub max_inter : ℕ
  pub idle_ttl : ℕ
  pub limits : Limits
  pub dev_mode : Bool

pub record Router (World : Type 0) : Type 0 where
  pub inter : Map InteractionState
  pub world : World

unfoldable pub key_of : String → String → String
unfolding joined
key_of tenant iid = joined (tenant ∷ "/" ∷ iid ∷ [])

-- The first loop of `pruneLocked`: `lastUsed.Before(now - idleTTL)` is deleted.
unfoldable pub drop_idle : ℕ → ℕ → Map InteractionState → Map InteractionState
drop_idle ttl now [] = []
drop_idle ttl now ((k, st) ∷ m) =
    let rest = drop_idle ttl now m in if ltb (st.last_used + ttl) now then rest else (k, st) ∷ rest

-- The search for the least recently used key, from the best found so far.
unfoldable pub lru_from : String → ℕ → Map InteractionState → String
lru_from key at [] = key
lru_from key at ((k, st) ∷ m) =
    let later = lru_from key at m in
    let here = lru_from k st.last_used m in if key == "" || ltb st.last_used at then here else later

-- The second loop of `pruneLocked`; each round deletes an entry, so as many rounds as entries do.
unfoldable pub drop_lru : ℕ → ℕ → Map InteractionState → Map InteractionState
unfolding lru_from
drop_lru zero max m = m
drop_lru (suc rounds) max m =
    let rest = drop_lru rounds max (erase (lru_from "" 0 m) m) in
    if ltb 0 max && ltb max (length m) then rest else m

unfoldable pub prune : Config → ℕ → Map InteractionState → Map InteractionState
unfolding drop_idle drop_lru
prune config now m =
    let kept = if ltb 0 config.idle_ttl then drop_idle config.idle_ttl now m else m in
    drop_lru (length kept) config.max_inter kept

module _ (s : LogStore) (config : Config) (tenant iid : String) where
  open s use {World, now}

  -- `getState`; the single flight gives concurrent callers one rebuild, and here there is one caller.
  unfoldable pub get_state : Router World → Router World × Option InteractionState
  unfolding rebuild prune key_of
  get_state r =
      let key = key_of tenant iid in
      elim (lookup key r.inter) [
        | some st ↦
            let used = record st { last_used = now r.world } in
            (record r { inter = insert key used r.inter }, some used)
        | none ↦
            let (w, found) = rebuild s config.limits.max_results tenant iid r.world in
            elim found [
              | none ↦ (record r { world = w }, none)
              | some built ↦
                  let used = record built { last_used = now w } in
                  (
                    record { inter = prune config (now w) (insert key used r.inter); world = w },
                    some used,
                  )
            ]
      ]

  unfoldable pub evict : Router World → Router World
  unfolding key_of
  evict r = record r { inter = erase (key_of tenant iid) r.inter }

  -- What a locked part did to the state that the table points to, if it still does.
  unfoldable pub put_back : Router World → Outcome World → Router World
  unfolding evict key_of
  put_back r out =
      let key = key_of tenant iid in
      let here = if has (lookup key r.inter) then insert key out.state r.inter else r.inter in
      let changed : Router World = record { inter = here; world = out.world } in
      if out.evicted then evict changed else changed
