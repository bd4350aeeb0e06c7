-- ===== src/Signaling/Table/Tests.antt =====
-- Runs of the table's pruning and of the payload hash (internal/signaling/router.go).
use Prim.Native.Char.{code}
use Prim.Native.String.{[] as empty, ◌∷◌ as cons}
use text.Mathlib.TextEquality.{Char-path}
use relaypoint.Common.{
  ℕ, String, ◌≡◌, refl, List, [], ◌∷◌, false, arith, Map, eq_iff, lookup, AreSized,
}
use relaypoint.Signaling.Wire.{Command}
use relaypoint.Signaling.State.{InteractionState, rebuilt}
use relaypoint.Signaling.Hash.{payload_parts, hash_payload, hash_payload-injective}
use relaypoint.Signaling.Table.{Config, prune}
use relaypoint.Signaling.Table.Recency.{AreKeys}
use relaypoint.Signaling.Table.Pruning.{IsPruned, prune-IsPruned}

abbrev config : Config
config = record {
  max_inter = 2;
  idle_ttl = 10;
  limits = record { max_results = 8; max_refold = 32 };
  dev_mode = false;
}

abbrev used_at : ℕ → InteractionState
used_at t = record (rebuilt 8 [] 0) { last_used = t }

abbrev three : Map InteractionState
three = ("t/a", used_at 12) ∷ ("t/b", used_at 15) ∷ ("t/c", used_at 20) ∷ []

three-AreKeys : AreKeys three
unfolding lookup
three-AreKeys = (
  λ e. ground (arith, eq_iff "t/a" ""),
  refl,
  (λ e. ground (arith, eq_iff "t/b" ""), refl, (λ e. ground (arith, eq_iff "t/c" ""), refl, tt)),
)

prune-IsPruned_example : IsPruned config 20 three (prune config 20 three)
prune-IsPruned_example = prune-IsPruned config 20 three three-AreKeys

abbrev note : String → Command
note id = record {
  command_id = id;
  tenant_id = "t";
  actor_id = "b";
  type_name = "message.sent";
  medium = "chat";
  ref_id = "";
  body = 7 ∷ [];
}

-- A conversion of a text to numbers that loses nothing.
bytes : String → List ℕ
bytes empty = []
bytes (cons c t) = code c ∷ bytes t

bytes-injective : (s t : String) → bytes s ≡ bytes t → s ≡ t
unfolding bytes
bytes-injective empty empty h = refl
bytes-injective empty (cons d t) h = absurd (cc)
bytes-injective (cons c s) empty h = absurd (cc)
bytes-injective (cons c s) (cons d t) h =
    let a = bytes-injective s t (cc) in let b = Char-path c d (cc) in cc

sized : AreSized (payload_parts bytes (λ b. "digest") (note "c1"))
unfolding payload_parts bytes
sized = (omega arith, (omega arith, (omega arith, (omega arith, (omega arith, (omega arith, tt))))))

-- Two commands that differ in their ids alone.
hash_payload-injective_example :
    ((note "c1").tenant_id ≡ (note "c2").tenant_id)
    × ((note "c1").actor_id ≡ (note "c2").actor_id)
    × ((note "c1").type_name ≡ (note "c2").type_name)
    × ((note "c1").medium ≡ (note "c2").medium)
    × ((note "c1").ref_id ≡ (note "c2").ref_id)
    × ((note "c1").body ≡ (note "c2").body)
unfolding hash_payload payload_parts
hash_payload-injective_example =
    hash_payload-injective bytes (λ b. "digest") (note "c1") (note "c2") bytes-injective (λ e. refl)
      sized sized refl
