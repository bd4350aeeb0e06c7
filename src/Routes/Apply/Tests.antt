-- ===== src/Routes/Apply/Tests.antt =====
-- Runs of internal/routeprojection/projector.go on a store in memory that keeps what is installed.
use Prim.Native.Char.{code}
use Prim.Native.String.{[] as empty, ◌∷◌ as cons}
use text.Mathlib.TextEquality.{Char-path}
use relaypoint.Common.{
  ℕ, String, ◌≡◌, refl, inl, inr, List, [], ◌∷◌, ◌++◌, none, some, true, eq_iff, arith,
}
use relaypoint.Routes.Facts.{
  RouteFact, FoldedState, Projection, Library, unknown_history, is_uuid_v7, is_valid_fact,
  hash_route_fact, fold_fact, fold_facts, fold_batch, key_for,
}
use relaypoint.Routes.Facts.Hashing.{IsWritable, hash_route_fact-injective}
use relaypoint.Routes.Fold.{
  IsChain, Shows, last_fact, fold_batch-Shows, installed, fold_batch-append,
}
use relaypoint.Routes.Apply.{
  Ports, ApplyResult, apply, apply_to, install_next, validate_authorization_bindings,
}
use relaypoint.Routes.Apply.Contract.{Contract, AreBound, Binding}
use relaypoint.Routes.Apply.Guarded.{apply-IsGuarded}

-- A conversion of a text to numbers that loses nothing.
bytes : String → List ℕ
bytes empty = []
bytes (cons c t) = code c ∷ bytes t

bytes-injective : (s t : String) → bytes s ≡ bytes t → s ≡ t
unfolding bytes
bytes-injective empty empty h = refl
bytes-injective empty (cons d t) h = absurd (cc)
bytes-injective (cons c s) empty h = absurd (cc)
bytes-injective (cons c s) (cons d t) h =
    let a = bytes-injective s t (cc) in let b = Char-path c d (cc) in cc

-- A library that takes every text for a canonical UUID of version 7.
abbrev lib : Library
lib = record {
  parse_uuid = λ v. some (record { version = 7; rfc4122 = true; canonical = v });
  bytes = bytes;
  digest = λ b. "digest";
}

abbrev ringing : RouteFact
ringing = record {
  tenant_id = "t";
  interaction_id = "i";
  event_id = "e";
  version = 1;
  kind = 2;
  delivery_authorization_id = "d";
  receipt_id = "r";
  visibility_generation = 1;
  lease_until = 9;
}

abbrev terminal : RouteFact
terminal = record ringing { event_id = "f"; version = 2; kind = 3 }

abbrev nothing : FoldedState
nothing = record {
  version = 0;
  event_id = "";
  hash = "";
  visibility = 0;
  delivery_authorization_id = "";
  receipt_id = "";
  visibility_generation = 0;
  lease_until = 0;
}

abbrev empty_projection : Projection
empty_projection = record { tenant_id = ""; interaction_id = ""; state = nothing; database_now = 5 }

abbrev rung : FoldedState
rung = record {
  version = 1;
  event_id = "e";
  hash = "digest";
  visibility = 1;
  delivery_authorization_id = "d";
  receipt_id = "r";
  visibility_generation = 1;
  lease_until = 9;
}

ringing-folds : fold_batch lib empty_projection (ringing ∷ []) ≡ some rung
unfolding fold_batch fold_facts fold_fact key_for is_valid_fact is_uuid_v7 hash_route_fact
ringing-folds = ground (arith, eq_iff "t" "", eq_iff "t" "t")

fold_batch-Shows_example :
    IsChain lib
      (key_for empty_projection (ringing ∷ [])).0
      (key_for empty_projection (ringing ∷ [])).1
      0
      (ringing ∷ [])
    × Shows lib (last_fact lib ringing []) rung
fold_batch-Shows_example = fold_batch-Shows lib empty_projection ringing [] rung ringing-folds

two_batches_fold_as_one :
    fold_batch lib empty_projection (ringing ∷ terminal ∷ [])
    ≡ fold_batch lib (installed lib empty_projection (ringing ∷ []) rung) (terminal ∷ [])
two_batches_fold_as_one =
    fold_batch-append lib empty_projection ringing [] (terminal ∷ []) rung
      (λ e. ground (arith, eq_iff "t" "")) ringing-folds

ringing-IsWritable : IsWritable lib ringing
unfolding bytes
ringing-IsWritable = record {
  sized = (omega arith, omega arith, omega arith, omega arith, omega arith);
  numbers = (omega arith, omega arith, omega arith);
}

a_hash_names_its_fact : ringing ≡ ringing
a_hash_names_its_fact =
    hash_route_fact-injective lib ringing ringing bytes-injective (λ e. refl) ringing-IsWritable
      ringing-IsWritable refl

abbrev memory : Ports
memory = record {
  World = List RouteFact;
  load = λ w t i v. (w, inr (empty_projection, none));
  authorization = λ w t a. (w, inr (some (record { interaction_id = "i"; receipt_id = "r" })));
  install_batch = λ w v fs st. (w ++ fs, inr true);
  begin_reconcile = λ w intent. (w, inr (intent, true));
  install_reconcile_batch = λ w intent fs st. (w ++ fs, inr true);
  install_historical_identity = λ w intent f. (w ++ f ∷ [], inr true);
  install_snapshot_and_audit = λ w intent s f. (w, inr true);
  record_poison = λ w f e. (w, none);
  replay_route_facts = λ w t i from to. (w, inl unknown_history);
  get_route_snapshot = λ w t i. (w, inl unknown_history);
  new_id = λ w. "token";
}

abbrev Given : Binding
Given t a i r = (i ≡ "i") × (r ≡ "r")

AreBound-append :
    (fs gs : List RouteFact) → AreBound Given fs → AreBound Given gs → AreBound Given (fs ++ gs)
AreBound-append [] gs h g = g
AreBound-append (f ∷ fs) gs (b, h) g = (b, AreBound-append fs gs h g)

memory_contract : Contract lib memory ringing
memory_contract = record {
  Inv = λ w. AreBound Given w;
  Loaded = λ p. Unit {0};
  Begun = λ intent. Unit {0};
  Bound = Given;
  load_keeps = λ w t i v h. h;
  load_gives = λ w p r e. tt;
  authorization_keeps = λ w t a h. h;
  authorization_gives = λ w t a b e. (cc, cc);
  begin_keeps = λ w p intent h l i. h;
  begin_gives = λ w p intent begun l i e. tt;
  replay_keeps = λ w from to h. h;
  snapshot_keeps = λ w h. h;
  poison_keeps = λ w e h o. h;
  install_batch_keeps = λ w p st h l e b. AreBound-append w (ringing ∷ []) h (b, tt);
  install_reconcile_keeps = λ w intent p fs st h l g e b s q. AreBound-append w fs h b;
  install_history_keeps = λ w intent f h g b e. AreBound-append w (f ∷ []) h (b, tt);
  install_snapshot_keeps = λ w intent s h g v b. h;
}

apply-IsGuarded_example : AreBound Given (apply lib memory [] ringing).world
unfolding memory_contract
apply-IsGuarded_example = apply-IsGuarded lib memory ringing memory_contract [] tt

ringing_is_applied :
    apply lib memory [] ringing
    ≡ record { world = ringing ∷ []; result = ApplyResult.applied; fault = none }
unfolding apply apply_to install_next validate_authorization_bindings fold_batch fold_facts key_for
    is_valid_fact is_uuid_v7
ringing_is_applied = refl
