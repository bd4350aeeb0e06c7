-- ===== src/Participants/Records.antt =====
-- internal/participation/projector.go: the data, the canonical form of a command, and the batch fold.
-- A hash is a text, and a header is its bytes.
use Prim.Native.Char.{Char, code}
use Prim.Native.String.{[] as empty, ◌∷◌ as cons}
use relaypoint.Common.{
  ℕ, zero, suc, String, List, [], ◌∷◌, ◌++◌, Option, none, some, Bool, true, false, not, ◌&&◌, ◌||◌,
  ◌==◌, eqb, leb, if◌then◌else◌, has, next64,
}
use relaypoint.Trace.{parse_traceparent}

abbrev pub state_assigned : ℕ
state_assigned = 1

abbrev pub state_unassigned : ℕ
state_unassigned = 2

-- `occurred_at` is `none` for a missing timestamp, and `desired_state` was not checked.
pub record ParticipationCommand : Type 0 where
  pub event_id : String
  pub tenant_id : String
  pub interaction_id : String
  pub participant_id : String
  pub aggregate_version : ℕ
  pub desired_state : ℕ
  pub occurred_at : Option ℕ
  pub traceparent : List ℕ

pub record Identity : Type 0 where
  pub event_id : String
  pub hash : String
  pub body : List ℕ

pub record Record : Type 0 where
  pub command : ParticipationCommand
  pub identity : Identity

-- `participants` is a set: a participant stands in it once.
pub record Fold : Type 0 where
  pub tenant_id : String
  pub interaction_id : String
  pub version : ℕ
  pub identity : Identity
  pub participants : List String
  pub snapshot_provenance : String

pub data Refusal : Type 0 where
  invalid permission_denied divergent_history unknown_history out_of_range : Refusal

-- `valid_time` is the timestamp's own check, `marshal` the deterministic encoding, and `sum256` SHA-256.
pub record Library : Type 0 where
  pub valid_time : ℕ → Bool
  pub marshal : ParticipationCommand → Option (List ℕ)
  pub sum256 : List ℕ → String

unfoldable pub match_pattern : List (Char → Bool) → String → Bool
match_pattern [] empty = true
match_pattern [] (cons c s) = false
match_pattern (p ∷ ps) empty = false
match_pattern (p ∷ ps) (cons c s) = p c && match_pattern ps s

unfoldable pub within : ℕ → ℕ → Char → Bool
within lo hi c = leb lo (code c) && leb (code c) hi

-- `[0-9a-f]`, one character, and `[89ab]`.
abbrev pub is_hex_digit : Char → Bool
is_hex_digit c = within 48 57 c || within 97 102 c

abbrev pub is_code : ℕ → Char → Bool
is_code n c = eqb (code c) n

abbrev pub is_variant : Char → Bool
is_variant c = within 56 57 c || within 97 98 c

unfoldable pub repeat : ℕ → (Char → Bool) → List (Char → Bool)
repeat zero p = []
repeat (suc n) p = p ∷ repeat n p

-- `^[0-9a-f]{8}-[0-9a-f]{4}-7[0-9a-f]{3}-[89ab][0-9a-f]{3}-[0-9a-f]{12}$`.
unfoldable pub uuidv7_pattern : List (Char → Bool)
unfolding repeat
uuidv7_pattern =
    repeat 8 is_hex_digit
    ++ is_code 45 ∷ []
    ++ repeat 4 is_hex_digit
    ++ is_code 45 ∷ is_code 55 ∷ []
    ++ repeat 3 is_hex_digit
    ++ is_code 45 ∷ is_variant ∷ []
    ++ repeat 3 is_hex_digit
    ++ is_code 45 ∷ []
    ++ repeat 12 is_hex_digit

unfoldable pub is_uuidv7 : String → Bool
unfolding match_pattern uuidv7_pattern
is_uuidv7 = match_pattern uuidv7_pattern

abbrev pub has_valid_time : Library → Option ℕ → Bool
has_valid_time lib none = false
has_valid_time lib (some t) = lib.valid_time t

-- The tests of `Canonical`.
unfoldable pub is_well_formed : Library → ParticipationCommand → Bool
unfolding is_uuidv7 parse_traceparent
is_well_formed lib c =
    is_uuidv7 c.event_id
    && is_uuidv7 c.tenant_id
    && is_uuidv7 c.interaction_id
    && is_uuidv7 c.participant_id
    && not (eqb c.aggregate_version 0)
    && (eqb c.desired_state state_assigned || eqb c.desired_state state_unassigned)
    && has_valid_time lib c.occurred_at
    && has (parse_traceparent c.traceparent)

-- `Canonical`, `none` for `ErrInvalid`; a command is its known fields already.
unfoldable pub canonical : Library → ParticipationCommand → Option Record
unfolding is_well_formed
canonical lib c =
    let written : Option Record = elim (lib.marshal c) [
      | none ↦ none
      | some body ↦ some (record {
        command = c;
        identity = record { event_id = c.event_id; hash = lib.sum256 body; body = body };
      })
    ] in
    if is_well_formed lib c then written else none

unfoldable pub same_identity : Identity → Identity → Bool
same_identity a b = a.event_id == b.event_id && a.hash == b.hash

unfoldable pub has_member : String → List String → Bool
has_member id [] = false
has_member id (j ∷ ids) = j == id || has_member id ids

-- `participants[id] = struct{}{}`.
unfoldable pub with_member : String → List String → List String
unfolding has_member
with_member id ids = if has_member id ids then ids else id ∷ ids

-- `delete(participants, id)`.
unfoldable pub without_member : String → List String → List String
without_member id [] = []
without_member id (j ∷ ids) = let rest = without_member id ids in if j == id then rest else j ∷ rest

-- One round of the loop of `foldRecords`, behind its tests.
unfoldable pub fold_record : Fold → Record → Fold
unfolding with_member without_member
fold_record next r =
    let c = r.command in
    record {
      tenant_id = c.tenant_id;
      interaction_id = c.interaction_id;
      version = c.aggregate_version;
      identity = r.identity;
      participants =
          if eqb c.desired_state state_assigned
          then with_member c.participant_id next.participants
          else without_member c.participant_id next.participants;
      snapshot_provenance = "";
    }

-- `foldRecords`, `none` for `ErrDivergentHistory`.
unfoldable pub fold_records : Fold → List Record → Option Fold
unfolding fold_record
fold_records next [] = some next
fold_records next (r ∷ rs) =
    let rest = fold_records (fold_record next r) rs in
    let c = r.command in
    if not (eqb c.aggregate_version (next64 next.version))
      || (not (next.tenant_id == "")
          && (not (next.tenant_id == c.tenant_id) || not (next.interaction_id == c.interaction_id)))
    then none
    else rest
