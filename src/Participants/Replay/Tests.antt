-- ===== src/Participants/Replay/Tests.antt =====
-- Runs of the replay checks and of the batch fold (internal/participation/projector.go).
use relaypoint.Common.{ℕ, String, ◌≡◌, refl, inl, inr, List, [], ◌∷◌, some, true, false}
use relaypoint.Trace.{parse_traceparent}
use relaypoint.Participants.Records.{
  ParticipationCommand, Record, Fold, Library, is_uuidv7, match_pattern, uuidv7_pattern, repeat,
  within, is_well_formed, canonical, same_identity, has_member, fold_record, fold_records,
}
use relaypoint.Participants.Membership.{desired_after, has_member-fold_records}
use relaypoint.Participants.Replay.{
  Intent, ReplayResponse, canonical_run, last_record, contradicts_head, holds, settle_records,
  validate_replay,
}
use relaypoint.Participants.Replay.Range.{
  IsRange, validate_replay-IsRange, validate_replay-fold_records,
}

abbrev id : String
id = "01890a5d-ac96-774b-bcce-b302099a8057"

a_full_text_is_one : is_uuidv7 id ≡ true
unfolding is_uuidv7 match_pattern uuidv7_pattern repeat within
a_full_text_is_one = refl

a_short_text_is_no_uuid : is_uuidv7 "01890a5d-ac96-774b-bcce" ≡ false
unfolding is_uuidv7 match_pattern uuidv7_pattern repeat within
a_short_text_is_no_uuid = refl

abbrev header : List ℕ
header =
    48 ∷ 48 ∷ 45 ∷ 97 ∷ 97 ∷ 97 ∷ 97 ∷ 97 ∷ 97 ∷ 97 ∷ 97 ∷ 97 ∷ 97 ∷ 97 ∷ 97 ∷ 97 ∷ 97 ∷ 97 ∷ 97
    ∷ 97 ∷ 97 ∷ 97 ∷ 97 ∷ 97 ∷ 97 ∷ 97 ∷ 97 ∷ 97 ∷ 97 ∷ 97 ∷ 97 ∷ 97 ∷ 97 ∷ 97 ∷ 97 ∷ 45 ∷ 98 ∷ 98
    ∷ 98 ∷ 98 ∷ 98 ∷ 98 ∷ 98 ∷ 98 ∷ 98 ∷ 98 ∷ 98 ∷ 98 ∷ 98 ∷ 98 ∷ 98 ∷ 98 ∷ 45 ∷ 48 ∷ 49 ∷ []

abbrev lib : Library
lib = record { valid_time = λ t. true; marshal = λ c. some []; sum256 = λ b. "hash" }

abbrev command : ℕ → ℕ → ParticipationCommand
command version state = record {
  event_id = id;
  tenant_id = id;
  interaction_id = id;
  participant_id = id;
  aggregate_version = version;
  desired_state = state;
  occurred_at = some 5;
  traceparent = header;
}

abbrev made : ℕ → ℕ → Record
made version state = record {
  command = command version state;
  identity = record { event_id = id; hash = "hash"; body = [] };
}

abbrev response : ReplayResponse
response = record {
  commands = command 1 1 ∷ command 2 2 ∷ [];
  head_version = 2;
  head_event_id = id;
  head_hash = some "hash";
  history_floor = 1;
  provenance = "authority";
}

abbrev intent : Intent
intent = record {
  token = id;
  key = record { tenant_id = id; interaction_id = id };
  observed_version = 0;
  requested_from = 1;
  requested_to = 2;
  held = record { event_id = id; hash = "hash"; body = [] };
}

abbrev empty_fold : Fold
empty_fold = record {
  tenant_id = "";
  interaction_id = "";
  version = 0;
  identity = record { event_id = ""; hash = ""; body = [] };
  participants = [];
  snapshot_provenance = "";
}

passes : validate_replay lib (some response) intent (made 2 2) ≡ inr (made 1 1 ∷ made 2 2 ∷ [])
unfolding validate_replay canonical_run settle_records canonical is_well_formed is_uuidv7
    match_pattern uuidv7_pattern repeat within parse_traceparent last_record contradicts_head holds
    same_identity
passes = refl

validate_replay-IsRange_example : IsRange lib response intent (made 2 2) (made 1 1 ∷ made 2 2 ∷ [])
validate_replay-IsRange_example = validate_replay-IsRange lib response intent (made 2 2) _ passes

a_passed_replay_folds : (g : Fold) × (fold_records empty_fold (made 1 1 ∷ made 2 2 ∷ []) ≡ some g)
a_passed_replay_folds =
    validate_replay-fold_records lib response intent (made 2 2) (made 1 1 ∷ made 2 2 ∷ [])
      empty_fold refl (inl refl) passes

folds : fold_records empty_fold (made 1 1 ∷ []) ≡ some (fold_record empty_fold (made 1 1))
unfolding fold_records
folds = refl

has_member-fold_records_example :
    has_member id (fold_record empty_fold (made 1 1)).participants
    ≡ desired_after id false (made 1 1 ∷ [])
unfolding has_member
has_member-fold_records_example =
    has_member-fold_records id empty_fold (fold_record empty_fold (made 1 1)) (made 1 1 ∷ []) folds
