-- ===== src/Participants/Apply/Tests.antt =====
-- A run of internal/participation/projector.go on a store in memory that keeps what is installed.
use relaypoint.Common.{ℕ, String, ◌≡◌, sym, ◌∙◌, arith, inl, inr, List, [], ◌∷◌, none, some, true}
use relaypoint.Participants.Records.{
  ParticipationCommand, Record, Fold, Library, fold_record, fold_records,
}
use relaypoint.Participants.Apply.{outside, Ports, Principal, apply}
use relaypoint.Participants.Apply.Guarded.{apply-Inv}
use relaypoint.Participants.Apply.Contract.{Contract}

abbrev id : String
id = "01890a5d-ac96-774b-bcce-b302099a8057"

abbrev lib : Library
lib = record { valid_time = λ t. true; marshal = λ c. some []; sum256 = λ b. "hash" }

abbrev empty_fold : Fold
empty_fold = record {
  tenant_id = "";
  interaction_id = "";
  version = 0;
  identity = record { event_id = ""; hash = ""; body = [] };
  participants = [];
  snapshot_provenance = "";
}

-- The world is the tenants of what was installed, the latest first.
abbrev memory : Ports
memory = record {
  World = List String;
  load = λ w k v. (w, inr (empty_fold, none));
  install = λ w v rs f. (f.tenant_id ∷ w, inr true);
  begin_reconcile = λ w intent r. (w, inr (intent, true));
  install_reconcile = λ w intent rs f. (w, inr true);
  install_historical = λ w intent r. (w, inr true);
  install_snapshot = λ w intent s r. (w, inr true);
  fail_reconcile = λ w intent r e. (w, inr true);
  record_poison = λ w r. (w, none);
  replay = λ w intent. (w, inl (outside 1));
  snapshot = λ w intent. (w, inl (outside 1));
  new_id = λ w. id;
}

abbrev caller : Principal
caller = record {
  tenant_id = id;
  grant = record { service_id = "authority"; capability = "Corex-participation-write"; role = "" };
}

abbrev AllOwn : List String → Type 0
AllOwn [] = Unit {0}
AllOwn (t ∷ ts) = (t ≡ id) × AllOwn ts

abbrev header : List ℕ
header =
    48 ∷ 48 ∷ 45 ∷ 97 ∷ 97 ∷ 97 ∷ 97 ∷ 97 ∷ 97 ∷ 97 ∷ 97 ∷ 97 ∷ 97 ∷ 97 ∷ 97 ∷ 97 ∷ 97 ∷ 97 ∷ 97
    ∷ 97 ∷ 97 ∷ 97 ∷ 97 ∷ 97 ∷ 97 ∷ 97 ∷ 97 ∷ 97 ∷ 97 ∷ 97 ∷ 97 ∷ 97 ∷ 97 ∷ 97 ∷ 97 ∷ 45 ∷ 98 ∷ 98
    ∷ 98 ∷ 98 ∷ 98 ∷ 98 ∷ 98 ∷ 98 ∷ 98 ∷ 98 ∷ 98 ∷ 98 ∷ 98 ∷ 98 ∷ 98 ∷ 98 ∷ 45 ∷ 48 ∷ 49 ∷ []

abbrev assign : ParticipationCommand
assign = record {
  event_id = id;
  tenant_id = id;
  interaction_id = id;
  participant_id = id;
  aggregate_version = 1;
  desired_state = 1;
  occurred_at = some 5;
  traceparent = header;
}

tenant_of_folded :
    (f g : Fold) (r : Record) → fold_records f (r ∷ []) ≡ some g → g.tenant_id ≡ r.command.tenant_id
unfolding fold_records fold_record
tenant_of_folded f g r h = ground arith

memory_contract : Contract lib memory caller assign
memory_contract = record {
  Inv = AllOwn;
  Loaded = λ f. Unit {0};
  load_keeps = λ w k v h. h;
  load_gives = λ w k v f i e. tt;
  begin_keeps = λ w intent r h o. h;
  fail_keeps = λ w intent r e h o. h;
  poison_keeps = λ w r h o. h;
  replay_keeps = λ w intent h. h;
  snapshot_keeps = λ w intent h. h;
  install_keeps = λ w f g r h l o e. (tenant_of_folded f g r e ∙ sym o.1, h);
  install_reconcile_keeps = λ w intent p held rs f g h l o q e. h;
  install_historical_keeps = λ w intent p held r rs h o q. h;
  install_snapshot_keeps = λ w intent p s held h o q. h;
}

apply-Inv_example : AllOwn (apply lib memory [] caller assign).world
unfolding memory_contract
apply-Inv_example = apply-Inv lib memory caller assign memory_contract [] tt
