-- ===== src/Signaling/Handle/Tests.antt =====
-- Runs of a participation command on a broker in memory (internal/signaling/router.go).
use relaypoint.Common.{
  lookup, insert, ℕ, String, ◌≡◌, refl, List, [], ◌∷◌, Option, some, true, false,
}
use relaypoint.Signaling.Wire.{CommandResult, Event, Command, accept, role_trusted_backend}
use relaypoint.Signaling.State.{
  is_participation_fact, rebuilt, fold_fact, add_parent, put_result, legal_transition, transition,
}
use relaypoint.Signaling.Participation.{
  fold_participation, is_participant_now, last_open, intervals_of, apply_fact, open_interval,
  close_interval, close_last,
}
use relaypoint.Signaling.Hash.{hash_payload}
use relaypoint.Signaling.Submit.{
  submit, attempts, attempt, try_append, append_step, on_append, on_committed, new_event,
}
use relaypoint.Signaling.Log.{rebuild, dedup_id}
use relaypoint.Signaling.Table.{Config, Router, get_state, put_back, evict, key_of, prune}
use relaypoint.Signaling.Privileged.{ParticipationData, steps_of, append_fact}
use relaypoint.Signaling.Broker.{
  memory, memory_promises, history, history-IsLegal, stored, find_dup,
}
use relaypoint.Signaling.Handle.{
  handle_direct, handle_participation, participation_data, apply_participation, append_steps,
  record_parent, is_divergent, fact_command, append_participation_fact,
}
use relaypoint.Signaling.Handle.Direct.{IsInStep, IsHandled}
use relaypoint.Signaling.Handle.Stored.{CurrentIn, IsRecorded, handle_direct-IsRecorded}
use relaypoint.Signaling.Handle.Applied.{IsEntered, handle_participation-IsEntered}

-- Stand-ins for the byte conversion, the hash and the JSON library.
abbrev bytes : String → List ℕ
bytes t = []

abbrev digest : List ℕ → String
digest b = "digest"

abbrev decode : List ℕ → Option ParticipationData
decode b = some (record { agent = "c"; from_agent = "b"; reason = "busy"; request_id = "q" })

abbrev config : Config
config = record {
  max_inter = 2;
  idle_ttl = 10;
  limits = record { max_results = 8; max_refold = 32 };
  dev_mode = false;
}

abbrev transfer : Command
transfer = record {
  command_id = "c9";
  tenant_id = "t";
  actor_id = "";
  type_name = "participant.transfer";
  medium = "chat";
  ref_id = "";
  body = 1 ∷ [];
}

abbrev idle : Router (List Event)
idle = record { inter = []; world = history }

handle_participation-IsEntered_example :
    IsEntered memory "t" "i" memory_promises bytes digest decode config "backend"
      role_trusted_backend transfer idle
      (handle_participation memory bytes digest decode config "t" "i" "backend" role_trusted_backend
        transfer idle)
handle_participation-IsEntered_example =
    handle_participation-IsEntered memory "t" "i" memory_promises bytes digest decode config
      "backend" role_trusted_backend transfer idle tt

transfer_is_accepted :
    (handle_participation memory bytes digest decode config "t" "i" "backend" role_trusted_backend
      transfer idle).1
    ≡ accept "c9"
unfolding handle_participation participation_data steps_of apply_participation get_state put_back
    append_steps record_parent is_divergent append_fact rebuild rebuilt fold_participation stored
    find_dup dedup_id key_of prune fact_command append_participation_fact lookup insert fold_fact
    add_parent put_result legal_transition
transfer_is_accepted = refl

abbrev note : Command
note = record {
  command_id = "c9";
  tenant_id = "t";
  actor_id = "b";
  type_name = "message.sent";
  medium = "chat";
  ref_id = "";
  body = [];
}

idle-IsInStep : IsInStep memory "t" "i" memory_promises idle
unfolding lookup memory_promises
idle-IsInStep = record { legal = history-IsLegal; keys = tt; safe = tt }

abbrev noted : Router (List Event) × CommandResult
noted =
    handle_direct memory bytes digest decode config
      (record { tenant = "t"; iid = "i"; identity = "b" }) true note idle

note_is_plain : is_participation_fact note.type_name ≡ false
unfolding is_participation_fact
note_is_plain = refl

nothing-CurrentIn : CurrentIn memory "t" "i" memory_promises history (lookup (key_of "t" "i") [])
unfolding lookup
nothing-CurrentIn = tt

handle_direct-IsRecorded_example :
    IsHandled memory "t" "i" memory_promises bytes digest decode config "b" true note noted
    × IsRecorded memory "t" "i" memory_promises bytes digest decode config "b" true note history
        noted
handle_direct-IsRecorded_example =
    handle_direct-IsRecorded memory "t" "i" memory_promises bytes digest decode config "b" true note
      idle note_is_plain idle-IsInStep nothing-CurrentIn

note_is_accepted :
    (handle_direct memory bytes digest decode config
      (record { tenant = "t"; iid = "i"; identity = "b" })
      true
      note
      idle).1
    ≡ accept "c9"
unfolding handle_direct submit attempts attempt try_append append_step on_append on_committed
    new_event get_state put_back evict rebuild rebuilt fold_participation is_participant_now stored
    find_dup lookup insert key_of prune dedup_id fold_fact add_parent put_result legal_transition
    transition hash_payload last_open intervals_of apply_fact open_interval close_interval
    close_last
note_is_accepted = refl
