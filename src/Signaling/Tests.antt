-- ===== src/Signaling/Tests.antt =====
-- Runs of internal/signaling on a broker in memory.
use relaypoint.Common.{◌≡◌, refl, [], ◌∷◌, true, false, eq_iff, arith, lookup, insert, erase}
use relaypoint.Signaling.Wire.{Command, accept}
use relaypoint.Signaling.State.{
  InteractionState, StoredResult, rebuilt, fold_fact, add_parent, put_result, legal_transition,
  transition, is_participation_fact,
}
use relaypoint.Signaling.State.Cache.{IsCache, PutSpec, put_result-queued}
use relaypoint.Signaling.State.Rebuild.{position, rebuilt-position}
use relaypoint.Signaling.Participation.{
  fold_participation, is_participant_now, covers_any, intervals_of, apply_fact, last_open,
  open_interval, close_interval, close_last,
}
use relaypoint.Signaling.Participation.Order.{IsOrderly, fold_participation-IsOrderly}
use relaypoint.Signaling.Participation.Presence.{present, is_participant_now-fold_participation}
use relaypoint.Signaling.Participation.Coverage.{covers_any-apply_fact}
use relaypoint.Signaling.Log.{dedup_id, rebuild}
use relaypoint.Signaling.Sync.{IsSafe, rebuild-IsSafe}
use relaypoint.Signaling.Submit.{Limits, submit}
use relaypoint.Signaling.Submit.Endings.{IsSettled}
use relaypoint.Signaling.Submit.Current.{IsCurrent, rebuild-IsCurrent}
use relaypoint.Signaling.Submit.Written.{IsStored}
use relaypoint.Signaling.Submit.Durable.{submit-IsStored}
use relaypoint.Signaling.Broker.{
  fact, history, history-IsLegal, memory, memory_promises, stored, find_dup,
}

fold_participation-IsOrderly_example : IsOrderly 4 (fold_participation history)
fold_participation-IsOrderly_example = fold_participation-IsOrderly 4 history (omega arith)

is_participant_now-fold_participation_example :
    is_participant_now (fold_participation history) "b" ≡ present "b" history
is_participant_now-fold_participation_example =
    is_participant_now-fold_participation 4 history "b" (omega arith)

covers_any-apply_fact_example :
    covers_any 5 (
      intervals_of
        (apply_fact (fold_participation history) (fact 5 "participant.left" "b" "c5"))
        "b")
    ≡ true
covers_any-apply_fact_example =
    covers_any-apply_fact 4 history (fact 5 "participant.left" "b" "c5") "b" (omega arith)
      (omega arith) (omega arith)

abbrev started : InteractionState
started = rebuilt 2 history 4

abbrev sample : StoredResult
sample = record { payload_hash = "h"; result = accept "c9" }

abbrev full_cache : InteractionState
full_cache = record {
  seq = 2;
  stream_seq = 2;
  status = "started";
  results = ("c1", sample) ∷ ("c2", sample) ∷ [];
  result_order = "c1" ∷ "c2" ∷ [];
  part = fold_participation [];
  parents = [];
  poisoned = false;
  last_used = 0;
}

full_cache-IsCache : IsCache full_cache
full_cache-IsCache = record { order = refl; distinct = ground (arith, eq_iff "c1" "c2") }

put_result-queued_example : PutSpec full_cache "c9" sample 2 (put_result full_cache "c9" sample 2)
put_result-queued_example =
    put_result-queued full_cache "c9" sample 2 full_cache-IsCache (omega arith) (omega arith)

the_rebuild_finds_its_place :
    position started ≡ record { seq = 4; stream_seq = 4; status = "started"; poisoned = false }
unfolding transition
the_rebuild_finds_its_place = (rebuilt-position 2 history 4 history-IsLegal (omega arith)).0

abbrev note : Command
note = record {
  command_id = "c9";
  tenant_id = "t";
  actor_id = "b";
  type_name = "message.sent";
  medium = "chat";
  ref_id = "";
  body = [];
}

abbrev limits : Limits
limits = record { max_results = 2; max_refold = 32 }

started-IsSafe : IsSafe memory "t" "i" memory_promises history started
unfolding memory_promises rebuild
started-IsSafe =
    (rebuild-IsSafe memory "t" "i" memory_promises 2 history started history-IsLegal refl).0

started-IsCurrent : IsCurrent memory "t" "i" memory_promises history started
unfolding memory_promises rebuild
started-IsCurrent =
    rebuild-IsCurrent memory "t" "i" memory_promises 2 history started history-IsLegal refl

note_is_plain : is_participation_fact note.type_name ≡ false
unfolding is_participation_fact
note_is_plain = refl

submit-IsStored_example :
    IsSettled memory limits "t" "i" "b" "h" true note memory_promises
      (submit memory limits "t" "i" "b" "h" true note started history)
    × IsStored memory limits "t" "i" "b" "h" true note memory_promises history
        (submit memory limits "t" "i" "b" "h" true note started history)
submit-IsStored_example =
    submit-IsStored memory limits "t" "i" "b" "h" true note memory_promises note_is_plain started
      history started-IsSafe started-IsCurrent

submit_accepts :
    (submit memory limits "t" "i" "b" "h" true note started history).result ≡ accept "c9"
unfolding submit rebuilt fold_participation stored fold_fact add_parent put_result lookup insert
    erase is_participant_now last_open intervals_of apply_fact open_interval close_interval
    close_last legal_transition find_dup dedup_id
submit_accepts = refl
