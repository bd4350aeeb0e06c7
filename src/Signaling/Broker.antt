-- ===== src/Signaling/Broker.antt =====
-- A broker in memory that keeps its promises, and a log on it, for the tests of internal/signaling.
use Prim.Native.String.{String}
use relaypoint.Common.{
  ℕ, suc, ◌<◌, ◌≡◌, refl, ◌∙◌, ap, inl, inr, List, [], ◌∷◌, ◌++◌, Option, none, some, Bool, true,
  false, ◌==◌, eq_iff, eqb, eqb_iff, ltb, arith, if◌then◌else◌, length, length-append, Within,
  Bool-cases, max_int64,
}
use relaypoint.Signaling.Wire.{Event}
use relaypoint.Signaling.State.{legal_transition, transition}
use relaypoint.Signaling.State.Fold.{IsLegal}
use relaypoint.Signaling.Log.{
  LogStore, Promises, AppendResult, committed, duplicate, conflict, failed, log_subject_for,
  dedup_id,
}

abbrev pub fact : ℕ → String → String → String → Event
fact n type_name actor id = record {
  schema = "relaypoint.interaction.v1";
  event_type = type_name;
  event_id = "e";
  sequence = n;
  occurred_at = 0;
  tenant_id = "t";
  actor_id = actor;
  medium = "chat";
  command_id = id;
  payload_hash = "h";
  caused_by = id;
  ref_id = "";
  body = [];
  commanded_by = "";
  reason = "";
  request_id = "";
}

-- A subject's log in memory, numbered by its length, full at a thousand facts. Nobody else writes.
unfoldable pub find_dup : String → List Event → Option Event
find_dup id [] = none
find_dup id (e ∷ es) =
    let rest = find_dup id es in if dedup_id "t" "i" e == id then some e else rest

unfoldable pub stored : List Event → Event → Option Event → Bool → Bool → List Event × AppendResult
stored w e (some d) full fits = (w, duplicate (length w))
stored w e none full false = (w, conflict)
stored w e none true true = (w, failed)
stored w e none false true = (w ++ e ∷ [], committed (suc (length w)))

abbrev pub replay_memory : List Event → Option (List Event × ℕ)
replay_memory w = if ltb (length w) 2000 then some (w, length w) else none

abbrev pub memory : LogStore
memory = record {
  World = List Event;
  append = λ w subject e id expected.
      stored w e (find_dup id w) (ltb 1000 (length w)) (eqb (length w) expected);
  replay = λ w subject. (w, replay_memory w);
  new_id = λ w. "new";
  now = λ w. length w;
}

pub find_dup_sound :
    (id : String) (es : List Event) (d : Event)
    → find_dup id es ≡ some d
    → Within d es × (dedup_id "t" "i" d ≡ id)
unfolding find_dup
find_dup_sound id [] d h = cc
find_dup_sound id (e ∷ es) d h = elim (Bool-cases (dedup_id "t" "i" e == id)) [
  | inl q ↦ ground (arith, eq_iff (dedup_id "t" "i" e) id)
  | inr q ↦ let (k, x) = find_dup_sound id es d (rw q at h) in (inr k, x)
]

module _ (w : List Event) (e : Event) (o : Option Event) (full fits : Bool) where
  pub stored-committed :
      (n : ℕ)
      → (stored w e o full fits).1 ≡ committed n
      → ((stored w e o full fits).0 ≡ w ++ e ∷ [])
        × (n ≡ suc (length w))
        × (full ≡ false)
        × (fits ≡ true)
  unfolding stored
  stored-committed n h = ground arith

  pub stored-duplicate :
      (n : ℕ)
      → (stored w e o full fits).1 ≡ duplicate n
      → ((stored w e o full fits).0 ≡ w) × ((d : Event) × (o ≡ some d))
  unfolding stored
  stored-duplicate n h = ground arith

  pub stored-conflict : (stored w e o full fits).1 ≡ conflict → (stored w e o full fits).0 ≡ w
  unfolding stored
  stored-conflict h = ground arith

  pub stored-failed : (stored w e o full fits).1 ≡ failed → (stored w e o full fits).0 ≡ w
  unfolding stored
  stored-failed h = ground arith

pub replayed :
    (w es : List Event) (n : ℕ)
    → replay_memory w ≡ some (es, n)
    → (es ≡ w) × (n ≡ length w) × (length es < max_int64)
replayed w es n h = elim (Bool-cases (ltb (length w) 2000)) [
  | inl q ↦ ground arith
  | inr q ↦ ground arith
]

unfoldable pub memory_promises : Promises memory (log_subject_for "t" "i") (dedup_id "t" "i")
memory_promises = record {
  facts = λ w. w;
  last = λ w. length w;
  Others = λ w w'. w' ≡ w;
  others_legal = λ w w' o l. rw o l;
  others_keep = λ w w' o e k. rw o k;
  others_last = λ w w' o. inl (ap length o, o);
  replay_others = λ w. refl;
  replay_all = replayed;
  append_committed = λ w e expected n h.
      let (a, b, c, d) = stored-committed w e (find_dup (dedup_id "t" "i" e) w) _ _ n h in
      let l = ap length a ∙ length-append w (e ∷ []) in
      (w, refl, (eqb_iff (length w) expected).0 d, a, omega arith, omega arith, ground arith);
  append_duplicate = λ w e expected n h.
      let (a, r) = stored-duplicate w e (find_dup (dedup_id "t" "i" e) w) _ _ n h in
      let (d, q) = r in let (k, x) = find_dup_sound (dedup_id "t" "i" e) w d q in (a, d, rw a k, x);
  append_conflict = λ w e expected h. stored-conflict w e (find_dup (dedup_id "t" "i" e) w) _ _ h;
  append_failed = λ w e expected h. inl (stored-failed w e (find_dup (dedup_id "t" "i" e) w) _ _ h);
}

abbrev pub history : List Event
history =
    fact 1 "interaction.started" "a" "c1"
    ∷ fact 2 "participant.joined" "a" "c2"
    ∷ fact 3 "participant.left" "a" "c3"
    ∷ fact 4 "participant.joined" "b" "c4"
    ∷ []

pub history-IsLegal : IsLegal history
unfolding legal_transition transition
history-IsLegal = (refl, refl, (refl, refl, (refl, refl, (refl, refl, tt))))
