-- ===== src/Feed/Ports.antt =====
-- internal/projector/ports.go: the calls of the projector's ports, in the order in which they are made,
-- and what the outside answers, whatever it may be.
use Prim.Native.String.{◌++◌ as str_append}
use relaypoint.Common.{
  ℕ, zero, suc, ◌-◌, ◌/◌, ◌%◌, ◌^◌, String, List, Option, none, some, Bool, true, false, ltb,
  less_int64, if◌then◌else◌,
}
use relaypoint.Signaling.Wire.{Event}
use relaypoint.Feed.{Fact, FeedControl, Snapshot}

-- A call with its arguments, and whether it succeeded.
pub data Call : Type 0 where
  published : (tenant agent iid dedup : String) → List ℕ → Bool → Call
  dead_lettered : (tenant reason id : String) → ℕ → Bool → Call
  acked : Fact → Bool → Call
  nakked : Fact → Bool → Call
  saved : ℕ → Snapshot → Bool → Call

-- The calls made so far, the latest first.
abbrev pub Trace : Type 0
Trace = List Call

-- The outside: an answer may depend on every call before it; an error is its text. `cancelled` is
-- `ctx.Err() != nil` at that moment. `turn` chooses, among the goroutines of a fan-out, the one
-- whose attempt is next. `marshal` and `marshal_control` are the protobuf library's.
pub record Env : Type 0 where
  pub publish : Trace → (tenant agent iid dedup : String) → List ℕ → Option String
  pub dlq : Trace → (tenant reason id : String) → ℕ → Option String
  pub ack : Trace → Fact → Option String
  pub nak : Trace → Fact → Option String
  pub delivered : Trace → Fact → ℕ
  pub save : Trace → ℕ → Snapshot → Option String
  pub cancelled : Trace → Bool
  pub turn : Trace → ℕ
  pub marshal : Event → Option (List ℕ)
  pub marshal_control : FeedControl → Option (List ℕ)

-- `err == nil`.
abbrev pub is_nil : Option String → Bool
is_nil none = true
is_nil (some e) = false

-- `%d`, on an `int64`: the digits from the last one back, at most twenty.
unfoldable pub digit : ℕ → String
digit zero = "0"
digit (suc zero) = "1"
digit (suc (suc zero)) = "2"
digit (suc (suc (suc zero))) = "3"
digit (suc (suc (suc (suc zero)))) = "4"
digit (suc (suc (suc (suc (suc zero))))) = "5"
digit (suc (suc (suc (suc (suc (suc zero)))))) = "6"
digit (suc (suc (suc (suc (suc (suc (suc zero))))))) = "7"
digit (suc (suc (suc (suc (suc (suc (suc (suc zero)))))))) = "8"
digit (suc (suc (suc (suc (suc (suc (suc (suc (suc k))))))))) = "9"

unfoldable pub digits : ℕ → ℕ → String → String
unfolding digit
digits zero n text = text
digits (suc fuel) n text =
    let more = digits fuel (n / 10) (str_append (digit (n % 10)) text) in
    if ltb n 10 then str_append (digit n) text else more

unfoldable pub decimal : ℕ → String
unfolding digits
decimal n = if less_int64 n 0 then str_append "-" (digits 20 (2 ^ 64 - n) "") else digits 20 n ""
