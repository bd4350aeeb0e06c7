-- ===== src/Delivery/Server.antt =====
-- internal/deliverygrpc/server.go: the answer of the RPC.
pub mod Answered
use relaypoint.Common.{String, ◌⊎◌, inl, inr, Option, none, some, ℕ}
use relaypoint.Delivery.{
  Authorization, Receipt, Principal, Failure, unauthenticated, permission_denied,
  invalid_authorization, idempotency_conflict, Answer, accepted, failed, Outcome,
}

-- The codes of gRPC that the server gives.
pub data Code : Type 0 where
  unauthenticated_code permission_denied_code invalid_argument already_exists internal : Code

unfoldable pub code_of : Failure → Code
code_of unauthenticated = unauthenticated_code
code_of permission_denied = permission_denied_code
code_of invalid_authorization = invalid_argument
code_of idempotency_conflict = already_exists
code_of _ = internal

abbrev pub of_answer : Answer → Receipt ⊎ Code
of_answer (accepted r) = inl r
of_answer (failed e) = inr (code_of e)

-- The method of the server: `principal` is what the resolver gives, `accept` the service's method.
unfoldable pub accept_delivery :
    Option Principal
    → (Principal → Option Authorization → Outcome)
    → Option Authorization
    → Receipt ⊎ Code
unfolding code_of
accept_delivery none accept a = inr unauthenticated_code
accept_delivery (some p) accept a = of_answer (accept p a).answer
