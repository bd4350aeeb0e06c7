-- ===== src/Authcallout.antt =====
-- internal/authcallout: the permissions of a connection (grants.go), with the test for a subject token
-- (token.go). A text is its runes.
pub mod Grants
pub mod Tokens
pub mod Visitor
pub mod Responder
mod Tests
use Prim.Native.Char.{Char, code}
use Prim.Native.String.{[] as empty, ◌∷◌ as cons, ◌++◌ as str_append}
use relaypoint.Common.{
  ℕ, String, List, [], ◌∷◌, ◌++◌, Option, none, some, Bool, true, false, not, ◌&&◌, ◌||◌, ◌==◌, eqb,
  ltb, leb, if◌then◌else◌,
}
use relaypoint.Signaling.Wire.{
  Identity, role_visitor, role_trusted_backend, capability_admin_observer, is_subscriber_capability,
}

-- A rune that a subject token may not have: ".", "*", ">", a control or white space up to " ", and DEL.
abbrev pub is_refused : Char → Bool
is_refused c =
    (eqb (code c) 46 || eqb (code c) 42 || eqb (code c) 62) || leb (code c) 32 || eqb (code c) 127

unfoldable pub all_allowed : String → Bool
all_allowed empty = true
all_allowed (cons c cs) = let rest = all_allowed cs in if is_refused c then false else rest

-- `validSubjectToken(s) == nil`.
unfoldable pub valid_subject_token : String → Bool
unfolding all_allowed
valid_subject_token s = if s == "" then false else all_allowed s

pub record Grant : Type 0 where
  pub pub_allow : List String
  pub pub_deny : List String
  pub sub_allow : List String
  pub sub_deny : List String
  pub allow_responses : Bool

-- `"tenant." + t + rest` and the inbox of the connection.
abbrev pub of_tenant : String → String → String
of_tenant t rest = str_append "tenant." (str_append t rest)

abbrev pub inbox_of : String → String
inbox_of conn = str_append "_INBOX_" (str_append conn ".>")

unfoldable pub visitor_grant : String → String → String → Grant
visitor_grant t cid conn = record {
  pub_allow = [];
  pub_deny = ">" ∷ [];
  sub_allow =
      of_tenant t (str_append ".interaction." (str_append cid ".log"))
      ∷ of_tenant t (str_append ".conversation." (str_append cid ".events"))
      ∷ inbox_of conn
      ∷ [];
  sub_deny = "_INBOX.>" ∷ "tenant.*.agent.*.feed.>" ∷ [];
  allow_responses = false;
}

abbrev pub stream_api : List String
stream_api =
    "$JS.API.STREAM.INFO.INTERACTION_LOGS" ∷ "$JS.API.CONSUMER.CREATE.INTERACTION_LOGS.>"
    ∷ "$JS.API.CONSUMER.DURABLE.CREATE.INTERACTION_LOGS.>"
    ∷ "$JS.API.CONSUMER.INFO.INTERACTION_LOGS.>" ∷ "$JS.API.CONSUMER.MSG.NEXT.INTERACTION_LOGS.>"
    ∷ "$JS.API.CONSUMER.DELETE.INTERACTION_LOGS.>" ∷ []

unfoldable pub backend_grant : String → String → String → Grant
backend_grant t self conn = record {
  pub_allow = of_tenant t (str_append ".interaction.*.cmd." self) ∷ inbox_of conn ∷ stream_api;
  pub_deny = "tenant.*.interaction.*.log" ∷ [];
  sub_allow =
      of_tenant t ".interaction.*.log"
      ∷ of_tenant t ".notify.>"
      ∷ of_tenant t ".routing.>"
      ∷ inbox_of conn
      ∷ [];
  sub_deny = "_INBOX.>" ∷ [];
  allow_responses = true;
}

-- What a capability adds to the subjects of a subscriber.
abbrev pub observed : String → String → List String
observed t capability =
    if capability == capability_admin_observer
    then of_tenant t ".admin.operation.*.changed" ∷ []
    else []

unfoldable pub subscriber_grant : String → String → String → String → Grant
subscriber_grant t self capability conn = record {
  pub_allow =
      of_tenant t (str_append ".interaction.*.cmd." self)
      ∷ of_tenant t (str_append ".presence." (str_append self ".state"))
      ∷ of_tenant t (str_append ".presence." (str_append self ".typing.>"))
      ∷ inbox_of conn
      ∷ [];
  pub_deny = "tenant.*.interaction.*.log" ∷ "tenant.*.agent.*.feed.>" ∷ [];
  sub_allow =
      of_tenant t (str_append ".agent." (str_append self ".feed.>"))
      ∷ of_tenant t (str_append ".routing.offer.user." self)
      ∷ of_tenant t (str_append ".routing.offer.user." (str_append self ".control"))
      ∷ of_tenant t (str_append ".notify." self)
      ∷ of_tenant t ".presence.*.state"
      ∷ of_tenant t ".presence.*.typing.>"
      ∷ inbox_of conn
      ∷ observed t capability;
  sub_deny = "_INBOX.>" ∷ "tenant.*.interaction.*.log" ∷ [];
  allow_responses = true;
}

-- The switch on the role.
unfoldable pub grant_of_role : Identity → String → Option Grant
grant_of_role id conn =
    if id.role == role_visitor
    then (if not (id.capability == "")
        then none
        else if not (valid_subject_token id.conversation_id)
        then none
        else some (visitor_grant id.tenant_id id.conversation_id conn))
    else if id.role == role_trusted_backend
    then (if not (id.capability == "")
        then none
        else some (backend_grant id.tenant_id id.user_id conn))
    else if id.role == ""
    then (if not (is_subscriber_capability id.capability) || not (id.conversation_id == "")
        then none
        else some (subscriber_grant id.tenant_id id.user_id id.capability conn))
    else none

-- `GrantsFor`; `none` for each of its errors.
unfoldable pub grants_for : Identity → String → Option Grant
unfolding grant_of_role
grants_for id conn =
    if not (valid_subject_token id.tenant_id)
    then none
    else if not (valid_subject_token id.user_id)
    then none
    else if conn == ""
    then none
    else grant_of_role id conn
