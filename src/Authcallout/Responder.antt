-- ===== src/Authcallout/Responder.antt =====
-- internal/authcallout/responder.go: the answer to an authorization request.
pub mod Minted
use Prim.Native.String.{◌++◌ as str_append}
use relaypoint.Common.{
  ℕ, ◌+◌, ◌-◌, ◌/◌, ◌%◌, ◌^◌, String, List, Option, none, some, Bool, true, false, not, ◌&&◌, ◌==◌,
  eqb, ltb, if◌then◌else◌,
}
use relaypoint.Signaling.Wire.{Identity, role_visitor}
use relaypoint.Authcallout.{Grant, grants_for}
use relaypoint.Authcallout.Tokens.{Denied, Verified, verified, denied}

-- `jwt.AuthorizationRequestClaims`, as far as it is read.
pub record Request : Type 0 where
  pub user_nkey : String
  pub server_id : String
  pub token : String

-- `jwt.UserClaims`, as far as it is set: the response permission is one message, and an expiry of 0 is none.
pub record UserClaims : Type 0 where
  pub nkey : String
  pub name : String
  pub audience : String
  pub pub_allow : List String
  pub pub_deny : List String
  pub sub_allow : List String
  pub sub_deny : List String
  pub resp : Option ℕ
  pub expires : ℕ

-- `jwt.AuthorizationResponseClaims`.
pub record Response : Type 0 where
  pub nkey : String
  pub audience : String
  pub jwt : String
  pub error : String

-- `decode`, `encode_user` and `encode_response` are the JWT library's with the issuer's key.
pub record Signer : Type 0 where
  pub decode : List ℕ → Option Request
  pub encode_user : UserClaims → Option String
  pub encode_response : Response → Option String

-- `Unix()` of a time in nanoseconds since the year 1.
abbrev pub unix_of : ℕ → ℕ
unix_of t = (t / 1_000_000_000 + 2 ^ 64 - 62_135_596_800) % 2 ^ 64

-- `cappedExpiry`; `now` and the cap are in nanoseconds.
unfoldable pub capped_expiry : ℕ → ℕ → Identity → ℕ
capped_expiry now cap id =
    let exp = now + cap in
    if not (id.role == role_visitor)
    then 0
    else if not (eqb id.expires_at 0) && ltb id.expires_at exp
    then unix_of id.expires_at
    else unix_of exp

pub data DenyReason : Type 0 where
  undecoded unencoded_user unencoded_response not_granted : DenyReason
  not_verified : Denied → DenyReason

pub data Reply : Type 0 where
  token : String → Reply
  refused : DenyReason → Reply

-- A `Responder`, with what its clock and its id generator give for this request. The text of an error is a
-- parameter.
pub record Responder : Type 0 where
  pub verify : String → Verified
  pub signer : Signer
  pub account : String
  pub visitor_ttl_cap : ℕ
  pub now : ℕ
  pub conn_id : String
  pub text_of : DenyReason → String

module _ (r : Responder) where
  -- `respond`.
  unfoldable pub respond : Request → String → String → Option String
  respond req user_jwt err =
      r.signer.encode_response
        (record { nkey = req.user_nkey; audience = req.server_id; jwt = user_jwt; error = err })

  unfoldable pub user_claims : Request → Identity → Grant → UserClaims
  unfolding capped_expiry
  user_claims req id grant = record {
    nkey = req.user_nkey;
    name = str_append id.tenant_id (str_append "/" id.user_id);
    audience = r.account;
    pub_allow = grant.pub_allow;
    pub_deny = grant.pub_deny;
    sub_allow = grant.sub_allow;
    sub_deny = grant.sub_deny;
    resp = if grant.allow_responses then some 1 else none;
    expires = capped_expiry r.now r.visitor_ttl_cap id;
  }

  abbrev pub answered : Option String → Reply
  answered none = refused unencoded_response
  answered (some t) = token t

  abbrev pub of_user : Request → Option String → Reply
  of_user req none = refused unencoded_user
  of_user req (some user_jwt) = answered (respond req user_jwt "")

  abbrev pub of_grant : Request → Identity → Option Grant → Reply
  of_grant req id none = refused not_granted
  of_grant req id (some grant) = of_user req (r.signer.encode_user (user_claims req id grant))

  abbrev pub of_verified : Request → Verified → Reply
  of_verified req (denied err) = refused (not_verified err)
  of_verified req (verified id) = of_grant req id (grants_for id r.conn_id)

  abbrev pub of_request : Option Request → Reply
  of_request none = refused undecoded
  of_request (some req) = of_verified req (r.verify req.token)

  unfoldable pub handle : List ℕ → Reply
  unfolding respond user_claims
  handle raw = of_request (r.signer.decode raw)

  -- `deny`, with the empty text where it fails.
  unfoldable pub deny : List ℕ → DenyReason → String
  unfolding respond
  deny raw why = elim (r.signer.decode raw) [
    | none ↦ ""
    | some req ↦ elim (respond req "" (r.text_of why)) [ none ↦ "" | some t ↦ t ]
  ]

  abbrev pub reply_of : List ℕ → Reply → String
  reply_of raw (token t) = t
  reply_of raw (refused why) = deny raw why

  -- The callback of `Subscribe`: what is sent, if anything.
  unfoldable pub on_request : List ℕ → Option String
  unfolding handle deny
  on_request raw = let t = reply_of raw (handle raw) in if t == "" then none else some t
