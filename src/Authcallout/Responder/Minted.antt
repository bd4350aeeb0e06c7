-- ===== src/Authcallout/Responder/Minted.antt =====
-- The credentials that internal/authcallout/responder.go mints.
use Prim.Native.String.{◌++◌ as str_append}
use relaypoint.Common.{
  ℕ, ◌+◌, ◌*◌, ◌<◌, ◌≤◌, String, ◌≡◌, ◌≢◌, List, [], ◌∷◌, Option, none, some, Bool, true, false,
}
use relaypoint.Signaling.Wire.{Identity, role_visitor}
use relaypoint.Authcallout.{Grant, grants_for}
use relaypoint.Authcallout.Grants.{IsConfined}
use relaypoint.Authcallout.Tokens.{Verified, verified, denied, Codec, verify_hmac, verify_chain}
use relaypoint.Authcallout.Visitor.{Header, Token, Readings, Cache, verify_visitor}
use relaypoint.Authcallout.Visitor.Bound.{IsTrusted, verify_visitor-IsTrusted}
use relaypoint.Authcallout.Tokens.Entitled.{
  IsHmac, verify_hmac-IsHmac, verify_chain-OfVerified, IsGrantable, OfVerified,
}
use relaypoint.Authcallout.Responder.{
  Request, UserClaims, Response, unix_of, undecoded, unencoded_user, unencoded_response,
  not_granted, not_verified, Reply, token, refused, Responder,
}

-- A time from 1970 on, and before the year 10 000.
abbrev pub IsModern : ℕ → Type 0
IsModern t = (62_135_596_800 * 1_000_000_000 ≤ t) × (t < 316_000_000_000 * 1_000_000_000)

-- How long a credential of the claims lives: for anyone but a visitor there is no end, and a visitor's
-- ends no later than the responder's cap and than its token.
pub record IsShort (now cap : ℕ) (id : Identity) (expires : ℕ) : Type 0 where
  pub endless : id.role ≢ role_visitor → expires ≡ 0
  pub capped :
      id.role ≡ role_visitor
      → IsModern (now + cap)
      → (id.expires_at ≢ 0 → IsModern id.expires_at)
      → (expires ≤ unix_of (now + cap)) × (id.expires_at ≢ 0 → expires ≤ unix_of id.expires_at)

-- What the claims of a credential hold: the key of the request, the responder's account, the name of the
-- identity, the permissions of the grant, and no longer life than is due.
pub record IsClaimed (r : Responder) (req : Request) (id : Identity) (grant : Grant)
    (claims : UserClaims) : Type 0 where
  pub nkey : claims.nkey ≡ req.user_nkey
  pub audience : claims.audience ≡ r.account
  pub name : claims.name ≡ str_append id.tenant_id (str_append "/" id.user_id)
  pub pub_allow : claims.pub_allow ≡ grant.pub_allow
  pub pub_deny : claims.pub_deny ≡ grant.pub_deny
  pub sub_allow : claims.sub_allow ≡ grant.sub_allow
  pub sub_deny : claims.sub_deny ≡ grant.sub_deny
  pub one_response : grant.allow_responses ≡ true → claims.resp ≡ some 1
  pub no_response : grant.allow_responses ≡ false → claims.resp ≡ none
  pub short : IsShort r.now r.visitor_ttl_cap id claims.expires

-- The claims for a request: those of its own verified identity and of a confined grant.
pub record IsDue (r : Responder) (raw : List ℕ) (request : Request) (claims : UserClaims)
    : Type 0 where
  pub is_request : r.signer.decode raw ≡ some request
  pub identity : Identity
  pub is_identity : r.verify request.token ≡ verified identity
  pub grant : Grant
  pub is_grant : grants_for identity r.conn_id ≡ some grant
  pub confined : IsConfined identity r.conn_id grant
  pub is_claims : IsClaimed r request identity grant claims

-- The response to a request: for its key and server, and without an error.
abbrev pub response_for : Request → String → Response
response_for request user_jwt = record {
  nkey = request.user_nkey;
  audience = request.server_id;
  jwt = user_jwt;
  error = "";
}

-- The credential of an answer: the claims that are due for the request, which the issuer signed, and the
-- response that holds them.
pub record IsMinted (r : Responder) (raw : List ℕ) (t : String) : Type 0 where
  pub request : Request
  pub claims : UserClaims
  pub due : IsDue r raw request claims
  pub user_jwt : String
  pub is_user : r.signer.encode_user claims ≡ some user_jwt
  pub is_token : r.signer.encode_response (response_for request user_jwt) ≡ some t

-- A request is refused only where it cannot be decoded, its token is not accepted, or the library
-- cannot encode the answer: an accepted identity always has its grant.
abbrev pub IsAnswered : Responder → List ℕ → Reply → Type 0
IsAnswered r raw (token t) = IsMinted r raw t
IsAnswered r raw (refused undecoded) = r.signer.decode raw ≡ none
IsAnswered r raw (refused unencoded_user) =
    (request : Request) × (claims : UserClaims) × IsDue r raw request claims
    × (r.signer.encode_user claims ≡ none)
IsAnswered r raw (refused unencoded_response) =
    (request : Request) × (user_jwt : String) × (r.signer.decode raw ≡ some request)
    × (r.signer.encode_response (response_for request user_jwt) ≡ none)
IsAnswered r raw (refused not_granted) = ⊥
IsAnswered r raw (refused (not_verified err)) =
    (req : Request) × (r.signer.decode raw ≡ some req) × (r.verify req.token ≡ denied err)

OfVerified-mono :
    (P Q : Identity → Type 0) (v : Verified)
    → ((id : Identity) → P id → Q id)
    → OfVerified P v
    → OfVerified Q v
OfVerified-mono P Q (denied err) f h = tt
OfVerified-mono P Q (verified id) f h = f id h

-- The chain of the HMAC and the visitor verifier accepts only identities that can be granted.
module _ (codec : Codec) (backend : Bool) (now : ℕ) (KeySet : Type 0)
    (has_kid : KeySet → String → Bool) (ttl refetch_min : ℕ)
    (headers : String → Option (List Header)) (parse : KeySet → String → Option Token)
    (at : Readings) (fetched : Option KeySet) (c : Cache KeySet has_kid ttl refetch_min) where
  abbrev pub both : String → Verified
  both = verify_chain (
      verify_hmac codec backend now
      ∷ (λ t. (verify_visitor KeySet has_kid ttl refetch_min headers parse at fetched c t).1)
      ∷ [])

  pub both-IsGrantable : (t : String) → OfVerified IsGrantable (both t)
  both-IsGrantable t = verify_chain-OfVerified IsGrantable _ t (
    OfVerified-mono (IsHmac backend) IsGrantable (verify_hmac codec backend now t)
        (λ id h. h.grantable) (verify_hmac-IsHmac codec backend now t),
    (
      OfVerified-mono (IsTrusted KeySet has_kid ttl refetch_min headers parse at fetched c t)
          IsGrantable (verify_visitor KeySet has_kid ttl refetch_min headers parse at fetched c t).1
          (λ id h. h.visitor.grantable)
          (verify_visitor-IsTrusted KeySet has_kid ttl refetch_min headers parse at fetched c t),
      tt,
    ),
  )
