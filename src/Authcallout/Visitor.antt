-- ===== src/Authcallout/Visitor.antt =====
-- internal/authcallout/visitor_token.go: the visitor token and the cached key set.
pub mod Throttle
pub mod Bound
use relaypoint.Common.{
  ℕ, ◌+◌, String, List, [], ◌∷◌, Option, none, some, Bool, true, false, not, ◌&&◌, ◌||◌, ◌==◌, ltb,
  if◌then◌else◌,
}
use relaypoint.Signaling.Wire.{Identity, role_visitor, is_subscriber_capability}
use relaypoint.Authcallout.{valid_subject_token}
use relaypoint.Authcallout.Tokens.{
  Denied, Verified, verified, denied, missing, unsafe_tenant, unsafe_user, capability_denied,
  unsafe_conversation, empty_token, bad_header, no_keys, bad_claims,
}

-- What `t.Get(key)` gives.
pub data Claim : Type 0 where
  absent : Claim
  text : String → Claim
  other : Claim

unfoldable pub claim_string : Claim → String × Bool
claim_string absent = ("", false)
claim_string (text s) = (s, true)
claim_string other = ("", false)

unfoldable pub is_set : Claim → Bool
is_set absent = false
is_set (text s) = true
is_set other = true

-- A token that the JWT library accepted for the key set, the issuer, the audience and the clock.
pub record Token : Type 0 where
  pub subject : String
  pub tid : Claim
  pub role : Claim
  pub cap : Claim
  pub cid : Claim
  pub expiration : ℕ

-- The signature headers of a JWS.
pub record Header : Type 0 where
  pub kid : String
  pub algorithm : String

-- `headerKID`, on the signatures that the library reads.
unfoldable pub header_kid : Option (List Header) → Option String
header_kid none = none
header_kid (some []) = none
header_kid (some (h ∷ rest)) =
    if h.kid == "" then none else if not (h.algorithm == "EdDSA") then none else some h.kid

-- The claims of a visitor, where no capability is set.
unfoldable pub visitor_of : Token → String → Verified
unfolding claim_string
visitor_of t tid =
    let role = (claim_string t.role).0 in
    let (cid, cid_set) = claim_string t.cid in
    if not (role == "") || not cid_set || cid == ""
    then denied missing
    else if not (valid_subject_token cid)
    then denied unsafe_conversation
    else verified (record {
      tenant_id = tid;
      user_id = t.subject;
      role = role_visitor;
      capability = "";
      conversation_id = cid;
      expires_at = t.expiration;
    })

unfoldable pub subscriber_of : Token → String → Verified
unfolding claim_string is_set
subscriber_of t tid =
    let capability = (claim_string t.cap).0 in
    if is_set t.role || (claim_string t.cid).1 || not (is_subscriber_capability capability)
    then denied capability_denied
    else verified (record {
      tenant_id = tid;
      user_id = t.subject;
      role = "";
      capability = capability;
      conversation_id = "";
      expires_at = 0;
    })

unfoldable pub identity_of : Token → Verified
unfolding claim_string visitor_of subscriber_of
identity_of t =
    let tid = (claim_string t.tid).0 in
    if tid == "" || t.subject == ""
    then denied missing
    else if not (valid_subject_token tid)
    then denied unsafe_tenant
    else if not (valid_subject_token t.subject)
    then denied unsafe_user
    else if (claim_string t.cap).1
    then subscriber_of t tid
    else visitor_of t tid

-- The readings of the clock in one call of `keySet`: at the test of the cache, at the test of the
-- cooldown, at the poll, and when a fetched set is stored. Times are nanoseconds, 0 the zero time.
pub record Readings : Type 0 where
  pub tested_at : ℕ
  pub cooled_at : ℕ
  pub polled_at : ℕ
  pub stored_at : ℕ

module _ (KeySet : Type 0) (has_kid : KeySet → String → Bool) (ttl refetch_min : ℕ) where
  pub record Cache : Type 0 where
    pub cached : Option KeySet
    pub fetched_at : ℕ
    pub last_unknown_poll : ℕ

  -- What a call leaves: the cache, the key set where there is one, and whether it fetched.
  pub record Keys : Type 0 where
    pub cache : Cache
    pub set : Option KeySet
    pub fetched : Bool

  abbrev pub is_fresh : Option KeySet → ℕ → ℕ → Bool
  is_fresh none fetched_at now = false
  is_fresh (some keys) fetched_at now = ltb now (fetched_at + ttl)

  -- `refetch` and the look at its set; `fetched` is what the source and the JWK library give.
  unfoldable pub refetch : String → ℕ → Option KeySet → Cache → Keys
  refetch kid now none c = record { cache = c; set = none; fetched = true }
  refetch kid now (some keys) c = record {
    cache = record c { cached = some keys; fetched_at = now };
    set = if has_kid keys kid then some keys else none;
    fetched = true;
  }

  abbrev pub is_held : Option KeySet → String → Bool
  is_held none kid = false
  is_held (some keys) kid = has_kid keys kid

  -- `keySet`.
  unfoldable pub key_set : String → Readings → Option KeySet → Cache → Keys
  unfolding refetch
  key_set kid at fetched c =
      if not (is_fresh c.cached c.fetched_at at.tested_at)
      then refetch kid at.stored_at fetched c
      else if is_held c.cached kid
      then record { cache = c; set = c.cached; fetched = false }
      else if ltb at.cooled_at (c.last_unknown_poll + refetch_min)
      then record { cache = c; set = none; fetched = false }
      else refetch kid at.stored_at fetched (record c { last_unknown_poll = at.polled_at })

  -- `Verify`: `headers` and `parse` are the JWS and JWT libraries'.
  abbrev pub of_keys : (KeySet → String → Option Token) → String → Option KeySet → Verified
  of_keys parse token none = denied no_keys
  of_keys parse token (some keys) = elim (parse keys token) [
    | none ↦ denied bad_claims
    | some t ↦ identity_of t
  ]

  abbrev pub of_kid :
      (KeySet → String → Option Token)
      → Readings
      → Option KeySet
      → Cache
      → String
      → Option String
      → Cache × Verified
  of_kid parse at fetched c token none = (c, denied bad_header)
  of_kid parse at fetched c token (some kid) =
      let keys = key_set kid at fetched c in (keys.cache, of_keys parse token keys.set)

  unfoldable pub verify_visitor :
      (String → Option (List Header))
      → (KeySet → String → Option Token)
      → Readings
      → Option KeySet
      → Cache
      → String
      → Cache × Verified
  unfolding key_set identity_of header_kid
  verify_visitor headers parse at fetched c token =
      if token == ""
      then (c, denied empty_token)
      else of_kid parse at fetched c token (header_kid (headers token))
