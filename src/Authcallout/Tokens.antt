-- ===== src/Authcallout/Tokens.antt =====
-- internal/authcallout/token.go: the HMAC bearer and the chain of verifiers.
pub mod Entitled
use relaypoint.Common.{
  ℕ, String, List, [], ◌∷◌, Option, none, some, Bool, true, false, not, ◌&&◌, ◌||◌, ◌==◌, eqb,
  if◌then◌else◌, less_int64,
}
use relaypoint.Signaling.Wire.{Identity, role_trusted_backend, is_subscriber_capability}
use relaypoint.Signaling.Subject.{split}
use relaypoint.Trace.{same_bytes}
use relaypoint.Authcallout.{valid_subject_token}

-- A constructor for each error; the last three are the visitor verifier's.
pub data Denied : Type 0 where
  no_verifier malformed bad_body bad_signature mismatch bad_claims expired missing : Denied
  unsafe_tenant unsafe_user capability_denied role_denied unsafe_conversation : Denied
  empty_token bad_header no_keys : Denied

pub data Verified : Type 0 where
  verified : Identity → Verified
  denied : Denied → Verified

-- `exp_unix` is an `int64` of seconds.
pub record Claims : Type 0 where
  pub tenant : String
  pub user : String
  pub role : String
  pub capability : String
  pub exp_unix : ℕ

-- base64, HMAC under the verifier's secret, and JSON.
pub record Codec : Type 0 where
  pub decode : String → Option (List ℕ)
  pub mac : String → List ℕ
  pub claims_of : List ℕ → Option Claims

-- From the role on.
unfoldable pub verify_role : Bool → Claims → Verified
verify_role backend c =
    if c.role == role_trusted_backend
    then (if not backend
        then denied role_denied
        else verified (record {
          tenant_id = c.tenant;
          user_id = c.user;
          role = role_trusted_backend;
          capability = "";
          conversation_id = "";
          expires_at = 0;
        }))
    else denied role_denied

unfoldable pub verify_subscriber : Claims → Verified
verify_subscriber c =
    if not (c.role == "") || not (is_subscriber_capability c.capability)
    then denied capability_denied
    else verified (record {
      tenant_id = c.tenant;
      user_id = c.user;
      role = "";
      capability = c.capability;
      conversation_id = "";
      expires_at = 0;
    })

-- The claims of a token whose signature holds; `now` is in seconds, and `backend` is
-- `allowTrustedBackend`.
unfoldable pub verify_claims : Bool → ℕ → Claims → Verified
unfolding verify_role verify_subscriber
verify_claims backend now c =
    if not (eqb c.exp_unix 0) && less_int64 c.exp_unix now
    then denied expired
    else if c.tenant == "" || c.user == ""
    then denied missing
    else if not (valid_subject_token c.tenant)
    then denied unsafe_tenant
    else if not (valid_subject_token c.user)
    then denied unsafe_user
    else if not (c.capability == "")
    then verify_subscriber c
    else verify_role backend c

abbrev pub verify_body : Bool → ℕ → Option Claims → Verified
verify_body backend now none = denied bad_claims
verify_body backend now (some c) = verify_claims backend now c

abbrev pub verify_signed : Codec → Bool → ℕ → String → Option (List ℕ) → Option (List ℕ) → Verified
verify_signed codec backend now text none sig = denied bad_body
verify_signed codec backend now text (some body) none = denied bad_signature
verify_signed codec backend now text (some body) (some sig) =
    if not (same_bytes sig (codec.mac text))
    then denied mismatch
    else verify_body backend now (codec.claims_of body)

abbrev pub verify_parts : Codec → Bool → ℕ → List String → Verified
verify_parts codec backend now (body ∷ sig ∷ []) =
    verify_signed codec backend now body (codec.decode body) (codec.decode sig)
verify_parts codec backend now parts = denied malformed

-- `HMACVerifier.Verify`.
unfoldable pub verify_hmac : Codec → Bool → ℕ → String → Verified
unfolding verify_claims split
verify_hmac codec backend now token = verify_parts codec backend now (split token)

-- `ChainVerifier.Verify`: the first success, or the last error.
unfoldable pub verify_chain_from : Denied → List (String → Verified) → String → Verified
verify_chain_from last [] token = denied last
verify_chain_from last (link ∷ links) token = elim (link token) [
  | verified id ↦ verified id
  | denied err ↦ verify_chain_from err links token
]

unfoldable pub verify_chain : List (String → Verified) → String → Verified
unfolding verify_chain_from
verify_chain links token = verify_chain_from no_verifier links token

-- The checks of `MintDevToken` before it signs.
unfoldable pub mint_claims : Identity → ℕ → Option Claims
mint_claims id exp =
    if not (id.role == "") && not (id.capability == "")
    then none
    else if id.role == "" && not (is_subscriber_capability id.capability)
    then none
    else if not (id.role == "") && not (id.role == role_trusted_backend)
    then none
    else some (record {
      tenant = id.tenant_id;
      user = id.user_id;
      role = id.role;
      capability = id.capability;
      exp_unix = exp;
    })
