-- ===== src/Authcallout/Tokens/Entitled.antt =====
-- The identities that internal/authcallout/token.go accepts, and the grants that they have.
use relaypoint.Common.{
  ℕ, String, ◌≡◌, ◌≢◌, ◌⊎◌, inl, inr, refl, List, [], ◌∷◌, Option, none, some, Bool, true, false,
  not, ◌&&◌, ◌||◌, ◌==◌, eq_iff, eqb, arith, less_int64, Bool-cases,
}
use relaypoint.Signaling.Wire.{
  Identity, role_visitor, role_trusted_backend, is_subscriber_capability,
}
use relaypoint.Trace.{same_bytes}
use relaypoint.Authcallout.{
  Grant, valid_subject_token, visitor_grant, backend_grant, subscriber_grant, grant_of_role,
  grants_for,
}
use relaypoint.Authcallout.Tokens.{
  Denied, no_verifier, Verified, verified, denied, Claims, Codec, verify_role, verify_subscriber,
  verify_claims, verify_body, verify_signed, verify_parts, verify_hmac, verify_chain_from,
  verify_chain,
}
use relaypoint.Signaling.Subject.{split}

-- One of the three kinds of identity that a grant is for.
abbrev pub HasKind : Identity → Type 0
HasKind id =
    ((id.role ≡ role_visitor)
      × (id.capability ≡ "")
      × (valid_subject_token id.conversation_id ≡ true))
    ⊎ ((id.role ≡ role_trusted_backend) × (id.capability ≡ ""))
    ⊎ ((id.role ≡ "") × (is_subscriber_capability id.capability ≡ true) × (id.conversation_id ≡ ""))

pub record IsGrantable (id : Identity) : Type 0 where
  pub tenant : valid_subject_token id.tenant_id ≡ true
  pub user : valid_subject_token id.user_id ≡ true
  pub kind : HasKind id

-- What a verifier's answer says of the identity, where it accepts the token.
abbrev pub OfVerified : (Identity → Type 0) → Verified → Type 0
OfVerified P (denied err) = Unit {0}
OfVerified P (verified id) = P id

grant_of_role-granted :
    (id : Identity) (conn : String) → HasKind id → (g : Grant) × (grant_of_role id conn ≡ some g)
unfolding grant_of_role
grant_of_role-granted id conn (inl (r, c, v)) =
    (visitor_grant id.tenant_id id.conversation_id conn, rw (r, c, v) refl)
grant_of_role-granted id conn (inr (inl (r, c))) =
    (backend_grant id.tenant_id id.user_id conn, rw (r, c) refl)
grant_of_role-granted id conn (inr (inr (r, c, v))) =
    (subscriber_grant id.tenant_id id.user_id id.capability conn, rw (r, c, v) refl)

-- Every grantable identity has a grant on a connection with an id.
pub grants_for-granted :
    (id : Identity) (conn : String)
    → IsGrantable id
    → conn ≢ ""
    → (g : Grant) × (grants_for id conn ≡ some g)
unfolding grants_for
grants_for-granted id conn v n =
    let (g, e) = grant_of_role-granted id conn v.kind in
    let m : (conn == "") ≡ false = ground (arith, eq_iff conn "", n) in
    (g, rw (v.tenant, v.user, m) e)

-- What the HMAC verifier accepts: a grantable identity that is no visitor, and a trusted backend only
-- where that is allowed.
pub record IsHmac (backend : Bool) (id : Identity) : Type 0 where
  pub grantable : IsGrantable id
  pub backend_allowed : (id.role ≡ role_trusted_backend) → backend ≡ true
  pub no_visitor : id.role ≢ role_visitor

verify_role-IsHmac :
    (backend : Bool) (c : Claims)
    → valid_subject_token c.tenant ≡ true
    → valid_subject_token c.user ≡ true
    → OfVerified (IsHmac backend) (verify_role backend c)
unfolding verify_role
verify_role-IsHmac backend c t u = elim (Bool-cases (c.role == "trusted-backend")) [
  | inr r ↦ rw r tt
  | inl r ↦ elim (Bool-cases backend) [
    | inr b ↦ rw (r, b) tt
    | inl b ↦
        rw (r, b)
          (record {
            grantable = record { tenant = t; user = u; kind = inr (inl (refl, refl)) };
            backend_allowed = λ _. refl;
            no_visitor = λ e. absurd (ground (arith, eq_iff "trusted-backend" "visitor", e));
          })
  ]
]

verify_subscriber-IsHmac :
    (backend : Bool) (c : Claims)
    → valid_subject_token c.tenant ≡ true
    → valid_subject_token c.user ≡ true
    → OfVerified (IsHmac backend) (verify_subscriber c)
unfolding verify_subscriber
verify_subscriber-IsHmac backend c t u = elim (Bool-cases (c.role == "")) [
  | inr r ↦ rw r tt
  | inl r ↦ elim (Bool-cases (is_subscriber_capability c.capability)) [
    | inr s ↦ rw (r, s) tt
    | inl s ↦
        rw (r, s)
          (record {
            grantable = record { tenant = t; user = u; kind = inr (inr (refl, s, refl)) };
            backend_allowed = λ e. absurd (ground (arith, eq_iff "" "trusted-backend", e));
            no_visitor = λ e. absurd (ground (arith, eq_iff "" "visitor", e));
          })
  ]
]

verify_claims-IsHmac :
    (backend : Bool) (now : ℕ) (c : Claims)
    → OfVerified (IsHmac backend) (verify_claims backend now c)
unfolding verify_claims
verify_claims-IsHmac backend now c =
    elim (Bool-cases (not (eqb c.exp_unix 0) && less_int64 c.exp_unix now)) [
      | inl x ↦ rw x tt
      | inr x ↦ elim (Bool-cases (c.tenant == "" || c.user == "")) [
        | inl m ↦ rw (x, m) tt
        | inr m ↦ elim (Bool-cases (valid_subject_token c.tenant)) [
          | inr t ↦ rw (x, m, t) tt
          | inl t ↦ elim (Bool-cases (valid_subject_token c.user)) [
            | inr u ↦ rw (x, m, t, u) tt
            | inl u ↦ elim (Bool-cases (c.capability == "")) [
              | inl k ↦ rw (x, m, t, u, k) (verify_role-IsHmac backend c t u)
              | inr k ↦ rw (x, m, t, u, k) (verify_subscriber-IsHmac backend c t u)
            ]
          ]
        ]
      ]
    ]

module _ (codec : Codec) (backend : Bool) (now : ℕ) where
  verify_signed-IsHmac :
      (text : String) (body sig : Option (List ℕ))
      → OfVerified (IsHmac backend) (verify_signed codec backend now text body sig)
  verify_signed-IsHmac text none sig = tt
  verify_signed-IsHmac text (some body) none = tt
  verify_signed-IsHmac text (some body) (some sig) =
      elim (Bool-cases (same_bytes sig (codec.mac text))) [
        | inr m ↦ rw m tt
        | inl m ↦ rw m (body_of (codec.claims_of body))
      ]
    where
      body_of : (o : Option Claims) → OfVerified (IsHmac backend) (verify_body backend now o)
      body_of none = tt
      body_of (some c) = verify_claims-IsHmac backend now c

  verify_parts-IsHmac :
      (parts : List String) → OfVerified (IsHmac backend) (verify_parts codec backend now parts)
  verify_parts-IsHmac [] = tt
  verify_parts-IsHmac (a ∷ []) = tt
  verify_parts-IsHmac (a ∷ b ∷ []) = verify_signed-IsHmac a (codec.decode a) (codec.decode b)
  verify_parts-IsHmac (a ∷ b ∷ c ∷ r) = tt

  -- An identity that the HMAC verifier accepts can be granted, is no visitor, and is a trusted backend
  -- only where that is allowed.
  pub verify_hmac-IsHmac :
      (token : String) → OfVerified (IsHmac backend) (verify_hmac codec backend now token)
  unfolding verify_hmac
  verify_hmac-IsHmac token = verify_parts-IsHmac (split token)

abbrev pub EachLink : (Identity → Type 0) → List (String → Verified) → String → Type 0
EachLink P [] token = Unit {0}
EachLink P (link ∷ links) token = OfVerified P (link token) × EachLink P links token

pub Verified-cases :
    (v : Verified) → ((id : Identity) × (v ≡ verified id)) ⊎ ((err : Denied) × (v ≡ denied err))
Verified-cases (verified id) = inl (id, refl)
Verified-cases (denied err) = inr (err, refl)

verify_chain_from-OfVerified :
    (P : Identity → Type 0) (last : Denied) (links : List (String → Verified)) (token : String)
    → EachLink P links token
    → OfVerified P (verify_chain_from last links token)
unfolding verify_chain_from
verify_chain_from-OfVerified P last [] token h = tt
verify_chain_from-OfVerified P last (link ∷ links) token (a, h) =
    elim (Verified-cases (link token)) [
      | inl (id, e) ↦ rw (e, verify_chain_from) (rw e at a)
      | inr (err, e) ↦ rw (e, verify_chain_from) (verify_chain_from-OfVerified P err links token h)
    ]

-- What holds of every link's answer holds of the chain's.
pub verify_chain-OfVerified :
    (P : Identity → Type 0) (links : List (String → Verified)) (token : String)
    → EachLink P links token
    → OfVerified P (verify_chain links token)
unfolding verify_chain
verify_chain-OfVerified P links token h = verify_chain_from-OfVerified P no_verifier links token h
