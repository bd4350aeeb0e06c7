-- ===== src/Authcallout/Visitor/Bound.antt =====
-- The identities that internal/authcallout/visitor_token.go accepts, and the keys it trusts.
use relaypoint.Common.{
  ℕ, ◌+◌, ◌<◌, String, ◌≡◌, ◌≢◌, ◌⊎◌, inl, inr, refl, List, Option, none, some, Bool, true, not,
  ◌||◌, ◌==◌, eq_iff, ltb, arith, Bool-cases, Option-cases,
}
use relaypoint.Signaling.Wire.{
  Identity, role_visitor, role_trusted_backend, is_subscriber_capability,
}
use relaypoint.Authcallout.{valid_subject_token}
use relaypoint.Authcallout.Tokens.{bad_claims, denied}
use relaypoint.Authcallout.Tokens.Entitled.{IsGrantable, OfVerified, Verified-cases}
use relaypoint.Authcallout.Visitor.{
  claim_string, is_set, Token, Header, header_kid, visitor_of, subscriber_of, identity_of, Readings,
  Cache, is_fresh, refetch, is_held, key_set, of_keys, verify_visitor,
}

-- What the visitor verifier accepts: a grantable identity that is no trusted backend; a visitor's expiry is
-- its token's.
pub record IsVisitor (t : Token) (id : Identity) : Type 0 where
  pub grantable : IsGrantable id
  pub no_backend : id.role ≢ role_trusted_backend
  pub expires : id.role ≡ role_visitor → id.expires_at ≡ t.expiration
  pub subject : id.user_id ≡ t.subject

visitor_of-IsVisitor :
    (t : Token) (tid : String)
    → valid_subject_token tid ≡ true
    → valid_subject_token t.subject ≡ true
    → OfVerified (IsVisitor t) (visitor_of t tid)
unfolding visitor_of
visitor_of-IsVisitor t tid v u =
    let cid = (claim_string t.cid).0 in
    elim (Bool-cases
      (not ((claim_string t.role).0 == "") || not (claim_string t.cid).1 || cid == "")) [
        | inl m ↦ rw m tt
        | inr m ↦ elim (Bool-cases (valid_subject_token cid)) [
          | inr w ↦ rw (m, w) tt
          | inl w ↦
              rw (m, w)
                (record {
                  grantable = record { tenant = v; user = u; kind = inl (refl, refl, w) };
                  no_backend = λ e. absurd (ground (arith, eq_iff "visitor" "trusted-backend", e));
                  expires = λ _. refl;
                  subject = refl;
                })
        ]
      ]

subscriber_of-IsVisitor :
    (t : Token) (tid : String)
    → valid_subject_token tid ≡ true
    → valid_subject_token t.subject ≡ true
    → OfVerified (IsVisitor t) (subscriber_of t tid)
unfolding subscriber_of
subscriber_of-IsVisitor t tid v u = elim (Bool-cases (is_set t.role || (claim_string t.cid).1)) [
  | inl m ↦ rw m tt
  | inr m ↦ elim (Bool-cases (is_subscriber_capability (claim_string t.cap).0)) [
    | inr w ↦ rw (m, w) tt
    | inl w ↦
        rw (m, w)
          (record {
            grantable = record { tenant = v; user = u; kind = inr (inr (refl, w, refl)) };
            no_backend = λ e. absurd (ground (arith, eq_iff "" "trusted-backend", e));
            expires = λ e. absurd (ground (arith, eq_iff "" "visitor", e));
            subject = refl;
          })
  ]
]

pub identity_of-IsVisitor : (t : Token) → OfVerified (IsVisitor t) (identity_of t)
unfolding identity_of
identity_of-IsVisitor t =
    let tid = (claim_string t.tid).0 in
    elim (Bool-cases (tid == "" || t.subject == "")) [
      | inl m ↦ rw m tt
      | inr m ↦ elim (Bool-cases (valid_subject_token tid)) [
        | inr v ↦ rw (m, v) tt
        | inl v ↦ elim (Bool-cases (valid_subject_token t.subject)) [
          | inr u ↦ rw (m, v, u) tt
          | inl u ↦ elim (Bool-cases (claim_string t.cap).1) [
            | inl c ↦ rw (m, v, u, c) (subscriber_of-IsVisitor t tid v u)
            | inr c ↦ rw (m, v, u, c) (visitor_of-IsVisitor t tid v u)
          ]
        ]
      ]
    ]

module _ (KeySet : Type 0) (has_kid : KeySet → String → Bool) (ttl refetch_min : ℕ) where
  -- A key set in use: cached for less than the TTL, or fetched in this call.
  abbrev pub IsCurrent :
      Readings → Option KeySet → Cache KeySet has_kid ttl refetch_min → KeySet → Type 0
  IsCurrent at fetched c keys =
      ((c.cached ≡ some keys) × (at.tested_at < c.fetched_at + ttl)) ⊎ (fetched ≡ some keys)

  -- A key set that `keySet` gives has the key, and is current.
  abbrev IsUsed :
      String
      → Readings
      → Option KeySet
      → Cache KeySet has_kid ttl refetch_min
      → Option KeySet
      → Type 0
  IsUsed kid at fetched c none = Unit {0}
  IsUsed kid at fetched c (some keys) = (has_kid keys kid ≡ true) × IsCurrent at fetched c keys

  refetch-IsUsed :
      (kid : String) (at : Readings) (fetched : Option KeySet)
      (c d : Cache KeySet has_kid ttl refetch_min)
      → IsUsed kid at fetched c
          (refetch KeySet has_kid ttl refetch_min kid at.stored_at fetched d).set
  unfolding refetch
  refetch-IsUsed kid at none c d = tt
  refetch-IsUsed kid at (some new) c d = elim (Bool-cases (has_kid new kid)) [
    | inl h ↦ rw h (h, inr refl)
    | inr h ↦ rw h tt
  ]

  held :
      (kid : String) (at : Readings) (fetched : Option KeySet)
      (c : Cache KeySet has_kid ttl refetch_min) (o : Option KeySet)
      → c.cached ≡ o
      → is_fresh KeySet has_kid ttl refetch_min o c.fetched_at at.tested_at ≡ true
      → is_held KeySet has_kid ttl refetch_min o kid ≡ true
      → IsUsed kid at fetched c o
  held kid at fetched c none e f h = tt
  held kid at fetched c (some keys) e f h = (h, inl (e, ground arith))

  key_set-IsUsed :
      (kid : String) (at : Readings) (fetched : Option KeySet)
      (c : Cache KeySet has_kid ttl refetch_min)
      → IsUsed kid at fetched c (key_set KeySet has_kid ttl refetch_min kid at fetched c).set
  unfolding key_set
  key_set-IsUsed kid at fetched c =
      elim (Bool-cases
        (is_fresh KeySet has_kid ttl refetch_min c.cached c.fetched_at at.tested_at)) [
          | inr f ↦ rw f (refetch-IsUsed kid at fetched c c)
          | inl f ↦ elim (Bool-cases (is_held KeySet has_kid ttl refetch_min c.cached kid)) [
            | inl h ↦ rw (f, h) (held kid at fetched c c.cached refl f h)
            | inr h ↦ elim (Bool-cases (ltb at.cooled_at (c.last_unknown_poll + refetch_min))) [
              | inl k ↦ rw (f, h, k) tt
              | inr k ↦
                  rw (f, h, k)
                    (refetch-IsUsed kid at fetched c
                      (record c { last_unknown_poll = at.polled_at }))
            ]
          ]
        ]

  module _ (headers : String → Option (List Header)) (parse : KeySet → String → Option Token)
      (at : Readings) (fetched : Option KeySet) (c : Cache KeySet has_kid ttl refetch_min)
      (token : String) where
    -- An accepted token: its key is in a current key set, by which the library accepted it.
    pub record IsTrusted (id : Identity) : Type 0 where
      pub kid : String
      pub is_kid : header_kid (headers token) ≡ some kid
      pub keys : KeySet
      pub has_key : has_kid keys kid ≡ true
      pub current : IsCurrent at fetched c keys
      pub read : Token
      pub is_read : parse keys token ≡ some read
      pub visitor : IsVisitor read id

    of_token :
        (kid : String) (keys : KeySet)
        → header_kid (headers token) ≡ some kid
        → (has_kid keys kid ≡ true) × IsCurrent at fetched c keys
        → (o : Option Token) → parse keys token ≡ o
        → OfVerified IsTrusted (elim o [ none ↦ denied bad_claims | some t ↦ identity_of t ])
    of_token kid keys k u none e = tt
    of_token kid keys k (h, n) (some t) e = elim (Verified-cases (identity_of t)) [
      | inr (err, v) ↦ rw v tt
      | inl (id, v) ↦ rw v (record {
        kid = kid;
        is_kid = k;
        keys = keys;
        has_key = h;
        current = n;
        read = t;
        is_read = e;
        visitor = rw v at (identity_of-IsVisitor t);
      })
    ]

    of_keys-IsTrusted :
        (kid : String) (o : Option KeySet)
        → header_kid (headers token) ≡ some kid
        → IsUsed kid at fetched c o
        → OfVerified IsTrusted (of_keys KeySet has_kid ttl refetch_min parse token o)
    of_keys-IsTrusted kid none k u = tt
    of_keys-IsTrusted kid (some keys) k u = of_token kid keys k u (parse keys token) refl

    -- The visitor verifier accepts a token only by a key of a key set that was cached for less than the TTL or
    -- fetched in this call, under the EdDSA key id of its header; the identity can be granted, is no
    -- trusted backend, has the token's subject, and for a visitor the token's expiry.
    pub verify_visitor-IsTrusted :
        OfVerified IsTrusted
          (verify_visitor KeySet has_kid ttl refetch_min headers parse at fetched c token).1
    unfolding verify_visitor
    verify_visitor-IsTrusted = elim (Bool-cases (token == "")) [
      | inl e ↦ rw e tt
      | inr e ↦ elim (Option-cases (header_kid (headers token))) [
        | inl n ↦ rw (e, n) tt
        | inr (kid, n) ↦
            rw (e, n)
              (of_keys-IsTrusted kid (key_set KeySet has_kid ttl refetch_min kid at fetched c).set n
                (key_set-IsUsed kid at fetched c))
      ]
    ]
