-- ===== src/Authcallout/Grants.antt =====
-- What the permissions of a connection reach (internal/authcallout/grants.go).
use Prim.Native.String.{◌++◌ as str_append}
use text.Mathlib.TextLemmas.{append_assoc}
use relaypoint.Common.{
  String, ◌≡◌, ◌≢◌, refl, subst, ap, ◌⊎◌, inl, inr, List, [], ◌∷◌, Option, none, some, true, false,
  ◌==◌, eq_iff, Bool-cases, arith,
}
use relaypoint.Signaling.Wire.{
  Identity, role_visitor, role_trusted_backend, is_subscriber_capability,
}
use relaypoint.Authcallout.{
  Grant, valid_subject_token, visitor_grant, backend_grant, subscriber_grant, grant_of_role,
  grants_for, inbox_of, observed,
}

abbrev EachOf : (String → Type 0) → List String → Type 0
EachOf P [] = Unit {0}
EachOf P (x ∷ xs) = P x × EachOf P xs

-- A subject of the tenant's own tree, or the connection's inbox.
abbrev IsWithin : String → String → String → Type 0
IsWithin t conn s =
    ((rest : String) × (s ≡ str_append "tenant." (str_append t (str_append "." rest))))
    ⊎ (s ≡ inbox_of conn)

within :
    (t conn w x : String)
    → IsWithin t conn (str_append "tenant." (str_append t (str_append (str_append "." w) x)))
within t conn w x =
    inl (str_append w x, ap (λ y. str_append "tenant." (str_append t y)) (append_assoc "." w x))

-- What a grant owes to the role it is for.
pub record IsConfinedRole (id : Identity) (conn : String) (g : Grant) : Type 0 where
  reads : EachOf (IsWithin id.tenant_id conn) g.sub_allow
  writes : (id.role ≡ role_trusted_backend) ⊎ EachOf (IsWithin id.tenant_id conn) g.pub_allow
  silent :
      id.role ≡ role_visitor
      → (g.pub_allow ≡ [])
        × (g.pub_deny ≡ ">" ∷ [])
        × (g.allow_responses ≡ false)
        × (valid_subject_token id.conversation_id ≡ true)
  known :
      (id.role ≡ role_visitor)
      ⊎ (id.role ≡ role_trusted_backend)
      ⊎ ((id.role ≡ "") × (is_subscriber_capability id.capability ≡ true))

pub record IsConfined (id : Identity) (conn : String) (g : Grant) : Type 0 where
  tenant : valid_subject_token id.tenant_id ≡ true
  user : valid_subject_token id.user_id ≡ true
  named : conn ≢ ""
  role : IsConfinedRole id conn g

visitor_reads :
    (t cid conn : String) → EachOf (IsWithin t conn) (visitor_grant t cid conn).sub_allow
unfolding visitor_grant
visitor_reads t cid conn =
    (within t conn "interaction." _, (within t conn "conversation." _, (inr refl, tt)))

backend_reads :
    (t self conn : String) → EachOf (IsWithin t conn) (backend_grant t self conn).sub_allow
unfolding backend_grant
backend_reads t self conn = (
  inl ("interaction.*.log", refl),
  (inl ("notify.>", refl), (inl ("routing.>", refl), (inr refl, tt))),
)

observed_reads : (t conn capability : String) → EachOf (IsWithin t conn) (observed t capability)
observed_reads t conn capability =
    elim (Bool-cases (capability == "agent-feed-admin-operation-observer")) [
      | inl e ↦ rw e (inl ("admin.operation.*.changed", refl), tt)
      | inr e ↦ rw e tt
    ]

subscriber_reads :
    (t self capability conn : String)
    → EachOf (IsWithin t conn) (subscriber_grant t self capability conn).sub_allow
unfolding subscriber_grant
subscriber_reads t self capability conn = (
  within t conn "agent." _,
  (
    within t conn "routing.offer.user." _,
    (
      within t conn "routing.offer.user." _,
      (
        within t conn "notify." _,
        (
          inl ("presence.*.state", refl),
          (inl ("presence.*.typing.>", refl), (inr refl, observed_reads t conn capability)),
        ),
      ),
    ),
  ),
)

subscriber_writes :
    (t self capability conn : String)
    → EachOf (IsWithin t conn) (subscriber_grant t self capability conn).pub_allow
unfolding subscriber_grant
subscriber_writes t self capability conn = (
  within t conn "interaction.*.cmd." _,
  (within t conn "presence." _, (within t conn "presence." _, (inr refl, tt))),
)

visitor_writes :
    (id : Identity) (conn : String)
    → EachOf
        (IsWithin id.tenant_id conn)
        (visitor_grant id.tenant_id id.conversation_id conn).pub_allow
unfolding visitor_grant
visitor_writes id conn = tt

visitor_is_silent :
    (id : Identity) (conn : String)
    → valid_subject_token id.conversation_id ≡ true
    → ((visitor_grant id.tenant_id id.conversation_id conn).pub_allow ≡ [])
      × ((visitor_grant id.tenant_id id.conversation_id conn).pub_deny ≡ ">" ∷ [])
      × ((visitor_grant id.tenant_id id.conversation_id conn).allow_responses ≡ false)
      × (valid_subject_token id.conversation_id ≡ true)
unfolding visitor_grant
visitor_is_silent id conn t = (refl, refl, refl, t)

abbrev RoleConfined : Identity → String → Option Grant → Type 0
RoleConfined id conn none = Unit {0}
RoleConfined id conn (some g) = IsConfinedRole id conn g

RoleConfined-grant_of_role :
    (id : Identity) (conn : String) → RoleConfined id conn (grant_of_role id conn)
unfolding grant_of_role
RoleConfined-grant_of_role id conn = elim (Bool-cases (id.role == "visitor")) [
  | inl v ↦ elim (Bool-cases (id.capability == "")) [
    | inr c ↦ rw (v, c) tt
    | inl c ↦ elim (Bool-cases (valid_subject_token id.conversation_id)) [
      | inr t ↦ rw (v, c, t) tt
      | inl t ↦
          rw (v, c, t, RoleConfined)
            (record {
              reads = visitor_reads id.tenant_id id.conversation_id conn;
              writes = inr (visitor_writes id conn);
              silent = λ _. visitor_is_silent id conn t;
              known = inl ((eq_iff id.role "visitor").0 v);
            })
    ]
  ]
  | inr v ↦ elim (Bool-cases (id.role == "trusted-backend")) [
    | inl b ↦ elim (Bool-cases (id.capability == "")) [
      | inr c ↦ rw (v, b, c) tt
      | inl c ↦
          rw (v, b, c, RoleConfined)
            (record {
              reads = backend_reads id.tenant_id id.user_id conn;
              writes = inl ((eq_iff id.role "trusted-backend").0 b);
              silent = λ e. absurd (other id v e);
              known = inr (inl ((eq_iff id.role "trusted-backend").0 b));
            })
    ]
    | inr b ↦ elim (Bool-cases (id.role == "")) [
      | inr n ↦ rw (v, b, n) tt
      | inl n ↦ elim (Bool-cases (is_subscriber_capability id.capability)) [
        | inr c ↦ rw (v, b, n, c) tt
        | inl c ↦ elim (Bool-cases (id.conversation_id == "")) [
          | inr d ↦ rw (v, b, n, c, d) tt
          | inl d ↦
              rw (v, b, n, c, d, RoleConfined)
                (record {
                  reads = subscriber_reads id.tenant_id id.user_id id.capability conn;
                  writes = inr (subscriber_writes id.tenant_id id.user_id id.capability conn);
                  silent = λ e. absurd (other id v e);
                  known = inr (inr ((eq_iff id.role "").0 n, c));
                })
        ]
      ]
    ]
  ]
]
  where
    other : (id : Identity) → (id.role == "visitor") ≡ false → id.role ≢ "visitor"
    other id v e = ground (arith, v, eq_iff id.role "visitor", e)

abbrev Confined : Identity → String → Option Grant → Type 0
Confined id conn none = Unit {0}
Confined id conn (some g) = IsConfined id conn g

Confined-role :
    (id : Identity) (conn : String) (o : Option Grant)
    → valid_subject_token id.tenant_id ≡ true
    → valid_subject_token id.user_id ≡ true
    → conn ≢ ""
    → RoleConfined id conn o
    → Confined id conn o
Confined-role id conn none t u n r = tt
Confined-role id conn (some g) t u n r = record { tenant = t; user = u; named = n; role = r }

Confined-grants_for : (id : Identity) (conn : String) → Confined id conn (grants_for id conn)
unfolding grants_for
Confined-grants_for id conn = elim (Bool-cases (valid_subject_token id.tenant_id)) [
  | inr t ↦ rw t tt
  | inl t ↦ elim (Bool-cases (valid_subject_token id.user_id)) [
    | inr u ↦ rw (t, u) tt
    | inl u ↦ elim (Bool-cases (conn == "")) [
      | inl n ↦ rw (t, u, n) tt
      | inr n ↦
          rw (t, u, n)
            (Confined-role id conn (grant_of_role id conn) t u (ground (arith, n, eq_iff conn ""))
              (RoleConfined-grant_of_role id conn))
    ]
  ]
]

-- A grant is given only for a tenant and a user that are single subject tokens, on a connection with an
-- id, and only to a visitor, a trusted backend or a subscriber capability without a role. Every
-- subject that it lets the connection read is in the tenant's own tree or is the connection's inbox, and
-- so is every subject that it lets it write, unless it is a trusted backend's. A visitor's grant has no
-- subject to write, denies all, gives no right to reply, and is
-- bound to a conversation that is a single subject token.
pub grants_for-IsConfined :
    (id : Identity) (conn : String) (g : Grant) → grants_for id conn ≡ some g → IsConfined id conn g
grants_for-IsConfined id conn g h = subst (Confined id conn) h (Confined-grants_for id conn)
