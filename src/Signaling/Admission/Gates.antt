-- ===== src/Signaling/Admission/Gates.antt =====
-- What an admitted command has shown.
use relaypoint.Common.{
  String, ◌≡◌, ◌≢◌, ◌⊎◌, inl, inr, Option, none, some, Bool, true, false, arith, eq_iff,
  Option-cases, Bool-cases, not, ◌&&◌,
}
use relaypoint.Signaling.Wire.{
  Command, Identity, reject, bad_payload, role_trusted_backend, is_subscriber_capability,
}
use relaypoint.Signaling.State.{is_participation_command, is_participation_fact}
use relaypoint.Signaling.Subject.{Addressed, parse_cmd_subject}
use relaypoint.Signaling.Admission.{
  Admission, refused, privileged, direct, is_authenticated, bind_actor, bind_tenant, route,
  admit_parsed, admit,
}

-- The tenants agree, and the author is the subject's own unless a trusted backend speaks for it.
pub record IsBound (dev_mode : Bool) (id : Identity) (at : Addressed) (cmd : Command) : Type 0 where
  pub known : (is_authenticated id ≡ true) ⊎ (dev_mode ≡ true)
  pub named : cmd.command_id ≢ ""
  pub tenant : cmd.tenant_id ≡ at.tenant
  pub own_tenant : (id.tenant_id ≡ "") ⊎ (id.tenant_id ≡ at.tenant)
  pub author :
      (id.role ≡ role_trusted_backend) ⊎ ((cmd.actor_id ≡ at.identity) × (cmd.actor_id ≢ ""))
  pub own_user :
      (id.role ≡ role_trusted_backend) ⊎ ((id.user_id ≡ "") ⊎ (cmd.actor_id ≡ id.user_id))

-- A direct command of an authenticated caller who is no trusted backend holds a subscriber capability,
-- and it is gated by membership unless it starts the interaction.
abbrev pub IsGated : Identity → Command → Bool → Type 0
IsGated id cmd gate =
    (is_participation_command cmd.type_name ≡ false)
    × (is_participation_fact cmd.type_name ≡ false)
    × ((is_authenticated id ≡ false)
        ⊎ ((id.role ≡ role_trusted_backend)
            ⊎ ((is_subscriber_capability id.capability ≡ true)
                × ((cmd.type_name ≡ "interaction.started") ⊎ (gate ≡ true)))))

abbrev pub IsEntitled : Bool → Identity → String → Option Command → Admission → Type 0
IsEntitled dev_mode id subject parsed (refused res) = Unit
IsEntitled dev_mode id subject parsed (privileged at cmd) =
    (parse_cmd_subject subject ≡ some at)
    × (parsed ≡ some cmd)
    × IsBound dev_mode id at cmd
    × (is_participation_command cmd.type_name ≡ true)
IsEntitled dev_mode id subject parsed (direct at gate cmd) =
    (parse_cmd_subject subject ≡ some at)
    × (parsed ≡ some cmd)
    × IsBound dev_mode id at cmd
    × IsGated id cmd gate

bind_actor-none :
    (id : Identity) (suffix : String) (cmd : Command)
    → bind_actor id suffix cmd ≡ none
    → ((id.role ≡ role_trusted_backend) ⊎ ((cmd.actor_id ≡ suffix) × (cmd.actor_id ≢ "")))
      × ((id.role ≡ role_trusted_backend) ⊎ ((id.user_id ≡ "") ⊎ (cmd.actor_id ≡ id.user_id)))
unfolding bind_actor
bind_actor-none id suffix cmd h = ground (
  arith,
  eq_iff id.role role_trusted_backend,
  eq_iff cmd.actor_id "",
  eq_iff cmd.actor_id suffix,
  eq_iff id.user_id "",
  eq_iff suffix id.user_id,
)

bind_tenant-none :
    (id : Identity) (tenant : String) (cmd : Command)
    → bind_tenant id tenant cmd ≡ none
    → (cmd.command_id ≢ "")
      × (cmd.tenant_id ≡ tenant)
      × ((id.tenant_id ≡ "") ⊎ (id.tenant_id ≡ tenant))
unfolding bind_tenant
bind_tenant-none id tenant cmd h = ground (
  arith,
  eq_iff cmd.command_id "",
  eq_iff id.tenant_id "",
  eq_iff tenant id.tenant_id,
  eq_iff cmd.tenant_id id.tenant_id,
  eq_iff cmd.tenant_id tenant,
)

bound :
    (dev_mode : Bool) (id : Identity) (at : Addressed) (cmd : Command)
    → (not (is_authenticated id) && not dev_mode) ≡ false
    → bind_tenant id at.tenant cmd ≡ none
    → bind_actor id at.identity cmd ≡ none
    → IsBound dev_mode id at cmd
bound dev_mode id at cmd k t a =
    let (author, own) = bind_actor-none id at.identity cmd a in
    let (named, tenant, own_tenant) = bind_tenant-none id at.tenant cmd t in
    record {
      known = ground arith;
      named = named;
      tenant = tenant;
      own_tenant = own_tenant;
      author = author;
      own_user = own;
    }

route-IsEntitled :
    (dev_mode : Bool) (id : Identity) (subject : String) (at : Addressed) (cmd : Command)
    → parse_cmd_subject subject ≡ some at
    → IsBound dev_mode id at cmd
    → IsEntitled dev_mode id subject (some cmd) (route id at cmd)
unfolding route
route-IsEntitled dev_mode id subject at cmd p b =
    ground (arith, eq_iff id.role role_trusted_backend, eq_iff cmd.type_name "interaction.started")

admit_parsed-IsEntitled :
    (dev_mode : Bool) (id : Identity) (subject : String) (at : Addressed) (cmd : Command)
    → parse_cmd_subject subject ≡ some at
    → IsEntitled dev_mode id subject (some cmd) (admit_parsed dev_mode id at cmd)
unfolding admit_parsed
admit_parsed-IsEntitled dev_mode id subject at cmd p =
    elim (Bool-cases (not (is_authenticated id) && not dev_mode)) [
      | inl e ↦ rw e tt
      | inr e ↦ elim (Option-cases (bind_tenant id at.tenant cmd)) [
        | inr (why, t) ↦ rw (e, t) tt
        | inl t ↦ elim (Option-cases (bind_actor id at.identity cmd)) [
          | inr (why, a) ↦ rw (e, t, a) tt
          | inl a ↦
              rw (e, t, a)
                (route-IsEntitled dev_mode id subject at cmd p (bound dev_mode id at cmd e t a))
        ]
      ]
    ]

-- A command that the gates let through was addressed by its subject and decoded from its data; its
-- caller is authenticated or the router is in dev mode; its id is not empty; its tenant is the
-- subject's and, where the caller has a tenant, the caller's; and unless the caller is a trusted
-- backend its author is the subject's identity and, where the caller has a user, that user. On the
-- direct path it is neither a participation command nor a participation fact, and an authenticated
-- caller that is no trusted backend holds a subscriber capability and is gated by membership, except
-- for the command that starts the interaction. On the privileged path it is a participation command.
pub admit-IsEntitled :
    (dev_mode : Bool) (id : Identity) (subject : String) (parsed : Option Command)
    → IsEntitled dev_mode id subject parsed (admit dev_mode id subject parsed)
unfolding admit
admit-IsEntitled dev_mode id subject parsed = elim (Option-cases (parse_cmd_subject subject)) [
  | inl e ↦ rw (e, admit) tt
  | inr (at, e) ↦ rw (e, admit) (decoded parsed at e)
]
  where
    decoded :
        (parsed : Option Command) (at : Addressed)
        → parse_cmd_subject subject ≡ some at
        → IsEntitled dev_mode id subject parsed (elim parsed [
          | none ↦ refused (reject "" bad_payload)
          | some cmd ↦ admit_parsed dev_mode id at cmd
        ])
    decoded none at e = tt
    decoded (some cmd) at e = admit_parsed-IsEntitled dev_mode id subject at cmd e
