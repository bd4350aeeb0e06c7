-- ===== src/Signaling/Admission.antt =====
-- internal/signaling/router.go: the gates of `HandleCommand` before it takes the interaction's state.
pub mod Gates
mod Tests
use relaypoint.Common.{
  String, Option, none, some, Bool, true, false, not, ◌&&◌, ◌||◌, ◌==◌, if◌then◌else◌,
}
use relaypoint.Signaling.Wire.{
  Command, CommandResult, Reason, reject, Identity, is_subscriber_capability, role_trusted_backend,
  bad_subject, bad_payload, unauthenticated, missing_command_id, subject_tenant, payload_tenant,
  missing_actor_id, actor_mismatch, actor_not_user, needs_privileged_command, capability_denied,
}
use relaypoint.Signaling.State.{is_participation_command, is_participation_fact}
use relaypoint.Signaling.Subject.{Addressed, parse_cmd_subject}

-- What the gates decide: an answer, the privileged path, or the direct path with its participation
-- gate.
pub data Admission : Type 0 where
  refused : CommandResult → Admission
  privileged : Addressed → Command → Admission
  direct : Addressed → Bool → Command → Admission

unfoldable pub is_authenticated : Identity → Bool
is_authenticated id = not (id.user_id == "") || not (id.role == "") || not (id.capability == "")

-- The actor binding, which a trusted backend is exempt from.
unfoldable pub bind_actor : Identity → String → Command → Option Reason
bind_actor id suffix cmd =
    if id.role == role_trusted_backend
    then none
    else if cmd.actor_id == ""
    then some missing_actor_id
    else if not (cmd.actor_id == suffix)
    then some actor_mismatch
    else if not (id.user_id == "") && not (suffix == id.user_id)
    then some actor_not_user
    else none

-- The tests that name the tenants; an identity without a tenant takes the subject's.
unfoldable pub bind_tenant : Identity → String → Command → Option Reason
bind_tenant id tenant cmd =
    let auth = if id.tenant_id == "" then tenant else id.tenant_id in
    if cmd.command_id == ""
    then some missing_command_id
    else if not (tenant == auth)
    then some subject_tenant
    else if not (cmd.tenant_id == auth)
    then some payload_tenant
    else none

-- From the command's kind on.
unfoldable pub route : Identity → Addressed → Command → Admission
route id at cmd =
    let backend = id.role == role_trusted_backend in
    if is_participation_command cmd.type_name
    then privileged at cmd
    else if is_participation_fact cmd.type_name
    then refused (reject cmd.command_id needs_privileged_command)
    else if is_authenticated id && not backend && not (is_subscriber_capability id.capability)
    then refused (reject cmd.command_id capability_denied)
    else direct at
        (is_authenticated id && not backend && not (cmd.type_name == "interaction.started")) cmd

abbrev pub or_else : Option Reason → String → Admission → Admission
or_else none id next = next
or_else (some why) id next = refused (reject id why)

unfoldable pub admit_parsed : Bool → Identity → Addressed → Command → Admission
unfolding route
admit_parsed dev_mode id at cmd =
    if not (is_authenticated id) && not dev_mode
    then refused (reject cmd.command_id unauthenticated)
    else or_else (bind_tenant id at.tenant cmd) cmd.command_id
        (or_else (bind_actor id at.identity cmd) cmd.command_id (route id at cmd))

-- `parsed` is what the protobuf library made of the data, `none` for an error.
unfoldable pub admit : Bool → Identity → String → Option Command → Admission
unfolding admit_parsed
admit dev_mode id subject parsed = elim (parse_cmd_subject subject) [
  | none ↦ refused (reject "" bad_subject)
  | some at ↦ elim parsed [
    | none ↦ refused (reject "" bad_payload)
    | some cmd ↦ admit_parsed dev_mode id at cmd
  ]
]
