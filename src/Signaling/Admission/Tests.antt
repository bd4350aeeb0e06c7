-- ===== src/Signaling/Admission/Tests.antt =====
-- Runs of the gates of internal/signaling/router.go on an agent's message.
use relaypoint.Common.{◌≡◌, ◌↔◌, [], false, some}
use relaypoint.Signaling.Wire.{Command, Identity}
use relaypoint.Signaling.Subject.{Addressed, parse_cmd_subject}
use relaypoint.Signaling.Subject.Parsing.{cmd_subject, IsAddress, parse_cmd_subject-exact}
use relaypoint.Signaling.Admission.{admit}
use relaypoint.Signaling.Admission.Gates.{IsEntitled, admit-IsEntitled}

abbrev agent : Identity
agent = record {
  tenant_id = "t";
  user_id = "b";
  role = "agent";
  capability = "agent-feed";
  conversation_id = "";
  expires_at = 0;
}

abbrev message : Command
message = record {
  command_id = "c9";
  tenant_id = "t";
  actor_id = "b";
  type_name = "message.sent";
  medium = "chat";
  ref_id = "";
  body = [];
}

abbrev home : Addressed
home = record { tenant = "t"; iid = "i"; identity = "b" }

parse_cmd_subject-exact_example :
    (parse_cmd_subject "tenant.t.interaction.i.cmd.b" ≡ some home)
    ↔ (("tenant.t.interaction.i.cmd.b" ≡ cmd_subject home) × IsAddress home)
parse_cmd_subject-exact_example = parse_cmd_subject-exact "tenant.t.interaction.i.cmd.b" home

admit-IsEntitled_example :
    IsEntitled false agent "tenant.t.interaction.i.cmd.b"
      (some message)
      (admit false agent "tenant.t.interaction.i.cmd.b" (some message))
admit-IsEntitled_example =
    admit-IsEntitled false agent "tenant.t.interaction.i.cmd.b" (some message)
