-- ===== src/Signaling/Subject.antt =====
-- internal/signaling/router.go: the subject of a command, `tenant.T.interaction.I.cmd.U`.
pub mod Parsing
use Prim.Native.Char.{Char}
use text.Mathlib.TextBridge.{to_list, of_list}
use relaypoint.Common.{
  String, List, [], ◌∷◌, ◌++◌, map, Option, none, some, Bool, true, false, not, ◌&&◌, ◌==◌,
  if◌then◌else◌,
}

-- `c == '.'`, on the text of one character.
unfoldable pub is_dot : Char → Bool
is_dot c = of_list (c ∷ []) == "."

abbrev pub on_first : Char → List (List Char) → List (List Char)
on_first c [] = (c ∷ []) ∷ []
on_first c (p ∷ ps) = (c ∷ p) ∷ ps

-- `strings.Split(s, ".")` on characters.
unfoldable pub split_dot : List Char → List (List Char)
split_dot [] = [] ∷ []
split_dot (c ∷ cs) = let rest = split_dot cs in if is_dot c then [] ∷ rest else on_first c rest

unfoldable pub split : String → List String
split s = map of_list (split_dot (to_list s))

-- The tenant, the interaction and the identity suffix.
pub record Addressed : Type 0 where
  pub tenant : String
  pub iid : String
  pub identity : String

-- The six parts of a subject; any other number is refused.
unfoldable pub of_parts : List String → Option Addressed
of_parts (a ∷ tenant ∷ b ∷ iid ∷ c ∷ identity ∷ []) =
    if not (a == "tenant" && b == "interaction" && c == "cmd")
    then none
    else if not (not (tenant == "") && not (iid == "") && not (identity == ""))
    then none
    else some (record { tenant = tenant; iid = iid; identity = identity })
of_parts parts = none

unfoldable pub parse_cmd_subject : String → Option Addressed
unfolding of_parts split
parse_cmd_subject s = of_parts (split s)
