-- ===== src/Authcallout/Tests.antt =====
-- Runs of the authentication callout (internal/authcallout).
use relaypoint.Common.{
  String, ◌≡◌, refl, Option, none, some, List, [], ◌∷◌, Bool, true, false, ◌==◌, arith,
}
use relaypoint.Signaling.Wire.{Identity, role_visitor}
use relaypoint.Authcallout.{
  visitor_grant, valid_subject_token, all_allowed, grant_of_role, grants_for,
}
use relaypoint.Authcallout.Tokens.{verified, Codec}
use relaypoint.Authcallout.Tokens.Entitled.{OfVerified}
use relaypoint.Authcallout.Visitor.{
  absent, text, Token, Header, Readings, Cache, is_fresh, key_set, verify_visitor,
}
use relaypoint.Authcallout.Visitor.Bound.{IsTrusted, verify_visitor-IsTrusted}
use relaypoint.Authcallout.Visitor.Throttle.{Spaced, Visit, polls, polls-Spaced}
use relaypoint.Authcallout.Responder.{token, Responder, handle}
use relaypoint.Authcallout.Responder.Minted.{both}
use relaypoint.Authcallout.Grants.{IsConfined, grants_for-IsConfined}

abbrev visitor : Identity
visitor = record {
  tenant_id = "acme";
  user_id = "vis_7";
  role = role_visitor;
  capability = "";
  conversation_id = "c1";
  expires_at = 0;
}

visitor_is_granted : grants_for visitor "n1" ≡ some (visitor_grant "acme" "c1" "n1")
unfolding grants_for grant_of_role valid_subject_token all_allowed
visitor_is_granted = refl

grants_for-IsConfined_example : IsConfined visitor "n1" (visitor_grant "acme" "c1" "n1")
grants_for-IsConfined_example =
    grants_for-IsConfined visitor "n1" (visitor_grant "acme" "c1" "n1") visitor_is_granted

-- A key set is its key ids.
abbrev has_kid : String → String → Bool
has_kid keys kid = keys == kid

abbrev headers : String → Option (List Header)
headers t = some (record { kid = "k1"; algorithm = "EdDSA" } ∷ [])

abbrev visitor_token : Token
visitor_token = record {
  subject = "vis_7";
  tid = text "acme";
  role = absent;
  cap = absent;
  cid = text "c1";
  expiration = 63_900_000_000_000_000_000;
}

abbrev parse : String → String → Option Token
parse keys t = some visitor_token

abbrev readings : Readings
readings = record { tested_at = 20; cooled_at = 20; polled_at = 21; stored_at = 22 }

abbrev empty_cache : Cache String has_kid 100 10
empty_cache = record { cached = none; fetched_at = 0; last_unknown_poll = 0 }

abbrev held_cache : Cache String has_kid 100 10
held_cache = record { cached = some "k0"; fetched_at = 5; last_unknown_poll = 0 }

verify_visitor-IsTrusted_example :
    OfVerified
      (IsTrusted String has_kid 100 10 headers parse readings (some "k1") empty_cache "token")
      (verify_visitor String has_kid 100 10 headers parse readings
        (some "k1")
        empty_cache
        "token").1
verify_visitor-IsTrusted_example =
    verify_visitor-IsTrusted String has_kid 100 10 headers parse readings (some "k1") empty_cache
      "token"

visitor_is_verified :
    (verify_visitor String has_kid 100 10 headers parse readings (some "k1") empty_cache "token").1
    ≡ verified (record visitor { expires_at = 63_900_000_000_000_000_000 })
unfolding verify_visitor valid_subject_token all_allowed
visitor_is_verified = refl

abbrev visit : Visit String has_kid 100 10
visit = record { kid = "k1"; at = readings; fetched = none }

abbrev later_visit : Visit String has_kid 100 10
later_visit = record {
  kid = "k2";
  at = record { tested_at = 40; cooled_at = 40; polled_at = 40; stored_at = 41 };
  fetched = none;
}

polls-Spaced_example :
    Spaced 10 (polls String has_kid 100 10 held_cache [] (visit ∷ later_visit ∷ []))
    × ((v : Visit String has_kid 100 10) (d : Cache String has_kid 100 10)
        → is_fresh String has_kid 100 10 d.cached d.fetched_at v.at.tested_at ≡ false
        → (key_set String has_kid 100 10 v.kid v.at v.fetched d).fetched ≡ true)
polls-Spaced_example =
    polls-Spaced String has_kid 100 10 (visit ∷ later_visit ∷ []) held_cache (omega arith)

unknown_kid_polls :
    polls String has_kid 100 10 held_cache [] (visit ∷ later_visit ∷ []) ≡ 40 ∷ 21 ∷ []
unfolding key_set
unknown_kid_polls = refl

abbrev codec : Codec
codec = record { decode = λ t. none; mac = λ t. []; claims_of = λ b. none }

abbrev responder : Responder
responder = record {
  verify = both codec false 5 String has_kid 100 10 headers parse readings (some "k1") empty_cache;
  signer = record {
    decode = λ raw. some (record { user_nkey = "u"; server_id = "s"; token = "token" });
    encode_user = λ c. some "jwt";
    encode_response = λ c. some "answer";
  };
  account = "APP";
  visitor_ttl_cap = 3_600_000_000_000;
  now = 63_800_000_000_000_000_000;
  conn_id = "n1";
  text_of = λ why. "denied";
}

visitor_is_answered :
    handle
      (record responder {
        verify = λ t.
            (verify_visitor String has_kid 100 10 headers parse readings
              (some "k1")
              empty_cache
              t).1;
      })
      []
    ≡ token "answer"
unfolding handle verify_visitor valid_subject_token all_allowed grants_for grant_of_role
visitor_is_answered = refl
