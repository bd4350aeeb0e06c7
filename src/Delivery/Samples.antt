-- ===== src/Delivery/Samples.antt =====
-- Values for the runs of the delivery service and of its store.
use Prim.Native.Char.{code}
use Prim.Native.String.{[] as empty, ◌∷◌ as cons}
use text.Mathlib.TextEquality.{Char-path}
use relaypoint.Common.{ℕ, String, ◌≡◌, refl, List, [], ◌∷◌, some}
use relaypoint.Delivery.{Authorization, Principal}

unfoldable pub bytes : String → List ℕ
bytes empty = []
bytes (cons c t) = code c ∷ bytes t

pub bytes-injective : (s t : String) → bytes s ≡ bytes t → s ≡ t
unfolding bytes
bytes-injective empty empty h = refl
bytes-injective empty (cons d t) h = absurd (cc)
bytes-injective (cons c s) empty h = absurd (cc)
bytes-injective (cons c s) (cons d t) h =
    let a = bytes-injective s t (cc) in let b = Char-path c d (cc) in cc

abbrev pub sent : Authorization
sent = record {
  delivery_authorization_id = "d1";
  event_id = "e1";
  tenant_id = "t1";
  reservation_id = "v1";
  interaction_id = "i1";
  target_subscriber_id = "s1";
  fencing_token = "f1";
  route_version = 4;
  delivery_deadline = some (record { seconds = 1_800_000_000; nanos = 0; unknown = [] });
  traceparent = "00-0af7651916cd43dd8448eb211c80319c-b7ad6b7169203331-01";
  unknown = [];
}

-- The same authorization from a newer client, with a field that the program does not know.
abbrev pub sent_newer : Authorization
sent_newer = record sent { unknown = 90 ∷ 1 ∷ 7 ∷ [] }

abbrev pub corex : Principal
corex = record {
  service_id = "corex";
  tenant_id = "t1";
  capabilities = "other" ∷ "corex-delivery-write" ∷ [];
}
