-- ===== src/Delivery/Accepted.antt =====
-- What internal/delivery/service.go accepts and what it appends.
use relaypoint.Common.{
  ℕ, String, ◌≡◌, ◌≢◌, refl, sym, ◌∙◌, ◌⊎◌, inl, inr, List, [], ◌∷◌, Option, none, some, Bool, true,
  false, ◌&&◌, ◌==◌, eq_iff, arith, Within, Bool-cases, Option-cases,
}
use relaypoint.Delivery.{
  capability_delivery_write, known_time, Authorization, Receipt, Principal, AppendInput,
  AppendResult, Failure, unauthenticated, permission_denied, invalid_authorization,
  idempotency_conflict, unmarshalled, other, Appended, stored, unstored, Externals, has_capability,
  discard_unknown, Answer, accepted, failed, Outcome, require_uuid_v7, is_valid_authorization,
  normalize_id, normalize_authorization, authorization_hash_and_body, receipt_of, input_of,
  of_append, of_hash, of_present, accept_delivery,
}

has_capability-Within : (cs : List String) (c : String) → has_capability cs c ≡ true → Within c cs
unfolding has_capability
has_capability-Within [] c h = cc
has_capability-Within (d ∷ cs) c h = elim (Bool-cases (d == c)) [
  | inl e ↦ inl (sym ((eq_iff d c).0 e))
  | inr e ↦ inr (has_capability-Within cs c (rw e at h))
]

has_capability-of_Within :
    (cs : List String) (c : String) → Within c cs → has_capability cs c ≡ true
unfolding has_capability
has_capability-of_Within (d ∷ cs) c (inl e) = rw ((eq_iff d c).1 (sym e)) refl
has_capability-of_Within (d ∷ cs) c (inr h) = elim (Bool-cases (d == c)) [
  | inl e ↦ rw e refl
  | inr e ↦ rw (e, has_capability-of_Within cs c h) refl
]
has_capability-of_Within [] c h = absurd h

-- The first six of ten tests.
first_six :
    (d e t r i s f v m w : Bool)
    → (d && e && t && r && i && s && f && v && m && w) ≡ true
    → (d ≡ true) × (e ≡ true) × (t ≡ true) × (r ≡ true) × (i ≡ true) × (s ≡ true)
first_six d e t r i s f v m w h = ground arith

module _ (x : Externals) where
  normalize_id-eq : (v : String) → require_uuid_v7 x v ≡ true → normalize_id x v ≡ v
  unfolding require_uuid_v7 normalize_id
  normalize_id-eq v h = elim (Option-cases (x.parse_uuid v)) [
    | inl e ↦ absurd (let g = rw (e, require_uuid_v7) at h in cc)
    | inr (id, e) ↦
        rw (e, normalize_id)
          ((eq_iff id.canonical v).0 (let g = rw (e, require_uuid_v7) at h in ground arith))
  ]

  -- The ids that end in "_id" are canonical.
  abbrev AreCanonical : Authorization → Type 0
  AreCanonical a =
      (require_uuid_v7 x a.delivery_authorization_id ≡ true)
      × (require_uuid_v7 x a.event_id ≡ true)
      × (require_uuid_v7 x a.tenant_id ≡ true)
      × (require_uuid_v7 x a.reservation_id ≡ true)
      × (require_uuid_v7 x a.interaction_id ≡ true)
      × (require_uuid_v7 x a.target_subscriber_id ≡ true)

  is_valid_authorization-AreCanonical :
      (a : Authorization) → is_valid_authorization x a ≡ true → AreCanonical a
  unfolding is_valid_authorization
  is_valid_authorization-AreCanonical a h = first_six _ _ _ _ _ _ _ _ _ _ h

  -- Where the validation passes, the normalization only drops what the program does not know.
  pub normalize_authorization-eq :
      (a : Authorization)
      → is_valid_authorization x a ≡ true
      → normalize_authorization x a ≡ discard_unknown a
  unfolding normalize_authorization discard_unknown
  normalize_authorization-eq a h =
      let (d, e, t, r, i, s) = is_valid_authorization-AreCanonical a h in
      cc (
        normalize_id-eq a.delivery_authorization_id d,
        normalize_id-eq a.event_id e,
        normalize_id-eq a.tenant_id t,
        normalize_id-eq a.reservation_id r,
        normalize_id-eq a.interaction_id i,
        normalize_id-eq a.target_subscriber_id s,
      )

  -- What each field of a receipt holds: the ids and the deadline of the authorization, and the receipt
  -- id, the time and the position that the store answered.
  pub record IsReceipt (a : Authorization) (result : AppendResult) (r : Receipt) : Type 0 where
    pub receipt_id : r.receipt_id ≡ result.receipt_id
    pub authorization_id : r.delivery_authorization_id ≡ a.delivery_authorization_id
    pub event_id : r.event_id ≡ a.event_id
    pub tenant_id : r.tenant_id ≡ a.tenant_id
    pub reservation_id : r.reservation_id ≡ a.reservation_id
    pub interaction_id : r.interaction_id ≡ a.interaction_id
    pub subscriber_id : r.target_subscriber_id ≡ a.target_subscriber_id
    pub accepted_at : r.accepted_at ≡ x.timestamp_of result.accepted_at
    pub deadline : r.delivery_deadline ≡ known_time a.delivery_deadline
    pub log_sequence : r.log_sequence ≡ result.log_sequence
    pub issuer : r.issuer_service_id ≡ "relaypoint"
    pub visibility : r.visibility ≡ 1
    pub no_unknown : r.unknown ≡ []

  receipt_of-IsReceipt :
      (a : Authorization) (result : AppendResult)
      → IsReceipt a result (receipt_of x (discard_unknown a) result)
  unfolding receipt_of discard_unknown
  receipt_of-IsReceipt a result = record {
    receipt_id = refl;
    authorization_id = refl;
    event_id = refl;
    tenant_id = refl;
    reservation_id = refl;
    interaction_id = refl;
    subscriber_id = refl;
    accepted_at = refl;
    deadline = refl;
    log_sequence = refl;
    issuer = refl;
    visibility = refl;
    no_unknown = refl;
  }

  -- What each field of an append holds: the authorization without what the program does not know, the
  -- fresh receipt id, this service, and the request's hash and encoding.
  pub record IsInput (a : Authorization) (receipt_id : String) (input : AppendInput) : Type 0 where
    pub known : input.authorization ≡ discard_unknown a
    pub receipt_id_of : input.receipt_id ≡ receipt_id
    pub issuer : input.issuer_service ≡ "relaypoint"
    pub hashed :
        authorization_hash_and_body x (discard_unknown a)
        ≡ some (input.request_hash, input.request_body)

  module _ (append : AppendInput → Appended) (receipt_id : String) (p : Principal) where
    -- An accepted authorization: who sent it, that it is valid, and what was appended and answered.
    pub record IsReceived (a : Authorization) (appended : Option AppendInput) (r : Receipt)
        : Type 0 where
      pub authentic : p.service_id ≡ "corex"
      pub capable : Within capability_delivery_write p.capabilities
      pub own_tenant : (p.tenant_id ≡ a.tenant_id) × (a.tenant_id ≢ "")
      pub valid : is_valid_authorization x a ≡ true
      pub is_id : require_uuid_v7 x receipt_id ≡ true
      pub input : AppendInput
      pub is_input : IsInput a receipt_id input
      pub is_appended : appended ≡ some input
      pub result : AppendResult
      pub is_result : append input ≡ stored result
      pub is_receipt : IsReceipt a result r

    -- Why nothing was appended.
    abbrev pub IsRefused : Option Authorization → Failure → Type 0
    IsRefused o unauthenticated = p.service_id ≢ "corex"
    IsRefused o permission_denied =
        (p.service_id ≡ "corex")
        × ((Within capability_delivery_write p.capabilities → ⊥)
            ⊎ ((a : Authorization)
                → o ≡ some a
                → (p.tenant_id ≡ a.tenant_id) × (a.tenant_id ≢ "")
                → ⊥))
    IsRefused o invalid_authorization =
        (a : Authorization) × (o ≡ some a)
        × ((is_valid_authorization x a ≡ false) ⊎ (require_uuid_v7 x receipt_id ≡ false))
    IsRefused o idempotency_conflict = ⊥
    IsRefused o unmarshalled =
        (a : Authorization) × (o ≡ some a)
        × (authorization_hash_and_body x (discard_unknown a) ≡ none)
    IsRefused o (other n) = ⊥

    abbrev pub IsAccepted : Option Authorization → Option AppendInput → Answer → Type 0
    IsAccepted o appended (accepted r) =
        (a : Authorization) × (o ≡ some a) × IsReceived a appended r
    IsAccepted o none (failed e) = IsRefused o e
    IsAccepted o (some input) (failed e) = append input ≡ unstored e

    module _ (corex : p.service_id ≡ "corex")
        (capable : Within capability_delivery_write p.capabilities) (a : Authorization)
        (own : (p.tenant_id ≡ a.tenant_id) × (a.tenant_id ≢ ""))
        (valid : is_valid_authorization x a ≡ true) where
      abbrev Holds : Outcome → Type 0
      Holds o = IsAccepted (some a) o.appended o.answer

      of_append-IsAccepted :
          (hash : String) (body : List ℕ) (s : Appended)
          → authorization_hash_and_body x (discard_unknown a) ≡ some (hash, body)
          → require_uuid_v7 x receipt_id ≡ true
          → append (input_of x append receipt_id (discard_unknown a) hash body) ≡ s
          → Holds (
              of_append x append receipt_id
                (input_of x append receipt_id (discard_unknown a) hash body)
                s)
      of_append-IsAccepted hash body (unstored e) h i q = q
      of_append-IsAccepted hash body (stored result) h i q = (
        a,
        refl,
        record {
          authentic = corex;
          capable = capable;
          own_tenant = own;
          valid = valid;
          is_id = i;
          input = input_of x append receipt_id (discard_unknown a) hash body;
          is_input = record { known = refl; receipt_id_of = refl; issuer = refl; hashed = h };
          is_appended = refl;
          result = result;
          is_result = q;
          is_receipt = receipt_of-IsReceipt a result;
        },
      )

      of_hash-IsAccepted :
          (o : Option (String × List ℕ))
          → authorization_hash_and_body x (discard_unknown a) ≡ o
          → Holds (of_hash x append receipt_id (discard_unknown a) o)
      of_hash-IsAccepted none h = (a, refl, h)
      of_hash-IsAccepted (some (hash, body)) h = elim (Bool-cases (require_uuid_v7 x receipt_id)) [
        | inl i ↦ rw i (of_append-IsAccepted hash body _ h i refl)
        | inr i ↦ rw i (a, refl, inr i)
      ]

    of_present-IsAccepted :
        (o : Option Authorization)
        → p.service_id ≡ "corex"
        → Within capability_delivery_write p.capabilities
        → let r = of_present x append receipt_id p o in IsAccepted o r.appended r.answer
    of_present-IsAccepted none c w = (c, inr (λ (a : Authorization) e h. cc))
    of_present-IsAccepted (some a) c w = elim (Bool-cases (p.tenant_id == "")) [
      | inl e ↦
          rw e (c, inr (λ (b : Authorization) q h. h.1 (let u = (eq_iff p.tenant_id "").0 e in cc)))
      | inr e ↦ elim (Bool-cases (p.tenant_id == a.tenant_id)) [
        | inr t ↦
            rw (e, t)
              (
                c,
                inr (λ (b : Authorization) q h.
                    let u = (eq_iff p.tenant_id a.tenant_id).1 (let v = h.0 in cc) in cc),
              )
        | inl t ↦ elim (Bool-cases (is_valid_authorization x a)) [
          | inr v ↦ rw (e, t, v) (a, refl, inl v)
          | inl v ↦
              let own : (p.tenant_id ≡ a.tenant_id) × (a.tenant_id ≢ "") = (
                (eq_iff p.tenant_id a.tenant_id).0 t,
                λ (z : a.tenant_id ≡ "").
                    let u = (eq_iff p.tenant_id "").1 ((eq_iff p.tenant_id a.tenant_id).0 t ∙ z) in
                    cc,
              ) in
              rw (e, t, v, normalize_authorization-eq a v) (of_hash-IsAccepted c w a own v _ refl)
        ]
      ]
    ]

    -- Nothing stands between such an authorization and the store.
    pub accept_delivery-passes :
        (a : Authorization) (hash : String) (body : List ℕ)
        → p.service_id ≡ "corex"
        → Within capability_delivery_write p.capabilities
        → p.tenant_id ≡ a.tenant_id
        → a.tenant_id ≢ ""
        → is_valid_authorization x a ≡ true
        → authorization_hash_and_body x (discard_unknown a) ≡ some (hash, body)
        → require_uuid_v7 x receipt_id ≡ true
        → accept_delivery x append receipt_id p (some a)
          ≡ of_append x append receipt_id
              (input_of x append receipt_id (discard_unknown a) hash body)
              (append (input_of x append receipt_id (discard_unknown a) hash body))
    unfolding accept_delivery
    accept_delivery-passes a hash body c w t n v h i =
        let e : (p.tenant_id == "") ≡ false = elim (Bool-cases (p.tenant_id == "")) [
          | inl z ↦ absurd (n (sym t ∙ (eq_iff p.tenant_id "").0 z))
          | inr z ↦ z
        ] in
        rw
          (
            (eq_iff p.service_id "corex").1 c,
            has_capability-of_Within p.capabilities capability_delivery_write w,
            e,
            (eq_iff p.tenant_id a.tenant_id).1 t,
            v,
            normalize_authorization-eq a v,
            h,
            i,
          )
          refl

    -- A receipt is given only to the service corex, where it holds the capability and the tenant of the
    -- authorization is its own and not empty, for a valid authorization; what was appended is that
    -- authorization without unknown fields under its hash, and the receipt bears its ids and deadline and
    -- what the store answered. A failure after the append is the store's; a failure with nothing appended
    -- has the reason that its kind names, and is never a conflict.
    pub accept_delivery-IsAccepted :
        (o : Option Authorization)
        → IsAccepted o
            (accept_delivery x append receipt_id p o).appended
            (accept_delivery x append receipt_id p o).answer
    unfolding accept_delivery
    accept_delivery-IsAccepted o = elim (Bool-cases (p.service_id == "corex")) [
      | inr c ↦
          rw c (λ (e : p.service_id ≡ "corex"). let u = (eq_iff p.service_id "corex").1 e in cc)
      | inl c ↦ elim (Bool-cases (has_capability p.capabilities capability_delivery_write)) [
        | inr h ↦
            rw (c, h)
              (
                (eq_iff p.service_id "corex").0 c,
                inl (λ w. let u = has_capability-of_Within p.capabilities _ w in cc),
              )
        | inl h ↦
            rw (c, h)
              (of_present-IsAccepted o ((eq_iff p.service_id "corex").0 c)
                (has_capability-Within p.capabilities _ h))
      ]
    ]
