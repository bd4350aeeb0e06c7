-- ===== src/Signaling/Hash.antt =====
-- internal/signaling/router.go: the payload hash that a command id is bound to.
use relaypoint.Common.{
  ℕ, String, ◌≡◌, refl, List, [], ◌∷◌, put_parts, put_parts-injective, AreSized,
}
use relaypoint.Signaling.Wire.{Command}

-- `bytes` is `[]byte(s)`, and `digest` the hexadecimal text of the third-party SHA-256.
module _ (bytes : String → List ℕ) (digest : List ℕ → String) where
  unfoldable pub payload_parts : Command → List (List ℕ)
  payload_parts c =
      bytes c.tenant_id
      ∷ bytes c.actor_id
      ∷ bytes c.type_name
      ∷ bytes c.medium
      ∷ bytes c.ref_id
      ∷ c.body
      ∷ []

  unfoldable pub hash_payload : Command → String
  unfolding payload_parts
  hash_payload c = digest (put_parts (payload_parts c))

  -- Two commands whose payload hashes agree agree in tenant, author, type, medium, reference and data,
  -- whatever their command ids, when the digest tells the two hashed inputs apart, texts are told apart
  -- by their bytes, and each field is shorter than 2 ^ 64 bytes.
  pub hash_payload-injective :
      (c d : Command)
      → ((s t : String) → bytes s ≡ bytes t → s ≡ t)
      → (digest (put_parts (payload_parts c)) ≡ digest (put_parts (payload_parts d))
          → put_parts (payload_parts c) ≡ put_parts (payload_parts d))
      → AreSized (payload_parts c)
      → AreSized (payload_parts d)
      → hash_payload c ≡ hash_payload d
      → (c.tenant_id ≡ d.tenant_id)
        × (c.actor_id ≡ d.actor_id)
        × (c.type_name ≡ d.type_name)
        × (c.medium ≡ d.medium)
        × (c.ref_id ≡ d.ref_id)
        × (c.body ≡ d.body)
  unfolding hash_payload
  hash_payload-injective c d inj tells h g e =
      let q = put_parts-injective (payload_parts c) (payload_parts d) refl h g (tells e) in
      (inj _ _ cc, inj _ _ cc, inj _ _ cc, inj _ _ cc, inj _ _ cc, cc)
