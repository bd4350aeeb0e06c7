-- ===== src/Delivery/Store/Keys.antt =====
-- The key of an acknowledgement in internal/deliverypg/store.go is held by one row.
use relaypoint.Common.{
  ℕ, String, ◌≡◌, refl, sym, ap, subst, ◌∙◌, ◌⊎◌, inl, inr, List, [], ◌∷◌, Option, none, some, Bool,
  true, ◌&&◌, ◌||◌, eqb, ltb, eq_iff, eq_refl, arith, Bool-cases, if◌then◌else◌,
}
use relaypoint.Delivery.Store.Rows.{AckRow, is_ack, find_ack, update_ack}
use relaypoint.Delivery.Store.{is_due, sooner, is_candidate, candidate}

abbrev pub Distinct : List AckRow → Type 0
Distinct [] = Unit {0}
Distinct (row ∷ rows) = (find_ack row.tenant_id row.receipt_id rows ≡ none) × Distinct rows

pub is_ack-keys :
    (t r : String) (row : AckRow)
    → is_ack t r row ≡ true
    → (row.tenant_id ≡ t) × (row.receipt_id ≡ r)
is_ack-keys t r row h = ground (arith, eq_iff row.tenant_id t, eq_iff row.receipt_id r)

pub is_ack_self : (row : AckRow) → is_ack row.tenant_id row.receipt_id row ≡ true
is_ack_self row = rw (eq_refl row.tenant_id, eq_refl row.receipt_id) refl

some_injective : (a b : AckRow) → some a ≡ some b → a ≡ b
some_injective a b e = cc

pub find_ack-keys :
    (t r : String) (rows : List AckRow) (row : AckRow)
    → find_ack t r rows ≡ some row
    → (row.tenant_id ≡ t) × (row.receipt_id ≡ r)
unfolding find_ack
find_ack-keys t r [] row f = absurd (cc)
find_ack-keys t r (held ∷ rows) row f = elim (Bool-cases (is_ack t r held)) [
  | inl h ↦ is_ack-keys t r row (let g = rw h at f in rw (← some_injective held row g) h)
  | inr h ↦ find_ack-keys t r rows row (rw h at f)
]

-- A change of a row that leaves its key.
abbrev pub KeepsKey : (AckRow → AckRow) → Type 0
KeepsKey change =
    (row : AckRow)
    → ((change row).tenant_id ≡ row.tenant_id) × ((change row).receipt_id ≡ row.receipt_id)

module _ (t r : String) (change : AckRow → AckRow) (keep : KeepsKey change) where
  abbrev pub changed_row : AckRow → AckRow
  changed_row row = if is_ack t r row then change row else row

  abbrev pub changed : Option AckRow → Option AckRow
  changed none = none
  changed (some row) = some (changed_row row)

  changed_row-keeps :
      (row : AckRow)
      → ((changed_row row).tenant_id ≡ row.tenant_id)
        × ((changed_row row).receipt_id ≡ row.receipt_id)
  changed_row-keeps row = elim (Bool-cases (is_ack t r row)) [
    | inl h ↦ rw h (keep row)
    | inr h ↦ rw h (refl, refl)
  ]

  is_ack-changed_row : (u s : String) (row : AckRow) → is_ack u s (changed_row row) ≡ is_ack u s row
  is_ack-changed_row u s row = let (a, b) = changed_row-keeps row in rw (a, b) refl

  pub find_ack-update_ack :
      (u s : String) (rows : List AckRow)
      → find_ack u s (update_ack t r change rows) ≡ changed (find_ack u s rows)
  unfolding find_ack update_ack
  find_ack-update_ack u s [] = refl
  find_ack-update_ack u s (row ∷ rows) =
      let rest = find_ack-update_ack u s rows in
      elim (Bool-cases (is_ack u s row)) [
        | inl h ↦ rw (is_ack-changed_row u s row, h) refl
        | inr h ↦ rw (is_ack-changed_row u s row, h) rest
      ]

  pub update_ack-Distinct :
      (rows : List AckRow) → Distinct rows → Distinct (update_ack t r change rows)
  unfolding update_ack
  update_ack-Distinct [] d = tt
  update_ack-Distinct (row ∷ rows) (n, d) =
      let (a, b) = changed_row-keeps row in
      (
        rw (a, b) (find_ack-update_ack row.tenant_id row.receipt_id rows ∙ ap changed n),
        update_ack-Distinct rows d,
      )

first_of_three : (a b c : Bool) → (a && b && c) ≡ true → a ≡ true
first_of_three a b c h = ground arith

second_of_three : (a b c : Bool) → (a && b && c) ≡ true → b ≡ true
second_of_three a b c h = ground arith

-- A row that the query `candidate` gives is the row of its key, of the tenant, and due.
module _ (before : String → String → Bool) (locked : String → Bool) (t : String) (now : ℕ) where
  abbrev pub Found : List AckRow → Option AckRow → Type 0
  Found rows none = Unit {0}
  Found rows (some best) =
      (find_ack best.tenant_id best.receipt_id rows ≡ some best)
      × (best.tenant_id ≡ t)
      × (is_due now best ≡ true)

  find_ack-later :
      (row best : AckRow) (rows : List AckRow)
      → find_ack row.tenant_id row.receipt_id rows ≡ none
      → find_ack best.tenant_id best.receipt_id rows ≡ some best
      → find_ack best.tenant_id best.receipt_id (row ∷ rows) ≡ some best
  unfolding find_ack
  find_ack-later row best rows n f = elim (Bool-cases (is_ack best.tenant_id best.receipt_id row)) [
    | inr h ↦ rw h f
    | inl h ↦
        let (a, b) = is_ack-keys best.tenant_id best.receipt_id row h in
        absurd (let g = rw (a, b) at n in cc)
  ]

  Found-later :
      (row : AckRow) (rows : List AckRow) (o : Option AckRow)
      → find_ack row.tenant_id row.receipt_id rows ≡ none
      → Found rows o
      → Found (row ∷ rows) o
  Found-later row rows none n f = tt
  Found-later row rows (some best) n (f, e, d) = (find_ack-later row best rows n f, e, d)

  Found-here :
      (row : AckRow) (rows : List AckRow)
      → is_candidate before locked t now row ≡ true
      → Found (row ∷ rows) (some row)
  unfolding find_ack
  Found-here row rows h = (
    rw (is_ack_self row) refl,
    (eq_iff row.tenant_id t).0 (first_of_three _ _ _ h),
    second_of_three _ _ _ h,
  )

  sooner_cases :
      (row best : AckRow)
      → (sooner before locked row (some best) ≡ row) ⊎ (sooner before locked row (some best) ≡ best)
  sooner_cases row best =
      elim (Bool-cases (
        ltb row.next_attempt_at best.next_attempt_at
        || eqb row.next_attempt_at best.next_attempt_at && before row.receipt_id best.receipt_id)) [
          | inl h ↦ inl (rw h refl)
          | inr h ↦ inr (rw h refl)
        ]

  Found-sooner :
      (row : AckRow) (rows : List AckRow) (o : Option AckRow)
      → Found (row ∷ rows) (some row)
      → Found (row ∷ rows) o
      → Found (row ∷ rows) (some (sooner before locked row o))
  Found-sooner row rows none f g = f
  Found-sooner row rows (some best) f g = elim (sooner_cases row best) [
    | inl e ↦ subst (λ b. Found (row ∷ rows) (some b)) (sym e) f
    | inr e ↦ subst (λ b. Found (row ∷ rows) (some b)) (sym e) g
  ]

  pub candidate-Found :
      (rows : List AckRow) → Distinct rows → Found rows (candidate before locked t now rows)
  unfolding candidate
  candidate-Found [] d = tt
  candidate-Found (row ∷ rows) (n, d) =
      let rest =
        Found-later row rows (candidate before locked t now rows) n (candidate-Found rows d) in
      elim (Bool-cases (is_candidate before locked t now row)) [
        | inl h ↦ rw h (
            Found-sooner row rows (candidate before locked t now rows) (Found-here row rows h) rest)
        | inr h ↦ rw h rest
      ]
