-- ===== src/Common/Lists.antt =====
-- Lists measured by native numbers, and predicates on their members by recursion.
use Prim.Native.Nat.{ℕ, zero, suc, ◌+◌}
use mathlib.Core.Path.{◌≡◌, refl, ap, subst, ◌∙◌}
use mathlib.Core.Logic.{◌⊎◌, inl, inr}
use mathlib.Core.List.{List, [], ◌∷◌, ◌++◌}
use native.Mathlib.Omega.{arith}

module _ {ℓ} {A : Type ℓ} where
  abbrev pub length : List A → ℕ
  length [] = 0
  length (x ∷ xs) = suc (length xs)

  pub length-append : (xs ys : List A) → length (xs ++ ys) ≡ length xs + length ys
  length-append [] ys = omega arith
  length-append (x ∷ xs) ys = omega (arith, length-append xs ys)

module _ {A : Type 0} where
  -- Membership that the tactics can open.
  abbrev pub Within : A → List A → Type 0
  Within a [] = ⊥
  Within a (x ∷ xs) = (a ≡ x) ⊎ Within a xs

  pub Within-append_left : (a : A) (xs ys : List A) → Within a xs → Within a (xs ++ ys)
  Within-append_left a (x ∷ xs) ys (inl e) = inl e
  Within-append_left a (x ∷ xs) ys (inr h) = inr (Within-append_left a xs ys h)
  Within-append_left a [] ys h = absurd h

  pub Within-append_right : (a : A) (xs ys : List A) → Within a ys → Within a (xs ++ ys)
  Within-append_right a [] ys h = h
  Within-append_right a (x ∷ xs) ys h = inr (Within-append_right a xs ys h)

module _ {ℓ} {A : Type ℓ} where
  pub append_assoc : (a b c : List A) → a ++ b ++ c ≡ a ++ (b ++ c)
  append_assoc [] b c = refl
  append_assoc (x ∷ a) b c = ap (λ l. x ∷ l) (append_assoc a b c)

  pub append-nil : (a : List A) → a ++ [] ≡ a
  append-nil [] = refl
  append-nil (x ∷ a) = ap (λ l. x ∷ l) (append-nil a)

  -- `xs[:n]` and `xs[n:]`, for an `n` within the list.
  unfoldable pub take : ℕ → List A → List A
  take zero xs = []
  take (suc n) [] = []
  take (suc n) (x ∷ xs) = x ∷ take n xs

  unfoldable pub drop : ℕ → List A → List A
  drop zero xs = xs
  drop (suc n) [] = []
  drop (suc n) (x ∷ xs) = drop n xs

  take_append : (xs ys : List A) → take (length xs) (xs ++ ys) ≡ xs
  unfolding take
  take_append [] ys = refl
  take_append (x ∷ xs) ys = ap (λ l. x ∷ l) (take_append xs ys)

  drop_append : (xs ys : List A) → drop (length xs) (xs ++ ys) ≡ ys
  unfolding drop
  drop_append [] ys = refl
  drop_append (x ∷ xs) ys = drop_append xs ys

  -- `xs[i:i+n]`.
  unfoldable pub slice : ℕ → ℕ → List A → List A
  unfolding take drop
  slice i n xs = take n (drop i xs)

  pub slice_append :
      (i n : ℕ) (xs ys zs : List A)
      → length xs ≡ i
      → length ys ≡ n
      → slice i n (xs ++ ys ++ zs) ≡ ys
  unfolding slice
  slice_append i n xs ys zs a b =
      ap (λ l. take n (drop i l)) (append_assoc xs ys zs)
      ∙ subst (λ k. take n (drop k (xs ++ (ys ++ zs))) ≡ ys) a
          (ap (take n) (drop_append xs (ys ++ zs))
            ∙ subst (λ k. take k (ys ++ zs) ≡ ys) b (take_append ys zs))
