-- ===== src/Common/Framing.antt =====
-- Go's `binary.BigEndian.PutUint64` and parts framed by their length, as byte lists.
use Prim.Native.Nat.{ℕ, zero, suc, ◌/◌, ◌%◌, ◌^◌, ◌<◌}
use mathlib.Core.Path.{◌≡◌, refl, sym, ◌∙◌}
use mathlib.Core.List.{List, [], ◌∷◌, ◌++◌, append_assoc}
use native.Mathlib.Omega.{arith}
use native.Mathlib.Numerals.{unary_clauses}
use relaypoint.Common.Lists.{length, length-append}

-- The lowest `k` bytes of `n`, the highest first.
unfoldable pub big_endian : ℕ → ℕ → List ℕ
big_endian zero n = []
big_endian (suc k) n = big_endian k (n / 256) ++ n % 256 ∷ []

-- `binary.BigEndian.PutUint64(n[:], uint64(len(b))); h.Write(n[:]); h.Write(b)`.
unfoldable pub put_part : List ℕ → List ℕ
put_part b = big_endian 8 (length b) ++ b

unfoldable pub put_parts : List (List ℕ) → List ℕ
put_parts [] = []
put_parts (b ∷ bs) = put_part b ++ put_parts bs

append-split :
    (xs ys r s : List ℕ) → length xs ≡ length ys → xs ++ r ≡ ys ++ s → (xs ≡ ys) × (r ≡ s)
append-split [] [] r s l e = (refl, e)
append-split [] (y ∷ ys) r s l e = absurd (omega arith)
append-split (x ∷ xs) [] r s l e = absurd (omega arith)
append-split (x ∷ xs) (y ∷ ys) r s l e =
    let (a, b) = append-split xs ys r s (omega arith) (cc) in (cc, b)

pub length-big_endian : (k n : ℕ) → length (big_endian k n) ≡ k
unfolding big_endian
length-big_endian zero n = refl
length-big_endian (suc k) n =
    length-append (big_endian k (n / 256)) (n % 256 ∷ [])
    ∙ omega (arith, length-big_endian k (n / 256))

digit_bound : (k n : ℕ) → n < 256 ^ suc k → n / 256 < 256 ^ k
digit_bound k n h = let g = simp unary_clauses at h in omega (arith, g)

pub big_endian-injective :
    (k n m : ℕ) → n < 256 ^ k → m < 256 ^ k → big_endian k n ≡ big_endian k m → n ≡ m
unfolding big_endian
big_endian-injective zero n m h g e = omega arith
big_endian-injective (suc k) n m h g e =
    let (a, b) =
      append-split (big_endian k (n / 256)) (big_endian k (m / 256)) _ _
        (length-big_endian k (n / 256) ∙ sym (length-big_endian k (m / 256))) e in
    let c = big_endian-injective k (n / 256) (m / 256) (digit_bound k n h) (digit_bound k m g) a in
    let d : n % 256 ≡ m % 256 = cc in omega arith

-- Every part is shorter than a `uint64` can say.
abbrev pub AreSized : List (List ℕ) → Type 0
AreSized [] = Unit {0}
AreSized (b ∷ bs) = (length b < 2 ^ 64) × AreSized bs

put_part-injective :
    (a b r s : List ℕ)
    → length a < 2 ^ 64
    → length b < 2 ^ 64
    → put_part a ++ r ≡ put_part b ++ s
    → (a ≡ b) × (r ≡ s)
unfolding put_part
put_part-injective a b r s h g e =
    let (x, y) =
      append-split (big_endian 8 (length a)) (big_endian 8 (length b)) (a ++ r) (b ++ s)
        (length-big_endian 8 (length a) ∙ sym (length-big_endian 8 (length b)))
        (sym (append_assoc (big_endian 8 (length a)) a r)
          ∙ e
          ∙ append_assoc (big_endian 8 (length b)) b s) in
    append-split a b r s
      (big_endian-injective 8 (length a) (length b) (omega arith) (omega arith) x) y

pub put_parts-injective :
    (cs bs : List (List ℕ))
    → length cs ≡ length bs
    → AreSized cs
    → AreSized bs
    → put_parts cs ≡ put_parts bs
    → cs ≡ bs
unfolding put_parts
put_parts-injective [] [] l h g e = refl
put_parts-injective [] (b ∷ bs) l h g e = absurd (omega arith)
put_parts-injective (a ∷ cs) [] l h g e = absurd (omega arith)
put_parts-injective (a ∷ cs) (b ∷ bs) l (h, hs) (g, gs) e =
    let (x, y) = put_part-injective a b (put_parts cs) (put_parts bs) h g e in
    let z = put_parts-injective cs bs (omega arith) hs gs y in cc
