-- ===== src/Common/Assoc.antt =====
-- Go maps with text keys, as association lists; an update of a key that is there keeps its place.
use Prim.Native.Nat.{suc, ◌≤◌}
use Prim.Native.String.{String}
use mathlib.Core.Path.{◌≡◌, refl}
use mathlib.Core.Bool.{Bool, true, false}
use mathlib.Core.List.{List, [], ◌∷◌}
use mathlib.Core.Option.{Option, none, some}
use native.Mathlib.Omega.{arith}
use text.Mathlib.TextEquality.{eq_iff}
use text.Mathlib.Text.{◌==◌}
use relaypoint.Common.Tests.{if◌then◌else◌}
use relaypoint.Common.Lists.{length}

abbrev pub Map {ℓ} : Type ℓ → Type ℓ
Map V = List (String × V)

module _ {ℓ} {V : Type ℓ} where
  unfoldable pub lookup : String → Map V → Option V
  lookup key [] = none
  lookup key ((held, new) ∷ entries) = if held == key then some new else lookup key entries

  unfoldable pub insert : String → V → Map V → Map V
  insert key new [] = (key, new) ∷ []
  insert key new ((held, old) ∷ entries) =
      if held == key then (key, new) ∷ entries else (held, old) ∷ insert key new entries

  -- `delete(m, k)`.
  unfoldable pub erase : String → Map V → Map V
  erase key [] = []
  erase key ((held, new) ∷ entries) =
      let rest = erase key entries in if held == key then rest else (held, new) ∷ rest

  abbrev pub has : Option V → Bool
  has none = false
  has (some new) = true

  pub lookup-insert :
      (key held : String) (new : V) (entries : Map V)
      → lookup held (insert key new entries)
        ≡ (if key == held then some new else lookup held entries)
  unfolding lookup insert
  lookup-insert key held new [] = refl
  lookup-insert key held new ((i, old) ∷ entries) =
      ground
        (arith, eq_iff key held, eq_iff i key, eq_iff i held, lookup-insert key held new entries)

  pub lookup-erase :
      (key held : String) (entries : Map V)
      → lookup held (erase key entries) ≡ (if key == held then none else lookup held entries)
  unfolding lookup erase
  lookup-erase key held [] = ground arith
  lookup-erase key held ((i, new) ∷ entries) =
      ground (arith, lookup-erase key held entries, eq_iff i key, eq_iff i held, eq_iff key held)

  pub length-insert :
      (key : String) (new : V) (entries : Map V)
      → length (insert key new entries)
        ≡ (if has (lookup key entries) then length entries else suc (length entries))
  unfolding lookup insert
  length-insert key new [] = refl
  length-insert key new ((held, old) ∷ entries) = ground (arith, length-insert key new entries)

  pub length-erase-le :
      (key : String) (entries : Map V) → length (erase key entries) ≤ length entries
  unfolding erase
  length-erase-le key [] = omega arith
  length-erase-le key ((held, new) ∷ entries) = ground (arith, length-erase-le key entries)

  -- A predicate of every entry.
  abbrev pub Each : (String → V → Type 0) → Map V → Type 0
  Each P [] = Unit {0}
  Each P ((held, value) ∷ entries) = P held value × Each P entries

  pub lookup-Each :
      (P : String → V → Type 0) (key : String) (value : V) (entries : Map V)
      → Each P entries
      → lookup key entries ≡ some value
      → P key value
  unfolding lookup
  lookup-Each P key value [] e h = absurd (cc)
  lookup-Each P key value ((held, old) ∷ entries) (p, e) h =
      ground (arith, eq_iff held key, lookup-Each P key value entries e)

  pub Each-insert :
      (P : String → V → Type 0) (key : String) (new : V) (entries : Map V)
      → Each P entries
      → P key new
      → Each P (insert key new entries)
  unfolding insert
  Each-insert P key new [] e p = (p, tt)
  Each-insert P key new ((held, old) ∷ entries) (q, e) p =
      ground (arith, Each-insert P key new entries e p)

  pub Each-erase :
      (P : String → V → Type 0) (key : String) (entries : Map V)
      → Each P entries
      → Each P (erase key entries)
  unfolding erase
  Each-erase P key [] e = tt
  Each-erase P key ((held, old) ∷ entries) (q, e) = ground (arith, Each-erase P key entries e)

  pub Each-mono :
      (P Q : String → V → Type 0) (entries : Map V)
      → ((key : String) (value : V) → P key value → Q key value)
      → Each P entries
      → Each Q entries
  Each-mono P Q [] f e = tt
  Each-mono P Q ((held, old) ∷ entries) f (q, e) = (f held old q, Each-mono P Q entries f e)

module _ {V : Type 0} where
  -- Every key stands once.
  abbrev pub Distinct : Map V → Type 0
  Distinct [] = Unit {0}
  Distinct ((held, old) ∷ entries) = (lookup held entries ≡ none) × Distinct entries

  pub Distinct-insert :
      (key : String) (new : V) (entries : Map V)
      → Distinct entries
      → Distinct (insert key new entries)
  unfolding lookup insert
  Distinct-insert key new [] d = (refl, tt)
  Distinct-insert key new ((held, old) ∷ entries) (n, d) = ground (
    arith,
    eq_iff held key,
    eq_iff key held,
    lookup-insert key held new entries,
    Distinct-insert key new entries d,
  )
