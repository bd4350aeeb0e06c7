-- ===== src/Signaling/Subject/Parsing.antt =====
-- `parse_cmd_subject` reads back exactly the subjects of commands.
use Prim.Native.Char.{Char, char}
use text.Mathlib.TextBridge.{to_list, of_list, of_list-to_list, to_list-of_list}
use relaypoint.Common.{
  String, ◌≡◌, ◌≢◌, ◌↔◌, subst, refl, sym, ◌∙◌, ap, List, [], ◌∷◌, ◌++◌, map, some, Bool, true,
  false, not, ◌&&◌, eq_iff, arith, Bool-cases, inl, inr,
}
use relaypoint.Signaling.Subject.{
  Addressed, is_dot, on_first, split_dot, split, of_parts, parse_cmd_subject,
}

abbrev pub dots : List Char
dots = char 46 tt ∷ []

-- The parts with a dot between each two.
abbrev pub join : List (List Char) → List Char
join [] = []
join (p ∷ []) = p
join (p ∷ q ∷ r) = p ++ dots ++ join (q ∷ r)

is_dot-true : (c : Char) → is_dot c ≡ true → c ∷ [] ≡ dots
unfolding is_dot
is_dot-true c h =
    sym (to_list-of_list (c ∷ []))
    ∙ ap to_list ((eq_iff (of_list (c ∷ [])) ".").0 h)
    ∙ to_list-of_list dots

split_dot-cons :
    (l : List Char) → (p : List Char) × (ps : List (List Char)) × (split_dot l ≡ p ∷ ps)
unfolding split_dot
split_dot-cons [] = ([], [], refl)
split_dot-cons (c ∷ l) = elim (Bool-cases (is_dot c)) [
  | inl e ↦ ([], split_dot l, rw e refl)
  | inr e ↦ let (p, ps, h) = split_dot-cons l in (c ∷ p, ps, rw e (ap (on_first c) h))
]

join-on_first : (c : Char) (ps : List (List Char)) → join (on_first c ps) ≡ c ∷ join ps
join-on_first c [] = refl
join-on_first c (p ∷ []) = refl
join-on_first c (p ∷ q ∷ r) = refl

join-split_dot : (l : List Char) → join (split_dot l) ≡ l
unfolding split_dot
join-split_dot [] = refl
join-split_dot (c ∷ l) = elim (Bool-cases (is_dot c)) [
  | inl e ↦
      let (p, ps, h) = split_dot-cons l in
      rw e (
        ap (λ x. join ([] ∷ x)) h
        ∙ ap (λ x. dots ++ join x) (sym h)
        ∙ ap (λ m. dots ++ m) (join-split_dot l)
        ∙ ap (λ m. m ++ l) (sym (is_dot-true c e)))
  | inr e ↦ rw e (join-on_first c (split_dot l) ∙ ap (λ m. c ∷ m) (join-split_dot l))
]

abbrev pub no_dots : List Char → Bool
no_dots [] = true
no_dots (c ∷ l) = not (is_dot c) && no_dots l

abbrev AllClean : List (List Char) → Type 0
AllClean [] = Unit
AllClean (p ∷ ps) = (no_dots p ≡ true) × AllClean ps

on_first-AllClean :
    (c : Char) (ps : List (List Char)) → is_dot c ≡ false → AllClean ps → AllClean (on_first c ps)
on_first-AllClean c [] e h = (rw e refl, tt)
on_first-AllClean c (p ∷ ps) e (h, r) = (rw (e, h) refl, r)

split_dot-AllClean : (l : List Char) → AllClean (split_dot l)
unfolding split_dot
split_dot-AllClean [] = (refl, tt)
split_dot-AllClean (c ∷ l) = elim (Bool-cases (is_dot c)) [
  | inl e ↦ rw e (refl, split_dot-AllClean l)
  | inr e ↦ rw e (on_first-AllClean c (split_dot l) e (split_dot-AllClean l))
]

split_dot-clean : (p : List Char) → no_dots p ≡ true → split_dot p ≡ p ∷ []
unfolding split_dot
split_dot-clean [] h = refl
split_dot-clean (c ∷ p) h = elim (Bool-cases (is_dot c)) [
  | inl e ↦ ground arith
  | inr e ↦ rw (e, split_dot-clean p (ground arith)) refl
]

split_dot-append :
    (p m : List Char) → no_dots p ≡ true → split_dot (p ++ dots ++ m) ≡ p ∷ split_dot m
unfolding split_dot is_dot
split_dot-append [] m h = refl
split_dot-append (c ∷ p) m h = elim (Bool-cases (is_dot c)) [
  | inl e ↦ ground arith
  | inr e ↦ rw (e, split_dot-append p m (ground arith)) refl
]

-- The parts of a command's subject, and the subject with a dot between each two.
abbrev parts_of : Addressed → List String
parts_of at = "tenant" ∷ at.tenant ∷ "interaction" ∷ at.iid ∷ "cmd" ∷ at.identity ∷ []

abbrev pub cmd_subject : Addressed → String
cmd_subject at = of_list (join (map to_list (parts_of at)))

-- A part of a subject that a publisher can name: some text without a dot.
abbrev pub IsToken : String → Type 0
IsToken t = (t ≢ "") × (no_dots (to_list t) ≡ true)

abbrev pub IsAddress : Addressed → Type 0
IsAddress at = IsToken at.tenant × IsToken at.iid × IsToken at.identity

to_list-parts : (ps : List (List Char)) → map to_list (map of_list ps) ≡ ps
to_list-parts [] = refl
to_list-parts (p ∷ ps) = rw (to_list-of_list p, to_list-parts ps) refl

of_list-parts : (ts : List String) → map of_list (map to_list ts) ≡ ts
of_list-parts [] = refl
of_list-parts (t ∷ ts) = rw (of_list-to_list t, of_list-parts ts) refl

-- The split loses nothing, and none of its parts has a dot.
split-join : (s : String) → of_list (join (map to_list (split s))) ≡ s
unfolding split
split-join s =
    ap (λ x. of_list (join x)) (to_list-parts (split_dot (to_list s)))
    ∙ ap of_list (join-split_dot (to_list s))
    ∙ of_list-to_list s

split-AllClean : (s : String) → AllClean (map to_list (split s))
unfolding split
split-AllClean s =
    subst AllClean (sym (to_list-parts (split_dot (to_list s)))) (split_dot-AllClean (to_list s))

of_parts-some :
    (ts : List String) (at : Addressed)
    → of_parts ts ≡ some at
    → (ts ≡ parts_of at) × (at.tenant ≢ "") × (at.iid ≢ "") × (at.identity ≢ "")
unfolding of_parts
of_parts-some [] at h = cc
of_parts-some (a ∷ []) at h = cc
of_parts-some (a ∷ t ∷ []) at h = cc
of_parts-some (a ∷ t ∷ b ∷ []) at h = cc
of_parts-some (a ∷ t ∷ b ∷ i ∷ []) at h = cc
of_parts-some (a ∷ t ∷ b ∷ i ∷ c ∷ []) at h = cc
of_parts-some (a ∷ t ∷ b ∷ i ∷ c ∷ u ∷ []) at h = ground (
  arith,
  eq_iff a "tenant",
  eq_iff b "interaction",
  eq_iff c "cmd",
  eq_iff t "",
  eq_iff i "",
  eq_iff u "",
)
of_parts-some (a ∷ t ∷ b ∷ i ∷ c ∷ u ∷ x ∷ ts) at h = cc

of_parts-parts_of :
    (at : Addressed)
    → at.tenant ≢ ""
    → at.iid ≢ ""
    → at.identity ≢ ""
    → of_parts (parts_of at) ≡ some at
unfolding of_parts
of_parts-parts_of at t i u =
    ground (arith, eq_iff at.tenant "", eq_iff at.iid "", eq_iff at.identity "")

-- Splitting the joined parts gives them back.
split_dot-join :
    (p : List Char) (ps : List (List Char)) → AllClean (p ∷ ps) → split_dot (join (p ∷ ps)) ≡ p ∷ ps
split_dot-join p [] (h, tt) = split_dot-clean p h
split_dot-join p (q ∷ ps) (h, r) =
    split_dot-append p (join (q ∷ ps)) h ∙ ap (λ x. p ∷ x) (split_dot-join q ps r)

no_dots-tenant : no_dots (to_list "tenant") ≡ true
unfolding is_dot
no_dots-tenant = ap no_dots (
    to_list-of_list
      (char 116 tt ∷ char 101 tt ∷ char 110 tt ∷ char 97 tt ∷ char 110 tt ∷ char 116 tt ∷ []))

no_dots-interaction : no_dots (to_list "interaction") ≡ true
unfolding is_dot
no_dots-interaction = ap no_dots (
    to_list-of_list (
      char 105 tt
      ∷ char 110 tt
      ∷ char 116 tt
      ∷ char 101 tt
      ∷ char 114 tt
      ∷ char 97 tt
      ∷ char 99 tt
      ∷ char 116 tt
      ∷ char 105 tt
      ∷ char 111 tt
      ∷ char 110 tt
      ∷ []))

no_dots-cmd : no_dots (to_list "cmd") ≡ true
unfolding is_dot
no_dots-cmd = ap no_dots (to_list-of_list (char 99 tt ∷ char 109 tt ∷ char 100 tt ∷ []))

split-cmd_subject : (at : Addressed) → IsAddress at → split (cmd_subject at) ≡ parts_of at
unfolding split
split-cmd_subject at ((t, t'), (i, i'), (u, u')) =
    ap (λ l. map of_list (split_dot l)) (to_list-of_list (join (map to_list (parts_of at))))
    ∙ ap (map of_list) (
        split_dot-join (to_list "tenant")
          (map to_list (at.tenant ∷ "interaction" ∷ at.iid ∷ "cmd" ∷ at.identity ∷ []))
          (no_dots-tenant, (t', (no_dots-interaction, (i', (no_dots-cmd, (u', tt)))))))
    ∙ of_list-parts (parts_of at)

-- A subject is parsed to an address exactly when it is the subject of that address, and the address
-- has a tenant, an interaction and an identity, each a text that is not empty and has no dot.
pub parse_cmd_subject-exact :
    (s : String) (at : Addressed)
    → (parse_cmd_subject s ≡ some at) ↔ ((s ≡ cmd_subject at) × IsAddress at)
unfolding parse_cmd_subject
parse_cmd_subject-exact s at = (read, written)
  where
    read : of_parts (split s) ≡ some at → (s ≡ cmd_subject at) × IsAddress at
    read h =
        let (q, t, i, u) = of_parts-some (split s) at h in
        let (a, (t', (b, (i', (c, (u', x)))))) =
          subst (λ ts. AllClean (map to_list ts)) q (split-AllClean s) in
        (
          sym (split-join s) ∙ ap (λ ts. of_list (join (map to_list ts))) q,
          ((t, t'), (i, i'), (u, u')),
        )

    written : (s ≡ cmd_subject at) × IsAddress at → of_parts (split s) ≡ some at
    written (e, ((t, t'), (i, i'), (u, u'))) =
        ap (λ x. of_parts (split x)) e
        ∙ ap of_parts (split-cmd_subject at ((t, t'), (i, i'), (u, u')))
        ∙ of_parts-parts_of at t i u
