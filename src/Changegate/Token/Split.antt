-- ===== src/Changegate/Token/Split.antt =====
-- `strings.Split(s, ".")`.
use Prim.Native.Char.{Char, code}
use Prim.Native.String.{◌++◌ as text_append}
use text.Mathlib.TextLemmas.{nil-append, cons-append}
use changeguard.Prelude.{
  ap, ◌∙◌, String, ◌≡◌, refl, Bool, false, List, [], ◌∷◌, nat_eq, if◌then◌else◌, ◌||◌, arith,
  Bool-cases, inl, inr,
}

-- a character in front of the first part
abbrev onto : Char → List String → List String
onto c [] = []
onto c (s ∷ parts) = String.◌∷◌ c s ∷ parts

unfoldable pub split : String → List String
split String.[] = "" ∷ []
split (String.◌∷◌ c s) = let rest = split s in if nat_eq (code c) 46 then "" ∷ rest else onto c rest

unfoldable pub has_dot : String → Bool
has_dot String.[] = false
has_dot (String.◌∷◌ c s) = nat_eq (code c) 46 || has_dot s

splits : split "cg1..ab" ≡ "cg1" ∷ "" ∷ "ab" ∷ []
unfolding split
splits = refl

pub split-dotless : (s : String) → has_dot s ≡ false → split s ≡ s ∷ []
unfolding split has_dot
split-dotless String.[] h = refl
split-dotless (String.◌∷◌ c s) h = elim (Bool-cases (nat_eq (code c) 46)) [
  | inl d ↦ absurd (ground arith)
  | inr d ↦ rw d (rw (split-dotless s (ground arith)))
]

pub dot-append : (t : String) → text_append "." t ≡ String.◌∷◌ "." t
dot-append t = cons-append "." String.[] t ∙ ap (String.◌∷◌ ".") (nil-append t)

pub split-append :
    (s t : String) → has_dot s ≡ false → split (text_append s (text_append "." t)) ≡ s ∷ split t
unfolding split has_dot
split-append String.[] t h = rw (nil-append, dot-append) refl
split-append (String.◌∷◌ c s) t h = elim (Bool-cases (nat_eq (code c) 46)) [
  | inl d ↦ absurd (ground arith)
  | inr d ↦ rw cons-append (rw d (rw (split-append s t (ground arith))))
]
