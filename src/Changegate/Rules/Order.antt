-- ===== src/Changegate/Rules/Order.antt =====
-- `RuleSetVersion` of internal/changegate/integrity.go and the order of the policies.
use Prim.Native.Char.{Char, code}
use Prim.Native.Nat.{Ordering, compare as compare_nat}
use Prim.Native.String.{String, ◌++◌, compare, then as lexical}
use Prim.Native.String as Text
use text.Mathlib.Text.{is_lt}
use text.Mathlib.TextEquality.{Char-path}
use changeguard.Prelude.{
  ◌≡◌, refl, ap, sym, ◌∙◌, subst, Bool, true, false, ◌&&◌, ◌||◌, List, [], ◌∷◌, ltb, nat_eq,
  if◌then◌else◌, filter, arith, ◌==◌, eq_iff, Bool-cases, inl, inr,
}
use mathlib.Core.List.{Permᴰ, Perm}
use mathlib.Core.Logic.{∥∥₁_elim}
use mathlib.Core.HLevel.{hedberg}
use changeguard.Model.{RiskPolicy}
use changeguard.Crypto.{Crypto}
use changeguard.Changegate.Rules.{
  insert_sorted, sort_strings, rule_lines, rule_set_version, describe, join,
}

abbrev before : String → String → Bool
before s t = is_lt (compare s t)

lt-lexical :
    (o r : Ordering)
    → is_lt (lexical o r) ≡ (is_lt o || (elim o [ Ordering.eq ↦ true | _ ↦ false ] && is_lt r))
lt-lexical Ordering.lt r = refl
lt-lexical Ordering.eq r = refl
lt-lexical Ordering.gt r = refl

before-cons :
    (c d : Char) (s t : String)
    → before (String.◌∷◌ c s) (String.◌∷◌ d t)
      ≡ (ltb (code c) (code d) || (nat_eq (code c) (code d) && before s t))
before-cons c d s t =
    ap is_lt (Text.compare.cons-cons c d s t)
    ∙ lt-lexical (compare_nat (code c) (code d)) (compare s t)

before-nil-cons : (d : Char) (t : String) → before String.[] (String.◌∷◌ d t) ≡ true
before-nil-cons d t = ap is_lt (Text.compare.nil-cons d t)

before-cons-nil : (c : Char) (s : String) → before (String.◌∷◌ c s) String.[] ≡ false
before-cons-nil c s = ap is_lt (Text.compare.cons-nil c s)

-- the order is total
before-same : (s t : String) → before s t ≡ false → before t s ≡ false → s ≡ t
before-same String.[] String.[] h g = refl
before-same String.[] (String.◌∷◌ d t) h g = absurd (ground (arith, before-nil-cons d t))
before-same (String.◌∷◌ c s) String.[] h g = absurd (ground (arith, before-nil-cons c s))
before-same (String.◌∷◌ c s) (String.◌∷◌ d t) h g =
    let same : code c ≡ code d = ground (arith, before-cons c d s t, before-cons d c t s) in
    let tail : s ≡ t =
      before-same s t (ground (arith, before-cons c d s t)) (ground (arith, before-cons d c t s)) in
    λ i. String.◌∷◌ (Char-path c d same i) (tail i)

before_asym : (s t : String) → before s t ≡ true → before t s ≡ false
before_asym String.[] String.[] h = refl
before_asym String.[] (String.◌∷◌ d t) h = before-cons-nil d t
before_asym (String.◌∷◌ c s) String.[] h = absurd (ground (arith, before-cons-nil c s))
before_asym (String.◌∷◌ c s) (String.◌∷◌ d t) h = elim (Bool-cases (before s t)) [
  | inl b ↦ ground (arith, before-cons c d s t, before-cons d c t s, before_asym s t b)
  | inr b ↦ ground (arith, before-cons c d s t, before-cons d c t s)
]

before_trans : (s t u : String) → before s t ≡ true → before t u ≡ true → before s u ≡ true
before_trans String.[] t String.[] h g = absurd (ground (arith, before_asym String.[] t h))
before_trans String.[] t (String.◌∷◌ e u) h g = before-nil-cons e u
before_trans (String.◌∷◌ c s) String.[] u h g = absurd (ground (arith, before-cons-nil c s))
before_trans (String.◌∷◌ c s) (String.◌∷◌ d t) String.[] h g =
    absurd (ground (arith, before-cons-nil d t))
before_trans (String.◌∷◌ c s) (String.◌∷◌ d t) (String.◌∷◌ e u) h g =
    ground
      (arith, before-cons c d s t, before-cons d e t u, before-cons c e s u, before_trans s t u)

before_between : (s t u : String) → before u s ≡ true → before u t ≡ false → before t s ≡ true
before_between s t u us ut = elim (Bool-cases (before t s)) [
  | inl ts ↦ ts
  | inr ts ↦ elim (Bool-cases (before s t)) [
    | inl st ↦ absurd (ground (arith, before_trans u s t us st))
    | inr st ↦ absurd (ground (arith, subst (λ z. before u z ≡ true) (before-same s t st ts) us))
  ]
]

insert-alone : (s : String) → insert_sorted s [] ≡ s ∷ []
unfolding insert_sorted
insert-alone s = refl

insert-after :
    (s u : String) (r : List String)
    → before u s ≡ true
    → insert_sorted s (u ∷ r) ≡ u ∷ insert_sorted s r
unfolding insert_sorted
insert-after s u r h = rw h refl

insert-front :
    (s u : String) (r : List String) → before u s ≡ false → insert_sorted s (u ∷ r) ≡ s ∷ u ∷ r
unfolding insert_sorted
insert-front s u r h = rw h refl

-- two that both come first
both_first :
    (s t : String) (r : List String)
    → insert_sorted s r ≡ s ∷ r
    → insert_sorted t r ≡ t ∷ r
    → insert_sorted s (insert_sorted t r) ≡ insert_sorted t (insert_sorted s r)
both_first s t r hs ht = elim (Bool-cases (before t s)) [
  | inl ts ↦
      ap (insert_sorted s) ht
      ∙ insert-after s t r ts
      ∙ ap (λ z. t ∷ z) hs
      ∙ sym (ap (insert_sorted t) hs ∙ insert-front t s r (before_asym t s ts))
  | inr ts ↦ elim (Bool-cases (before s t)) [
    | inl st ↦
        ap (insert_sorted s) ht
        ∙ insert-front s t r ts
        ∙ sym (ap (insert_sorted t) hs ∙ insert-after t s r st ∙ ap (λ z. s ∷ z) ht)
    | inr st ↦
        subst (λ z. insert_sorted s (insert_sorted z r) ≡ insert_sorted z (insert_sorted s r))
          (before-same s t st ts) refl
  ]
]

-- one that comes before the head and one that comes after it
one_after :
    (s t u : String) (r : List String)
    → before u s ≡ true
    → before u t ≡ false
    → insert_sorted s (insert_sorted t (u ∷ r)) ≡ insert_sorted t (insert_sorted s (u ∷ r))
one_after s t u r us ut =
    ap (insert_sorted s) (insert-front t u r ut)
    ∙ insert-after s t (u ∷ r) (before_between s t u us ut)
    ∙ ap (λ z. t ∷ z) (insert-after s u r us)
    ∙ sym (ap (insert_sorted t) (insert-after s u r us) ∙ insert-front t u (insert_sorted s r) ut)

insert_swap :
    (s t : String) (r : List String)
    → insert_sorted s (insert_sorted t r) ≡ insert_sorted t (insert_sorted s r)
insert_swap s t [] = both_first s t [] (insert-alone s) (insert-alone t)
insert_swap s t (u ∷ r) = elim (Bool-cases (before u s)) [
  | inl us ↦ elim (Bool-cases (before u t)) [
    | inl ut ↦
        ap (insert_sorted s) (insert-after t u r ut)
        ∙ insert-after s u (insert_sorted t r) us
        ∙ ap (λ z. u ∷ z) (insert_swap s t r)
        ∙ sym
            (ap (insert_sorted t) (insert-after s u r us) ∙ insert-after t u (insert_sorted s r) ut)
    | inr ut ↦ one_after s t u r us ut
  ]
  | inr us ↦ elim (Bool-cases (before u t)) [
    | inl ut ↦ sym (one_after t s u r ut us)
    | inr ut ↦ both_first s t (u ∷ r) (insert-front s u r us) (insert-front t u r ut)
  ]
]

abbrev sorted_lines : List RiskPolicy → List String
sorted_lines policies = sort_strings (rule_lines policies)

-- one policy more
sorted_lines-cons :
    (p : RiskPolicy) (policies : List RiskPolicy)
    → sorted_lines (p ∷ policies) ≡ (
        if p.enabled
        then insert_sorted (describe p) (sorted_lines policies)
        else sorted_lines policies)
unfolding sort_strings rule_lines filter
sorted_lines-cons p policies = elim (Bool-cases p.enabled) [ inl h ↦ rw h refl | inr h ↦ rw h refl ]

abbrev add_if : Bool → String → List String → List String
add_if enabled text r = if enabled then insert_sorted text r else r

add_if_swap :
    (b d : Bool) (s t : String) (r : List String)
    → add_if b s (add_if d t r) ≡ add_if d t (add_if b s r)
add_if_swap true true s t r = insert_swap s t r
add_if_swap true false s t r = refl
add_if_swap false d s t r = refl

abbrev add_line : RiskPolicy → List String → List String
add_line p r = add_if p.enabled (describe p) r

two_lines :
    (p q : RiskPolicy) (l : List RiskPolicy)
    → sorted_lines (p ∷ q ∷ l) ≡ add_line p (add_line q (sorted_lines l))
two_lines p q l = sorted_lines-cons p (q ∷ l) ∙ ap (add_line p) (sorted_lines-cons q l)

sorted_lines-Perm : {xs ys : List RiskPolicy} → Permᴰ xs ys → sorted_lines xs ≡ sorted_lines ys
sorted_lines-Perm Permᴰ.nil = refl
sorted_lines-Perm (Permᴰ.cons {a = a} {b = b} {l₁ = xs} {l₂ = ys} e d) =
    sorted_lines-cons a xs
    ∙ ap (λ p. add_line p (sorted_lines xs)) e
    ∙ ap (add_line b) (sorted_lines-Perm d)
    ∙ sym (sorted_lines-cons b ys)
sorted_lines-Perm (Permᴰ.swap {a = a} {b = b} {a' = a'} {b' = b'} {l = l} e f) =
    two_lines a b l
    ∙ add_if_swap a.enabled b.enabled (describe a) (describe b) (sorted_lines l)
    ∙ ap (λ p. add_line p (add_line a (sorted_lines l))) f
    ∙ ap (λ p. add_line a' (add_line p (sorted_lines l))) e
    ∙ sym (two_lines a' b' l)
sorted_lines-Perm (Permᴰ.trans d e) = sorted_lines-Perm d ∙ sorted_lines-Perm e

String-IsSet : IsSet String
String-IsSet = hedberg (λ s t. elim (Bool-cases (s == t)) [
  | inl h ↦ yes ((eq_iff s t).0 h)
  | inr h ↦ no (λ e. absurd (ground (arith, (eq_iff s t).1 e)))
])

-- Policies in another order have the same rule set version.
pub rule_set_version-Perm :
    (k : Crypto) (xs ys : List RiskPolicy)
    → Perm xs ys
    → rule_set_version k xs ≡ rule_set_version k ys
unfolding rule_set_version
rule_set_version-Perm k xs ys p =
    ∥∥₁_elim p (String-IsSet (rule_set_version k xs) (rule_set_version k ys))
      (λ d. ap (λ items. "sha256:" ++ k.sha256 (join "\n" items)) (sorted_lines-Perm d))
