-- ===== src/Prelude/Trim.antt =====
-- Trimming and changing the case of a text twice.
use Prim.Native.Char.{Char, code}
use Prim.Native.Nat.{ℕ, zero, suc, ◌-◌, ◌+◌, ◌<◌}
use Prim.Native.String.{String, char_at}
use native.Mathlib.Omega.{arith}
use mathlib.Core.Path.{◌≡◌, refl, ap, ◌∙◌}
use mathlib.Core.Logic.{inl, inr}
use mathlib.Core.Bool.{Bool, true, false, ◌&&◌}
use changeguard.Prelude.Tests.{leb, nat_eq, Bool-cases}
use changeguard.Prelude.Text.{
  is_space, trim_left, trim_right, trim_cons, trim_space, upper, lower, upper_char, lower_char,
  map_chars,
}

trim_right-cons :
    (c : Char) (t : String) → trim_right t ≡ t → trim_right (trim_cons c t) ≡ trim_cons c t
unfolding trim_right
trim_right-cons c String.[] h = elim (Bool-cases (is_space (code c))) [
  | inl b ↦ rw b refl
  | inr b ↦ rw b (rw b refl)
]
trim_right-cons c (String.◌∷◌ d s) h = ap (trim_cons c) h

trim_right_twice : (s : String) → trim_right (trim_right s) ≡ trim_right s
unfolding trim_right
trim_right_twice String.[] = refl
trim_right_twice (String.◌∷◌ c s) = trim_right-cons c (trim_right s) (trim_right_twice s)

trim_left-cons :
    (c : Char) (t : String) → is_space (code c) ≡ false → trim_left (trim_cons c t) ≡ trim_cons c t
unfolding trim_left
trim_left-cons c String.[] h = rw h (rw h refl)
trim_left-cons c (String.◌∷◌ d s) h = rw h refl

trim_left-right : (s : String) → trim_left (trim_right (trim_left s)) ≡ trim_right (trim_left s)
unfolding trim_left trim_right
trim_left-right String.[] = refl
trim_left-right (String.◌∷◌ c s) = elim (Bool-cases (is_space (code c))) [
  | inl h ↦ rw h (trim_left-right s)
  | inr h ↦ rw h (trim_left-cons c (trim_right s) h)
]

pub trim_space_twice : (s : String) → trim_space (trim_space s) ≡ trim_space s
unfolding trim_space
trim_space_twice s = ap trim_right (trim_left-right s) ∙ trim_right_twice (trim_left s)

-- a change of case that maps spaces to spaces
module _ (f : Char → Char) (spaces : (c : Char) → is_space (code (f c)) ≡ is_space (code c)) where
  trim_left-map : (s : String) → trim_left (map_chars f s) ≡ map_chars f (trim_left s)
  unfolding trim_left
  trim_left-map String.[] = refl
  trim_left-map (String.◌∷◌ c s) = elim (Bool-cases (is_space (code c))) [
    | inl h ↦ rw (spaces c, h) (trim_left-map s)
    | inr h ↦ rw (spaces c, h) refl
  ]

  trim_cons-map :
      (c : Char) (t : String) → trim_cons (f c) (map_chars f t) ≡ map_chars f (trim_cons c t)
  trim_cons-map c String.[] = elim (Bool-cases (is_space (code c))) [
    | inl h ↦ rw (spaces c, h) refl
    | inr h ↦ rw (spaces c, h) refl
  ]
  trim_cons-map c (String.◌∷◌ d s) = refl

  trim_right-map : (s : String) → trim_right (map_chars f s) ≡ map_chars f (trim_right s)
  unfolding trim_right
  trim_right-map String.[] = refl
  trim_right-map (String.◌∷◌ c s) =
      ap (trim_cons (f c)) (trim_right-map s) ∙ trim_cons-map c (trim_right s)

  trim_space-map : (s : String) → trim_space (map_chars f s) ≡ map_chars f (trim_space s)
  unfolding trim_space
  trim_space-map s = ap trim_right (trim_left-map s) ∙ trim_right-map (trim_left s)

map_chars_twice :
    (f : Char → Char)
    → ((c : Char) → f (f c) ≡ f c)
    → (s : String) → map_chars f (map_chars f s) ≡ map_chars f s
map_chars_twice f h String.[] = refl
map_chars_twice f h (String.◌∷◌ c s) = rw (h c, map_chars_twice f h s) refl

-- a test that holds below a bound
abbrev all_below : ℕ → (ℕ → Bool) → Bool
all_below zero p = true
all_below (suc n) p = p n && all_below n p

all_below-each : (n : ℕ) (p : ℕ → Bool) → all_below n p ≡ true → (i : ℕ) → i < n → p i ≡ true
all_below-each zero p h i l = absurd (ground arith)
all_below-each (suc n) p h i l = elim (Bool-cases (nat_eq i n)) [
  | inl e ↦
      let same : i ≡ n = ground arith in let holds : p n ≡ true = ground arith in ap p same ∙ holds
  | inr e ↦ all_below-each n p (ground arith) i (ground arith)
]

module _ (p : Char → Bool) (letters : String) (first : ℕ)
    (h : all_below 26 (λ i. p (char_at letters i)) ≡ true) where
  letter_holds :
      (c : Char)
      → (leb first (code c) && leb (code c) (first + 25)) ≡ true
      → p (char_at letters (code c - first)) ≡ true
  letter_holds c l =
      all_below-each 26 (λ i. p (char_at letters i)) h (code c - first) (ground arith)

abbrev above : Char → Bool
above c = leb 65 (code c) && leb (code c) 90

abbrev below : Char → Bool
below c = leb 97 (code c) && leb (code c) 122

above-space : (c : Char) → above c ≡ true → is_space (code c) ≡ false
unfolding is_space
above-space c h = ground arith

below-space : (c : Char) → below c ≡ true → is_space (code c) ≡ false
unfolding is_space
below-space c h = ground arith

above-below : (c : Char) → above c ≡ true → below c ≡ false
above-below c h = ground arith

below-above : (c : Char) → below c ≡ true → above c ≡ false
below-above c h = ground arith

upper_char-above :
    (c : Char) → below c ≡ true → above (char_at "ABCDEFGHIJKLMNOPQRSTUVWXYZ" (code c - 97)) ≡ true
upper_char-above = letter_holds above "ABCDEFGHIJKLMNOPQRSTUVWXYZ" 97 refl

lower_char-below :
    (c : Char) → above c ≡ true → below (char_at "abcdefghijklmnopqrstuvwxyz" (code c - 65)) ≡ true
lower_char-below = letter_holds below "abcdefghijklmnopqrstuvwxyz" 65 refl

upper_char-space : (c : Char) → is_space (code (upper_char c)) ≡ is_space (code c)
upper_char-space c = elim (Bool-cases (below c)) [
  | inl h ↦
      rw
        (
          h,
          above-space (char_at "ABCDEFGHIJKLMNOPQRSTUVWXYZ" (code c - 97)) (upper_char-above c h),
          below-space c h,
        )
        refl
  | inr h ↦ rw h refl
]

lower_char-space : (c : Char) → is_space (code (lower_char c)) ≡ is_space (code c)
lower_char-space c = elim (Bool-cases (above c)) [
  | inl h ↦
      rw
        (
          h,
          below-space (char_at "abcdefghijklmnopqrstuvwxyz" (code c - 65)) (lower_char-below c h),
          above-space c h,
        )
        refl
  | inr h ↦ rw h refl
]

upper_char_twice : (c : Char) → upper_char (upper_char c) ≡ upper_char c
upper_char_twice c = elim (Bool-cases (below c)) [
  | inl h ↦ rw h (
      rw (above-below (char_at "ABCDEFGHIJKLMNOPQRSTUVWXYZ" (code c - 97)) (upper_char-above c h))
        refl)
  | inr h ↦ rw h (rw h refl)
]

lower_char_twice : (c : Char) → lower_char (lower_char c) ≡ lower_char c
lower_char_twice c = elim (Bool-cases (above c)) [
  | inl h ↦ rw h (
      rw (below-above (char_at "abcdefghijklmnopqrstuvwxyz" (code c - 65)) (lower_char-below c h))
        refl)
  | inr h ↦ rw h (rw h refl)
]

pub lower_twice : (s : String) → lower (lower s) ≡ lower s
unfolding lower
lower_twice s = map_chars_twice lower_char lower_char_twice s

pub upper_trim_twice :
    (s : String) → upper (trim_space (upper (trim_space s))) ≡ upper (trim_space s)
unfolding upper
upper_trim_twice s =
    ap (map_chars upper_char) (trim_space-map upper_char upper_char-space (trim_space s))
    ∙ map_chars_twice upper_char upper_char_twice (trim_space (trim_space s))
    ∙ ap (map_chars upper_char) (trim_space_twice s)

pub lower_trim_twice :
    (s : String) → lower (trim_space (lower (trim_space s))) ≡ lower (trim_space s)
unfolding lower
lower_trim_twice s =
    ap (map_chars lower_char) (trim_space-map lower_char lower_char-space (trim_space s))
    ∙ map_chars_twice lower_char lower_char_twice (trim_space (trim_space s))
    ∙ ap (map_chars lower_char) (trim_space_twice s)
