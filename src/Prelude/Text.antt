-- ===== src/Prelude/Text.antt =====
-- The functions of Go's `strings` and `unicode/utf8` that the program calls, over the native
-- `String`. Letter case is that of ASCII, with the three other letters that Go folds into it.
use Prim.Native.Nat.{ℕ, suc, ◌+◌, ◌-◌}
use Prim.Native.Char.{Char, code}
use Prim.Native.String.{String, char_at}
use mathlib.Core.Path.{◌≡◌, refl}
use mathlib.Core.Bool.{Bool, true, false, ◌&&◌, ◌||◌}
use mathlib.Core.List.{List, [], ◌∷◌}
use native.Mathlib.Omega.{arith}
use changeguard.Prelude.Tests.{ltb, leb, nat_eq, if◌then◌else◌}

-- `unicode.IsSpace`
unfoldable pub is_space : ℕ → Bool
is_space c =
    (leb 9 c && leb c 13)
    || nat_eq c 32
    || nat_eq c 0x85
    || nat_eq c 0xa0
    || nat_eq c 0x1680
    || (leb 0x2000 c && leb c 0x200a)
    || nat_eq c 0x2028
    || nat_eq c 0x2029
    || nat_eq c 0x202f
    || nat_eq c 0x205f
    || nat_eq c 0x3000

-- `strings.TrimLeftFunc(s, unicode.IsSpace)`
unfoldable pub trim_left : String → String
unfolding is_space
trim_left String.[] = String.[]
trim_left (String.◌∷◌ c s) =
    let rest = trim_left s in if is_space (code c) then rest else String.◌∷◌ c s

-- a character in front of a text that is already trimmed on its right
abbrev pub trim_cons : Char → String → String
trim_cons c String.[] = if is_space (code c) then String.[] else String.◌∷◌ c String.[]
trim_cons c (String.◌∷◌ d s) = String.◌∷◌ c (String.◌∷◌ d s)

unfoldable pub trim_right : String → String
unfolding is_space
trim_right String.[] = String.[]
trim_right (String.◌∷◌ c s) = trim_cons c (trim_right s)

-- `strings.TrimSpace`
unfoldable pub trim_space : String → String
unfolding trim_left trim_right
trim_space s = trim_right (trim_left s)

-- `unicode.ToLower`, for the letters that become ASCII letters: U+0130 and U+212A too
unfoldable pub to_lower : ℕ → ℕ
to_lower c =
    if leb 65 c && leb c 90
    then c + 32
    else if nat_eq c 0x130
    then 105
    else if nat_eq c 0x212a
    then 107
    else c

-- one representative for each class of `unicode.SimpleFold` that holds an ASCII letter
unfoldable pub fold : ℕ → ℕ
fold c =
    if leb 65 c && leb c 90
    then c + 32
    else if nat_eq c 0x17f
    then 115
    else if nat_eq c 0x212a
    then 107
    else c

abbrev pub map_codes : (ℕ → ℕ) → String → List ℕ
map_codes f String.[] = []
map_codes f (String.◌∷◌ c s) = f (code c) ∷ map_codes f s

abbrev pub codes_eq : List ℕ → List ℕ → Bool
codes_eq [] [] = true
codes_eq (a ∷ s) (b ∷ t) = nat_eq a b && codes_eq s t
codes_eq _ _ = false

abbrev pub codes_prefix : List ℕ → List ℕ → Bool
codes_prefix s [] = true
codes_prefix [] (b ∷ t) = false
codes_prefix (a ∷ s) (b ∷ t) = nat_eq a b && codes_prefix s t

-- `strings.ToUpper` and `strings.ToLower` on ASCII letters, as texts
abbrev pub upper_char : Char → Char
upper_char c =
    if leb 97 (code c) && leb (code c) 122
    then char_at "ABCDEFGHIJKLMNOPQRSTUVWXYZ" (code c - 97)
    else c

abbrev pub lower_char : Char → Char
lower_char c =
    if leb 65 (code c) && leb (code c) 90
    then char_at "abcdefghijklmnopqrstuvwxyz" (code c - 65)
    else c

abbrev pub map_chars : (Char → Char) → String → String
map_chars f String.[] = String.[]
map_chars f (String.◌∷◌ c s) = String.◌∷◌ (f c) (map_chars f s)

unfoldable pub upper : String → String
upper s = map_chars upper_char s

unfoldable pub lower : String → String
lower s = map_chars lower_char s

uppers : upper (lower "Ci:Gate") ≡ "CI:GATE"
unfolding upper lower
uppers = refl

-- `strings.EqualFold`
unfoldable pub equal_fold : String → String → Bool
unfolding fold
equal_fold s t = codes_eq (map_codes fold s) (map_codes fold t)

-- `strings.HasPrefix(strings.ToLower(s), p)`
unfoldable pub has_prefix_lower : String → String → Bool
unfolding to_lower
has_prefix_lower s p = codes_prefix (map_codes to_lower s) (map_codes (λ c. c) p)

-- `len([]rune(s))`
abbrev pub rune_count : String → ℕ
rune_count String.[] = 0
rune_count (String.◌∷◌ c s) = suc (rune_count s)

abbrev rune_len : ℕ → ℕ
rune_len c = if ltb c 128 then 1 else if ltb c 2048 then 2 else if ltb c 65536 then 3 else 4

abbrev bytes_of : List ℕ → ℕ
bytes_of [] = 0
bytes_of (c ∷ cs) = rune_len c + bytes_of cs

-- `len(s)`: the bytes of its UTF-8
unfoldable pub byte_len : String → ℕ
byte_len s = bytes_of (map_codes (λ c. c) s)

codes_eq_refl : (s : List ℕ) → codes_eq s s ≡ true
codes_eq_refl [] = refl
codes_eq_refl (a ∷ s) = ground (arith, codes_eq_refl s)

pub equal_fold_refl : (s : String) → equal_fold s s ≡ true
unfolding equal_fold
equal_fold_refl s = codes_eq_refl (map_codes fold s)

trims : trim_space " \t ci gate \n" ≡ "ci gate"
unfolding trim_space
trims = refl

folds : equal_fold "Postgres" "POSTGRES" ≡ true
unfolding equal_fold
folds = refl
