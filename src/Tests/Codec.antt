-- ===== src/Tests/Codec.antt =====
-- A codec for the tests: numbers in unary, claims as the numbers of their characters.
use Prim.Native.Nat.{Ordering, compare}
use Prim.Native.Char.{Char, char, code, nul, IsLt}
use changeguard.Prelude.{
  ℕ, suc, zero, String, ◌≡◌, ◌≢◌, refl, ap, sym, ◌∙◌, false, Option, none, some, List, [], ◌∷◌,
  length, arith, nat_eq, if◌then◌else◌,
}
use changeguard.Changegate.Token.{PassportClaims, Bytes, Codec}
use changeguard.Changegate.Token.Split.{has_dot}

abbrev Scalar : Ordering → Ordering → Ordering → Type 0
Scalar Ordering.lt b c = Unit
Scalar Ordering.eq Ordering.lt c = IsLt c
Scalar Ordering.eq Ordering.eq c = ⊥
Scalar Ordering.eq Ordering.gt c = ⊥
Scalar Ordering.gt Ordering.lt c = IsLt c
Scalar Ordering.gt Ordering.eq c = ⊥
Scalar Ordering.gt Ordering.gt c = ⊥

abbrev in_range : (o : Ordering) → (IsLt o → Char) → Char
in_range Ordering.lt f = f tt
in_range Ordering.eq f = nul
in_range Ordering.gt f = nul

abbrev scalar_char : (a b c : Ordering) → (Scalar a b c → Char) → Char
scalar_char Ordering.lt b c f = f tt
scalar_char Ordering.eq Ordering.lt c f = in_range c f
scalar_char Ordering.eq Ordering.eq c f = nul
scalar_char Ordering.eq Ordering.gt c f = nul
scalar_char Ordering.gt Ordering.lt c f = in_range c f
scalar_char Ordering.gt Ordering.eq c f = nul
scalar_char Ordering.gt Ordering.gt c f = nul

abbrev to_char : ℕ → Char
to_char n = scalar_char (compare n 55296) (compare 57343 n) (compare n 1114112) (char n)

in_range-eq : (o : Ordering) (f : IsLt o → Char) (p : IsLt o) → in_range o f ≡ f p
in_range-eq Ordering.lt f p = refl
in_range-eq Ordering.eq f p = elim p [ ]
in_range-eq Ordering.gt f p = elim p [ ]

scalar_char-eq :
    (a b c : Ordering) (f : Scalar a b c → Char) (p : Scalar a b c) → scalar_char a b c f ≡ f p
scalar_char-eq Ordering.lt b c f p = refl
scalar_char-eq Ordering.eq Ordering.lt c f p = in_range-eq c f p
scalar_char-eq Ordering.gt Ordering.lt c f p = in_range-eq c f p
scalar_char-eq Ordering.eq Ordering.eq c f p = elim p [ ]
scalar_char-eq Ordering.eq Ordering.gt c f p = elim p [ ]
scalar_char-eq Ordering.gt Ordering.eq c f p = elim p [ ]
scalar_char-eq Ordering.gt Ordering.gt c f p = elim p [ ]

to_char-code : (c : Char) → to_char (code c) ≡ c
to_char-code (char n p) =
    scalar_char-eq (compare n 55296) (compare 57343 n) (compare n 1114112) (char n) p

-- a text in front of other numbers
unfoldable put_text : String → Bytes → Bytes
put_text String.[] rest = 0 ∷ rest
put_text (String.◌∷◌ c s) rest = suc (code c) ∷ put_text s rest

abbrev in_first : Char → List String → List String
in_first c [] = []
in_first c (s ∷ texts) = String.◌∷◌ c s ∷ texts

unfoldable take_texts : Bytes → List String
take_texts [] = []
take_texts (zero ∷ rest) = "" ∷ take_texts rest
take_texts (suc n ∷ rest) = in_first (to_char n) (take_texts rest)

take_texts-put_text :
    (s : String) (rest : Bytes) → take_texts (put_text s rest) ≡ s ∷ take_texts rest
unfolding take_texts put_text
take_texts-put_text String.[] rest = refl
take_texts-put_text (String.◌∷◌ c s) rest = rw (to_char-code c, take_texts-put_text s rest) refl

unfoldable put_texts : List String → Bytes
unfolding put_text
put_texts [] = []
put_texts (s ∷ texts) = put_text s (put_texts texts)

take_texts-put_texts : (texts : List String) → take_texts (put_texts texts) ≡ texts
unfolding take_texts put_texts
take_texts-put_texts [] = refl
take_texts-put_texts (s ∷ texts) =
    take_texts-put_text s (put_texts texts) ∙ ap (λ rest. s ∷ rest) (take_texts-put_texts texts)

unfoldable pub marshal : PassportClaims → Bytes
unfolding put_texts
marshal c =
    c.version
    ∷ c.issued_at_unix
    ∷ c.expires_at_unix
    ∷ put_texts (
        c.passport_id ∷ c.organization_id ∷ c.change_id ∷ c.artifact_sha256 ∷ c.environment
        ∷ c.rule_set_version ∷ c.approver_id ∷ [])

abbrev claims_of_texts : ℕ → ℕ → ℕ → List String → Option PassportClaims
claims_of_texts v i e (id ∷ org ∷ change ∷ artifact ∷ env ∷ rules ∷ approver ∷ []) = some (record {
  version = v;
  passport_id = id;
  organization_id = org;
  change_id = change;
  artifact_sha256 = artifact;
  environment = env;
  rule_set_version = rules;
  approver_id = approver;
  issued_at_unix = i;
  expires_at_unix = e;
})
claims_of_texts v i e texts = none

unfoldable pub unmarshal : Bytes → Option PassportClaims
unfolding take_texts
unmarshal (v ∷ i ∷ e ∷ b) = claims_of_texts v i e (take_texts b)
unmarshal b = none

pub unmarshal-marshal_lem : (c : PassportClaims) → unmarshal (marshal c) ≡ some c
unfolding unmarshal marshal
unmarshal-marshal_lem c = ap (claims_of_texts c.version c.issued_at_unix c.expires_at_unix) (
    take_texts-put_texts (
      c.passport_id ∷ c.organization_id ∷ c.change_id ∷ c.artifact_sha256 ∷ c.environment
      ∷ c.rule_set_version ∷ c.approver_id ∷ []))

pub marshal_filled_lem : (c : PassportClaims) → marshal c ≢ []
unfolding marshal
marshal_filled_lem c h = ground arith

-- the numbers of a list in unary
unfoldable unary : ℕ → String → String
unary zero s = String.◌∷◌ "b" s
unary (suc n) s = String.◌∷◌ "a" (unary n s)

unfoldable pub encode : Bytes → String
unfolding unary
encode [] = ""
encode (n ∷ b) = unary n (encode b)

abbrev bump : Bytes → Bytes
bump [] = []
bump (n ∷ b) = suc n ∷ b

abbrev with_char : Char → Option Bytes → Option Bytes
with_char c none = none
with_char c (some b) = some (if nat_eq (code c) 98 then 0 ∷ b else bump b)

unfoldable pub decode : String → Option Bytes
decode String.[] = some []
decode (String.◌∷◌ c s) = with_char c (decode s)

decode-unary :
    (n : ℕ) (s : String) (b : Bytes) → decode s ≡ some b → decode (unary n s) ≡ some (n ∷ b)
unfolding decode unary
decode-unary zero s b h = rw h refl
decode-unary (suc n) s b h = rw (decode-unary n s b h) refl

pub decode-encode_lem : (b : Bytes) → decode (encode b) ≡ some b
unfolding encode decode
decode-encode_lem [] = refl
decode-encode_lem (n ∷ b) = decode-unary n (encode b) b (decode-encode_lem b)

unary_dotless : (n : ℕ) (s : String) → has_dot s ≡ false → has_dot (unary n s) ≡ false
unfolding has_dot unary
unary_dotless zero s h = h
unary_dotless (suc n) s h = unary_dotless n s h

pub encode_dotless_lem : (b : Bytes) → has_dot (encode b) ≡ false
unfolding encode has_dot
encode_dotless_lem [] = refl
encode_dotless_lem (n ∷ b) = unary_dotless n (encode b) (encode_dotless_lem b)

some_injective : (a b : Bytes) → some a ≡ some b → a ≡ b
some_injective a b h = ground arith

pub encode_filled_lem : (b : Bytes) → encode b ≡ "" → b ≡ []
unfolding encode
encode_filled_lem b h =
    some_injective b [] (sym (decode-encode_lem b) ∙ ap decode h ∙ decode-encode_lem [])

unfoldable pub zeros : ℕ → Bytes
zeros zero = []
zeros (suc n) = 0 ∷ zeros n

pub length-zeros : (n : ℕ) → length (zeros n) ≡ n
unfolding zeros
length-zeros zero = refl
length-zeros (suc n) = ap suc (length-zeros n)

-- the code is the key's first number, and zeros up to 32
abbrev first_of : Bytes → ℕ
first_of [] = 0
first_of (n ∷ b) = n

unfoldable pub codec : Codec
unfolding encode decode marshal unmarshal zeros
codec = record {
  mac = λ key s. first_of key ∷ zeros 31;
  encode = encode;
  decode = decode;
  marshal = marshal;
  unmarshal = unmarshal;
  length-mac = λ key s. ap suc (length-zeros 31);
  decode-encode = decode-encode_lem;
  encode_dotless = encode_dotless_lem;
  encode_filled = encode_filled_lem;
  unmarshal-marshal = unmarshal-marshal_lem;
  marshal_filled = marshal_filled_lem;
}

unfoldable pub key : Bytes
unfolding zeros
key = 7 ∷ zeros 31
