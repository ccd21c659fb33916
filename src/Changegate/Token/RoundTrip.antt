-- ===== src/Changegate/Token/RoundTrip.antt =====
-- `Sign` and `Verify` of internal/changegate/passport.go, one after the other.
use Prim.Native.String.{◌++◌ as text_append}
use text.Mathlib.TextLemmas.{append_assoc}
use changeguard.Prelude.{
  ◌≤◌, String, ◌≡◌, ◌≢◌, refl, ap, sym, ◌∙◌, true, false, not, ◌||◌, ◌==◌, Option, none, some, List,
  [], ◌∷◌, length, arith, nat_eq, ltb, codes_eq, eq_iff, Bool-cases, inl, inr, subst,
}
use changeguard.Model.{
  malformed_token, invalid_signature, Result, ok, ◌>>=◌, ◌>>◌, require, bind-ok, require-then,
  ok-injective,
}
use changeguard.Changegate.Token.Split.{split, has_dot, split-dotless, split-append}
use changeguard.Changegate.Token.{
  PassportClaims, Bytes, Codec, signing_input, sign, well_formed, read, verify_parts, verify_split,
  verify,
}

codes_eq_refl : (b : Bytes) → codes_eq b b ≡ true
codes_eq_refl [] = refl
codes_eq_refl (x ∷ b) = ground (arith, codes_eq_refl b)

codes_eq-eq : (a b : Bytes) → codes_eq a b ≡ true → a ≡ b
codes_eq-eq [] [] h = refl
codes_eq-eq [] (y ∷ b) h = absurd (ground arith)
codes_eq-eq (x ∷ a) [] h = absurd (ground arith)
codes_eq-eq (x ∷ a) (y ∷ b) h = ground (arith, codes_eq-eq a b)

same_token :
    (e m : String)
    → text_append (signing_input e) (text_append "." m)
      ≡ text_append "cg1" (text_append "." (text_append e (text_append "." m)))
same_token e m =
    append_assoc "cg1." e (text_append "." m)
    ∙ append_assoc "cg1" "." (text_append e (text_append "." m))

split_token :
    (e m : String)
    → has_dot e ≡ false
    → has_dot m ≡ false
    → split (text_append (signing_input e) (text_append "." m)) ≡ "cg1" ∷ e ∷ m ∷ []
split_token e m he hm =
    ap split (same_token e m)
    ∙ split-append "cg1" (text_append e (text_append "." m)) (unfold has_dot in refl)
    ∙ ap (λ parts. "cg1" ∷ parts)
        (split-append e m he ∙ ap (λ parts. e ∷ parts) (split-dotless m hm))

module _ (x : Codec) (key : Bytes) where
  not_empty : (b : Bytes) → b ≢ [] → (x.encode b == "") ≡ false
  not_empty b n = elim (Bool-cases (x.encode b == "")) [
    | inl h ↦ absurd (n (x.encode_filled b ((eq_iff (x.encode b) "").0 h)))
    | inr h ↦ h
  ]

  mac_filled : (s : String) → x.mac key s ≢ []
  mac_filled s e = absurd (omega (arith, x.length-mac key s, ap length e))

  verify_parts-made :
      (claims : PassportClaims)
      → well_formed claims ≡ true
      → verify_parts x key "cg1"
          (x.encode (x.marshal claims))
          (x.encode (x.mac key (signing_input (x.encode (x.marshal claims)))))
        ≡ ok claims
  unfolding verify_parts
  verify_parts-made claims well =
      let e = x.encode (x.marshal claims) in
      let mac = x.mac key (signing_input e) in
      let same : text_append "cg1" (text_append "." e) ≡ signing_input e =
        sym (append_assoc "cg1" "." e) in
      rw (
        same,
        not_empty (x.marshal claims) (x.marshal_filled claims),
        not_empty mac (mac_filled (signing_input e)),
        x.decode-encode mac,
        x.length-mac key (signing_input e),
        codes_eq_refl mac,
        x.decode-encode (x.marshal claims),
        x.unmarshal-marshal claims,
        well,
      )

  sign_long :
      (claims : PassportClaims) (token : String)
      → sign x key claims ≡ ok token
      → ltb (length key) 32 ≡ false
  unfolding sign
  sign_long claims token h = elim (Bool-cases (ltb (length key) 32)) [
    | inl short ↦ absurd (ground (arith, rw (short, sign) at h))
    | inr long ↦ long
  ]

  -- A token that `Sign` makes of claims that name a passport, a change and an artifact and expire
  -- after their issue is one that `Verify` reads as these claims in version 1.
  pub verify-sign :
      (claims : PassportClaims) (token : String)
      → well_formed (record claims { version = 1 }) ≡ true
      → sign x key claims ≡ ok token
      → verify x key token ≡ ok (record claims { version = 1 })
  unfolding sign verify
  verify-sign claims token well h =
      let signed = record claims { version = 1 } in
      let e = x.encode (x.marshal signed) in
      let m = x.encode (x.mac key (signing_input e)) in
      let key_fits = sign_long claims token h in
      let made : token ≡ text_append (signing_input e) (text_append "." m) = sym (
        ok-injective (text_append (signing_input e) (text_append "." m)) token
          (rw key_fits at h)) in
      rw (made, key_fits)
        (rw
          (split_token e m (x.encode_dotless (x.marshal signed))
            (x.encode_dotless (x.mac key (signing_input e))))
          (verify_parts-made signed well))

-- the three parts of a token, the last of which is the key's code of the first two
pub record IsAuthentic (x : Codec) (key : Bytes) (token : String) (claims : PassportClaims)
    : Type 0 where
  pub payload : String
  pub signature : String
  pub bytes : Bytes
  pub parts : split token ≡ "cg1" ∷ payload ∷ signature ∷ []
  pub coded : x.decode signature ≡ some (x.mac key (text_append "cg1" (text_append "." payload)))
  pub decoded : x.decode payload ≡ some bytes
  pub read_as : x.unmarshal bytes ≡ some claims
  pub well : well_formed claims ≡ true
  pub long_key : 32 ≤ length key

read-ok : {A : Type 0} (o : Option A) (a : A) → read o ≡ ok a → o ≡ some a
read-ok none a h = absurd (ground arith)
read-ok (some b) a h = ap (λ z. some z) (ok-injective b a h)

module _ (x : Codec) (key : Bytes) (claims : PassportClaims) where
  abbrev decoded_claims : Bytes → Result PassportClaims
  decoded_claims bytes =
      read (x.unmarshal bytes) >>= (λ c. require malformed_token (well_formed c) >> ok c)

  abbrev coded_claims : String → String → Bytes → Result PassportClaims
  coded_claims scheme payload provided =
      require malformed_token (nat_eq (length provided) 32)
      >> (require invalid_signature
            (codes_eq provided (x.mac key (text_append scheme (text_append "." payload))))
          >> (read (x.decode payload) >>= decoded_claims))

  verify_parts-ok :
      (token scheme payload signature : String)
      → 32 ≤ length key
      → split token ≡ scheme ∷ payload ∷ signature ∷ []
      → verify_parts x key scheme payload signature ≡ ok claims
      → IsAuthentic x key token claims
  unfolding verify_parts
  verify_parts-ok token scheme payload signature long parts h =
      let (named, h₁) =
        require-then malformed_token
          (not (not (scheme == "cg1") || payload == "" || signature == "")) _ claims h in
      let (provided, ph, h₂) =
        bind-ok (read (x.decode signature)) (coded_claims scheme payload) claims h₁ in
      let (_, h₃) = require-then malformed_token (nat_eq (length provided) 32) _ claims h₂ in
      let (same, h₄) =
        require-then invalid_signature
          (codes_eq provided (x.mac key (text_append scheme (text_append "." payload)))) _ claims
          h₃ in
      let (bytes, bh, h₅) = bind-ok (read (x.decode payload)) decoded_claims claims h₄ in
      let (c, ch, h₆) =
        bind-ok (read (x.unmarshal bytes)) (λ c. require malformed_token (well_formed c) >> ok c)
          claims h₅ in
      let (well, h₇) = require-then malformed_token (well_formed c) (ok c) claims h₆ in
      let scheme_eq : scheme ≡ "cg1" = ground (arith, eq_iff scheme "cg1") in
      let coded : provided ≡ x.mac key (text_append scheme (text_append "." payload)) =
        codes_eq-eq provided (x.mac key (text_append scheme (text_append "." payload))) same in
      record {
        payload = payload;
        signature = signature;
        bytes = bytes;
        parts = parts ∙ ap (λ z. z ∷ payload ∷ signature ∷ []) scheme_eq;
        coded =
            read-ok (x.decode signature) provided ph
            ∙ ap (λ z. some z)
                (coded ∙ ap (λ z. x.mac key (text_append z (text_append "." payload))) scheme_eq);
        decoded = read-ok (x.decode payload) bytes bh;
        read_as = read-ok (x.unmarshal bytes) c ch ∙ ap (λ z. some z) (ok-injective c claims h₇);
        well = subst (λ z. well_formed z ≡ true) (ok-injective c claims h₇) well;
        long_key = long;
      }

  verify_split-ok :
      (token : String) (parts : List String)
      → 32 ≤ length key
      → split token ≡ parts
      → verify_split x key parts ≡ ok claims
      → IsAuthentic x key token claims
  verify_split-ok token [] long e h = absurd (ground arith)
  verify_split-ok token (a ∷ []) long e h = absurd (ground arith)
  verify_split-ok token (a ∷ b ∷ []) long e h = absurd (ground arith)
  verify_split-ok token (a ∷ b ∷ c ∷ []) long e h = verify_parts-ok token a b c long e h
  verify_split-ok token (a ∷ b ∷ c ∷ d ∷ r) long e h = absurd (ground arith)

  -- `Verify` accepts a token only with a key of at least 32 bytes, of three parts with the scheme
  -- cg1 first and the HMAC of the first two last, for the claims that the payload decodes to, which
  -- are of version 1, name a passport, a change and an artifact, and expire after their issue.
  pub verify-IsAuthentic :
      (token : String) → verify x key token ≡ ok claims → IsAuthentic x key token claims
  unfolding verify
  verify-IsAuthentic token h = elim (Bool-cases (ltb (length key) 32)) [
    | inl short ↦ absurd (ground arith)
    | inr long ↦ verify_split-ok token (split token) (ground arith) refl (rw long at h)
  ]
