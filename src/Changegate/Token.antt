-- ===== src/Changegate/Token.antt =====
-- internal/changegate/passport.go: the claims of a passport and the token that carries them. The
-- service sees a signer as a record of `sign` and `verify`; `signer_of` is the program's, over the
-- HMAC, the base64 and the JSON of Go's library.
pub mod Split
pub mod RoundTrip
use Prim.Native.String.{◌++◌ as text_append}
use changeguard.Prelude.{
  ℕ, ◌*◌, ◌≤◌, String, ◌≡◌, ◌≢◌, Bool, true, false, not, ◌||◌, Option, none, some, List, [], ◌∷◌,
  ◌==◌, leb, ltb, nat_eq, length, if◌then◌else◌, codes_eq,
}
use changeguard.Model.Status.{Time, second}
use changeguard.Model.{
  Err, signer_not_configured, malformed_token, invalid_signature, Result, ok, err, ◌>>=◌, ◌>>◌,
  require,
}
use changeguard.Changegate.Token.Split.{split, has_dot}

pub record PassportClaims : Type 0 where
  pub version : ℕ
  pub passport_id : String
  pub organization_id : String
  pub change_id : String
  pub artifact_sha256 : String
  pub environment : String
  pub rule_set_version : String
  pub approver_id : String
  pub issued_at_unix : ℕ
  pub expires_at_unix : ℕ

-- a signer with its key
pub record Signer : Type 0 where
  pub sign : PassportClaims → Result String
  pub verify : String → Result PassportClaims

abbrev pub Bytes : Type 0
Bytes = List ℕ

-- HMAC-SHA256 under a key, base64 without padding, and JSON that refuses unknown fields; what the
-- token relies on of them
pub record Codec : Type 0 where
  pub mac : Bytes → String → Bytes
  pub encode : Bytes → String
  pub decode : String → Option Bytes
  pub marshal : PassportClaims → Bytes
  pub unmarshal : Bytes → Option PassportClaims
  pub length-mac : (key : Bytes) (s : String) → length (mac key s) ≡ 32
  pub decode-encode : (b : Bytes) → decode (encode b) ≡ some b
  pub encode_dotless : (b : Bytes) → has_dot (encode b) ≡ false
  pub encode_filled : (b : Bytes) → encode b ≡ "" → b ≡ []
  pub unmarshal-marshal : (c : PassportClaims) → unmarshal (marshal c) ≡ some c
  pub marshal_filled : (c : PassportClaims) → marshal c ≢ []

abbrev signing_input : String → String
signing_input encoded = text_append "cg1." encoded

-- `Sign`
unfoldable pub sign : Codec → Bytes → PassportClaims → Result String
sign x key claims =
    if ltb (length key) 32
    then err signer_not_configured
    else let input = signing_input (x.encode (x.marshal (record claims { version = 1 }))) in
      ok (text_append input (text_append "." (x.encode (x.mac key input))))

-- the claims that `Verify` accepts
abbrev pub well_formed : PassportClaims → Bool
well_formed c = not (
    not (nat_eq c.version 1)
    || c.passport_id == ""
    || c.change_id == ""
    || c.artifact_sha256 == ""
    || leb c.expires_at_unix c.issued_at_unix)

abbrev read : {A : Type 0} → Option A → Result A
read none = err malformed_token
read (some a) = ok a

-- `Verify` of the three parts of a token
unfoldable pub verify_parts : Codec → Bytes → String → String → String → Result PassportClaims
verify_parts x key scheme payload signature =
    require malformed_token (not (not (scheme == "cg1") || payload == "" || signature == ""))
    >> (read (x.decode signature) >>= (λ provided.
        require malformed_token (nat_eq (length provided) 32)
        >> (require invalid_signature
              (codes_eq provided (x.mac key (text_append scheme (text_append "." payload))))
            >> (read (x.decode payload) >>= (λ bytes.
                read (x.unmarshal bytes)
                >>= (λ claims. require malformed_token (well_formed claims) >> ok claims))))))

abbrev verify_split : Codec → Bytes → List String → Result PassportClaims
verify_split x key (scheme ∷ payload ∷ signature ∷ []) = verify_parts x key scheme payload signature
verify_split x key parts = err malformed_token

-- `Verify`
unfoldable pub verify : Codec → Bytes → String → Result PassportClaims
unfolding split verify_parts
verify x key token =
    if ltb (length key) 32 then err signer_not_configured else verify_split x key (split token)

-- the signer that `NewSigner` makes of a key
abbrev pub signer_of : Codec → Bytes → Signer
signer_of x key = record { sign = sign x key; verify = verify x key }

-- `ClaimsTimes`
abbrev pub issued_at : PassportClaims → Time
issued_at claims = claims.issued_at_unix * second

abbrev pub expires_at : PassportClaims → Time
expires_at claims = claims.expires_at_unix * second
