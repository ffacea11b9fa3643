-- ===== src/Scanner/Tls.antt =====
-- backend/scanner/tls.go. crypto/tls is an argument: `dial` gives, for a version that the server
-- accepts, the cipher suite and the ends of validity of the certificates.
-- The clock stands still during the check.
use seagles.Common.{
  ℕ, Bool, true, false, ◌||◌, Option, none, some, List, [], ◌∷◌, ◌++◌, ltb, nat_beq, any,
  if◌then◌else◌,
}
use seagles.Text.{Text, codes}

pub record TlsResult : Type 0 where
  pub supports_tls10 : Bool
  pub supports_tls11 : Bool
  pub supports_tls12 : Bool
  pub supports_tls13 : Bool
  pub weak_ciphers : List Text
  pub cert_expired : Bool

pub record ConnectionState : Type 0 where
  pub cipher_suite : ℕ
  pub not_after : List ℕ

pub data Version : Type 0 where
  tls10 tls11 tls12 tls13 : Version

-- The numbers of the suites are those of the IANA registry, which crypto/tls uses.
unfoldable pub weak_cipher_name : ℕ → Option Text
weak_cipher_name n =
    if nat_beq n 5
    then some (codes "RC4-SHA")
    else (if nat_beq n 10
        then some (codes "3DES-EDE-CBC-SHA")
        else (if nat_beq n 49169
            then some (codes "ECDHE-RSA-RC4-SHA")
            else (if nat_beq n 49159
                then some (codes "ECDHE-ECDSA-RC4-SHA")
                else (if nat_beq n 49170
                    then some (codes "ECDHE-RSA-3DES-EDE-CBC-SHA")
                    else (if nat_beq n 47
                        then some (codes "AES128-CBC-SHA")
                        else (if nat_beq n 53 then some (codes "AES256-CBC-SHA") else none))))))

abbrev weak : Option Text → List Text
weak none = []
weak (some name) = name ∷ []

abbrev pub is_some_state : Option ConnectionState → Bool
is_some_state none = false
is_some_state (some s) = true

-- The weak suite and the expiry that one connection adds to the result.
unfoldable pub weak_of : Option ConnectionState → List Text
unfolding weak_cipher_name
weak_of none = []
weak_of (some s) = weak (weak_cipher_name s.cipher_suite)

unfoldable pub expired : ℕ → Option ConnectionState → Bool
expired now none = false
expired now (some s) = any (λ t. ltb t now) s.not_after

unfoldable pub check_tls : (Version → Option ConnectionState) → ℕ → TlsResult
unfolding weak_of expired
check_tls dial now = record {
  supports_tls10 = is_some_state (dial tls10);
  supports_tls11 = is_some_state (dial tls11);
  supports_tls12 = is_some_state (dial tls12);
  supports_tls13 = is_some_state (dial tls13);
  weak_ciphers = weak_of (dial tls10) ++ (weak_of (dial tls11) ++ weak_of (dial tls12));
  cert_expired = expired now (dial tls10) || (expired now (dial tls11) || expired now (dial tls12));
}
