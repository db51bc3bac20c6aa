-- ===== src/Srp6.antt =====
-- src/common/Cryptography/Authentication/SRP6.cpp: how a key is kept, and checked at a login. SHA-1
-- and the modular power are OpenSSL's, and Utf8ToUpperOnlyLatin is built on the utf8cpp library.
use warhead_discord.Prelude.{
  ℕ, ◌≡◌, Bool, true, List, ◌∷◌, ◌++◌, of_le, to_le, same_text, same_text_refl,
}

pub record Crypto : Type 0 where
  -- `SHA1::GetDigestOf` of all its arguments' bytes.
  pub sha1 : List ℕ → List ℕ
  -- `BN_mod_exp`: base, exponent, modulus.
  pub mod_exp : ℕ → ℕ → ℕ → ℕ
  pub utf8_to_upper_only_latin : List ℕ → List ℕ

-- `SRP6::g` and `SRP6::N`.
abbrev pub generator : ℕ
generator = 7

abbrev pub modulus : ℕ
modulus = 0x894B645E89E1535BBDAD5B8B290650530801B18EBFBF5E8FAB3C82872A3E9BB7

abbrev pub verifier_length : ℕ
verifier_length = 32

module _ (crypto : Crypto) where
  -- v = g ^ H(s || H(u || ':' || p)) mod N, as bytes, the least significant one first.
  unfoldable pub calculate_verifier : List ℕ → List ℕ → List ℕ → List ℕ
  calculate_verifier username password salt =
      let digest = crypto.sha1 (salt ++ crypto.sha1 (username ++ b':' ∷ password)) in
      to_le verifier_length (crypto.mod_exp generator (of_le digest) modulus)

  unfoldable pub check_login : List ℕ → List ℕ → List ℕ → List ℕ → Bool
  check_login username password salt verifier =
      same_text verifier (calculate_verifier username password salt)

  -- `salt` stands for the random bytes.
  unfoldable pub make_registration_data : List ℕ → List ℕ → List ℕ → List ℕ × List ℕ
  make_registration_data salt username password = (salt, calculate_verifier username password salt)

  -- Who is registered with a key logs in with it.
  pub check_login-make_registration_data :
      (salt username password : List ℕ)
      → check_login username password
          (make_registration_data salt username password).0
          (make_registration_data salt username password).1
        ≡ true
  unfolding check_login make_registration_data
  check_login-make_registration_data salt username password =
      same_text_refl (calculate_verifier username password salt)
