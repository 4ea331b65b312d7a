-- ===== src/Crypt/Keys.antt =====
-- src/crypt/key.rs: `KeyEncryptionCipher`, which wraps keys and secrets, and the XTS keys in it.
-- `Gcm` is the package aes_gcm; a nonce is random in the source, and an argument here.
pub mod Laws
use ubiblk.Error.{
  UbiblkError, invalid_parameter, ParameterReason, kek_missing, kek_auth_data_missing,
  kek_cipher_failed, ciphertext_too_short, decryption_failed, encryption_failed, invalid_utf8,
}
use ubiblk.Prelude.{
  ℕ, zero, suc, ◌+◌, Bool, true, false, not, ◌&&◌, Option, none, some, List, [], ◌∷◌, ◌++◌, Result,
  ok, err, ◌>>=◌, ◌>>◌, fail_if, ltb, leb, ◌==◌, if◌then◌else◌, length, take, drop,
}
use ubiblk.Crypt.{XtsBlockCipher, ensure_32_bytes, from_combined_key}

-- The key, the nonce, the associated data and the message. `none` is the package's error.
pub record Gcm : Type 0 where
  pub takes_key : List ℕ → Bool
  pub encrypt : List ℕ → List ℕ → List ℕ → List ℕ → Option (List ℕ)
  pub decrypt : List ℕ → List ℕ → List ℕ → List ℕ → Option (List ℕ)

pub data CipherMethod : Type 0 where
  plain : CipherMethod
  aes256_gcm : CipherMethod

pub record KeyEncryptionCipher : Type 0 where
  pub method : CipherMethod
  pub key : Option (List ℕ)
  pub auth_data : Option (List ℕ)

abbrev pub gcm_tag_size : ℕ
gcm_tag_size = 16

abbrev pub gcm_nonce_size : ℕ
gcm_nonce_size = 12

-- `opt.ok_or_else(|| param_err(…))`
abbrev pub ok_or : Option (List ℕ) → ParameterReason → Result (List ℕ)
ok_or (some value) reason = ok value
ok_or none reason = err (invalid_parameter reason)

unfoldable pub init_context : KeyEncryptionCipher → Result (List ℕ × List ℕ)
init_context c = do
  key ← ok_or c.key kek_missing
  auth_data ← ok_or c.auth_data kek_auth_data_missing
  ok (key, auth_data)

module _ (G : Gcm) where
  unfoldable pub new_cipher : List ℕ → Result (Unit {0})
  new_cipher key = fail_if (not (G.takes_key key)) (invalid_parameter kek_cipher_failed)

  -- The nonce, the ciphertext and the tag, one behind the other.
  unfoldable pub aes256gcm_decrypt : List ℕ → List ℕ → List ℕ → Result (List ℕ)
  unfolding new_cipher
  aes256gcm_decrypt key aad ciphertext = do
    new_cipher key
    fail_if (ltb (length ciphertext) (gcm_nonce_size + gcm_tag_size))
        (invalid_parameter ciphertext_too_short)
    let nonce = take gcm_nonce_size ciphertext
    let encrypted_data = drop gcm_nonce_size ciphertext
    ok_or (G.decrypt key nonce aad encrypted_data) decryption_failed

  unfoldable pub aes256gcm_encrypt : List ℕ → List ℕ → List ℕ → List ℕ → Result (List ℕ)
  unfolding new_cipher
  aes256gcm_encrypt nonce key aad plaintext = do
    new_cipher key
    ciphertext ← ok_or (G.encrypt key nonce aad plaintext) encryption_failed
    ok (nonce ++ ciphertext)

  unfoldable pub encrypt_key_data : KeyEncryptionCipher → List ℕ → List ℕ → Result (List ℕ)
  unfolding init_context aes256gcm_encrypt
  encrypt_key_data c nonce plaintext = elim c.method [
    | plain ↦ ok plaintext
    | aes256_gcm ↦ do (key, auth) ← init_context c; aes256gcm_encrypt nonce key auth plaintext
  ]

  unfoldable pub decrypt_key_data : KeyEncryptionCipher → List ℕ → Result (List ℕ)
  unfolding init_context aes256gcm_decrypt
  decrypt_key_data c ciphertext = elim c.method [
    | plain ↦ ok ciphertext
    | aes256_gcm ↦ do (key, auth) ← init_context c; aes256gcm_decrypt key auth ciphertext
  ]

  -- A nonce for each of the two keys.
  unfoldable pub encrypt_xts_keys :
      KeyEncryptionCipher → List ℕ → List ℕ → List ℕ → List ℕ → Result (List ℕ × List ℕ)
  unfolding init_context aes256gcm_encrypt
  encrypt_xts_keys c nonce1 nonce2 key1 key2 = elim c.method [
    | plain ↦ ok (key1, key2)
    | aes256_gcm ↦ do
      (key, auth) ← init_context c
      k1 ← aes256gcm_encrypt nonce1 key auth key1
      k2 ← aes256gcm_encrypt nonce2 key auth key2
      ok (k1, k2)
  ]

  unfoldable pub decrypt_xts_keys : KeyEncryptionCipher → List ℕ → List ℕ → Result (List ℕ × List ℕ)
  unfolding init_context aes256gcm_decrypt ensure_32_bytes
  decrypt_xts_keys c key1 key2 = elim c.method [
    | plain ↦ do k1 ← ensure_32_bytes key1; k2 ← ensure_32_bytes key2; ok (k1, k2)
    | aes256_gcm ↦ do
      (key, auth) ← init_context c
      k1 ← aes256gcm_decrypt key auth key1
      k2 ← aes256gcm_decrypt key auth key2
      key1' ← ensure_32_bytes k1
      key2' ← ensure_32_bytes k2
      ok (key1', key2')
  ]

  unfoldable pub decrypt_psk_secret : KeyEncryptionCipher → List ℕ → Result (List ℕ)
  unfolding init_context aes256gcm_decrypt
  decrypt_psk_secret c secret = elim c.method [
    | plain ↦ ok secret
    | aes256_gcm ↦ do (key, auth) ← init_context c; aes256gcm_decrypt key auth secret
  ]

-- What may follow a first byte in UTF-8: how many bytes, and the range of the first of them.
unfoldable pub utf8_lead : ℕ → Option (ℕ × ℕ × ℕ)
utf8_lead b =
    if leb b 0x7F
    then some (0, 0x80, 0xBF)
    else if leb 0xC2 b && leb b 0xDF
    then some (1, 0x80, 0xBF)
    else if b == 0xE0
    then some (2, 0xA0, 0xBF)
    else if b == 0xED
    then some (2, 0x80, 0x9F)
    else if leb 0xE1 b && leb b 0xEF
    then some (2, 0x80, 0xBF)
    else if b == 0xF0
    then some (3, 0x90, 0xBF)
    else if leb 0xF1 b && leb b 0xF3
    then some (3, 0x80, 0xBF)
    else if b == 0xF4
    then some (3, 0x80, 0x8F)
    else none

-- `String::from_utf8`: `more` bytes of a character are missing, the next lies in `low..=high`.
unfoldable pub is_utf8 : ℕ → ℕ → ℕ → List ℕ → Bool
unfolding utf8_lead
is_utf8 zero low high [] = true
is_utf8 (suc more) low high [] = false
is_utf8 zero low high (b ∷ bs) = elim (utf8_lead b) [
  | none ↦ false
  | some (more, low', high') ↦ is_utf8 more low' high' bs
]
is_utf8 (suc more) low high (b ∷ bs) = leb low b && leb b high && is_utf8 more 0x80 0xBF bs

module _ (G : Gcm) where
  unfoldable pub decrypt_aws_credential : KeyEncryptionCipher → List ℕ → Result (List ℕ)
  unfolding init_context aes256gcm_decrypt is_utf8
  decrypt_aws_credential c cred = do
    decrypted_bytes ← elim c.method [
      | plain ↦ ok cred
      | aes256_gcm ↦ do (key, auth) ← init_context c; aes256gcm_decrypt G key auth cred
    ]
    fail_if (not (is_utf8 0 0 0 decrypted_bytes)) (invalid_parameter invalid_utf8)
    ok decrypted_bytes

  -- The methods of `XtsBlockCipher` that wrap its keys.
  unfoldable pub encrypted_keys :
      KeyEncryptionCipher → List ℕ → List ℕ → XtsBlockCipher → Result (List ℕ × List ℕ)
  unfolding encrypt_xts_keys
  encrypted_keys kek nonce1 nonce2 c = encrypt_xts_keys G kek nonce1 nonce2 c.key1 c.key2

  unfoldable pub from_encrypted : KeyEncryptionCipher → List ℕ → List ℕ → Result XtsBlockCipher
  unfolding decrypt_xts_keys
  from_encrypted kek encrypted_key1 encrypted_key2 = do
    (dec_key1, dec_key2) ← decrypt_xts_keys G kek encrypted_key1 encrypted_key2
    ok (record { key1 = dec_key1; key2 = dec_key2 })

  unfoldable pub encrypted_key : KeyEncryptionCipher → List ℕ → XtsBlockCipher → Result (List ℕ)
  unfolding encrypt_key_data
  encrypted_key kek nonce c = encrypt_key_data G kek nonce (c.key1 ++ c.key2)

  unfoldable pub from_encrypted_key : KeyEncryptionCipher → List ℕ → Result XtsBlockCipher
  unfolding decrypt_key_data from_combined_key
  from_encrypted_key kek encrypted = do
    decrypted_key ← decrypt_key_data G kek encrypted
    from_combined_key decrypted_key
