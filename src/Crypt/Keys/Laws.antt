-- ===== src/Crypt/Keys/Laws.antt =====
-- src/crypt/key.rs: what was wrapped is unwrapped again.
use ubiblk.Prelude.{
  ℕ, ◌≤◌, ◌≡◌, ◌∙◌, true, some, List, ◌++◌, ok, >>=_ok, arith, length, length-append, take-append,
  drop-append,
}
use ubiblk.Crypt.{XtsBlockCipher, from_combined_key}
use ubiblk.Crypt.Keys.{
  Gcm, KeyEncryptionCipher, plain, aes256_gcm, aes256gcm_encrypt, aes256gcm_decrypt,
  encrypt_key_data, decrypt_key_data, encrypted_key, from_encrypted_key,
}

-- Under the same key, nonce and associated data the ciphertext carries a tag and decrypts.
pub record IsGcm (G : Gcm) : Type 0 where
  pub tagged :
      (key nonce aad msg ciphertext : List ℕ)
      → G.encrypt key nonce aad msg ≡ some ciphertext
      → 16 ≤ length ciphertext
  pub decrypt-encrypt :
      (key nonce aad msg ciphertext : List ℕ)
      → G.encrypt key nonce aad msg ≡ some ciphertext
      → G.decrypt key nonce aad ciphertext ≡ some msg

-- The cipher is set up: none, or a key that the package takes, with authentication data, and the
-- package encrypts `msg` under `nonce`.
pub data Wraps (G : Gcm) (c : KeyEncryptionCipher) (nonce msg : List ℕ) : Type 0 where
  openly : c.method ≡ plain → Wraps G c nonce msg
  sealed :
      (key auth ciphertext : List ℕ)
      → c.method ≡ aes256_gcm
      → c.key ≡ some key
      → c.auth_data ≡ some auth
      → G.takes_key key ≡ true
      → G.encrypt key nonce auth msg ≡ some ciphertext
      → Wraps G c nonce msg

from_combined_key-append :
    (key1 key2 : List ℕ)
    → length key1 ≡ 32
    → length key2 ≡ 32
    → from_combined_key (key1 ++ key2) ≡ ok (record { key1 = key1; key2 = key2 })
unfolding from_combined_key
from_combined_key-append key1 key2 len1 len2 =
    ground
      (arith, length-append key1 key2, take-append 32 key1 key2 len1, drop-append 32 key1 key2 len1)

module _ (G : Gcm) (law : IsGcm G) where
  decrypt-encrypt_gcm :
      (key nonce aad msg ciphertext : List ℕ)
      → length nonce ≡ 12
      → G.takes_key key ≡ true
      → G.encrypt key nonce aad msg ≡ some ciphertext
      → aes256gcm_decrypt G key aad (nonce ++ ciphertext) ≡ ok msg
  unfolding aes256gcm_decrypt
  decrypt-encrypt_gcm key nonce aad msg ciphertext len accepts e = ground (
    arith,
    law.tagged key nonce aad msg ciphertext e,
    law.decrypt-encrypt key nonce aad msg ciphertext e,
    length-append nonce ciphertext,
    take-append 12 nonce ciphertext len,
    drop-append 12 nonce ciphertext len,
  )

  -- Key data that a key encryption cipher wraps, with any nonce of 12 bytes, is wrapped, and what
  -- comes out is unwrapped by the same cipher to the same data.
  pub decrypt_key_data-encrypt_key_data :
      (c : KeyEncryptionCipher) (nonce msg : List ℕ)
      → length nonce ≡ 12
      → Wraps G c nonce msg
      → (wrapped : List ℕ) × (encrypt_key_data G c nonce msg ≡ ok wrapped)
        × (decrypt_key_data G c wrapped ≡ ok msg)
  unfolding encrypt_key_data decrypt_key_data aes256gcm_encrypt
  decrypt_key_data-encrypt_key_data c nonce msg len (openly e) = (msg, ground arith, ground arith)
  decrypt_key_data-encrypt_key_data c nonce msg len
        (sealed key auth ciphertext e ek ea accepts enc) =
      let back = decrypt-encrypt_gcm key nonce auth msg ciphertext len accepts enc in
      (nonce ++ ciphertext, ground arith, ground (arith, back))

  -- The two keys of an XTS cipher, of 32 bytes each, wrapped as one key of 64 bytes with a nonce of
  -- 12 bytes, are unwrapped to the cipher, if the wrapping succeeds and AES-GCM decrypts what it
  -- encrypts.
  pub from_encrypted_key-encrypted_key :
      (kek : KeyEncryptionCipher) (nonce : List ℕ) (c : XtsBlockCipher)
      → length nonce ≡ 12
      → length c.key1 ≡ 32
      → length c.key2 ≡ 32
      → Wraps G kek nonce (c.key1 ++ c.key2)
      → (wrapped : List ℕ) × (encrypted_key G kek nonce c ≡ ok wrapped)
        × (from_encrypted_key G kek wrapped ≡ ok c)
  unfolding encrypted_key from_encrypted_key
  from_encrypted_key-encrypted_key kek nonce c len len1 len2 w =
      let (wrapped, there, back) =
        decrypt_key_data-encrypt_key_data kek nonce (c.key1 ++ c.key2) len w in
      (
        wrapped,
        there,
        >>=_ok (decrypt_key_data G kek wrapped) _ (c.key1 ++ c.key2) back
            ∙ from_combined_key-append c.key1 c.key2 len1 len2,
      )
