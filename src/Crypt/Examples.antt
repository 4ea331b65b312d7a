-- ===== src/Crypt/Examples.antt =====
-- src/crypt: a cipher that swaps the first two bytes of a sector, a wrapping whose tag is zeros, and tests.
use ubiblk.Prelude.{
  ℕ, ◌+◌, ◌*◌, ◌≡◌, refl, true, some, List, [], ◌∷◌, ◌++◌, ok, err, panic, arith, length, drop,
  replicate, length-replicate, length-append, slice, ◌∙◌,
}
use ubiblk.Error.{invalid_parameter, ciphertext_too_short, invalid_utf8}
use ubiblk.Crypt.{Xts, XtsBlockCipher, encrypt, decrypt, get_initial_tweak}
use ubiblk.Crypt.Sectors.{encrypt_lem}
use ubiblk.Crypt.Loops.{IsXts}
use ubiblk.Crypt.Keys.{
  Gcm, KeyEncryptionCipher, plain, aes256_gcm, encrypted_key, from_encrypted_key, decrypt_key_data,
  decrypt_aws_credential,
}
use ubiblk.Crypt.Keys.Laws.{IsGcm, sealed, from_encrypted_key-encrypted_key}

abbrev swap : List ℕ → List ℕ
swap [] = []
swap (x ∷ []) = x ∷ []
swap (x ∷ y ∷ rest) = y ∷ x ∷ rest

length-swap : (xs : List ℕ) → length (swap xs) ≡ length xs
length-swap [] = refl
length-swap (x ∷ []) = refl
length-swap (x ∷ y ∷ rest) = refl

swap-swap : (xs : List ℕ) → swap (swap xs) ≡ xs
swap-swap [] = refl
swap-swap (x ∷ []) = refl
swap-swap (x ∷ y ∷ rest) = refl

abbrev swaps : Xts
swaps = record { enc = λ key2 key1 tweak xs. swap xs; dec = λ key2 key1 tweak xs. swap xs }

swaps-IsXts : IsXts swaps
swaps-IsXts = record {
  length-enc = λ key2 key1 tweak xs h. length-swap xs ∙ h;
  length-dec = λ key2 key1 tweak xs h. length-swap xs ∙ h;
  dec-enc = λ key2 key1 tweak xs h. swap-swap xs;
}

abbrev keys : XtsBlockCipher
keys = record { key1 = replicate 32 1; key2 = replicate 32 2 }

abbrev stripe : List ℕ
stripe = 1 ∷ replicate 1023 7

tweak_5 :
    get_initial_tweak 0x1_05 ≡ 0 ∷ 0 ∷ 0 ∷ 0 ∷ 0 ∷ 0 ∷ 0 ∷ 0 ∷ 5 ∷ 1 ∷ 0 ∷ 0 ∷ 0 ∷ 0 ∷ 0 ∷ 0 ∷ []
unfolding get_initial_tweak replicate
tweak_5 = refl

short_buffer : encrypt swaps keys (replicate 512 7) 0 2 ≡ panic
unfolding encrypt replicate
short_buffer = refl

abbrev appends : Gcm
appends = record {
  takes_key = λ key. true;
  encrypt = λ key nonce aad msg. some (replicate 16 0 ++ msg);
  decrypt = λ key nonce aad msg. some (drop 16 msg);
}

abbrev kek : KeyEncryptionCipher
kek = record { method = aes256_gcm; key = some (5 ∷ []); auth_data = some [] }

appends-IsGcm : IsGcm appends
unfolding replicate
appends-IsGcm = record {
  tagged = λ key nonce aad msg ciphertext e. ground (arith, length-append (replicate 16 0) msg);
  decrypt-encrypt = λ key nonce aad msg ciphertext e. ground arith;
}

encrypt_example :
    (out : List ℕ) × (encrypt swaps keys stripe 9 2 ≡ ok out)
    × (length out ≡ length stripe)
    × (drop (2 * 512) out ≡ drop (2 * 512) stripe)
    × (decrypt swaps keys (slice out (1 * 512) (1 * 512)) (9 + 1) 1
        ≡ ok (slice stripe (1 * 512) (1 * 512)))
encrypt_example =
    encrypt_lem swaps swaps-IsXts keys stripe 9 2 1 1
      (omega (arith, length-replicate {A = ℕ} 1023 7)) (omega arith)

from_encrypted_key-encrypted_key_example :
    (wrapped : List ℕ) × (encrypted_key appends kek (replicate 12 3) keys ≡ ok wrapped)
    × (from_encrypted_key appends kek wrapped ≡ ok keys)
from_encrypted_key-encrypted_key_example =
    from_encrypted_key-encrypted_key appends appends-IsGcm kek (replicate 12 3) keys
      (length-replicate 12 3) (length-replicate 32 1) (length-replicate 32 2)
      (sealed (5 ∷ []) [] (replicate 16 0 ++ (keys.key1 ++ keys.key2)) refl refl refl refl refl)

too_short :
    decrypt_key_data appends kek (replicate 27 0) ≡ err (invalid_parameter ciphertext_too_short)
unfolding decrypt_key_data replicate
too_short = refl

-- A lone surrogate, and an overlong zero.
not_utf8 :
    (decrypt_aws_credential appends (record kek { method = plain }) (0xED ∷ 0xA0 ∷ 0x80 ∷ [])
      ≡ err (invalid_parameter invalid_utf8))
    × (decrypt_aws_credential appends (record kek { method = plain }) (0xC0 ∷ 0x80 ∷ [])
        ≡ err (invalid_parameter invalid_utf8))
unfolding decrypt_aws_credential
not_utf8 = (refl, refl)

euro :
    decrypt_aws_credential appends (record kek { method = plain }) (0xE2 ∷ 0x82 ∷ 0xAC ∷ b'!' ∷ [])
    ≡ ok (0xE2 ∷ 0x82 ∷ 0xAC ∷ b'!' ∷ [])
unfolding decrypt_aws_credential
euro = refl
