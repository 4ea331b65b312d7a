-- ===== src/Archive/StripeMapping/Laws.antt =====
-- src/archive/stripe_hashes.rs: a mapping that is written is read back, and no other under its tag.
use ubiblk.Prelude.{
  ℕ, ◌-◌, ◌/◌, ◌%◌, ◌^◌, ◌≤◌, ◌<◌, ◌≡◌, ◌⊎◌, inl, inr, refl, sym, ap, ◌∙◌, true, Option, none, some,
  List, [], ◌∷◌, ok, arith, ◌==◌, if◌then◌else◌, lookup, length, length-append, length-replicate,
  take, take-append, drop, ok_eq, replicate, to_le_bytes, beq_bytes_refl, beq_bytes_eq,
}
use ubiblk.Crypt.{Xts, XtsBlockCipher, decrypt}
use ubiblk.Crypt.Sectors.{decrypt-encrypt}
use ubiblk.Crypt.Loops.{IsXts}
use ubiblk.Archive.Hmac.{Mac, compute_hmac_tag, verify_hmac_tag}
use ubiblk.Archive.Hmac.Laws.{Collision, same_or_Collision, append_parts, to_le_bytes_inj}
use ubiblk.Archive.StripeMapping.{
  StripeContentSpecifier, StripeContentMap, StripeMappingFile, Cbor, btree_insert, to_btree,
  pad_to_sector, manifest_hmac_input, encrypt_mapping, decrypt_mapping,
  archive_stripe_mapping_domain, archive_stripe_mapping_version, serialize_stripe_mapping,
  check_mapping_file, decode_mapping_file, deserialize_stripe_mapping,
}

-- What the package writes it reads back; bytes that it reads back differently it does not write.
pub record IsCbor (C : Cbor) : Type 0 where
  pub map_back :
      (map : StripeContentMap) (bytes : List ℕ)
      → C.map_to_vec map ≡ some bytes
      → C.map_from_slice bytes ≡ some map
  pub file_back :
      (file : StripeMappingFile) (bytes : List ℕ)
      → C.file_to_vec file ≡ some bytes
      → C.file_from_slice bytes ≡ some file

lookup-btree_insert :
    (k at : ℕ) (v : StripeContentSpecifier) (m : StripeContentMap)
    → lookup at (btree_insert k v m) ≡ (if k == at then some v else lookup at m)
unfolding lookup btree_insert
lookup-btree_insert k at v [] = refl
lookup-btree_insert k at v ((j, w) ∷ m) = ground (arith, lookup-btree_insert k at v m)

pub lookup-to_btree : (at : ℕ) (m : StripeContentMap) → lookup at (to_btree m) ≡ lookup at m
unfolding lookup to_btree
lookup-to_btree at [] = refl
lookup-to_btree at ((k, v) ∷ m) =
    ground (arith, lookup-btree_insert k at v (to_btree m), lookup-to_btree at m)

module _ (X : Xts) (law : IsXts X) where
  decrypt_mapping-encrypt_mapping :
      (cipher : Option XtsBlockCipher) (padded : List ℕ)
      → length padded % 512 ≡ 0
      → (out : List ℕ) × (encrypt_mapping X cipher padded ≡ ok out)
        × (length out ≡ length padded)
        × (decrypt_mapping X cipher out ≡ ok padded)
  unfolding encrypt_mapping decrypt_mapping
  decrypt_mapping-encrypt_mapping none padded whole = (padded, refl, refl, refl)
  decrypt_mapping-encrypt_mapping (some c) padded whole =
      let (out, ran, len, back) =
        decrypt-encrypt X law c padded (2 ^ 60) (length padded / 512) (omega arith) in
      (out, ran, len, ap (λ (n : ℕ). decrypt X c out (2 ^ 60) (n / 512)) len ∙ back)

length-padded : (bytes : List ℕ) → length (pad_to_sector bytes).0 % 512 ≡ 0
unfolding pad_to_sector
length-padded bytes =
    let pad = (512 - length bytes % 512) % 512 in
    let zeros = length-replicate {A = ℕ} pad 0 in
    let whole = length-append bytes (replicate pad 0) in omega arith

take-padded : (bytes : List ℕ) → take (pad_to_sector bytes).1 (pad_to_sector bytes).0 ≡ bytes
unfolding pad_to_sector
take-padded bytes = take-append (length bytes) bytes _ refl

padded_longer : (bytes : List ℕ) → (pad_to_sector bytes).1 ≤ length (pad_to_sector bytes).0
unfolding pad_to_sector
padded_longer bytes =
    omega (arith, length-append bytes (replicate ((512 - length bytes % 512) % 512) 0))

-- The package serialises the map.
pub record Serializes (C : Cbor) (M : Mac) (key : List ℕ) (map : StripeContentMap) : Type 0 where
  pub accepts : M.takes_key key ≡ true
  pub map_bytes : List ℕ
  pub writes_map : C.map_to_vec (to_btree map) ≡ some map_bytes
  pub writes_file :
      (file : StripeMappingFile) → (bytes : List ℕ) × (C.file_to_vec file ≡ some bytes)

-- The file that holds the bytes of a map under a ciphertext.
signed_file : Mac → List ℕ → List ℕ → List ℕ → StripeMappingFile
signed_file M key map_bytes ciphertext = record {
  domain = archive_stripe_mapping_domain;
  version = archive_stripe_mapping_version;
  ciphertext = ciphertext;
  plaintext_len = (pad_to_sector map_bytes).1;
  hmac_tag = M.tag key (
      manifest_hmac_input archive_stripe_mapping_domain archive_stripe_mapping_version
        (pad_to_sector map_bytes).1 ciphertext);
}

manifest_hmac_input_inj :
    (n n' : ℕ) (payload payload' : List ℕ)
    → n < 256 ^ 8
    → n' < 256 ^ 8
    → manifest_hmac_input archive_stripe_mapping_domain 1 n payload
      ≡ manifest_hmac_input archive_stripe_mapping_domain 1 n' payload'
    → (n ≡ n') × (payload ≡ payload')
unfolding manifest_hmac_input
manifest_hmac_input_inj n n' payload payload' h h' e =
    let (lengths, payloads) =
      append_parts (to_le_bytes 8 n) (to_le_bytes 8 n') payload payload' 8 refl refl
        (ap (drop 33) e) in
    (to_le_bytes_inj 8 n n' h h' lengths, payloads)

module _ (C : Cbor) (M : Mac) (X : Xts) where
  check_signed :
      (key map_bytes ciphertext : List ℕ)
      → M.takes_key key ≡ true
      → length ciphertext % 512 ≡ 0
      → check_mapping_file C M X (signed_file M key map_bytes ciphertext) key ≡ ok tt
  unfolding check_mapping_file verify_hmac_tag signed_file
  check_signed key map_bytes ciphertext accepts whole = ground (
    arith,
    beq_bytes_refl (
        M.tag key (
          manifest_hmac_input archive_stripe_mapping_domain archive_stripe_mapping_version
            (pad_to_sector map_bytes).1 ciphertext)),
    beq_bytes_refl archive_stripe_mapping_domain,
  )

  decode_signed :
      (cipher : Option XtsBlockCipher) (key map_bytes ciphertext : List ℕ) (map : StripeContentMap)
      → decrypt_mapping X cipher ciphertext ≡ ok (pad_to_sector map_bytes).0
      → C.map_from_slice map_bytes ≡ some map
      → decode_mapping_file C M X (signed_file M key map_bytes ciphertext) cipher ≡ ok map
  unfolding decode_mapping_file signed_file
  decode_signed cipher key map_bytes ciphertext map back e =
      ground (arith, take-padded map_bytes, padded_longer map_bytes)

  serialize_signed :
      (map : StripeContentMap) (key : List ℕ) (cipher : Option XtsBlockCipher)
      (map_bytes out bytes : List ℕ)
      → M.takes_key key ≡ true
      → C.map_to_vec (to_btree map) ≡ some map_bytes
      → encrypt_mapping X cipher (pad_to_sector map_bytes).0 ≡ ok out
      → C.file_to_vec (signed_file M key map_bytes out) ≡ some bytes
      → serialize_stripe_mapping C M X map key cipher ≡ ok bytes
  unfolding serialize_stripe_mapping compute_hmac_tag signed_file
  serialize_signed map key cipher map_bytes out bytes accepts wrote enc file = ground arith

  deserialize_parsed :
      (bytes key : List ℕ) (cipher : Option XtsBlockCipher) (file : StripeMappingFile)
      → C.file_from_slice bytes ≡ some file
      → check_mapping_file C M X file key ≡ ok tt
      → deserialize_stripe_mapping C M X bytes key cipher ≡ decode_mapping_file C M X file cipher
  unfolding deserialize_stripe_mapping
  deserialize_parsed bytes key cipher file parsed checked = ground arith

  -- A map that the packages take is serialised under a key, encrypted or not, and deserialised under
  -- the same key and cipher to a map with the same entry for every stripe, if CBOR and the cipher
  -- read back what they write.
  pub deserialize-serialize :
      (map : StripeContentMap) (key : List ℕ) (cipher : Option XtsBlockCipher)
      → IsCbor C
      → IsXts X
      → Serializes C M key map
      → (bytes : List ℕ) × (read : StripeContentMap) × (serialize_stripe_mapping C M X map key
            cipher
          ≡ ok bytes)
        × (deserialize_stripe_mapping C M X bytes key cipher ≡ ok read)
        × ((stripe_id : ℕ) → lookup stripe_id read ≡ lookup stripe_id map)
  deserialize-serialize map key cipher packs lawful s =
      let plain = s.map_bytes in
      let (out, enc, len, dec) =
        decrypt_mapping-encrypt_mapping X lawful cipher (pad_to_sector plain).0
          (length-padded plain) in
      let (bytes, wrote) = s.writes_file (signed_file M key plain out) in
      let back = packs.file_back (signed_file M key plain out) bytes wrote in
      let checked =
        check_signed key plain out s.accepts (ap (λ (n : ℕ). n % 512) len ∙ length-padded plain) in
      let decoded =
        decode_signed cipher key plain out (to_btree map) dec
          (packs.map_back (to_btree map) plain s.writes_map) in
      (
        bytes,
        to_btree map,
        serialize_signed map key cipher plain out bytes s.accepts s.writes_map enc wrote,
        deserialize_parsed bytes key cipher (signed_file M key plain out) back checked ∙ decoded,
        λ stripe_id. lookup-to_btree stripe_id map,
      )

  -- What the checks of an accepted file have found.
  checked_inv :
      (file : StripeMappingFile) (key : List ℕ)
      → check_mapping_file C M X file key ≡ ok tt
      → (file.version ≡ 1)
        × (file.domain ≡ archive_stripe_mapping_domain)
        × (file.hmac_tag
            ≡ M.tag key
                (manifest_hmac_input file.domain file.version file.plaintext_len file.ciphertext))
  unfolding check_mapping_file verify_hmac_tag
  checked_inv file key e =
      let tag =
        M.tag key
          (manifest_hmac_input file.domain file.version file.plaintext_len file.ciphertext) in
      (
        ground arith,
        ground (arith, beq_bytes_eq file.domain archive_stripe_mapping_domain),
        ground (arith, beq_bytes_eq file.hmac_tag tag),
      )

  accepted_inv :
      (bytes key : List ℕ) (cipher : Option XtsBlockCipher) (file : StripeMappingFile)
      (map : StripeContentMap)
      → C.file_from_slice bytes ≡ some file
      → deserialize_stripe_mapping C M X bytes key cipher ≡ ok map
      → (check_mapping_file C M X file key ≡ ok tt)
        × (decode_mapping_file C M X file cipher ≡ ok map)
  unfolding deserialize_stripe_mapping
  accepted_inv bytes key cipher file map parsed e = ground arith

  decode_same :
      (cipher : Option XtsBlockCipher) (f g : StripeMappingFile)
      → f.plaintext_len ≡ g.plaintext_len
      → f.ciphertext ≡ g.ciphertext
      → decode_mapping_file C M X f cipher ≡ decode_mapping_file C M X g cipher
  unfolding decode_mapping_file
  decode_same cipher f g lengths payloads = rw (lengths, payloads) refl

  -- Two files that are accepted under one key and cipher and with one tag, with lengths that fit into
  -- 64 bits, hold the same map, or else their authenticated inputs differ and have one tag.
  pub deserialize_authentic :
      (bytes bytes' key : List ℕ) (cipher : Option XtsBlockCipher) (f g : StripeMappingFile)
      (map map' : StripeContentMap)
      → C.file_from_slice bytes ≡ some f
      → C.file_from_slice bytes' ≡ some g
      → f.plaintext_len < 256 ^ 8
      → g.plaintext_len < 256 ^ 8
      → f.hmac_tag ≡ g.hmac_tag
      → deserialize_stripe_mapping C M X bytes key cipher ≡ ok map
      → deserialize_stripe_mapping C M X bytes' key cipher ≡ ok map'
      → (map ≡ map')
        ⊎ Collision M key
            (manifest_hmac_input f.domain f.version f.plaintext_len f.ciphertext)
            (manifest_hmac_input g.domain g.version g.plaintext_len g.ciphertext)
  deserialize_authentic bytes bytes' key cipher f g map map' pf pg ff fg tags e e' =
      let (cf, df) = accepted_inv bytes key cipher f map pf e in
      let (cg, dg) = accepted_inv bytes' key cipher g map' pg e' in
      let (vf, of, tf) = checked_inv f key cf in
      let (vg, og, tg) = checked_inv g key cg in
      elim (same_or_Collision M key _ _ (sym tf ∙ tags ∙ tg)) [
        | inl inputs ↦
            let (lengths, payloads) =
              manifest_hmac_input_inj f.plaintext_len g.plaintext_len f.ciphertext g.ciphertext ff
                fg (cc (inputs, vf, vg, of, og)) in
            inl (ok_eq (sym df ∙ decode_same cipher f g lengths payloads ∙ dg))
        | inr found ↦ inr found
      ]
