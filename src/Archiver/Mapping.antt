-- ===== src/Archiver/Mapping.antt =====
-- src/archive/archiver.rs: what the mapping of a finished archive holds.
use ubiblk.Error.{UbiblkError}
use ubiblk.Prelude.{
  ℕ, ◌<◌, ◌≡◌, ◌⊎◌, inl, inr, refl, sym, ap, ◌∙◌, subst, true, Option, none, some, List, [], ◌∷◌,
  Result, ok, err, panic, >>=-eq-ok, arith, lookup, Option-cases,
}
use ubiblk.BufferPool.{SharedBuffer}
use ubiblk.IoChannel.{IoChannel}
use ubiblk.StripeSource.{StripeSource}
use ubiblk.Crypt.{Xts}
use ubiblk.Crypt.Keys.{Gcm}
use ubiblk.Archive.{ArchiveStore, ArchiveMetadata, put_object}
use ubiblk.Archive.Compression.{Zstd}
use ubiblk.Archive.Hmac.{Mac}
use ubiblk.Archive.StripeMapping.{Cbor, StripeContentSpecifier, hashed, serialize_stripe_mapping}
use ubiblk.ArchiveSource.Operations.{object_key, is_empty}
use ubiblk.Archiver.{StripeArchiver, stripe_should_be_archived}
use ubiblk.Archiver.Operations.{has_key, start_loop, drain_loop}
use ubiblk.Archiver.Finishing.{
  archive_metadata, put_metadata, put_stripe_mapping, put_manifest, archive_all,
}
use ubiblk.Archiver.Covered.{Known, HasObjects}
use ubiblk.ArchiveSource.{metadata_name, manifest_name}
use ubiblk.Archiver.Ledger.{Ledger, Puts, none_put, one_put, Puts-handed, Puts-running}
use ubiblk.Archiver.Handed.{Handed, Stored}
use ubiblk.Archiver.Rounds.{start_loop-Stored, drain_loop-Stored}
use ubiblk.Archiver.Complete.{start_loop-Finished}

nothing-Known : {V : Type 0} (m : List (ℕ × V)) (k : ℕ) → is_empty m ≡ true → ¬ Known k m
unfolding lookup
nothing-Known [] k e (v, known) = ground arith
nothing-Known (x ∷ m) k e (v, known) = ground arith

-- How a loop on fuel ends.
Loop-cases :
    {A : Type 0} (r : Option (Result A))
    → ((a : A) × (r ≡ some (ok a)))
      ⊎ (r ≡ none)
      ⊎ ((x : UbiblkError) × (r ≡ some (err x)))
      ⊎ (r ≡ some panic)
Loop-cases none = inr (inl refl)
Loop-cases (some (ok a)) = inl (a, refl)
Loop-cases (some (err x)) = inr (inr (inl (x, refl)))
Loop-cases (some panic) = inr (inr (inr refl))

module _ {Source : StripeSource} {Channel : IoChannel} {Store : ArchiveStore} where
  nothing-Stored :
      (L : Ledger Store) (sha256 hex : List ℕ → List ℕ) (a : StripeArchiver Source Channel Store)
      → a.seen_object_keys ≡ []
      → a.inflight_puts ≡ L.running a.archive_store
      → Stored L sha256 hex a
  unfolding has_key
  nothing-Stored L sha256 hex a unseen counted = record {
    handed = λ key k. absurd (ground arith);
    counted = counted;
  }

  module _ (G : Gcm) (M : Mac) (nonce1 nonce2 : List ℕ)
      (to_json : ArchiveMetadata → Option (List ℕ)) (polls : ℕ) where
    -- The metadata is put, and the mapping stays.
    put_metadata_inv :
        (a b : StripeArchiver Source Channel Store)
        → put_metadata G M nonce1 nonce2 to_json polls a ≡ ok b
        → (b.stripe_hashes ≡ a.stripe_hashes)
          × (bytes : List ℕ) × ((put_object Store polls a.archive_store metadata_name bytes).1
              ≡ ok tt)
          × (b.archive_store ≡ (put_object Store polls a.archive_store metadata_name bytes).0)
    unfolding put_metadata
    put_metadata_inv a b e =
        let (metadata, _, e1) = >>=-eq-ok (archive_metadata G M nonce1 nonce2 a) _ e in
        elim (Option-cases (to_json metadata)) [
          | inl missing ↦ absurd (ground arith)
          | inr (bytes, found) ↦ (ground arith, bytes, ground arith, ground arith)
        ]

    put_stripe_mapping_inv :
        (a b : StripeArchiver Source Channel Store) (bytes : List ℕ)
        → put_stripe_mapping G M nonce1 nonce2 to_json polls a bytes ≡ ok b
        → (b.stripe_hashes ≡ a.stripe_hashes)
          × ((put_object Store polls a.archive_store manifest_name bytes).1 ≡ ok tt)
          × (b.archive_store ≡ (put_object Store polls a.archive_store manifest_name bytes).0)
    unfolding put_stripe_mapping
    put_stripe_mapping_inv a b bytes e = (ground arith, ground arith, ground arith)

    module _ (C : Cbor) (X : Xts) (Z : Zstd) (sha256 hex : List ℕ → List ℕ)
        (holds : Channel.State → Source.State → SharedBuffer → List ℕ) where
      put_manifest-Puts :
          (a b : StripeArchiver Source Channel Store)
          → put_manifest G M nonce1 nonce2 to_json polls C X Z sha256 hex holds a ≡ ok b
          → (b.stripe_hashes ≡ a.stripe_hashes) × Puts Store polls a.archive_store b.archive_store
      unfolding put_manifest
      put_manifest-Puts a b e =
          let (bytes, _, e1) =
            >>=-eq-ok (serialize_stripe_mapping C M X a.stripe_hashes a.hmac_key a.block_cipher) _
              e in
          let (a1, put, e2) = >>=-eq-ok (put_metadata G M nonce1 nonce2 to_json polls a) _ e1 in
          let (hashes, json, done, store) = put_metadata_inv a a1 put in
          let (hashes1, done1, store1) = put_stripe_mapping_inv a1 b bytes e2 in
          (
            hashes1 ∙ hashes,
            one_put metadata_name json done (
                subst (λ (t : Store.State). Puts Store polls t b.archive_store) store
                  (one_put manifest_name bytes done1 (
                    subst
                      (λ (t : Store.State).
                        Puts Store polls
                          (put_object Store polls a1.archive_store manifest_name bytes).0 t)
                      (sym store1) none_put))),
          )

      -- The two loops ended, and the manifest was put.
      archive_all_inv :
          (fuel : ℕ) (a b : StripeArchiver Source Channel Store)
          → archive_all G M nonce1 nonce2 to_json polls C X Z sha256 hex holds fuel a ≡ some (ok b)
          → (a1 : StripeArchiver Source Channel Store) × (a2 : StripeArchiver Source Channel Store)
            × (start_loop X Z sha256 hex holds fuel a 0 ≡ some (ok a1))
            × (drain_loop X Z sha256 hex holds fuel a1 ≡ some (ok a2))
            × (put_manifest G M nonce1 nonce2 to_json polls C X Z sha256 hex holds a2 ≡ ok b)
      unfolding archive_all
      archive_all_inv fuel a b e = elim (Loop-cases (start_loop X Z sha256 hex holds fuel a 0)) [
        | inr (inl out) ↦ absurd (ground arith)
        | inr (inr (inl (x, failed))) ↦ absurd (ground arith)
        | inr (inr (inr failed)) ↦ absurd (ground arith)
        | inl (a1, started) ↦ elim (Loop-cases (drain_loop X Z sha256 hex holds fuel a1)) [
          | inr (inl out) ↦ absurd (ground arith)
          | inr (inr (inl (x, failed))) ↦ absurd (ground arith)
          | inr (inr (inr failed)) ↦ absurd (ground arith)
          | inl (a2, drained) ↦ (a1, a2, started, drained, ground arith)
        ]
      ]

      -- When `archive_all` returns without an error, every stripe of the device that was written or that
      -- exists in the source has an entry in the mapping.
      pub archive_all_covers :
          (fuel : ℕ) (a b : StripeArchiver Source Channel Store) (id : ℕ)
          → archive_all G M nonce1 nonce2 to_json polls C X Z sha256 hex holds fuel a ≡ some (ok b)
          → id < a.stripe_count
          → stripe_should_be_archived a.metadata id ≡ ok true
          → (content : StripeContentSpecifier) × (lookup id b.stripe_hashes ≡ some content)
      archive_all_covers fuel a b id e lt should =
          let (a1, a2, started, drained, put) = archive_all_inv fuel a b e in
          let f = start_loop-Finished X Z sha256 hex holds fuel a a1 a2 started drained in
          let (hashes, _) = put_manifest-Puts a2 b put in
          let (v, known) : Known id a2.stripe_hashes =
            elim (f.all_covered id (subst (λ (n : ℕ). id < n) (sym f.kept.same_count) lt)
              (ap (λ m. stripe_should_be_archived m id) f.kept.same_metadata ∙ should)) [
                | inl there ↦ there
                | inr fetching ↦
                    absurd (nothing-Known a2.stripe_fetch_buffers id f.drained.no_buffers fetching)
              ] in
          (v, ap (lookup id) hashes ∙ known)

      -- When `archive_all` returns without an error, started with an empty mapping, no keys seen and the
      -- store's count of uploads: for every hash in the mapping the store has been handed, under the
      -- hash's key, an object whose own hash has that key, and the store has no upload in flight. This
      -- holds for every ledger of the store.
      pub archive_all_uploads :
          (L : Ledger Store) (fuel : ℕ) (a b : StripeArchiver Source Channel Store) (id : ℕ)
          (hash : List ℕ)
          → archive_all G M nonce1 nonce2 to_json polls C X Z sha256 hex holds fuel a ≡ some (ok b)
          → a.stripe_hashes ≡ []
          → a.seen_object_keys ≡ []
          → a.inflight_puts ≡ L.running a.archive_store
          → lookup id b.stripe_hashes ≡ some (hashed hash)
          → Handed L sha256 hex b.archive_store (object_key hex hash)
            × (L.running b.archive_store ≡ 0)
      archive_all_uploads L fuel a b id hash e fresh unseen counted found =
          let (a1, a2, started, drained, put) = archive_all_inv fuel a b e in
          let f = start_loop-Finished X Z sha256 hex holds fuel a a1 a2 started drained in
          let (hashes, puts) = put_manifest-Puts a2 b put in
          let none_yet : HasObjects hex a = λ j h known.
            absurd (nothing-Known a.stripe_hashes j (ap is_empty fresh) (hashed h, known)) in
          let seen = f.kept.objects none_yet id hash (sym (ap (lookup id) hashes) ∙ found) in
          let stored = drain_loop-Stored L sha256 hex X Z holds fuel a1 a2 drained (
            start_loop-Stored L sha256 hex X Z holds fuel a a1 0 started
              (nothing-Stored L sha256 hex a unseen counted)) in
          let (bytes, there, same) = stored.handed (object_key hex hash) seen in
          let no_puts = f.drained.no_puts in
          let count = stored.counted in
          ((bytes, Puts-handed L puts there, same), Puts-running L puts (ground arith))
