-- ===== src/Upload/Gathered.antt =====
-- file_upload.go, `uploadAndCollectBlockData`: what the loop has collected after some blocks.
use proton_api_bridge.Common.{
  ℕ, ◌+◌, List, [], ◌∷◌, ◌++◌, length, length-append, concat, map, append_nil, append_assoc, ◌≡◌,
  sym, ◌∙◌, arith,
}
use proton_api_bridge.Proton.{Bytes}
use proton_api_bridge.Api.{Api}
use proton_api_bridge.Upload.Batch.{PendingUploadBlock}
use proton_api_bridge.Upload.Blocks.{Collected}

module _ (api : Api) where
  -- The hashes of the encrypted blocks, one after the other.
  abbrev pub manifest_of : List PendingUploadBlock → Bytes
  manifest_of blocks = concat (map (λ b. api.sha256 b.enc_data) blocks)

  -- What is collected after these blocks.
  abbrev pub gathered :
      Collected → List Bytes → List PendingUploadBlock → List PendingUploadBlock → Collected
  gathered c chunks blocks pending = record {
    pending = pending;
    manifest_signature_data = c.manifest_signature_data ++ manifest_of blocks;
    total_file_size = c.total_file_size + length (concat chunks);
    block_sizes = c.block_sizes ++ map length chunks;
    sha1_digests = c.sha1_digests ++ concat chunks;
  }

  abbrev pub added : Collected → Bytes → PendingUploadBlock → Collected
  added c content b = record {
    pending = c.pending ++ (b ∷ []);
    manifest_signature_data = c.manifest_signature_data ++ api.sha256 b.enc_data;
    total_file_size = c.total_file_size + length content;
    block_sizes = c.block_sizes ++ (length content ∷ []);
    sha1_digests = c.sha1_digests ++ content;
  }

  abbrev build : List PendingUploadBlock → Bytes → ℕ → List ℕ → Bytes → Collected
  build pending manifest total sizes digests = record {
    pending = pending;
    manifest_signature_data = manifest;
    total_file_size = total;
    block_sizes = sizes;
    sha1_digests = digests;
  }

  build_eq :
      (p : List PendingUploadBlock) {m m' : Bytes} {t t' : ℕ} {s s' : List ℕ} {d d' : Bytes}
      → m ≡ m'
      → t ≡ t'
      → s ≡ s'
      → d ≡ d'
      → build p m t s d ≡ build p m' t' s' d'
  build_eq p em et es ed = cc (em, et, es, ed)

  pub gathered-added :
      (c : Collected) (x : Bytes) (xs : List Bytes) (b : PendingUploadBlock)
      (bs q : List PendingUploadBlock)
      → gathered (added c x b) xs bs q ≡ gathered c (x ∷ xs) (b ∷ bs) q
  gathered-added c x xs b bs q =
      build_eq q (append_assoc c.manifest_signature_data (api.sha256 b.enc_data) (manifest_of bs))
        (omega (arith, length-append x (concat xs)))
        (append_assoc c.block_sizes (length x ∷ []) (map length xs))
        (append_assoc c.sha1_digests x (concat xs))

  pub gathered_none :
      (c : Collected) (q : List PendingUploadBlock) → gathered c [] [] q ≡ record c { pending = q }
  gathered_none c q =
      build_eq q (append_nil c.manifest_signature_data) (omega arith) (append_nil c.block_sizes)
        (append_nil c.sha1_digests)

  pub gathered_one :
      (c : Collected) (x : Bytes) (b : PendingUploadBlock)
      → gathered c (x ∷ []) (b ∷ []) (c.pending ++ (b ∷ [])) ≡ added c x b
  gathered_one c x b =
      sym (gathered-added c x [] b [] (c.pending ++ (b ∷ [])))
      ∙ gathered_none (added c x b) (c.pending ++ (b ∷ []))
