-- ===== src/Download/Mismatch.antt =====
-- file_download.go, `Read`, and crypto.go, `decryptBlockIntoBuffer`: a block whose hash is not the
-- recorded one.
use proton_api_bridge.Common.{
  ℕ, ◌<◌, Bool, false, some, [], ◌∷◌, ◌++◌, ◌==◌, length, get_elem?, get_elem?-lt, take, drop, ◌≡◌,
  ap, ◌∙◌, arith, if◌then◌else◌,
}
use proton_api_bridge.Action.{
  ok, err, pure, >>=_step, >>=_stop, ◌>>◌, downloaded_block_hash_verification_failed, else_step,
}
use proton_api_bridge.Proton.{Bytes, Block}
use proton_api_bridge.Api.{Api}
use proton_api_bridge.Drive.{Drive, get_signature_verification_keyring}
use proton_api_bridge.Download.Defs.{
  outside, decrypt_block_into_buffer, fetch_block, fetch_blocks, populate_buffer_on_read, refill,
  read, buffer_read,
}
use proton_api_bridge.Download.Blocks.{
  StoredFile, reader_at, reading, outside_run, buffer_run, more_test, suc_test,
}

module _ (api : Api) (drive : Drive api) (file : StoredFile api) where
  -- The server sends a block that opens to a plain text whose signature holds, and that has
  -- another hash than the recorded one.
  pub record Mismatched (b : Block) : Type 0 where
    pub block_reader : api.BlockReader
    pub sealed : Bytes
    pub signature : api.Message
    pub sent : (w : api.World) → api.get_block b.bare_url b.token w ≡ (ok block_reader, w)
    pub received : (w : api.World) → api.read_all block_reader w ≡ (ok sealed, w)
    pub opens : api.session_decrypt file.session_key sealed ≡ ok (file.plain b)
    pub signed : api.message_from_armored b.enc_signature ≡ ok signature
    pub verified :
        (time : ℕ)
        → api.verify_detached_encrypted file.verification_kr
            (file.plain b)
            signature
            file.node_kr
            time
          ≡ ok tt
    pub differs : (api.base64_encode (api.sha256 sealed) == b.hash) ≡ false
    pub filled : 0 < length (file.plain b)

  decrypt_fails :
      (b : Block) (buffer : Bytes) (next : ℕ) (w : api.World) (i : Mismatched b)
      → decrypt_block_into_buffer api drive file.session_key file.verification_kr file.node_kr
          b.hash b.enc_signature i.block_reader
          (reading api drive file buffer next false w)
        ≡ (
          err downloaded_block_hash_verification_failed,
          reading api drive file (buffer ++ file.plain b) next false w,
        )
  unfolding decrypt_block_into_buffer
  decrypt_fails b buffer next w i =
      >>=_step (outside api drive (api.read_all i.block_reader)) _ _ (
        outside_run api drive file (api.read_all i.block_reader)
          (reading api drive file buffer next false w) (i.received w))
      ∙ rw (i.opens, i.signed, i.verified, i.differs)

  fetch_fails :
      (b : Block) (i next : ℕ) (w : api.World)
      → get_signature_verification_keyring api drive
          (file.link.signature_email ∷ [])
          (some file.node_kr ∷ [])
        ≡ ok file.verification_kr
      → Mismatched b
      → fetch_block api drive
          (reader_at api drive file [] next false)
          i
          b
          (reading api drive file [] next false w)
        ≡ (
          err downloaded_block_hash_verification_failed,
          reading api drive file (file.plain b) next false w,
        )
  unfolding fetch_block
  fetch_fails b i next w keyed there =
      >>=_step (outside api drive (api.get_block b.bare_url b.token)) _ _ (
        outside_run api drive file (api.get_block b.bare_url b.token)
          (reading api drive file [] next false w) (there.sent w))
      ∙ rw keyed (
          >>=_stop
            (decrypt_block_into_buffer api drive file.session_key file.verification_kr file.node_kr
              b.hash b.enc_signature there.block_reader)
            _ _ (decrypt_fails b [] next w there))

  refill_fails :
      (b : Block) (next : ℕ) (w : api.World)
      → get_signature_verification_keyring api drive
          (file.link.signature_email ∷ [])
          (some file.node_kr ∷ [])
        ≡ ok file.verification_kr
      → Mismatched b
      → get_elem? file.revision.blocks next ≡ some b
      → populate_buffer_on_read api drive (reading api drive file [] next false w) ≡ (
        err downloaded_block_hash_verification_failed,
        reading api drive file (file.plain b) next false w,
      )
  unfolding populate_buffer_on_read fetch_blocks
  refill_fails b next w keyed there found =
      else_step _ _ (reading api drive file [] next false w) (
        more_test next (length file.revision.blocks) (get_elem?-lt file.revision.blocks next found))
      ∙ rw (found, fetch_blocks)
          (>>=_stop (fetch_block api drive (reader_at api drive file [] next false) next b) _ _
            (fetch_fails b next next w keyed there))

  read_buffered :
      (n : ℕ) (buffer : Bytes) (next : ℕ) (w : api.World)
      → 0 < length buffer
      → read api drive n (reading api drive file buffer next false w)
        ≡ (ok (take n buffer), reading api drive file (drop n buffer) next false w)
  unfolding read
  read_buffered n [] next w h = absurd (omega arith)
  read_buffered n (x ∷ xs) next w h =
      ap
        (λ (empty : Bool).
          ((if empty then refill api drive else pure tt) >> buffer_read api drive n)
            (reading api drive file (x ∷ xs) next false w))
        (suc_test (length xs))
      ∙ buffer_run api drive file n (x ∷ xs) next w h

  -- When the next block opens and is signed but has not the recorded hash, a `Read` of an empty
  -- buffer reports that, but leaves the block's plain text in the buffer: the next `Read`
  -- succeeds with bytes of that block, and the reader still stands before the block.
  pub read_after_mismatch :
      (n m next : ℕ) (b : Block) (w : api.World)
      → get_signature_verification_keyring api drive
          (file.link.signature_email ∷ [])
          (some file.node_kr ∷ [])
        ≡ ok file.verification_kr
      → Mismatched b
      → get_elem? file.revision.blocks next ≡ some b
      → (read api drive n (reading api drive file [] next false w) ≡ (
        err downloaded_block_hash_verification_failed,
        reading api drive file (file.plain b) next false w,
      ))
        × (read api drive m (reading api drive file (file.plain b) next false w) ≡ (
          ok (take m (file.plain b)),
          reading api drive file (drop m (file.plain b)) next false w,
        ))
  unfolding read refill
  read_after_mismatch n m next b w keyed there found = (
    rw (refill_fails b next w keyed there found, refill),
    read_buffered m (file.plain b) next w there.filled,
  )
