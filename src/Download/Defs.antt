-- ===== src/Download/Defs.antt =====
-- file_download.go: the reader, its `Read`, and `DownloadFile` with its seek; crypto.go:
-- `decryptBlockIntoBuffer`. `io.CopyN(io.Discard, …)` is written out over `Read`.
use proton_api_bridge.Common.{
  ℕ, zero, suc, ◌+◌, ◌-◌, min, String, Bool, true, false, Option, none, some, List, [], ◌∷◌, ◌++◌,
  ◌||◌, length, get_elem?, take, drop, eqb, ◌==◌, not, if◌then◌else◌,
}
use proton_api_bridge.Int.{ℤ, pos, negsuc, ◌+ℤ◌, ◌-ℤ◌, leb_ℤ}
use proton_api_bridge.Action.{
  Act, ⊤, ok, out_of_fuel, pure, fail, lift, gets, modify, fail_if, and_then, ◌>>=◌, ◌>>◌, eof,
  link_type_must_to_be_file_type, seek_offset_after_skipping_blocks,
  downloaded_block_hash_verification_failed,
}
use proton_api_bridge.Proton.{Bytes, Link, LinkType, Block, Revision, same_type}
use proton_api_bridge.Api.{Api}
use proton_api_bridge.Drive.{Drive, St, get_signature_verification_keyring}
use proton_api_bridge.Links.{get_link, get_link_kr_by_id, unlock_link, remove_link_id_from_cache}
use proton_api_bridge.Files.{FileSystemAttrs, get_active_revision_with_attrs}

-- `DOWNLOAD_BATCH_BLOCK_SIZE`
abbrev pub download_batch_block_size : ℕ
download_batch_block_size = 1

-- The buffer of `io.Discard`, and so the most that one `Read` is asked for by `io.CopyN`.
abbrev pub discard_buffer_size : ℕ
discard_buffer_size = 8192

pub record FileDownloadReader (api : Api) : Type 0 where
  pub link : Link
  pub buffer : Bytes
  pub node_kr : api.KeyRing
  pub session_key : api.SessionKey
  pub revision : Revision
  pub next_revision : ℕ
  pub is_eof : Bool

-- A reader at work: it changes itself and calls out.
pub record Reading (api : Api) : Type 0 where
  pub reader : FileDownloadReader api
  pub world : api.World

module _ (api : Api) (drive : Drive api) where
  abbrev pub outside : {A : Type 0} → Act api.World A → Act (Reading api) A
  outside call s = let (r, w) = call s.world in (r, record s { world = w })

  abbrev pub set_reader : (FileDownloadReader api → FileDownloadReader api) → Act (Reading api) ⊤
  set_reader f = modify (λ s. record s { reader = f s.reader })

  -- `decryptBlockIntoBuffer`; the plain text is in the buffer before the hash is compared.
  unfoldable pub decrypt_block_into_buffer :
      api.SessionKey
      → api.KeyRing
      → api.KeyRing
      → String
      → String
      → api.BlockReader
      → Act (Reading api) ⊤
  decrypt_block_into_buffer session_key addr_kr node_kr original_hash enc_signature block = do
    sealed ← outside (api.read_all block)
    plain ← lift (api.session_decrypt session_key sealed)
    signature ← lift (api.message_from_armored enc_signature)
    time ← gets (λ s. api.unix_time s.world)
    lift (api.verify_detached_encrypted addr_kr plain signature node_kr time)
    set_reader (λ r. record r { buffer = r.buffer ++ plain })
    fail_if (not (api.base64_encode (api.sha256 sealed) == original_hash))
        downloaded_block_hash_verification_failed

  -- One round of the loop of `populateBufferOnRead`.
  unfoldable pub fetch_block : FileDownloadReader api → ℕ → Block → Act (Reading api) ⊤
  unfolding decrypt_block_into_buffer get_signature_verification_keyring
  fetch_block r i block = do
    block_reader ← outside (api.get_block block.bare_url block.token)
    verification_kr ← lift (
        get_signature_verification_keyring api drive (r.link.signature_email ∷ [])
          (some r.node_kr ∷ []))
    decrypt_block_into_buffer r.session_key verification_kr r.node_kr block.hash block.enc_signature
        block_reader
    set_reader (λ q. record q { next_revision = i + 1 })

  -- The loop of `populateBufferOnRead`, by the blocks that the batch still allows; link, key and
  -- blocks of the reader do not change while it runs.
  unfoldable pub fetch_blocks : FileDownloadReader api → ℕ → ℕ → Act (Reading api) ⊤
  unfolding fetch_block
  fetch_blocks r zero i = pure tt
  fetch_blocks r (suc batch) i = elim (get_elem? r.revision.blocks i) [
    | none ↦ pure tt
    | some block ↦ fetch_block r i block >> fetch_blocks r batch (i + 1)
  ]

  -- `populateBufferOnRead`
  unfoldable pub populate_buffer_on_read : Act (Reading api) ⊤
  unfolding fetch_blocks
  populate_buffer_on_read s =
      (if eqb (length s.reader.revision.blocks) 0
            || eqb (length s.reader.revision.blocks) s.reader.next_revision
          then set_reader (λ r. record r { is_eof = true })
          else fetch_blocks s.reader download_batch_block_size s.reader.next_revision)
        s

  -- `bytes.Buffer.Read` into a slice of length `n`
  unfoldable pub buffer_read : ℕ → Act (Reading api) Bytes
  buffer_read n s = elim s.reader.buffer [
    | [] ↦ (if eqb n 0 then pure [] else fail eof) s
    | _ ∷ _ ↦ (
      ok (take n s.reader.buffer),
      record s { reader = record (s.reader) { buffer = drop n s.reader.buffer } },
    )
  ]

  -- The part of `Read` for an empty buffer.
  unfoldable pub refill : Act (Reading api) ⊤
  unfolding populate_buffer_on_read
  refill = do
    set_reader (λ r. record r { buffer = [] })
    populate_buffer_on_read
    done ← gets (λ s. s.reader.is_eof)
    fail_if done eof

  -- `Read` into a slice of length `n`: the bytes read, or the error.
  unfoldable pub read : ℕ → Act (Reading api) Bytes
  unfolding refill buffer_read
  read n = do
    empty ← gets (λ s. eqb (length s.reader.buffer) 0)
    if empty then refill else pure tt
    buffer_read n

  -- `io.CopyN(io.Discard, reader, n)`: reads until `n` bytes have passed, and gives an end of file
  -- that comes before that as an error. `left` is what is still to come, and with it the fuel: a
  -- round that succeeds reads at least one byte.
  unfoldable pub discard : ℕ → ℕ → Act (Reading api) ⊤
  discard fuel zero = pure tt
  discard zero (suc left) = lift out_of_fuel
  discard (suc fuel) (suc left) = do
    chunk ← read (min discard_buffer_size (suc left))
    discard fuel (suc left - length chunk)

  -- `io.CopyN` for any number, with the comparison that follows each call of it; for a negative
  -- number nothing is read and no error comes from `io.CopyN`.
  unfoldable pub copy_n : ℤ → Act (Reading api) ⊤
  unfolding discard
  copy_n (pos n) = discard n n
  copy_n (negsuc n) = fail seek_offset_after_skipping_blocks

-- The loop of `DownloadFile` over the block sizes: the first block, and what to skip in it.
unfoldable pub seek_block : List ℤ → ℕ → ℤ → ℤ → ℕ × ℤ
seek_block [] i total offset = (0, offset)
seek_block (size ∷ sizes) i total offset =
    let rest = seek_block sizes (i + 1) (total +ℤ size) offset in
    if leb_ℤ offset (total +ℤ size) then (i, offset -ℤ total) else rest

module _ (api : Api) where
  -- A reader that starts in the process's state, and what it leaves there.
  abbrev pub start_reading :
      FileDownloadReader api → Act (Reading api) ⊤ → Act (St api) (FileDownloadReader api)
  start_reading r steps s =
      let (end, t) = steps (record { reader = r; world = s.world }) in
      and_then (end, record s { world = t.world }) (λ _. pure t.reader)

module _ (api : Api) (drive : Drive api) where
  -- The seek of `DownloadFile` from the block sizes of the attributes.
  unfoldable pub seek_with_sizes :
      FileDownloadReader api → Option (List ℤ) → ℤ → Act (St api) (FileDownloadReader api)
  unfolding seek_block copy_n
  seek_with_sizes r none offset = start_reading api r (copy_n api drive offset)
  seek_with_sizes r (some sizes) offset =
      let (first, skip) = seek_block sizes 0 (pos 0) offset in
      start_reading api (record r { next_revision = first }) (copy_n api drive skip)

  -- The seek at the end of `DownloadFile`.
  unfoldable pub seek :
      FileDownloadReader api
      → Option (FileSystemAttrs api.Time)
      → ℤ
      → Act (St api) (FileDownloadReader api)
  unfolding seek_with_sizes
  seek r none offset = pure r
  seek r (some attrs) offset = seek_with_sizes r attrs.block_sizes offset

module _ (api : Api) (drive : Drive api) (fuel : ℕ) where
  -- `DownloadFile`: the reader, the link's size and the attributes.
  unfoldable pub download_file :
      Link → ℤ → Act (St api) (FileDownloadReader api × ℤ × Option (FileSystemAttrs api.Time))
  unfolding get_link_kr_by_id unlock_link get_active_revision_with_attrs seek
  download_file link offset = do
    fail_if (not (same_type link.type LinkType.file)) link_type_must_to_be_file_type
    parent_node_kr ← get_link_kr_by_id api drive fuel link.parent_link_id
    node_kr ← unlock_link api drive link parent_node_kr
    session_key ← lift (api.link_get_session_key link node_kr)
    (revision, attrs) ← get_active_revision_with_attrs api drive fuel (some link)
    let reader : FileDownloadReader api = record {
      link = link;
      buffer = [];
      node_kr = node_kr;
      session_key = session_key;
      revision = revision;
      next_revision = 0;
      is_eof = false;
    }
    sought ← seek api drive reader attrs offset
    pure (sought, link.size, attrs)

  -- `DownloadFileByID`
  unfoldable pub download_file_by_id :
      String → ℤ → Act (St api) (FileDownloadReader api × ℤ × Option (FileSystemAttrs api.Time))
  unfolding remove_link_id_from_cache get_link download_file
  download_file_by_id link_id offset = do
    remove_link_id_from_cache link_id false
    link ← get_link api drive link_id
    download_file link offset
