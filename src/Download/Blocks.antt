-- ===== src/Download/Blocks.antt =====
-- file_download.go, `Read`: its runs on a file whose blocks are stored intact.
use proton_api_bridge.Common.{
  ℕ, suc, ◌+◌, ◌≤◌, ◌<◌, Bool, true, false, some, [], ◌∷◌, ◌++◌, ◌||◌, map, length, get_elem?, take,
  drop, concat, eqb, ◌≡◌, refl, sym, ap, ◌∙◌, arith, get_elem?-lt, drop-eq-cons, get_elem?-of_lt,
  drop-length, take-append-drop, length-take, test_of_eq, if◌then◌else◌,
}
use native.Mathlib.Decide.{dec_lt}
use mathlib.Core.List.{append_assoc}
use proton_api_bridge.Action.{Act, ok, err, eof, pure, >>=_step, ◌>>◌, then_step, else_step}
use proton_api_bridge.Proton.{Bytes, Link, Block, Revision}
use proton_api_bridge.Api.{Api}
use proton_api_bridge.Drive.{Drive, get_signature_verification_keyring}
use proton_api_bridge.Download.Defs.{
  FileDownloadReader, Reading, outside, decrypt_block_into_buffer, fetch_block, fetch_blocks,
  populate_buffer_on_read, buffer_read, refill, read,
}

-- The test at the head of `populateBufferOnRead`.
pub more_test : (next n : ℕ) → next < n → (eqb n 0 || eqb n next) ≡ false
more_test next n h = ground arith

pub suc_test : (n : ℕ) → eqb (suc n) 0 ≡ false
suc_test n = ground arith

end_test : (next n : ℕ) → next ≡ n → (eqb n 0 || eqb n next) ≡ true
end_test next n h = ground arith

-- A file as the server stores it, with the keys that the reader has for it.
pub record StoredFile (api : Api) : Type 0 where
  pub link : Link
  pub node_kr : api.KeyRing
  pub session_key : api.SessionKey
  pub revision : Revision
  pub verification_kr : api.KeyRing
  pub plain : Block → Bytes

module _ (api : Api) (drive : Drive api) (file : StoredFile api) where
  -- The server sends the block each time it is asked, and changes nothing by that; what it sends
  -- has the recorded hash, and opens to a plain text whose signature holds at any time.
  pub record Intact (b : Block) : Type 0 where
    pub block_reader : api.BlockReader
    pub sealed : Bytes
    pub signature : api.Message
    pub sent : (w : api.World) → api.get_block b.bare_url b.token w ≡ (ok block_reader, w)
    pub received : (w : api.World) → api.read_all block_reader w ≡ (ok sealed, w)
    pub opens : api.session_decrypt file.session_key sealed ≡ ok (file.plain b)
    pub signed : api.message_from_armored b.enc_signature ≡ ok signature
    pub verified :
        (time : ℕ)
        → api.verify_detached_encrypted file.verification_kr
            (file.plain b)
            signature
            file.node_kr
            time
          ≡ ok tt
    pub hashed : api.base64_encode (api.sha256 sealed) ≡ b.hash
    pub filled : 0 < length (file.plain b)

  pub record IsStored : Type 0 where
    pub keyed :
        get_signature_verification_keyring api drive
          (file.link.signature_email ∷ [])
          (some file.node_kr ∷ [])
        ≡ ok file.verification_kr
    pub intact : (i : ℕ) (b : Block) → get_elem? file.revision.blocks i ≡ some b → Intact b

  -- The reader with this buffer, before this block.
  abbrev pub reader_at : Bytes → ℕ → Bool → FileDownloadReader api
  reader_at buffer next done = record {
    link = file.link;
    buffer = buffer;
    node_kr = file.node_kr;
    session_key = file.session_key;
    revision = file.revision;
    next_revision = next;
    is_eof = done;
  }

  abbrev pub reading : Bytes → ℕ → Bool → api.World → Reading api
  reading buffer next done w = record { reader = reader_at buffer next done; world = w }

  -- What is still to be read.
  abbrev pub remaining : Bytes → ℕ → Bytes
  remaining buffer next = buffer ++ concat (map file.plain (drop next file.revision.blocks))

  pub outside_run :
      {A : Type 0} (call : Act api.World A) (s : Reading api) {a : A}
      → call s.world ≡ (ok a, s.world)
      → outside api drive call s ≡ (ok a, s)
  outside_run call s run = ap (λ r. (r.0, record s { world = r.1 })) run

  decrypt_run :
      (b : Block) (buffer : Bytes) (next : ℕ) (w : api.World) (i : Intact b)
      → decrypt_block_into_buffer api drive file.session_key file.verification_kr file.node_kr
          b.hash b.enc_signature i.block_reader
          (reading buffer next false w)
        ≡ (ok tt, reading (buffer ++ file.plain b) next false w)
  unfolding decrypt_block_into_buffer
  decrypt_run b buffer next w i =
      >>=_step (outside api drive (api.read_all i.block_reader)) _ _
        (outside_run (api.read_all i.block_reader) (reading buffer next false w) (i.received w))
      ∙ rw (i.opens, i.signed, i.verified, i.hashed, test_of_eq b.hash b.hash refl)

  fetch_run :
      (b : Block) (i next : ℕ) (w : api.World)
      → IsStored
      → Intact b
      → fetch_block api drive (reader_at [] next false) i b (reading [] next false w)
        ≡ (ok tt, reading (file.plain b) (i + 1) false w)
  unfolding fetch_block
  fetch_run b i next w h there =
      >>=_step (outside api drive (api.get_block b.bare_url b.token)) _ _
        (outside_run (api.get_block b.bare_url b.token) (reading [] next false w) (there.sent w))
      ∙ rw h.keyed (
          >>=_step
            (decrypt_block_into_buffer api drive file.session_key file.verification_kr file.node_kr
              b.hash b.enc_signature there.block_reader)
            _ _ (decrypt_run b [] next w there))

  -- With a block left, the buffer is filled with that block.
  populate_run :
      (b : Block) (next : ℕ) (w : api.World)
      → IsStored
      → get_elem? file.revision.blocks next ≡ some b
      → populate_buffer_on_read api drive (reading [] next false w)
        ≡ (ok tt, reading (file.plain b) (next + 1) false w)
  unfolding populate_buffer_on_read fetch_blocks
  populate_run b next w h found =
      else_step _ _ (reading [] next false w) (
        more_test next (length file.revision.blocks) (get_elem?-lt file.revision.blocks next found))
      ∙ rw (found, fetch_blocks)
          (>>=_step (fetch_block api drive (reader_at [] next false) next b) _ _
            (fetch_run b next next w h (h.intact next b found)))

  -- With none left, the end of the file is noted.
  populate_end :
      (next : ℕ) (w : api.World)
      → next ≡ length file.revision.blocks
      → populate_buffer_on_read api drive (reading [] next false w)
        ≡ (ok tt, reading [] next true w)
  unfolding populate_buffer_on_read
  populate_end next w last =
      then_step _ _ (reading [] next false w) (end_test next (length file.revision.blocks) last)

  refill_run :
      (b : Block) (next : ℕ) (w : api.World)
      → IsStored
      → get_elem? file.revision.blocks next ≡ some b
      → refill api drive (reading [] next false w)
        ≡ (ok tt, reading (file.plain b) (next + 1) false w)
  unfolding refill
  refill_run b next w h found = rw (populate_run b next w h found, refill)

  -- A reader with nothing left reports the end of the file.
  pub read_end :
      (n next : ℕ) (w : api.World)
      → next ≡ length file.revision.blocks
      → read api drive n (reading [] next false w) ≡ (err eof, reading [] next true w)
  unfolding read refill
  read_end n next w last = rw (populate_end next w last, refill)

  pub buffer_run :
      (n : ℕ) (buffer : Bytes) (next : ℕ) (w : api.World)
      → 0 < length buffer
      → buffer_read api drive n (reading buffer next false w)
        ≡ (ok (take n buffer), reading (drop n buffer) next false w)
  unfolding buffer_read
  buffer_run n [] next w h = absurd (omega arith)
  buffer_run n (x ∷ xs) next w h = refl

  -- What is left before the next block begins with that block.
  pub remaining-block :
      (b : Block) (next : ℕ)
      → get_elem? file.revision.blocks next ≡ some b
      → remaining [] next ≡ remaining (file.plain b) (suc next)
  remaining-block b next found =
      ap (λ bs. concat (map file.plain bs)) (drop-eq-cons file.revision.blocks next found)

  taken :
      (n : ℕ) (buffer : Bytes) (next : ℕ)
      → remaining buffer next ≡ take n buffer ++ remaining (drop n buffer) next
  taken n buffer next =
      ap (λ b. b ++ concat (map file.plain (drop next file.revision.blocks)))
        (sym (take-append-drop n buffer))
      ∙ append_assoc (take n buffer) (drop n buffer) _

  next_block :
      (next : ℕ)
      → next ≤ length file.revision.blocks
      → 0 < length (remaining [] next)
      → next < length file.revision.blocks
  next_block next inside more = elim (dec_lt next (length file.revision.blocks)) [
    | yes before ↦ before
    | no after ↦
        let last : next ≡ length file.revision.blocks = omega arith in
        let none_left : remaining [] next ≡ [] =
          ap (λ k. concat (map file.plain (drop k file.revision.blocks))) last
          ∙ ap (λ bs. concat (map file.plain bs)) (drop-length file.revision.blocks) in
        absurd (omega (arith, ap length none_left))
  ]

  -- One `Read` into a slice of at least one byte, on a reader of a file stored intact with
  -- something left, gives the next bytes, at least one and at most as many as asked for, and
  -- leaves exactly the rest to be read.
  pub read_next :
      (n : ℕ) (buffer : Bytes) (next : ℕ) (w : api.World)
      → IsStored
      → 0 < n
      → next ≤ length file.revision.blocks
      → 0 < length (remaining buffer next)
      → (chunk rest : Bytes) × (next' : ℕ) × (read api drive n (reading buffer next false w)
          ≡ (ok chunk, reading rest next' false w))
        × (remaining buffer next ≡ chunk ++ remaining rest next')
        × (0 < length chunk)
        × (length chunk ≤ n)
        × (next' ≤ length file.revision.blocks)
  unfolding read
  read_next n (x ∷ xs) next w h some_asked inside more = (
    take n (x ∷ xs),
    drop n (x ∷ xs),
    next,
    ap
          (λ (empty : Bool).
            ((if empty then refill api drive else pure tt) >> buffer_read api drive n)
              (reading (x ∷ xs) next false w))
          (suc_test (length xs))
        ∙ buffer_run n (x ∷ xs) next w (omega arith),
    taken n (x ∷ xs) next,
    omega (arith, length-take n (x ∷ xs)),
    omega (arith, length-take n (x ∷ xs)),
    inside,
  )
  read_next n [] next w h some_asked inside more =
      let before = next_block next inside more in
      let (b, found) = get_elem?-of_lt file.revision.blocks next before in
      let filled = h.intact next b found in
      (
        take n (file.plain b),
        drop n (file.plain b),
        suc next,
        rw (refill_run b next w h found, buffer_run n (file.plain b) (next + 1) w filled.filled)
            (ap (λ k. (ok (take n (file.plain b)), reading (drop n (file.plain b)) k false w))
              (omega arith)),
        remaining-block b next found ∙ taken n (file.plain b) (suc next),
        omega (arith, length-take n (file.plain b), filled.filled),
        omega (arith, length-take n (file.plain b)),
        before,
      )
