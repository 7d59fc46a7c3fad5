-- ===== src/Tests/Downloads.antt =====
-- Downloads of a file with two blocks.
use proton_api_bridge.Common.{
  ℕ, zero, suc, ◌<◌, String, true, false, some, List, [], ◌∷◌, ◌++◌, ◌≡◌, refl, subst, lookup,
  arith, length, get_elem?, ◌≤◌, inr,
}
use proton_api_bridge.Int.{pos}
use proton_api_bridge.Action.{ok, err, bind, downloaded_block_hash_verification_failed}
use proton_api_bridge.Proton.{Bytes, Block, RevisionState}
use proton_api_bridge.Drive.{
  St, add_keys, add_keys_from_kr, add_addresses, get_signature_verification_keyring,
}
use proton_api_bridge.Files.{FileSystemAttrs}
use proton_api_bridge.Download.{FileDownloadReader, read, seek, discard}
use proton_api_bridge.Download.Blocks.{
  StoredFile, Intact, IsStored, reader_at, reading, remaining, read_next,
}
use proton_api_bridge.Download.Seek.{drain, drain_run, discard_run}
use proton_api_bridge.Download.Landing.{sizes_of, Lands, seek_block-Lands}
use proton_api_bridge.Download.Offset.{download_from_offset}
use proton_api_bridge.Download.Mismatch.{Mismatched, read_after_mismatch}
use proton_api_bridge.Tests.Server.{api, drive, link_at, stored, start}

abbrev pub block : String → Block
block url = record { bare_url = url; token = "token"; hash = "hash"; enc_signature = "signature" }

abbrev blocks : List Block
blocks = block "first" ∷ block "second" ∷ []

abbrev plain : Block → Bytes
plain b = stored b.bare_url

abbrev file : StoredFile api
file = record {
  link = link_at "notes";
  node_kr = 3;
  session_key = 1;
  revision = record {
    metadata = record {
      id = "revision";
      state = RevisionState.active;
      signature_email = "me";
      x_attr = "";
    };
    blocks = blocks;
  };
  verification_kr = 2;
  plain = plain;
}

-- The reader's slices hold four bytes.
abbrev pub four : ℕ → ℕ
four k = 4

abbrev begin : St api
begin = start true

abbrev attrs : FileSystemAttrs ℕ
attrs = record {
  modification_time = 0;
  size = pos 5;
  block_sizes = some (sizes_of plain blocks);
  digests = "";
}

block-Intact : (url : String) → 0 < length (stored url) → Intact api drive file (block url)
block-Intact url filled = record {
  block_reader = stored url;
  sealed = stored url;
  signature = [];
  sent = λ w. refl;
  received = λ w. refl;
  opens = refl;
  signed = refl;
  verified = λ time. refl;
  hashed = refl;
  filled = filled;
}

file-Intact : (i : ℕ) (b : Block) → get_elem? blocks i ≡ some b → Intact api drive file b
file-Intact zero b found =
    subst (Intact api drive file) (cc found) (block-Intact "first" (omega arith))
file-Intact (suc zero) b found =
    subst (Intact api drive file) (cc found) (block-Intact "second" (omega arith))
file-Intact (suc (suc i)) b found = absurd (cc found)

file_stored : IsStored api drive file
unfolding get_signature_verification_keyring add_addresses add_keys_from_kr add_keys bind lookup
file_stored = record { keyed = refl; intact = file-Intact }

read_next_example :
    (chunk rest : Bytes) × (next' : ℕ) × (read api drive 2
        (reading api drive file (3 ∷ []) 1 false 100)
      ≡ (ok chunk, reading api drive file rest next' false 100))
    × (remaining api drive file (3 ∷ []) 1 ≡ chunk ++ remaining api drive file rest next')
    × (0 < length chunk)
    × (length chunk ≤ 2)
    × (next' ≤ length blocks)
read_next_example =
    read_next api drive file 2 (3 ∷ []) 1 100 file_stored (omega arith) (omega arith) (omega arith)

drain_run_example :
    drain api drive 9 four (reading api drive file (3 ∷ []) 1 false 100)
    ≡ (ok (3 ∷ 4 ∷ 5 ∷ []), reading api drive file [] 2 true 100)
drain_run_example =
    drain_run api drive file file_stored 9 four (3 ∷ []) 1 100 (λ k. omega arith) (omega arith)
      (omega arith)

discard_run_example :
    (rest : Bytes) × (next' : ℕ) × (discard api drive 4 4 (reading api drive file [] 0 false 100)
      ≡ (ok tt, reading api drive file rest next' false 100))
    × (remaining api drive file rest next' ≡ 5 ∷ [])
    × (next' ≤ length blocks)
discard_run_example =
    discard_run api drive file file_stored 4 4 [] 0 100 (omega arith) (omega arith) (omega arith)

seek_block-Lands_example : Lands plain blocks 0 0 4
seek_block-Lands_example =
    seek_block-Lands plain blocks 0 0 4 (omega arith) (omega arith) (omega arith)

download_from_offset_example :
    (r : FileDownloadReader api) × (seek api drive
        (reader_at api drive file [] 0 false)
        (some attrs)
        (pos 4)
        begin
      ≡ (ok r, begin))
    × ((drain api drive 9 four (record { reader = r; world = 100 })).0 ≡ ok (5 ∷ []))
download_from_offset_example =
    download_from_offset api drive file attrs 4 begin 9 four 100 file_stored (inr refl)
      (omega arith) (λ k. omega arith) (omega arith)

-- The same file with another hash recorded for its block.
abbrev wrong_block : Block
wrong_block = record (block "first") { hash = "other" }

abbrev wrong_file : StoredFile api
wrong_file = record file {
  revision = record { metadata = file.revision.metadata; blocks = wrong_block ∷ [] };
}

keyed : get_signature_verification_keyring api drive ("me" ∷ []) (some 3 ∷ []) ≡ ok 2
unfolding get_signature_verification_keyring add_addresses add_keys_from_kr add_keys bind lookup
keyed = refl

mismatched : Mismatched api drive wrong_file wrong_block
mismatched = record {
  block_reader = stored "first";
  sealed = stored "first";
  signature = [];
  sent = λ w. refl;
  received = λ w. refl;
  opens = refl;
  signed = refl;
  verified = λ time. refl;
  differs = refl;
  filled = omega arith;
}

read_after_mismatch_example :
    (read api drive 4 (reading api drive wrong_file [] 0 false 100) ≡ (
      err downloaded_block_hash_verification_failed,
      reading api drive wrong_file (1 ∷ 2 ∷ 3 ∷ []) 0 false 100,
    ))
    × (read api drive 2 (reading api drive wrong_file (1 ∷ 2 ∷ 3 ∷ []) 0 false 100)
        ≡ (ok (1 ∷ 2 ∷ []), reading api drive wrong_file (3 ∷ []) 0 false 100))
read_after_mismatch_example =
    read_after_mismatch api drive wrong_file 4 2 0 wrong_block 100 keyed mismatched refl
