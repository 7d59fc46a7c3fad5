-- ===== src/Download/Offset.antt =====
-- file_download.go, `DownloadFile`: the seek to an offset, and what is read from there.
use native.Mathlib.Decide.{dec_lt}
use proton_api_bridge.Common.{
  ℕ, ◌≤◌, ◌<◌, false, none, some, [], length, drop, ◌≡◌, ◌⊎◌, inl, inr, refl, ap, ◌∙◌, arith,
  length-drop, eq_nil_of_length,
}
use proton_api_bridge.Int.{ℤ, pos}
use proton_api_bridge.Action.{Act, Outcome, ⊤, ok, pure, and_then}
use proton_api_bridge.Proton.{Bytes}
use proton_api_bridge.Api.{Api}
use proton_api_bridge.Drive.{Drive, St}
use proton_api_bridge.Files.{FileSystemAttrs}
use proton_api_bridge.Download.Defs.{
  FileDownloadReader, Reading, discard, copy_n, seek_block, seek_with_sizes, seek, start_reading,
}
use proton_api_bridge.Download.Blocks.{StoredFile, IsStored, reader_at, remaining}
use proton_api_bridge.Download.Seek.{drain, drain_run, discard_run}
use proton_api_bridge.Download.Landing.{sizes_of, content, seek_block-Lands}

module _ (api : Api) (drive : Drive api) (file : StoredFile api) where
  -- The attributes of the file give no block sizes, or those of its blocks.
  abbrev pub Described : FileSystemAttrs api.Time → Type 0
  Described attrs =
      (attrs.block_sizes ≡ none)
      ⊎ (attrs.block_sizes ≡ some (sizes_of file.plain file.revision.blocks))

  abbrev whole : Bytes
  whole = content file.plain file.revision.blocks

  -- The reader works on this file, and these bytes are still to be read.
  abbrev pub Left : Bytes → FileDownloadReader api → Type 0
  Left bytes r =
      (buffer : Bytes) × (next : ℕ) × (r ≡ reader_at api drive file buffer next false)
      × (remaining api drive file buffer next ≡ bytes)
      × (next ≤ length file.revision.blocks)

  start_run :
      (r r' : FileDownloadReader api) (steps : Act (Reading api) ⊤) (s : St api)
      → steps (record { reader = r; world = s.world })
        ≡ (ok tt, record { reader = r'; world = s.world })
      → start_reading api r steps s ≡ (ok r', s)
  start_run r r' steps s run =
      ap
        (λ (p : Outcome ⊤ × Reading api).
          and_then (p.0, record s { world = p.1.world }) (λ _. pure p.1.reader))
        run

  copy_run :
      (n next : ℕ) (s : St api)
      → IsStored api drive file
      → next ≤ length file.revision.blocks
      → n ≤ length (remaining api drive file [] next)
      → (r : FileDownloadReader api) × (start_reading api
            (reader_at api drive file [] next false)
            (copy_n api drive (pos n))
            s
          ≡ (ok r, s))
        × Left (drop n (remaining api drive file [] next)) r
  unfolding copy_n
  copy_run n next s h inside there =
      let (rest, next', ran, left, inside') =
        discard_run api drive file h n n [] next s.world inside there (omega arith) in
      (
        reader_at api drive file rest next' false,
        start_run (reader_at api drive file [] next false)
            (reader_at api drive file rest next' false) (discard api drive n n) s ran,
        (rest, next', refl, left, inside'),
      )

  -- With block sizes the reader starts in the block where the offset lies.
  sized_run :
      (offset : ℕ) (s : St api)
      → IsStored api drive file
      → offset ≤ length whole
      → (r : FileDownloadReader api) × (seek_with_sizes api drive
            (reader_at api drive file [] 0 false)
            (some (sizes_of file.plain file.revision.blocks))
            (pos offset)
            s
          ≡ (ok r, s))
        × Left (drop offset whole) r
  unfolding seek_with_sizes seek_block
  sized_run offset s h there = elim (dec_lt 0 (length file.revision.blocks)) [
    | no empty ↦
        let none_stored = eq_nil_of_length file.revision.blocks empty in
        let (r, ran, left) = copy_run offset 0 s h (omega arith) there in
        (
          r,
          ap
                (λ bs.
                  let (first, skip) = seek_block (sizes_of file.plain bs) 0 (pos 0) (pos offset) in
                  start_reading api (reader_at api drive file [] first false)
                    (copy_n api drive skip) s)
                none_stored
              ∙ ran,
          left,
        )
    | yes filled ↦
        let (j, skip, lands, inside, bounded, same) =
          seek_block-Lands file.plain file.revision.blocks 0 0 offset (omega arith) (omega arith)
            filled in
        let (r, ran, (buffer, next, at_r, left, inside')) =
          copy_run skip j s h (omega arith) bounded in
        (
          r,
          ap
                (λ (p : ℕ × ℤ).
                  start_reading api (reader_at api drive file [] (p.0) false)
                    (copy_n api drive (p.1)) s)
                (lands ∙ ap (λ k. (k, pos skip)) (omega arith))
              ∙ ran,
          (buffer, next, at_r, left ∙ same ∙ ap (λ k. drop k whole) (omega arith), inside'),
        )
  ]

  seek_run :
      (attrs : FileSystemAttrs api.Time) (offset : ℕ) (s : St api)
      → IsStored api drive file
      → Described attrs
      → offset ≤ length whole
      → (r : FileDownloadReader api) × (seek api drive
            (reader_at api drive file [] 0 false)
            (some attrs)
            (pos offset)
            s
          ≡ (ok r, s))
        × Left (drop offset whole) r
  unfolding seek seek_with_sizes
  seek_run attrs offset s h (inr sized) there =
      let (r, ran, left) = sized_run offset s h there in
      (
        r,
        ap (λ o. seek_with_sizes api drive (reader_at api drive file [] 0 false) o (pos offset) s)
              sized
            ∙ ran,
        left,
      )
  seek_run attrs offset s h (inl missing) there =
      let (r, ran, left) = copy_run offset 0 s h (omega arith) there in
      (
        r,
        ap (λ o. seek_with_sizes api drive (reader_at api drive file [] 0 false) o (pos offset) s)
              missing
            ∙ ran,
        left,
      )

  -- For a file whose blocks are stored intact (each is sent whenever it is asked for, opens, is
  -- signed, has the recorded hash and is not empty), attributes that give either no block sizes
  -- or those of its blocks, an offset within the file, slices of any positive lengths and more
  -- rounds than the file has bytes: the seek of a new reader to the offset succeeds and leaves
  -- cache and server as they were, and reading that reader to the end gives exactly the file
  -- from that byte on.
  pub download_from_offset :
      (attrs : FileSystemAttrs api.Time) (offset : ℕ) (s : St api) (rounds : ℕ) (size : ℕ → ℕ)
      (w : api.World)
      → IsStored api drive file
      → Described attrs
      → offset ≤ length whole
      → ((k : ℕ) → 0 < size k)
      → length whole < rounds
      → (r : FileDownloadReader api) × (seek api drive
            (reader_at api drive file [] 0 false)
            (some attrs)
            (pos offset)
            s
          ≡ (ok r, s))
        × ((drain api drive rounds size (record { reader = r; world = w })).0
            ≡ ok (drop offset whole))
  download_from_offset attrs offset s rounds size w h described there positive enough =
      let (r, ran, (buffer, next, at_r, left, inside)) =
        seek_run attrs offset s h described there in
      (
        r,
        ran,
        ap
              (λ (q : FileDownloadReader api).
                (drain api drive rounds size (record { reader = q; world = w })).0)
              at_r
            ∙ ap (λ (p : Outcome Bytes × Reading api). p.0)
                (drain_run api drive file h rounds size buffer next w positive inside
                  (omega (arith, ap length left, length-drop offset whole)))
            ∙ ap ok left,
      )
