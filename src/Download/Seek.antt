-- ===== src/Download/Seek.antt =====
-- file_download.go: reading to the end, skipping, and the seek of `DownloadFile`.
use native.Mathlib.Decide.{dec_lt}
use proton_api_bridge.Common.{
  ℕ, zero, suc, ◌-◌, ◌≤◌, ◌<◌, min, Bool, true, false, [], ◌∷◌, ◌++◌, map, length, drop, concat,
  ◌≡◌, refl, sym, ap, ◌∙◌, arith, get_elem?-of_lt, drop_past, eq_nil_of_length, length-append,
  if◌then◌else◌,
}
use proton_api_bridge.Action.{
  Act, Outcome, ok, err, fatal, out_of_fuel, Error, eof, pure, and_then, >>=_step,
}
use proton_api_bridge.Proton.{Bytes}
use proton_api_bridge.Api.{Api}
use proton_api_bridge.Drive.{Drive}
use proton_api_bridge.Download.Defs.{Reading, read, discard, discard_buffer_size}
use proton_api_bridge.Download.Blocks.{
  StoredFile, IsStored, reading, remaining, read_end, read_next, remaining-block,
}

abbrev is_eof : Error → Bool
is_eof eof = true
is_eof _ = false

module _ (api : Api) (drive : Drive api) where
  -- After one `Read`: the rest of the bytes, unless the end of the file was reported.
  abbrev pub drain_next :
      Act (Reading api) Bytes → Outcome Bytes × Reading api → Outcome Bytes × Reading api
  drain_next more (ok chunk, s) = and_then (more s) (λ rest. pure (chunk ++ rest))
  drain_next more (err e, s) = (if is_eof e then ok [] else err e, s)
  drain_next more (fatal, s) = (fatal, s)
  drain_next more (out_of_fuel, s) = (out_of_fuel, s)

  -- `io.ReadAll(reader)`: `Read` until the end of the file, with slices of any length.
  unfoldable pub drain : ℕ → (ℕ → ℕ) → Act (Reading api) Bytes
  drain zero size s = (out_of_fuel, s)
  drain (suc fuel) size s = drain_next (drain fuel size) (read api drive (size fuel) s)

  module _ (file : StoredFile api) (h : IsStored api drive file) where
    nothing_left :
        (buffer : Bytes) (next : ℕ)
        → next ≤ length file.revision.blocks
        → ¬ (0 < length (remaining api drive file buffer next))
        → (buffer ≡ []) × (next ≡ length file.revision.blocks)
    nothing_left (x ∷ xs) next inside empty = absurd (empty (omega arith))
    nothing_left [] next inside empty = (
      refl,
      elim (dec_lt next (length file.revision.blocks)) [
        | no after ↦ omega arith
        | yes before ↦
            let (b, found) = get_elem?-of_lt file.revision.blocks next before in
            let begins = ap length (remaining-block api drive file b next found) in
            absurd (
              empty (
                omega (
                  arith,
                  begins,
                  length-append (file.plain b)
                      (concat (map file.plain (drop (suc next) file.revision.blocks))),
                  (h.intact next b found).filled,
                )))
      ],
    )

    -- Reading a reader of a file stored intact to the end, with slices of any positive lengths
    -- and more rounds than bytes are left, gives all that is left, in order, and leaves the
    -- reader at the end of the file.
    pub drain_run :
        (fuel : ℕ) (size : ℕ → ℕ) (buffer : Bytes) (next : ℕ) (w : api.World)
        → ((k : ℕ) → 0 < size k)
        → next ≤ length file.revision.blocks
        → length (remaining api drive file buffer next) < fuel
        → drain fuel size (reading api drive file buffer next false w) ≡ (
          ok (remaining api drive file buffer next),
          reading api drive file [] (length file.revision.blocks) true w,
        )
    unfolding drain
    drain_run zero size buffer next w positive inside enough = absurd (omega arith)
    drain_run (suc fuel) size buffer next w positive inside enough =
        elim (dec_lt 0 (length (remaining api drive file buffer next))) [
          | no empty ↦
              let (no_buffer, last) = nothing_left buffer next inside empty in
              let none_left = eq_nil_of_length (remaining api drive file buffer next) empty in
              ap
                (λ b.
                  drain_next (drain fuel size)
                    (read api drive (size fuel) (reading api drive file b next false w)))
                no_buffer
              ∙ ap (drain_next (drain fuel size)) (read_end api drive file (size fuel) next w last)
              ∙ ap (λ all. (ok all, reading api drive file [] next true w)) (sym none_left)
              ∙ ap
                  (λ k.
                    (ok (remaining api drive file buffer next), reading api drive file [] k true w))
                  last
          | yes more ↦
              let (chunk, rest, next', ran, split, some_read, bounded, inside') =
                read_next api drive file (size fuel) buffer next w h (positive fuel) inside more in
              let again = drain_run fuel size rest next' w positive inside' (
                omega (
                  arith,
                  ap length split,
                  length-append chunk (remaining api drive file rest next'),
                )) in
              ap (drain_next (drain fuel size)) ran
              ∙ ap (λ (r : Outcome Bytes × Reading api). and_then r (λ tail. pure (chunk ++ tail)))
                  again
              ∙ ap (λ all. (ok all, reading api drive file [] (length file.revision.blocks) true w))
                  (sym split)
        ]

    -- Skipping n bytes of a reader of a file stored intact, when at least n are left and the
    -- fuel is at least n, succeeds and leaves exactly the bytes behind them to be read.
    pub discard_run :
        (fuel n : ℕ) (buffer : Bytes) (next : ℕ) (w : api.World)
        → next ≤ length file.revision.blocks
        → n ≤ length (remaining api drive file buffer next)
        → n ≤ fuel
        → (rest : Bytes) × (next' : ℕ) × (discard api drive fuel n
              (reading api drive file buffer next false w)
            ≡ (ok tt, reading api drive file rest next' false w))
          × (remaining api drive file rest next' ≡ drop n (remaining api drive file buffer next))
          × (next' ≤ length file.revision.blocks)
    unfolding discard
    discard_run fuel zero buffer next w inside there enough = (buffer, next, refl, refl, inside)
    discard_run zero (suc n) buffer next w inside there enough = absurd (omega arith)
    discard_run (suc fuel) (suc n) buffer next w inside there enough =
        let (chunk, rest, next', ran, split, some_read, bounded, inside') =
          read_next api drive file (min discard_buffer_size (suc n)) buffer next w h (omega arith)
            inside (omega arith) in
        let lengths = ap length split ∙ length-append chunk (remaining api drive file rest next') in
        let (rest2, next2, ran2, left2, inside2) =
          discard_run fuel (suc n - length chunk) rest next' w inside' (omega (arith, lengths))
            (omega arith) in
        (
          rest2,
          next2,
          >>=_step (read api drive (min discard_buffer_size (suc n)))
                (λ c. discard api drive fuel (suc n - length c))
                (reading api drive file buffer next false w) ran
              ∙ ran2,
          left2
              ∙ sym (drop_past chunk (remaining api drive file rest next') (suc n) (omega arith))
              ∙ ap (drop (suc n)) (sym split),
          inside2,
        )
