-- ===== src/Download/Landing.antt =====
-- file_download.go, `DownloadFile`: the loop over the block sizes.
use native.Mathlib.Decide.{dec_le}
use native.Mathlib.Nat.{add-zero}
use proton_api_bridge.Common.{
  ℕ, suc, ◌+◌, ◌-◌, ◌≤◌, ◌<◌, Bool, true, false, List, [], ◌∷◌, map, length, drop, concat, ◌≡◌,
  refl, sym, ap, ◌∙◌, arith, drop_past, length-append, leb, if◌then◌else◌, if_then, if_else,
}
use proton_api_bridge.Int.{ℤ, pos, ◌-ℤ◌, leb_ℤ, pos_add, pos_sub, leb_pos}
use proton_api_bridge.Proton.{Bytes, Block}
use proton_api_bridge.Download.Defs.{seek_block}

seek_block_step :
    (size i total offset : ℕ) (sizes : List ℤ)
    → seek_block (pos size ∷ sizes) i (pos total) (pos offset) ≡ (
        if leb offset (total + size)
        then (i, pos offset -ℤ pos total)
        else seek_block sizes (i + 1) (pos (total + size)) (pos offset))
unfolding seek_block
seek_block_step size i total offset sizes =
    ap
      (λ z.
        if leb_ℤ (pos offset) z
        then (i, pos offset -ℤ pos total)
        else seek_block sizes (i + 1) z (pos offset))
      (pos_add total size)
    ∙ ap
        (λ (t : Bool).
          if t
          then (i, pos offset -ℤ pos total)
          else seek_block sizes (i + 1) (pos (total + size)) (pos offset))
        (leb_pos offset (total + size))

leb_of_le : (a b : ℕ) → a ≤ b → leb a b ≡ true
leb_of_le a b h = ground arith

leb_of_not : (a b : ℕ) → ¬ (a ≤ b) → leb a b ≡ false
leb_of_not a b h = ground arith

module _ (plain : Block → Bytes) where
  abbrev pub sizes_of : List Block → List ℤ
  sizes_of = map (λ b. pos (length (plain b)))

  abbrev pub content : List Block → Bytes
  content bs = concat (map plain bs)

  -- The loop over these sizes lands in a block, and skipping the rest of the offset from the start
  -- of that block is skipping the whole offset.
  abbrev pub Lands : List Block → ℕ → ℕ → ℕ → Type 0
  Lands bs i total offset =
      (j skip : ℕ) × (seek_block (sizes_of bs) i (pos total) (pos offset) ≡ (i + j, pos skip))
      × (j < length bs)
      × (skip ≤ length (content (drop j bs)))
      × (drop skip (content (drop j bs)) ≡ drop (offset - total) (content bs))

  Lands-here :
      (b : Block) (bs : List Block) (i total offset : ℕ)
      → total ≤ offset
      → offset ≤ total + length (content (b ∷ bs))
      → offset ≤ total + length (plain b)
      → Lands (b ∷ bs) i total offset
  Lands-here b bs i total offset low high here = (
    0,
    offset - total,
    seek_block_step (length (plain b)) i total offset (sizes_of bs)
        ∙ if_then _ _ (leb_of_le _ _ here)
        ∙ ap (λ z. (i, z)) (pos_sub offset total low)
        ∙ ap (λ k. (k, pos (offset - total))) (sym (add-zero i)),
    omega arith,
    omega arith,
    refl,
  )

  Lands-beyond :
      (b : Block) (bs : List Block) (i total offset : ℕ)
      → total ≤ offset
      → ¬ (offset ≤ total + length (plain b))
      → Lands bs (i + 1) (total + length (plain b)) offset
      → Lands (b ∷ bs) i total offset
  Lands-beyond b bs i total offset low beyond (j, skip, lands, inside, bounded, same) = (
    suc j,
    skip,
    seek_block_step (length (plain b)) i total offset (sizes_of bs)
        ∙ if_else _ _ (leb_of_not _ _ beyond)
        ∙ lands
        ∙ ap (λ k. (k, pos skip)) (omega arith),
    omega arith,
    bounded,
    same
        ∙ ap (λ k. drop k (content bs)) (omega arith)
        ∙ sym (drop_past (plain b) (content bs) (offset - total) (omega arith)),
  )

  -- For an offset between the start of a non-empty list of blocks and its end, the loop over
  -- their sizes stops at one of these blocks, and what it leaves to skip from the start of that
  -- block ends where the offset does.
  pub seek_block-Lands :
      (bs : List Block) (i total offset : ℕ)
      → total ≤ offset
      → offset ≤ total + length (content bs)
      → 0 < length bs
      → Lands bs i total offset
  seek_block-Lands [] i total offset low high some_block = absurd (omega arith)
  seek_block-Lands (b ∷ []) i total offset low high some_block =
      Lands-here b [] i total offset low high (omega (arith, length-append (plain b) []))
  seek_block-Lands (b ∷ c ∷ bs) i total offset low high some_block =
      elim (dec_le offset (total + length (plain b))) [
        | yes here ↦ Lands-here b (c ∷ bs) i total offset low high here
        | no beyond ↦ Lands-beyond b (c ∷ bs) i total offset low beyond (
            seek_block-Lands (c ∷ bs) (i + 1) (total + length (plain b)) offset (omega arith)
              (omega (arith, length-append (plain b) (content (c ∷ bs)))) (omega arith))
      ]
