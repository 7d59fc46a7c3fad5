-- ===== src/Upload/Chunks.antt =====
-- file_upload.go, `uploadAndCollectBlockData`: the blocks that a file is cut into, as
-- `io.ReadFull` gives them.
use proton_api_bridge.Common.{
  ℕ, suc, ◌<◌, ◌≤◌, none, List, [], ◌∷◌, ◌++◌, length, length-append, sym, ◌∙◌, take, concat,
  append_nil, ltb, if_then, if_else, ◌≡◌, refl, ap, arith,
}
use proton_api_bridge.Proton.{Bytes}
use proton_api_bridge.Upload.Blocks.{
  upload_block_size, FileInput, full, partial, nothing, read_full,
}

-- The cut of a file into blocks of the full size, with a shorter one at the end if bytes are left.
pub data Chunks : Bytes → List Bytes → Type 0 where
  chunks_end : Chunks [] []
  chunks_last :
      {bytes : Bytes}
      → 0 < length bytes
      → length bytes < upload_block_size
      → Chunks bytes (bytes ∷ [])
  chunks_full :
      {chunk rest : Bytes} {more : List Bytes}
      → length chunk ≡ upload_block_size
      → Chunks rest more
      → Chunks (chunk ++ rest) (chunk ∷ more)

-- The blocks of a cut, one after the other, are the file.
pub concat-Chunks :
    {bytes : Bytes} {chunks : List Bytes} → Chunks bytes chunks → concat chunks ≡ bytes
concat-Chunks chunks_end = refl
concat-Chunks (chunks_last {bytes = bytes} some_byte short) = append_nil bytes
concat-Chunks (chunks_full {chunk = chunk} is_full more) =
    ap (λ rest. chunk ++ rest) (concat-Chunks more)

append_inj :
    {A : Type 0} (xs ys : List A) {r q : List A}
    → length xs ≡ length ys
    → xs ++ r ≡ ys ++ q
    → (xs ≡ ys) × (r ≡ q)
append_inj [] [] same eq = (refl, eq)
append_inj [] (y ∷ ys) same eq = absurd (omega arith)
append_inj (x ∷ xs) [] same eq = absurd (omega arith)
append_inj (x ∷ xs) (y ∷ ys) {r} {q} same eq =
    let tails : xs ++ r ≡ ys ++ q = cc in
    let (heads, rests) = append_inj xs ys (omega arith) tails in ((cc), rests)

-- A file has one cut only.
pub Chunks-unique : {a b : Bytes} {xs ys : List Bytes} → Chunks a xs → Chunks b ys → a ≡ b → xs ≡ ys
Chunks-unique chunks_end chunks_end same = refl
Chunks-unique chunks_end (chunks_last some_byte short) same = absurd (omega (arith, ap length same))
Chunks-unique chunks_end (chunks_full {chunk = c} {rest = r} is_full more) same =
    absurd (omega (arith, ap length same, length-append c r))
Chunks-unique (chunks_last some_byte short) chunks_end same = absurd (omega (arith, ap length same))
Chunks-unique (chunks_last some_byte short) (chunks_last some_byte' short') same =
    ap (λ bs. bs ∷ []) same
Chunks-unique (chunks_last some_byte short) (chunks_full {chunk = c} {rest = r} is_full more) same =
    absurd (omega (arith, ap length same, length-append c r))
Chunks-unique (chunks_full {chunk = c} {rest = r} is_full more) chunks_end same =
    absurd (omega (arith, ap length same, length-append c r))
Chunks-unique (chunks_full {chunk = c} {rest = r} is_full more) (chunks_last some_byte short) same =
    absurd (omega (arith, ap length same, length-append c r))
Chunks-unique (chunks_full {chunk = c} is_full more) (chunks_full {chunk = d} is_full' more') same =
    let (chunks, rests) = append_inj c d (is_full ∙ sym is_full') same in
    let below = Chunks-unique more more' rests in cc

abbrev pub whole_file : Bytes → FileInput
whole_file bytes = record { bytes = bytes; failure = none }

pub read_full-full :
    (bytes : Bytes)
    → upload_block_size ≤ length bytes
    → read_full upload_block_size (whole_file bytes) ≡ full (take upload_block_size bytes)
unfolding read_full
read_full-full bytes long =
    if_else {b = ltb (length bytes) upload_block_size} _ _ (ground (arith, long))

pub read_full-partial :
    (b : ℕ) (bytes : Bytes)
    → suc (length bytes) < upload_block_size
    → read_full upload_block_size (whole_file (b ∷ bytes)) ≡ partial (b ∷ bytes)
unfolding read_full
read_full-partial b bytes short =
    if_then {b = ltb (suc (length bytes)) upload_block_size} _ _ (ground (arith, short))

pub read_full-nothing : read_full upload_block_size (whole_file []) ≡ nothing
unfolding read_full
read_full-nothing = refl
