-- ===== src/Merge.antt =====
-- src/merge.rs: the merge of data and delta parts. Reading a part file (`mmap_read_part`) and the
-- round trip of a bitmap through its serialized form belong to the file system and to `roaring`.
pub mod Newest
pub mod Bits
pub mod Parts
mod Tests
use inoxset.Prelude.{ℕ, Bytes, Bool, true, false, ◌||◌, List, [], ◌∷◌, ◌++◌, ltb, if◌then◌else◌}
use inoxset.Error.{Result, ok, err, panic, ◌>>=◌}
use inoxset.Roaring.{Roaring}

-- `(part_id, is_delta, path)`; where the parts are read later, there is no path.
pub record Ordered (P : Type 0) : Type 0 where
  pub id : ℕ
  pub is_delta : Bool
  pub path : P

unfoldable pub is_eligible : ℕ → ℕ → Bool
is_eligible data_part_count delta_part_count = ltb 1 data_part_count || ltb 0 delta_part_count

-- The two loops that fill `ordered`.
unfoldable pub tag : {P : Type 0} → Bool → List (ℕ × P) → List (Ordered P)
tag is_delta [] = []
tag is_delta ((id, path) ∷ l) =
    record { id = id; is_delta = is_delta; path = path } ∷ tag is_delta l

-- `sort_unstable_by_key(|(id, _, _)| *id)`: part ids differ, so every sort gives this list.
unfoldable pub insert_by_id : {P : Type 0} → Ordered P → List (Ordered P) → List (Ordered P)
insert_by_id p [] = p ∷ []
insert_by_id p (q ∷ l) =
    let rest = insert_by_id p l in if ltb q.id p.id then q ∷ rest else p ∷ q ∷ l

unfoldable pub sort_by_id : {P : Type 0} → List (Ordered P) → List (Ordered P)
unfolding insert_by_id
sort_by_id [] = []
sort_by_id (p ∷ l) = insert_by_id p (sort_by_id l)

-- `merged -= bm` or `merged |= bm`
unfoldable pub apply_part : (R : Roaring) → Bool → R.Bitmap → R.Bitmap → R.Bitmap
apply_part R false merged bm = R.union merged bm
apply_part R true merged bm = R.difference merged bm

module _ (R : Roaring) (mmap_read_part : Bytes → Result R.Bitmap)
    (optimize : R.Bitmap → Result R.Bitmap) where
  open R use {Bitmap}

  unfoldable pub fold_parts : List (Ordered Bytes) → Bitmap → Result Bitmap
  unfolding apply_part
  fold_parts [] merged = ok merged
  fold_parts (p ∷ l) merged = do
    bm ← mmap_read_part p.path
    fold_parts l (apply_part R p.is_delta merged bm)

  unfoldable pub merge_parts : List (ℕ × Bytes) → List (ℕ × Bytes) → Result Bitmap
  unfolding tag sort_by_id fold_parts
  merge_parts data_parts delta_parts = do
    merged ← fold_parts (sort_by_id (tag false data_parts ++ tag true delta_parts)) R.new
    optimize merged
