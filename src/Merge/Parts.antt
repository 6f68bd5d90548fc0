-- ===== src/Merge/Parts.antt =====
-- `merge_parts` of src/merge.rs on parts whose files can be read.
use inoxset.Prelude.{
  ℕ, Bytes, Bool, true, false, List, [], ◌∷◌, ◌++◌, ◌≡◌, refl, ap, ◌∙◌, ltb, if◌then◌else◌,
}
use inoxset.Error.{Result, ok, ◌>>=◌}
use inoxset.Roaring.{Roaring}
use inoxset.Merge.{Ordered, tag, insert_by_id, sort_by_id, apply_part, fold_parts, merge_parts}
use inoxset.Merge.Bits.{fold_bits, sort_by_id-bits}
use inoxset.Merge.Newest.{survives, distinct}

module _ (R : Roaring) (mmap_read_part : Bytes → Result R.Bitmap)
    (optimize : R.Bitmap → Result R.Bitmap) (bitmap_at : Bytes → R.Bitmap) where
  open R use {Bitmap, contains}

  -- The bitmap of a part.
  abbrev pub bitmap_of : Ordered Bytes → Bitmap
  bitmap_of p = bitmap_at p.path

  -- The file of every part of the list reads as the bitmap at its path.
  unfoldable pub AllRead : List (Ordered Bytes) → Type 0
  AllRead [] = Unit
  AllRead (p ∷ l) = (mmap_read_part p.path ≡ ok (bitmap_at p.path)) × AllRead l

  choose :
      (l m : List (Ordered Bytes)) (c : Bool) → AllRead l → AllRead m → AllRead (if c then l else m)
  choose l m true h k = h
  choose l m false h k = k

  insert_by_id-AllRead :
      (p : Ordered Bytes) (l : List (Ordered Bytes)) → AllRead (p ∷ l) → AllRead (insert_by_id p l)
  unfolding AllRead insert_by_id
  insert_by_id-AllRead p [] h = h
  insert_by_id-AllRead p (q ∷ l) (h, (k, r)) =
      choose (q ∷ insert_by_id p l) (p ∷ q ∷ l) (ltb q.id p.id) (k, insert_by_id-AllRead p l (h, r))
        (h, (k, r))

  sort_by_id-AllRead : (l : List (Ordered Bytes)) → AllRead l → AllRead (sort_by_id l)
  unfolding AllRead sort_by_id
  sort_by_id-AllRead [] h = h
  sort_by_id-AllRead (p ∷ l) (h, r) =
      insert_by_id-AllRead p (sort_by_id l) (h, sort_by_id-AllRead l r)

  fold_parts-fold_bits :
      (l : List (Ordered Bytes)) (acc : Bitmap)
      → AllRead l
      → fold_parts R mmap_read_part optimize l acc ≡ ok (fold_bits R bitmap_of l acc)
  unfolding AllRead fold_parts fold_bits
  fold_parts-fold_bits [] acc h = refl
  fold_parts-fold_bits (p ∷ l) acc (h, r) =
      ap (λ r. r >>= λ bm. fold_parts R mmap_read_part optimize l (apply_part R p.is_delta acc bm))
        h
      ∙ fold_parts-fold_bits l (apply_part R p.is_delta acc (bitmap_at p.path)) r

  -- The merge of parts with different ids, whose files read and whose merged bitmap survives the
  -- round trip, is a bitmap that has a bit exactly when some data part has it and no delta part
  -- with a higher id does, in whatever order the parts are listed.
  pub merge_parts-survives :
      (data_parts delta_parts : List (ℕ × Bytes))
      → AllRead (tag false data_parts ++ tag true delta_parts)
      → distinct (tag false data_parts ++ tag true delta_parts) ≡ true
      → ((b : Bitmap)
          → (c : Bitmap) × (optimize b ≡ ok c) × ((x : ℕ) → contains c x ≡ contains b x))
      → (m : Bitmap) × (merge_parts R mmap_read_part optimize data_parts delta_parts ≡ ok m)
        × ((x : ℕ)
            → contains m x
              ≡ survives R bitmap_of x
                  (tag false data_parts ++ tag true delta_parts)
                  (tag false data_parts ++ tag true delta_parts))
  unfolding merge_parts
  merge_parts-survives data_parts delta_parts reads d opt =
      let parts = tag false data_parts ++ tag true delta_parts in
      let merged = fold_bits R bitmap_of (sort_by_id parts) R.new in
      let folded = fold_parts-fold_bits (sort_by_id parts) R.new (sort_by_id-AllRead parts reads) in
      let (m, e, same) = opt merged in
      (m, ap (λ r. r >>= optimize) folded ∙ e, λ x. same x ∙ sort_by_id-bits R bitmap_of parts x d)
