-- ===== src/Merge/Bits.antt =====
-- The fold of parts in the order of their ids, bit by bit.
use inoxset.Prelude.{
  ℕ, Bool, true, false, not, ◌&&◌, ◌||◌, List, [], ◌∷◌, ◌≡◌, ◌∙◌, if◌then◌else◌, arith,
}
use inoxset.Roaring.{Roaring}
use inoxset.Merge.{Ordered, sort_by_id, apply_part}
use inoxset.Merge.Newest.{
  increasing-tail, has, erased, survives, increasing, distinct, increasing-sort_by_id,
  erased-sort_by_id, survives-sort_by_id, survives-erased, survives-step,
}

module _ {P : Type 0} (R : Roaring) (bitmap_of : Ordered P → R.Bitmap) where
  open R use {Bitmap, contains}

  unfoldable pub fold_bits : List (Ordered P) → Bitmap → Bitmap
  fold_bits [] acc = acc
  fold_bits (p ∷ l) acc = fold_bits l (apply_part R p.is_delta acc (bitmap_of p))

  contains-apply_part :
      (d : Bool) (acc b : Bitmap) (x : ℕ)
      → contains (apply_part R d acc b) x
        ≡ (if d then contains acc x && not (contains b x) else contains acc x || contains b x)
  unfolding apply_part
  contains-apply_part true acc b x = R.contains-difference acc b x
  contains-apply_part false acc b x = R.contains-union acc b x

  fold_bits-survives :
      (l : List (Ordered P)) (acc : Bitmap) (x : ℕ)
      → increasing l ≡ true
      → contains (fold_bits l acc) x
        ≡ (survives R bitmap_of x l l || contains acc x && not (erased R bitmap_of x 0 l))
  unfolding fold_bits has
  fold_bits-survives [] acc x h = unfold survives erased in ground arith
  fold_bits-survives (p ∷ l) acc x h =
      fold_bits-survives l (apply_part R p.is_delta acc (bitmap_of p)) x (increasing-tail p l h)
      ∙ survives-step R bitmap_of x p l (contains acc x)
          (contains (apply_part R p.is_delta acc (bitmap_of p)) x) h
          (contains-apply_part p.is_delta acc (bitmap_of p) x)

  pub sort_by_id-bits :
      (parts : List (Ordered P)) (x : ℕ)
      → distinct parts ≡ true
      → contains (fold_bits (sort_by_id parts) R.new) x ≡ survives R bitmap_of x parts parts
  sort_by_id-bits parts x d =
      fold_bits-survives (sort_by_id parts) R.new x (increasing-sort_by_id parts d)
      ∙ ground (arith, R.contains-new x)
      ∙ survives-erased R bitmap_of x (sort_by_id parts) (sort_by_id parts) parts
          (λ i. erased-sort_by_id R bitmap_of x i parts)
      ∙ survives-sort_by_id R bitmap_of x parts parts
