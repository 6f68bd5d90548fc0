-- ===== src/Rollup/Ranges/Buckets.antt =====
-- `put_bitmap_range` and `remove_bits_range` of src/lib.rs beside `put_bitmap` and `remove_bits` on
-- the buckets one after another.
use inoxset.Prelude.{ℕ, Bool, not, ◌&&◌, ◌||◌, List, [], ◌∷◌, ◌≡◌, refl, ◌∙◌, sym, arith}
use inoxset.Types.{Period, EventConfig}
use inoxset.Roaring.{Roaring, is_among}
use inoxset.MemPart.{Key, MemPart}
use inoxset.MemPart.Content.{added, removed}
use inoxset.Rollup.{
  each, put_buffer, put_range_buffer, bitmap_of, remove_buffer, remove_range_buffer,
  distinct_rollup_ancestors,
}
use inoxset.Rollup.View.{
  visible, added-put_buffer, removed-put_buffer, remove_buffer-visible, bitmap_of-is_among,
}
use inoxset.Rollup.Ranges.{
  any_reaches, added-put_range_buffer, removed-put_range_buffer, removed-delta_ors, added-delta_ors,
  any_reaches-distinct,
}
use inoxset.MemPart.{or_delta}

module _ (R : Roaring) (config : EventConfig) (k : Key) (x : ℕ) where
  open R use {Bitmap, contains}

  added-each_put :
      (b : Bitmap) (l : List Period) (mp : MemPart Bitmap)
      → added R (each (λ m p. put_buffer R m config.name config p b) l mp) k x
        ≡ (any_reaches config.name config l k && contains b x || added R mp k x)
  unfolding each any_reaches
  added-each_put b [] mp = refl
  added-each_put b (p ∷ l) mp = ground (
    arith,
    added-each_put b l (put_buffer R mp config.name config p b),
    added-put_buffer R mp config.name config p k x b,
  )

  removed-each_put :
      (b : Bitmap) (l : List Period) (mp : MemPart Bitmap)
      → removed R (each (λ m p. put_buffer R m config.name config p b) l mp) k x
        ≡ (removed R mp k x && not (any_reaches config.name config l k && contains b x))
  unfolding each any_reaches
  removed-each_put b [] mp = ground arith
  removed-each_put b (p ∷ l) mp = ground (
    arith,
    removed-each_put b l (put_buffer R mp config.name config p b),
    removed-put_buffer R mp config.name config p k x b,
  )

  -- A range put leaves in the buffer, for every key and bit, what putting the bitmap into each
  -- bucket of the range in turn leaves there, in the additive bitmaps and in the delete-deltas,
  -- although it writes each distinct rollup ancestor once only.
  pub put_range_buffer-each :
      (b : Bitmap) (l : List Period) (mp : MemPart Bitmap)
      → (added R (put_range_buffer R mp config.name config l b) k x
          ≡ added R (each (λ m p. put_buffer R m config.name config p b) l mp) k x)
        × (removed R (put_range_buffer R mp config.name config l b) k x
            ≡ removed R (each (λ m p. put_buffer R m config.name config p b) l mp) k x)
  put_range_buffer-each b l mp = (
    added-put_range_buffer config k R b x l mp ∙ sym (added-each_put b l mp),
    removed-put_range_buffer config k R b x l mp ∙ sym (removed-each_put b l mp),
  )

  visible-each_remove :
      (base : Bool) (ids : List ℕ) (l : List Period) (mp : MemPart Bitmap)
      → visible R base (each (λ m p. remove_buffer R m config.name config p ids) l mp) k x
        ≡ (visible R base mp k x && not (any_reaches config.name config l k && is_among x ids))
  unfolding each any_reaches
  visible-each_remove base ids [] mp = ground arith
  visible-each_remove base ids (p ∷ l) mp = ground (
    arith,
    visible-each_remove base ids l (remove_buffer R mp config.name config p ids),
    remove_buffer-visible R mp config.name config p k x base ids,
  )

  visible-remove_range_buffer :
      (base : Bool) (ids : List ℕ) (l : List Period) (mp : MemPart Bitmap)
      → visible R base (remove_range_buffer R mp config.name config l ids) k x
        ≡ (visible R base mp k x && not (any_reaches config.name config l k && is_among x ids))
  unfolding remove_range_buffer visible
  visible-remove_range_buffer base ids l mp =
      let delta = bitmap_of R ids R.new in
      let above = distinct_rollup_ancestors config l in
      let written = each (λ m p. or_delta R m config.name p delta) l mp in
      ground (
        arith,
        removed-delta_ors config k R delta x above written,
        removed-delta_ors config k R delta x l mp,
        added-delta_ors config k R delta x above written,
        added-delta_ors config k R delta x l mp,
        any_reaches-distinct config k l,
        bitmap_of-is_among R x ids R.new,
        R.contains-new x,
      )

  -- A range remove changes what a read sees, for every key and bit and every flushed state, the
  -- way removing the ids from each bucket of the range in turn does.
  pub remove_range_buffer-each :
      (base : Bool) (ids : List ℕ) (l : List Period) (mp : MemPart Bitmap)
      → visible R base (remove_range_buffer R mp config.name config l ids) k x
        ≡ visible R base (each (λ m p. remove_buffer R m config.name config p ids) l mp) k x
  remove_range_buffer-each base ids l mp =
      visible-remove_range_buffer base ids l mp ∙ sym (visible-each_remove base ids l mp)
