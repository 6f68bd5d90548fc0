-- ===== src/Rollup/View.antt =====
-- What a write of src/lib.rs does to the buffer, for each key and each bit.
use inoxset.Prelude.{ℕ, Bytes, Bool, false, not, ◌&&◌, ◌||◌, List, [], ◌∷◌, ◌≡◌, refl, ◌∙◌, arith}
use inoxset.Types.{Period, EventConfig}
use inoxset.Roaring.{Roaring, is_among}
use inoxset.MemPart.{Key, MemPart, or_bitmap, or_delta, clear_delta_bits}
use inoxset.MemPart.Content.{
  same_key, added, removed, added-or_bitmap, removed-or_bitmap, added-or_delta, removed-or_delta,
  added-clear_delta_bits, removed-clear_delta_bits,
}
use inoxset.Rollup.{
  apply_rollup, apply_rollup_delta, clear_rollup_delta, put_buffer, bitmap_of, remove_buffer,
}
use inoxset.Rollup.Folds.{roll_hit, roll-Sets, roll-Clears}

-- A write of event `e` at period `p` reaches key `k`: it is `p`'s own key, or that of an ancestor
-- to which rollup writes.
unfoldable pub reaches : Bytes → EventConfig → Period → Key → Bool
unfolding roll_hit
reaches e config p k = same_key (e, p) k || roll_hit (λ a. same_key (config.name, a) k) config p

module _ (R : Roaring) where
  open R use {Bitmap, contains}

  -- The bit that a read gives for a key: `base` is the flushed state of the bit.
  unfoldable pub visible : Bool → MemPart Bitmap → Key → ℕ → Bool
  unfolding added removed
  visible base mp k x = (base || added R mp k x) && not (removed R mp k x)

  module _ (mp : MemPart Bitmap) (config : EventConfig) (p : Period) (b : Bitmap) (k : Key)
      (x : ℕ) where
    abbrev hit : Period → Bool
    hit a = same_key (config.name, a) k

    added-apply_rollup :
        added R (apply_rollup R mp config p b) k x
        ≡ (roll_hit hit config p && contains b x || added R mp k x)
    unfolding apply_rollup
    added-apply_rollup =
        roll-Sets (λ m. added R m k x) (λ m a. or_bitmap R m config.name a b) hit (contains b x)
          (λ m a. added-or_bitmap R m config.name a b k x) config p mp

    removed-apply_rollup : removed R (apply_rollup R mp config p b) k x ≡ removed R mp k x
    unfolding apply_rollup
    removed-apply_rollup =
        roll-Sets (λ m. removed R m k x) (λ m a. or_bitmap R m config.name a b) hit false
          (λ m a. ground (arith, removed-or_bitmap R m config.name a b k x)) config p mp
        ∙ ground arith

    removed-apply_rollup_delta :
        removed R (apply_rollup_delta R mp config p b) k x
        ≡ (roll_hit hit config p && contains b x || removed R mp k x)
    unfolding apply_rollup_delta
    removed-apply_rollup_delta =
        roll-Sets (λ m. removed R m k x) (λ m a. or_delta R m config.name a b) hit (contains b x)
          (λ m a. removed-or_delta R m config.name a b k x) config p mp

    added-apply_rollup_delta : added R (apply_rollup_delta R mp config p b) k x ≡ added R mp k x
    unfolding apply_rollup_delta
    added-apply_rollup_delta =
        roll-Sets (λ m. added R m k x) (λ m a. or_delta R m config.name a b) hit false
          (λ m a. ground (arith, added-or_delta R m config.name a b k x)) config p mp
        ∙ ground arith

    removed-clear_rollup_delta :
        removed R (clear_rollup_delta R mp config p b) k x
        ≡ (removed R mp k x && not (roll_hit hit config p && contains b x))
    unfolding clear_rollup_delta
    removed-clear_rollup_delta =
        roll-Clears (λ m. removed R m k x) (λ m a. clear_delta_bits R m config.name a b) hit
          (contains b x) (λ m a. removed-clear_delta_bits R m config.name a b k x) config p mp

    added-clear_rollup_delta : added R (clear_rollup_delta R mp config p b) k x ≡ added R mp k x
    unfolding clear_rollup_delta
    added-clear_rollup_delta =
        roll-Sets (λ m. added R m k x) (λ m a. clear_delta_bits R m config.name a b) hit false
          (λ m a. ground (arith, added-clear_delta_bits R m config.name a b k x)) config p mp
        ∙ ground arith

  pub bitmap_of-is_among :
      (x : ℕ) (ids : List ℕ) (d : Bitmap)
      → contains (bitmap_of R ids d) x ≡ (is_among x ids || contains d x)
  unfolding bitmap_of is_among
  bitmap_of-is_among x [] d = refl
  bitmap_of-is_among x (id ∷ ids) d =
      ground (arith, bitmap_of-is_among x ids (R.insert d id), R.contains-insert d id x)

  module _ (mp : MemPart Bitmap) (e : Bytes) (config : EventConfig) (p : Period) (k : Key)
      (x : ℕ) where
    pub added-put_buffer :
        (b : Bitmap)
        → added R (put_buffer R mp e config p b) k x
          ≡ (reaches e config p k && contains b x || added R mp k x)
    unfolding put_buffer reaches
    added-put_buffer b =
        let written = or_bitmap R mp e p b in
        let rolled = apply_rollup R written config p b in
        let cleared = clear_delta_bits R rolled e p b in
        ground (
          arith,
          added-clear_rollup_delta cleared config p b k x,
          added-clear_delta_bits R rolled e p b k x,
          added-apply_rollup written config p b k x,
          added-or_bitmap R mp e p b k x,
        )

    pub removed-put_buffer :
        (b : Bitmap)
        → removed R (put_buffer R mp e config p b) k x
          ≡ (removed R mp k x && not (reaches e config p k && contains b x))
    unfolding put_buffer reaches
    removed-put_buffer b =
        let written = or_bitmap R mp e p b in
        let rolled = apply_rollup R written config p b in
        let cleared = clear_delta_bits R rolled e p b in
        ground (
          arith,
          removed-clear_rollup_delta cleared config p b k x,
          removed-clear_delta_bits R rolled e p b k x,
          removed-apply_rollup written config p b k x,
          removed-or_bitmap R mp e p b k x,
        )

    -- After a put of a bitmap, every key that it reaches shows the bits of the bitmap and those it
    -- showed before, whatever removes were pending, and every other key shows what it did.
    pub put_buffer-visible :
        (base : Bool) (b : Bitmap)
        → visible base (put_buffer R mp e config p b) k x
          ≡ (reaches e config p k && contains b x || visible base mp k x)
    unfolding visible
    put_buffer-visible base b = ground (arith, added-put_buffer b, removed-put_buffer b)

    -- After a remove of a list of ids, every key that it reaches shows the bits it showed before
    -- without those ids, flushed ones included, and every other key shows what it did.
    pub remove_buffer-visible :
        (base : Bool) (ids : List ℕ)
        → visible base (remove_buffer R mp e config p ids) k x
          ≡ (visible base mp k x && not (reaches e config p k && is_among x ids))
    unfolding visible remove_buffer reaches
    remove_buffer-visible base ids =
        let delta = bitmap_of R ids R.new in
        let written = or_delta R mp e p delta in
        ground (
          arith,
          removed-apply_rollup_delta written config p delta k x,
          added-apply_rollup_delta written config p delta k x,
          removed-or_delta R mp e p delta k x,
          added-or_delta R mp e p delta k x,
          bitmap_of-is_among x ids R.new,
          R.contains-new x,
        )
