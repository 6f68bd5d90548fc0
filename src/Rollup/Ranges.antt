-- ===== src/Rollup/Ranges.antt =====
-- A range write of src/lib.rs against the writes of its buckets one by one.
pub mod Buckets
use inoxset.Prelude.{
  ℕ, Bytes, Bool, true, false, not, ◌&&◌, ◌||◌, ◌==◌, List, [], ◌∷◌, ◌≡◌, refl, ap, ◌∙◌,
  if◌then◌else◌, arith,
}
use inoxset.Types.{Granularity, Period, period_beq, period_ltb, EventConfig}
use inoxset.Types.Order.{period_beq_iff}
use inoxset.Period.{ancestors}
use inoxset.Roaring.{Roaring, is_among}
use inoxset.MemPart.{Key, MemPart, or_bitmap, or_delta, or_bitmap_shared, clear_delta_bits}
use inoxset.MemPart.Content.{
  same_key, added, removed, added-or_bitmap, removed-or_bitmap, added-or_delta, removed-or_delta,
  added-clear_delta_bits, removed-clear_delta_bits, added-or_bitmap_shared,
  removed-or_bitmap_shared,
}
use inoxset.Rollup.{
  is_auto, each, each_ancestor, set_insert, collect_distinct, distinct_rollup_ancestors, put_buffer,
  put_range_buffer, bitmap_of, remove_buffer, remove_range_buffer,
}
use inoxset.Rollup.Folds.{any_hit, chain_hit, roll_hit, each-Sets, each-Clears, each_ancestor-Sets}
use inoxset.Rollup.View.{
  reaches, visible, added-put_buffer, removed-put_buffer, put_buffer-visible, remove_buffer-visible,
}

set_insert-any_hit :
    (hit : Period → Bool) (s : List Period) (p : Period)
    → any_hit hit (set_insert p s) ≡ (hit p && true || any_hit hit s)
unfolding any_hit set_insert
set_insert-any_hit hit [] p = ground arith
set_insert-any_hit hit (q ∷ s) p = ground (arith, set_insert-any_hit hit s p, period_beq_iff p q)

-- Some period of the list has an ancestor that is hit and that rollup writes to.
unfoldable pub rolls_hit : (Period → Bool) → List Granularity → List Period → Bool
unfolding chain_hit
rolls_hit hit chain [] = false
rolls_hit hit chain (p ∷ l) = chain_hit hit chain (ancestors p) || rolls_hit hit chain l

collect_distinct-any_hit :
    (hit : Period → Bool) (chain : List Granularity) (l s : List Period)
    → any_hit hit (collect_distinct chain l s) ≡ (rolls_hit hit chain l || any_hit hit s)
unfolding collect_distinct rolls_hit
collect_distinct-any_hit hit chain [] s = refl
collect_distinct-any_hit hit chain (p ∷ l) s =
    let above = each_ancestor (λ t a. set_insert a t) chain (ancestors p) s in
    ground (
      arith,
      collect_distinct-any_hit hit chain l above,
      each_ancestor-Sets (any_hit hit) (λ t a. set_insert a t) hit true (set_insert-any_hit hit)
          chain (ancestors p) s,
    )

-- The range reaches a key when one of its periods does.
unfoldable pub any_reaches : Bytes → EventConfig → List Period → Key → Bool
unfolding reaches
any_reaches e config [] k = false
any_reaches e config (p ∷ l) k = reaches e config p k || any_reaches e config l k

module _ (config : EventConfig) (k : Key) where
  abbrev hit : Period → Bool
  hit a = same_key (config.name, a) k

  any_reaches-split :
      (l : List Period)
      → any_reaches config.name config l k
        ≡ (any_hit hit l || is_auto config.rollup && rolls_hit hit config.rollup_chain l)
  unfolding any_reaches reaches any_hit rolls_hit roll_hit
  any_reaches-split [] = ground arith
  any_reaches-split (p ∷ l) = ground (arith, any_reaches-split l)

  pub any_reaches-distinct :
      (l : List Period)
      → any_reaches config.name config l k
        ≡ (any_hit hit l || any_hit hit (distinct_rollup_ancestors config l))
  unfolding distinct_rollup_ancestors any_hit
  any_reaches-distinct l =
      any_reaches-split l ∙ ground (arith, collect_distinct-any_hit hit config.rollup_chain l [])

  module _ (R : Roaring) (b : R.Bitmap) (x : ℕ) where
    abbrev is_added : MemPart R.Bitmap → Bool
    is_added m = added R m k x

    abbrev is_removed : MemPart R.Bitmap → Bool
    is_removed m = removed R m k x

    abbrev or_op : MemPart R.Bitmap → Period → MemPart R.Bitmap
    or_op m a = or_bitmap R m config.name a b

    abbrev or_shared_op : MemPart R.Bitmap → Period → MemPart R.Bitmap
    or_shared_op m a = or_bitmap_shared R m config.name a b

    abbrev or_delta_op : MemPart R.Bitmap → Period → MemPart R.Bitmap
    or_delta_op m a = or_delta R m config.name a b

    abbrev clear_op : MemPart R.Bitmap → Period → MemPart R.Bitmap
    clear_op m a = clear_delta_bits R m config.name a b

    module _ (l : List Period) (m : MemPart R.Bitmap) where
      added-clears : is_added (each clear_op l m) ≡ is_added m
      added-clears =
          each-Sets is_added clear_op hit false
            (λ n a. ground (arith, added-clear_delta_bits R n config.name a b k x)) l m
          ∙ ground arith

      added-ors : is_added (each or_op l m) ≡ (any_hit hit l && R.contains b x || is_added m)
      added-ors =
          each-Sets is_added or_op hit (R.contains b x)
            (λ n a. added-or_bitmap R n config.name a b k x) l m

      added-shared_ors :
          is_added (each or_shared_op l m) ≡ (any_hit hit l && R.contains b x || is_added m)
      added-shared_ors =
          each-Sets is_added or_shared_op hit (R.contains b x)
            (λ n a. added-or_bitmap_shared R n config.name a b k x) l m

      removed-clears :
          is_removed (each clear_op l m) ≡ (is_removed m && not (any_hit hit l && R.contains b x))
      removed-clears =
          each-Clears is_removed clear_op hit (R.contains b x)
            (λ n a. removed-clear_delta_bits R n config.name a b k x) l m

      removed-ors : is_removed (each or_op l m) ≡ is_removed m
      removed-ors =
          each-Sets is_removed or_op hit false
            (λ n a. ground (arith, removed-or_bitmap R n config.name a b k x)) l m
          ∙ ground arith

      removed-shared_ors : is_removed (each or_shared_op l m) ≡ is_removed m
      removed-shared_ors =
          each-Sets is_removed or_shared_op hit false
            (λ n a. ground (arith, removed-or_bitmap_shared R n config.name a b k x)) l m
          ∙ ground arith

      pub removed-delta_ors :
          is_removed (each or_delta_op l m) ≡ (any_hit hit l && R.contains b x || is_removed m)
      removed-delta_ors =
          each-Sets is_removed or_delta_op hit (R.contains b x)
            (λ n a. removed-or_delta R n config.name a b k x) l m

      pub added-delta_ors : is_added (each or_delta_op l m) ≡ is_added m
      added-delta_ors =
          each-Sets is_added or_delta_op hit false
            (λ n a. ground (arith, added-or_delta R n config.name a b k x)) l m
          ∙ ground arith

    pub added-put_range_buffer :
        (l : List Period) (mp : MemPart R.Bitmap)
        → is_added (put_range_buffer R mp config.name config l b)
          ≡ (any_reaches config.name config l k && R.contains b x || is_added mp)
    unfolding put_range_buffer
    added-put_range_buffer l mp =
        let above = distinct_rollup_ancestors config l in
        let written = each or_shared_op l mp in
        let rolled = each or_op above written in
        let cleared = each clear_op l rolled in
        ground (
          arith,
          added-clears above cleared,
          added-clears l rolled,
          added-ors above written,
          added-shared_ors l mp,
          any_reaches-distinct l,
        )

    pub removed-put_range_buffer :
        (l : List Period) (mp : MemPart R.Bitmap)
        → is_removed (put_range_buffer R mp config.name config l b)
          ≡ (is_removed mp && not (any_reaches config.name config l k && R.contains b x))
    unfolding put_range_buffer
    removed-put_range_buffer l mp =
        let above = distinct_rollup_ancestors config l in
        let written = each or_shared_op l mp in
        let rolled = each or_op above written in
        let cleared = each clear_op l rolled in
        ground (
          arith,
          removed-clears above cleared,
          removed-clears l rolled,
          removed-ors above written,
          removed-shared_ors l mp,
          any_reaches-distinct l,
        )
