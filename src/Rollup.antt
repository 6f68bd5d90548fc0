-- ===== src/Rollup.antt =====
-- src/rollup.rs, and the part of `put_bitmap`, `put_bitmap_range`, `remove_bits` and
-- `remove_bits_range` of src/lib.rs that works on the buffer under the write lock.
pub mod Folds
pub mod View
pub mod Ranges
mod Tests
use inoxset.Prelude.{ℕ, Bytes, Bool, true, false, ◌||◌, List, [], ◌∷◌, ◌++◌, if◌then◌else◌}
use inoxset.Types.{
  Granularity, granularity_beq, Period, period_beq, period_ltb, Rollup, EventConfig,
}
use inoxset.Period.{granularity, ancestors}
use inoxset.Roaring.{Roaring}
use inoxset.MemPart.{MemPart, or_bitmap, or_delta, or_bitmap_shared, clear_delta_bits}

-- `config.rollup_chain.contains(g)`
unfoldable pub chain_contains : List Granularity → Granularity → Bool
unfolding granularity_beq
chain_contains [] g = false
chain_contains (h ∷ chain) g = granularity_beq h g || chain_contains chain g

unfoldable pub is_auto : Rollup → Bool
is_auto Rollup.none = false
is_auto Rollup.auto = true

-- `for p in periods { op(mp, p) }`
unfoldable pub each {ℓ} : {M : Type ℓ} → (M → Period → M) → List Period → M → M
each op [] mp = mp
each op (p ∷ periods) mp = each op periods (op mp p)

-- `for ancestor in ancestors { if chain.contains(ancestor.granularity()) { op(mp, ancestor) } }`
unfoldable pub each_ancestor {ℓ} :
    {M : Type ℓ} → (M → Period → M) → List Granularity → List Period → M → M
unfolding chain_contains
each_ancestor op chain [] mp = mp
each_ancestor op chain (a ∷ l) mp =
    each_ancestor op chain l (if chain_contains chain (granularity a) then op mp a else mp)

-- The body of the three rollup functions, for the operation that they apply.
unfoldable pub roll {ℓ} : {M : Type ℓ} → (M → Period → M) → EventConfig → Period → M → M
unfolding each_ancestor is_auto
roll op config period mp =
    if is_auto config.rollup then each_ancestor op config.rollup_chain (ancestors period) mp else mp

-- `BTreeSet::insert`, on the sorted list of the set's elements
unfoldable pub set_insert : Period → List Period → List Period
set_insert p [] = p ∷ []
set_insert p (q ∷ set) =
    let rest = set_insert p set in
    if period_ltb p q then p ∷ q ∷ set else if period_beq p q then q ∷ set else q ∷ rest

unfoldable pub collect_distinct : List Granularity → List Period → List Period → List Period
unfolding each_ancestor set_insert
collect_distinct chain [] set = set
collect_distinct chain (p ∷ periods) set =
    collect_distinct chain periods (each_ancestor (λ s a. set_insert a s) chain (ancestors p) set)

unfoldable pub distinct_rollup_ancestors : EventConfig → List Period → List Period
unfolding collect_distinct is_auto
distinct_rollup_ancestors config periods =
    if is_auto config.rollup then collect_distinct config.rollup_chain periods [] else []

module _ (R : Roaring) where
  open R use {Bitmap}

  unfoldable pub apply_rollup : MemPart Bitmap → EventConfig → Period → Bitmap → MemPart Bitmap
  unfolding roll
  apply_rollup mp config period bitmap =
      roll (λ m a. or_bitmap R m config.name a bitmap) config period mp

  unfoldable pub apply_rollup_delta :
      MemPart Bitmap → EventConfig → Period → Bitmap → MemPart Bitmap
  unfolding roll
  apply_rollup_delta mp config period delta =
      roll (λ m a. or_delta R m config.name a delta) config period mp

  unfoldable pub clear_rollup_delta :
      MemPart Bitmap → EventConfig → Period → Bitmap → MemPart Bitmap
  unfolding roll
  clear_rollup_delta mp config period bitmap =
      roll (λ m a. clear_delta_bits R m config.name a bitmap) config period mp

  -- `put_bitmap` under the write lock.
  unfoldable pub put_buffer :
      MemPart Bitmap → Bytes → EventConfig → Period → Bitmap → MemPart Bitmap
  unfolding apply_rollup clear_rollup_delta
  put_buffer mp event config period bitmap =
      let written = or_bitmap R mp event period bitmap in
      let rolled = apply_rollup written config period bitmap in
      let cleared = clear_delta_bits R rolled event period bitmap in
      clear_rollup_delta cleared config period bitmap

  -- `delta.insert(id)` for each id
  unfoldable pub bitmap_of : List ℕ → Bitmap → Bitmap
  bitmap_of [] delta = delta
  bitmap_of (id ∷ ids) delta = bitmap_of ids (R.insert delta id)

  -- `remove_bits` on the buffer.
  unfoldable pub remove_buffer :
      MemPart Bitmap → Bytes → EventConfig → Period → List ℕ → MemPart Bitmap
  unfolding apply_rollup_delta bitmap_of
  remove_buffer mp event config period user_ids =
      let delta = bitmap_of user_ids R.new in
      apply_rollup_delta (or_delta R mp event period delta) config period delta

  -- `put_bitmap_range` under the write lock, for the buckets that `checked_write_range` returns.
  unfoldable pub put_range_buffer :
      MemPart Bitmap → Bytes → EventConfig → List Period → Bitmap → MemPart Bitmap
  unfolding each distinct_rollup_ancestors
  put_range_buffer mp event config periods bitmap =
      let above = distinct_rollup_ancestors config periods in
      let written = each (λ m p. or_bitmap_shared R m event p bitmap) periods mp in
      let rolled = each (λ m a. or_bitmap R m event a bitmap) above written in
      let cleared = each (λ m p. clear_delta_bits R m event p bitmap) periods rolled in
      each (λ m a. clear_delta_bits R m event a bitmap) above cleared

  -- `remove_bits_range` on the buffer.
  unfoldable pub remove_range_buffer :
      MemPart Bitmap → Bytes → EventConfig → List Period → List ℕ → MemPart Bitmap
  unfolding each distinct_rollup_ancestors bitmap_of
  remove_range_buffer mp event config periods user_ids =
      let delta = bitmap_of user_ids R.new in
      let above = distinct_rollup_ancestors config periods in
      let written = each (λ m p. or_delta R m event p delta) periods mp in
      each (λ m a. or_delta R m event a delta) above written
