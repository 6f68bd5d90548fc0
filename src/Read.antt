-- ===== src/Read.antt =====
-- The reads of src/lib.rs that combine the flushed state of a key with the buffer: `get` and
-- `get_shared` where the read index has the key, `contains_bit`, and `query` over a store's `get`.
pub mod Bits
pub mod Query
mod Tests
use inoxset.Prelude.{
  ℕ, Bytes, Bool, true, false, not, ◌&&◌, ◌||◌, Option, none, some, if◌then◌else◌,
}
use inoxset.Prelude.HashMap
use inoxset.Prelude.HashMap.{HashMap}
use inoxset.Prelude.Eq.{pair_eq, text_eq}
use inoxset.Types.{Period, SetExpr, ref, and, or, diff}
use inoxset.Types.Order.{period_eq}
use inoxset.Error.{Result, ok, err, panic, ◌>>=◌}
use inoxset.Roaring.{Roaring}
use inoxset.MemPart.{Key, MemPart, get_bitmap, get_delta}

module _ (R : Roaring) where
  open R use {Bitmap, contains, is_empty, union, difference, intersection}

  -- `if let Some(mp_bm) = mp_bitmap { result |= mp_bm }`, and the same with `-=`
  unfoldable pub or_some : Bitmap → Option Bitmap → Bitmap
  or_some result none = result
  or_some result (some b) = union result b

  unfoldable pub minus_some : Bitmap → Option Bitmap → Bitmap
  minus_some result none = result
  minus_some result (some b) = difference result b

  -- The cache-hit branch of `get` and `get_shared`: the cached bitmap alone when the buffer has
  -- nothing for the key, else the merge.
  unfoldable pub overlay : Bitmap → Option Bitmap → Option Bitmap → Bitmap
  unfolding or_some minus_some
  overlay cached none none = cached
  overlay cached none (some d) = minus_some (or_some cached none) (some d)
  overlay cached (some b) d = minus_some (or_some cached (some b)) d

  unfoldable pub get_cached : Option Bitmap → MemPart Bitmap → Bytes → Period → Option Bitmap
  unfolding overlay
  get_cached none mp event period = none
  get_cached (some cached) mp event period =
      some (overlay cached (get_bitmap R mp event period) (get_delta R mp event period))

  -- `is_some_and(|bm| bm.contains(value))`
  unfoldable pub some_contains : Option Bitmap → ℕ → Bool
  some_contains none value = false
  some_contains (some b) value = contains b value

  -- `contains_bit`: `cache` is the read index's entry for the key. The test that the code makes of
  -- a delta without acting on it is left out.
  unfoldable pub contains_bit : Option Bitmap → MemPart Bitmap → Bytes → Period → ℕ → Bool
  unfolding some_contains
  contains_bit cache mp event period value =
      let delta = get_delta R mp event period in
      if some_contains (get_bitmap R mp event period) value && not (some_contains delta value)
      then true
      else if not (some_contains cache value)
      then false
      else not (some_contains delta value)

  -- `query`, on what `get` returns.
  unfoldable pub query : (Bytes → Period → Result Bitmap) → SetExpr → Result Bitmap
  query get (ref event period) = get event period
  query get (and a b) =
      let right = query get b in
      do
        left ← query get a
        if is_empty left then ok left else do r ← right; ok (intersection left r)
  query get (or a b) = do left ← query get a; right ← query get b; ok (union left right)
  query get (diff a b) =
      let right = query get b in
      do left ← query get a; if is_empty left then ok left else do r ← right; ok (difference left r)
