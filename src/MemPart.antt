-- ===== src/MemPart.antt =====
-- src/mempart.rs: the write buffer. `Arc` is only sharing: `make_mut` gives the same bitmap.
pub mod Content
use inoxset.Prelude.{
  ℕ, ◌+◌, ◌-◌, ◌%◌, ◌^◌, Bytes, Bool, ◌&&◌, Option, some, List, [], ◌∷◌, if◌then◌else◌,
}
use inoxset.Prelude.HashMap
use inoxset.Prelude.HashMap.{HashMap}
use inoxset.Prelude.Eq.{Eq, pair_eq, text_eq}
use inoxset.Types.{Period}
use inoxset.Types.Order.{period_eq}
use inoxset.Roaring.{Roaring}

abbrev pub Key : Type 0
Key = Bytes × Period

pub record MemPart (B : Type 0) : Type 0 where
  pub bitmaps : HashMap Key B
  pub deltas : HashMap Key B
  pub size_bytes : ℕ

-- `MemPartSnapshot`
pub record MemPartSnapshot (B : Type 0) : Type 0 where
  pub bitmaps : HashMap Key B
  pub deltas : HashMap Key B
  pub size_bytes : ℕ

-- `size.wrapping_add(new).wrapping_sub(old)` on `u64`
unfoldable pub resize : ℕ → ℕ → ℕ → ℕ
resize size new old = ((size + new) % 2 ^ 64 + 2 ^ 64 - old % 2 ^ 64) % 2 ^ 64

module _ (R : Roaring) where
  open R use {Bitmap, serialized_size, union, difference, is_empty}

  unfoldable pub new : MemPart Bitmap
  new = record { bitmaps = []; deltas = []; size_bytes = 0 }

  -- `entry(key).or_insert_with(RoaringBitmap::new)`
  or_new : Option Bitmap → Bitmap
  or_new Option.none = R.new
  or_new (some b) = b

  unfoldable pub entry : HashMap Key Bitmap → Key → Bitmap
  unfolding or_new
  entry m k = or_new (HashMap.get m k)

  unfoldable pub or_bitmap : MemPart Bitmap → Bytes → Period → Bitmap → MemPart Bitmap
  unfolding entry
  or_bitmap mp event period bitmap =
      let existing = entry mp.bitmaps (event, period) in
      let merged = union existing bitmap in
      record mp {
        bitmaps = HashMap.insert mp.bitmaps (event, period) merged;
        size_bytes = resize mp.size_bytes (serialized_size merged) (serialized_size existing);
      }

  unfoldable pub or_delta : MemPart Bitmap → Bytes → Period → Bitmap → MemPart Bitmap
  unfolding entry
  or_delta mp event period bitmap =
      let existing = entry mp.deltas (event, period) in
      let merged = union existing bitmap in
      record mp {
        deltas = HashMap.insert mp.deltas (event, period) merged;
        size_bytes = resize mp.size_bytes (serialized_size merged) (serialized_size existing);
      }

  shared_entry : Option Bitmap → MemPart Bitmap → Bytes → Period → Bitmap → MemPart Bitmap
  shared_entry Option.none mp event period bitmap = record mp {
    bitmaps = HashMap.insert mp.bitmaps (event, period) bitmap;
    size_bytes = resize mp.size_bytes (serialized_size bitmap) 0;
  }
  shared_entry (some existing) mp event period bitmap =
      let merged = union existing bitmap in
      record mp {
        bitmaps = HashMap.insert mp.bitmaps (event, period) merged;
        size_bytes = resize mp.size_bytes (serialized_size merged) (serialized_size existing);
      }

  unfoldable pub or_bitmap_shared : MemPart Bitmap → Bytes → Period → Bitmap → MemPart Bitmap
  unfolding shared_entry
  or_bitmap_shared mp event period bitmap =
      shared_entry (HashMap.get mp.bitmaps (event, period)) mp event period bitmap

  clear_entry : Option Bitmap → MemPart Bitmap → Bytes → Period → Bitmap → MemPart Bitmap
  clear_entry Option.none mp event period bitmap = mp
  clear_entry (some existing) mp event period bitmap =
      let left = difference existing bitmap in
      record mp {
        deltas =
            (if is_empty left
              then HashMap.remove mp.deltas (event, period)
              else HashMap.insert mp.deltas (event, period) left);
        size_bytes = resize mp.size_bytes (serialized_size left) (serialized_size existing);
      }

  unfoldable pub clear_delta_bits : MemPart Bitmap → Bytes → Period → Bitmap → MemPart Bitmap
  unfolding clear_entry
  clear_delta_bits mp event period bitmap =
      clear_entry (HashMap.get mp.deltas (event, period)) mp event period bitmap

  unfoldable pub get_bitmap : MemPart Bitmap → Bytes → Period → Option Bitmap
  get_bitmap mp event period = HashMap.get mp.bitmaps (event, period)

  unfoldable pub get_delta : MemPart Bitmap → Bytes → Period → Option Bitmap
  get_delta mp event period = HashMap.get mp.deltas (event, period)

  unfoldable pub take_snapshot : MemPart Bitmap → MemPart Bitmap × MemPartSnapshot Bitmap
  unfolding new
  take_snapshot mp =
      (new, record { bitmaps = mp.bitmaps; deltas = mp.deltas; size_bytes = mp.size_bytes })

unfoldable pub no_entries {ℓ} : {A : Type ℓ} → List A → Bool
no_entries [] = Bool.true
no_entries (a ∷ l) = Bool.false

unfoldable pub buffer_is_empty : {B : Type 0} → MemPart B → Bool
unfolding no_entries
buffer_is_empty mp = no_entries mp.bitmaps && no_entries mp.deltas
