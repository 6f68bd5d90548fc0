-- ===== src/MemPart/Content.antt =====
-- What the write buffer holds, bit by bit, and what each operation of src/mempart.rs does to it.
use inoxset.Prelude.{
  ℕ, Bytes, Bool, true, false, not, ◌&&◌, ◌||◌, Option, none, some, ◌≡◌, ◌↔◌, refl, ap, ◌∙◌,
  if◌then◌else◌, arith,
}
use inoxset.Prelude.HashMap
use inoxset.Prelude.HashMap.{HashMap, get-insert, get-remove}
use inoxset.Prelude.Eq.{Eq, pair_eq, text_eq, pair_beq_iff}
use inoxset.Types.{Period}
use inoxset.Types.Order.{period_eq}
use inoxset.Roaring.{Roaring}
use inoxset.MemPart.{
  Key, MemPart, or_new, entry, shared_entry, clear_entry, or_bitmap, or_delta, or_bitmap_shared,
  clear_delta_bits,
}

unfoldable pub same_key : Key → Key → Bool
same_key j k = Eq.beq pair_eq j k

pub same_key_iff : (j k : Key) → (same_key j k ≡ true) ↔ (j ≡ k)
unfolding same_key
same_key_iff j k = pair_beq_iff j k

module _ (R : Roaring) where
  open R use {
    Bitmap, contains, contains-new, contains-union, contains-difference, is_empty, is_empty_iff,
  }

  unfoldable pub holds : Option Bitmap → ℕ → Bool
  holds none x = false
  holds (some b) x = contains b x

  -- Bit `x` is set in the entry of a key.
  unfoldable pub holds_in : HashMap Key Bitmap → Key → ℕ → Bool
  unfolding holds
  holds_in m k x = holds (HashMap.get m k) x

  holds_in-insert :
      (m : HashMap Key Bitmap) (k j : Key) (b : Bitmap) (x : ℕ)
      → holds_in (HashMap.insert m k b) j x
        ≡ (if same_key k j then contains b x else holds_in m j x)
  unfolding holds_in holds same_key
  holds_in-insert m k j b x = ap (λ o. holds o x) (get-insert m k j b) ∙ ground arith

  holds_in-remove :
      (m : HashMap Key Bitmap) (k j : Key) (x : ℕ)
      → holds_in (HashMap.remove m k) j x ≡ (not (same_key k j) && holds_in m j x)
  unfolding holds_in holds same_key
  holds_in-remove m k j x = ap (λ o. holds o x) (get-remove m k j) ∙ ground arith

  holds_in-some :
      (m : HashMap Key Bitmap) (k : Key) (b : Bitmap) (x : ℕ) (g : HashMap.get m k ≡ some b)
      → holds_in m k x ≡ contains b x
  unfolding holds_in holds
  holds_in-some m k b x g = ap (λ o. holds o x) g

  holds_in-none :
      (m : HashMap Key Bitmap) (k : Key) (x : ℕ) (g : HashMap.get m k ≡ none)
      → holds_in m k x ≡ false
  unfolding holds_in holds
  holds_in-none m k x g = ap (λ o. holds o x) g

  is_empty-contains : (b : Bitmap) (x : ℕ) → is_empty b ≡ true → contains b x ≡ false
  is_empty-contains b x empty = (is_empty_iff b).0 empty x

  holds-or_new : (o : Option Bitmap) (x : ℕ) → contains (or_new R o) x ≡ holds o x
  unfolding or_new holds
  holds-or_new none x = contains-new x
  holds-or_new (some b) x = refl

  holds_in-entry :
      (m : HashMap Key Bitmap) (k : Key) (x : ℕ) → contains (entry R m k) x ≡ holds_in m k x
  unfolding holds_in holds entry
  holds_in-entry m k x = holds-or_new (HashMap.get m k) x

  holds_in-union :
      (m : HashMap Key Bitmap) (k j : Key) (b : Bitmap) (x : ℕ)
      → holds_in (HashMap.insert m k (R.union (entry R m k) b)) j x
        ≡ (same_key k j && contains b x || holds_in m j x)
  holds_in-union m k j b x = ground (
    arith,
    holds_in-insert m k j (R.union (entry R m k) b) x,
    same_key_iff k j,
    contains-union (entry R m k) b x,
    holds_in-entry m k x,
  )

  -- Bit `x` is buffered for a key, and bit `x` is in the pending delete-delta of a key.
  unfoldable pub added : MemPart Bitmap → Key → ℕ → Bool
  unfolding holds_in
  added mp k x = holds_in mp.bitmaps k x

  unfoldable pub removed : MemPart Bitmap → Key → ℕ → Bool
  unfolding holds_in
  removed mp k x = holds_in mp.deltas k x

  module _ (mp : MemPart Bitmap) (e : Bytes) (p : Period) (b : Bitmap) (k : Key) (x : ℕ) where
    pub added-or_bitmap :
        added (or_bitmap R mp e p b) k x ≡ (same_key (e, p) k && contains b x || added mp k x)
    unfolding added or_bitmap
    added-or_bitmap = holds_in-union mp.bitmaps (e, p) k b x

    pub removed-or_bitmap : removed (or_bitmap R mp e p b) k x ≡ removed mp k x
    unfolding removed or_bitmap
    removed-or_bitmap = refl

    pub removed-or_delta :
        removed (or_delta R mp e p b) k x ≡ (same_key (e, p) k && contains b x || removed mp k x)
    unfolding removed or_delta
    removed-or_delta = holds_in-union mp.deltas (e, p) k b x

    pub added-or_delta : added (or_delta R mp e p b) k x ≡ added mp k x
    unfolding added or_delta
    added-or_delta = refl

    added-shared_entry :
        (o : Option Bitmap) (g : HashMap.get mp.bitmaps (e, p) ≡ o)
        → added (shared_entry R o mp e p b) k x
          ≡ (same_key (e, p) k && contains b x || added mp k x)
    unfolding added shared_entry
    added-shared_entry none g = ground (
      arith,
      holds_in-insert mp.bitmaps (e, p) k b x,
      same_key_iff (e, p) k,
      holds_in-none mp.bitmaps (e, p) x g,
    )
    added-shared_entry (some d) g = ground (
      arith,
      holds_in-insert mp.bitmaps (e, p) k (R.union d b) x,
      same_key_iff (e, p) k,
      contains-union d b x,
      holds_in-some mp.bitmaps (e, p) d x g,
    )

    pub added-or_bitmap_shared :
        added (or_bitmap_shared R mp e p b) k x
        ≡ (same_key (e, p) k && contains b x || added mp k x)
    unfolding or_bitmap_shared
    added-or_bitmap_shared = added-shared_entry (HashMap.get mp.bitmaps (e, p)) refl

    removed-shared_entry :
        (o : Option Bitmap) → removed (shared_entry R o mp e p b) k x ≡ removed mp k x
    unfolding removed shared_entry
    removed-shared_entry none = refl
    removed-shared_entry (some d) = refl

    pub removed-or_bitmap_shared : removed (or_bitmap_shared R mp e p b) k x ≡ removed mp k x
    unfolding or_bitmap_shared
    removed-or_bitmap_shared = removed-shared_entry (HashMap.get mp.bitmaps (e, p))

    added-clear_entry : (o : Option Bitmap) → added (clear_entry R o mp e p b) k x ≡ added mp k x
    unfolding added clear_entry
    added-clear_entry none = refl
    added-clear_entry (some d) = refl

    pub added-clear_delta_bits : added (clear_delta_bits R mp e p b) k x ≡ added mp k x
    unfolding clear_delta_bits
    added-clear_delta_bits = added-clear_entry (HashMap.get mp.deltas (e, p))

    removed-clear_entry :
        (o : Option Bitmap) (g : HashMap.get mp.deltas (e, p) ≡ o)
        → removed (clear_entry R o mp e p b) k x
          ≡ (removed mp k x && not (same_key (e, p) k && contains b x))
    unfolding removed clear_entry
    removed-clear_entry none g =
        ground (arith, same_key_iff (e, p) k, holds_in-none mp.deltas (e, p) x g)
    removed-clear_entry (some d) g = ground (
      arith,
      holds_in-remove mp.deltas (e, p) k x,
      holds_in-insert mp.deltas (e, p) k (R.difference d b) x,
      same_key_iff (e, p) k,
      contains-difference d b x,
      is_empty-contains (R.difference d b) x,
      holds_in-some mp.deltas (e, p) d x g,
    )

    pub removed-clear_delta_bits :
        removed (clear_delta_bits R mp e p b) k x
        ≡ (removed mp k x && not (same_key (e, p) k && contains b x))
    unfolding clear_delta_bits
    removed-clear_delta_bits = removed-clear_entry (HashMap.get mp.deltas (e, p)) refl
