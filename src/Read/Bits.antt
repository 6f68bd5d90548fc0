-- ===== src/Read/Bits.antt =====
-- The two ways in which src/lib.rs reads one bit of a key, `get` and `contains_bit`.
use inoxset.Prelude.{ℕ, Bytes, not, ◌&&◌, ◌||◌, Option, none, some, ◌≡◌, refl, arith}
use inoxset.Types.{Period}
use inoxset.Roaring.{Roaring}
use inoxset.MemPart.{MemPart, get_bitmap, get_delta}
use inoxset.MemPart.Content.{holds, holds_in, added, removed}
use inoxset.Rollup.View.{visible}
use inoxset.Read.{or_some, minus_some, overlay, get_cached, some_contains, contains_bit}

module _ (R : Roaring) where
  open R use {Bitmap, contains, contains-union, contains-difference}

  overlay-holds :
      (cached : Bitmap) (b d : Option Bitmap) (x : ℕ)
      → contains (overlay R cached b d) x
        ≡ ((contains cached x || holds R b x) && not (holds R d x))
  unfolding overlay or_some minus_some holds
  overlay-holds cached none none x = ground arith
  overlay-holds cached none (some d) x = ground (arith, contains-difference cached d x)
  overlay-holds cached (some b) none x = ground (arith, contains-union cached b x)
  overlay-holds cached (some b) (some d) x =
      ground (arith, contains-union cached b x, contains-difference (R.union cached b) d x)

  some_contains-holds : (o : Option Bitmap) (x : ℕ) → some_contains R o x ≡ holds R o x
  unfolding some_contains holds
  some_contains-holds none x = refl
  some_contains-holds (some b) x = refl

  -- Where the read index has the key, `get` returns a bitmap whose bits are the flushed bits and
  -- the buffered ones, without the bits of the pending delete-delta.
  pub get_cached-visible :
      (cached : Bitmap) (mp : MemPart Bitmap) (e : Bytes) (p : Period)
      → (b : Bitmap) × (get_cached R (some cached) mp e p ≡ some b)
        × ((x : ℕ) → contains b x ≡ visible R (contains cached x) mp (e, p) x)
  unfolding get_cached visible added removed holds_in get_bitmap get_delta
  get_cached-visible cached mp e p = (
    overlay R cached (get_bitmap R mp e p) (get_delta R mp e p),
    refl,
    λ x. overlay-holds cached (get_bitmap R mp e p) (get_delta R mp e p) x,
  )

  -- `contains_bit` answers what `get` would show of the bit, for a key that the read index has and
  -- for one that it does not have.
  pub contains_bit-visible :
      (cache : Option Bitmap) (mp : MemPart Bitmap) (e : Bytes) (p : Period) (x : ℕ)
      → contains_bit R cache mp e p x ≡ visible R (holds R cache x) mp (e, p) x
  unfolding contains_bit visible added removed holds_in get_bitmap get_delta
  contains_bit-visible cache mp e p x = ground (
    arith,
    some_contains-holds cache x,
    some_contains-holds (get_bitmap R mp e p) x,
    some_contains-holds (get_delta R mp e p) x,
  )
