-- ===== src/Roaring.antt =====
-- The `roaring` crate, a third-party library: what src/ calls of `RoaringBitmap`, with its documented
-- behaviour as laws. A bitmap is a set of `u32`; `contains` says which.
pub mod Instance
use inoxset.Prelude.{ℕ, Bool, true, false, not, ◌&&◌, ◌||◌, ◌==◌, ◌≡◌, ◌↔◌, List, [], ◌∷◌}

-- An id is among the ids of a list.
unfoldable pub is_among : ℕ → List ℕ → Bool
is_among x [] = false
is_among x (id ∷ ids) = id == x || is_among x ids

pub record Roaring : Type 1 where
  pub Bitmap : Type 0
  pub new : Bitmap
  pub insert : Bitmap → ℕ → Bitmap
  pub contains : Bitmap → ℕ → Bool
  pub is_empty : Bitmap → Bool
  -- `|=`, `-=` and `&`
  pub union : Bitmap → Bitmap → Bitmap
  pub difference : Bitmap → Bitmap → Bitmap
  pub intersection : Bitmap → Bitmap → Bitmap
  -- The elements in ascending order, of which only what the set has is used.
  pub iter : Bitmap → List ℕ
  pub serialized_size : Bitmap → ℕ
  pub len : Bitmap → ℕ
  pub intersection_len : Bitmap → Bitmap → ℕ
  pub union_len : Bitmap → Bitmap → ℕ
  pub contains-new : (x : ℕ) → contains new x ≡ false
  pub contains-insert : (a : Bitmap) (i x : ℕ) → contains (insert a i) x ≡ (i == x || contains a x)
  pub contains-union :
      (a b : Bitmap) (x : ℕ) → contains (union a b) x ≡ (contains a x || contains b x)
  pub contains-difference :
      (a b : Bitmap) (x : ℕ) → contains (difference a b) x ≡ (contains a x && not (contains b x))
  pub contains-intersection :
      (a b : Bitmap) (x : ℕ) → contains (intersection a b) x ≡ (contains a x && contains b x)
  pub is_among-iter : (a : Bitmap) (x : ℕ) → is_among x (iter a) ≡ contains a x
  pub is_empty_iff : (a : Bitmap) → (is_empty a ≡ true) ↔ ((x : ℕ) → contains a x ≡ false)
  pub len-empty : (a : Bitmap) → is_empty a ≡ true → len a ≡ 0
  pub intersection_len-empty : (a b : Bitmap) → is_empty a ≡ true → intersection_len a b ≡ 0
  pub intersection_len-len : (a b : Bitmap) → intersection_len a b ≡ len (intersection a b)
  pub union_len-len : (a b : Bitmap) → union_len a b ≡ len (union a b)
