-- ===== src/Codec/Cursor.antt =====
-- Reading at a position: `data` from there on is a field and a rest.
use native.Mathlib.Nat.{suc-add, zero-add, add-zero}
use inoxset.Prelude.{
  ℕ, zero, suc, ◌+◌, ◌-◌, ◌/◌, ◌%◌, ◌≤◌, ◌<◌, ◌≡◌, refl, ap, sym, ◌∙◌, Bytes, [], ◌∷◌, ◌++◌, length,
  length-append, get_elem?, take, drop, append_assoc, take-append, drop-append, to_le, from_le,
  ltb-false, arith,
}
use inoxset.Error.{ok}
use inoxset.Codec.{index, or_panic, slice, index_u16}

drop_nil : (k : ℕ) → drop {A = ℕ} k [] ≡ []
drop_nil zero = refl
drop_nil (suc k) = refl

get_elem?-drop : (bytes : Bytes) (n k : ℕ) → get_elem? bytes (n + k) ≡ get_elem? (drop n bytes) k
get_elem?-drop bytes zero k = rw (zero-add k) refl
get_elem?-drop [] (suc n) k = refl
get_elem?-drop (x ∷ bytes) (suc n) k = rw (suc-add n k) (get_elem?-drop bytes n k)

pub drop-add : (bytes : Bytes) (n k : ℕ) → drop (n + k) bytes ≡ drop k (drop n bytes)
drop-add bytes zero k = rw (zero-add k) refl
drop-add [] (suc n) k = rw (suc-add n k) (sym (drop_nil k))
drop-add (x ∷ bytes) (suc n) k = rw (suc-add n k) (drop-add bytes n k)

pub index-drop : (bytes : Bytes) (n k : ℕ) → index bytes (n + k) ≡ index (drop n bytes) k
unfolding index
index-drop bytes n k = ap or_panic (get_elem?-drop bytes n k)

-- At `pos` the bytes of `bytes` are `s` and then a rest.
pub record At (bytes : Bytes) (pos : ℕ) (s : Bytes) : Type 0 where
  pub rest : Bytes
  pub found : drop pos bytes ≡ s ++ rest
  pub reach : pos + length s ≤ length bytes

module _ {bytes : Bytes} {pos : ℕ} where
  -- The first part of a field, and what follows it.
  pub At-front : (s t : Bytes) → At bytes pos (s ++ t) → At bytes pos s
  At-front s t a = record {
    rest = t ++ a.rest;
    found = a.found ∙ append_assoc s t a.rest;
    reach = omega (arith, length-append s t, a.reach);
  }

  pub At-back : (s t : Bytes) → At bytes pos (s ++ t) → At bytes (pos + length s) t
  At-back s t a = record {
    rest = a.rest;
    found =
        drop-add bytes pos (length s)
        ∙ (ap (drop (length s)) (a.found ∙ append_assoc s t a.rest) ∙ drop-append s (t ++ a.rest));
    reach = omega (arith, length-append s t, a.reach);
  }

  pub index-At : (b : ℕ) (s : Bytes) → At bytes pos (b ∷ s) → index bytes pos ≡ ok b
  unfolding index
  index-At b s a = ap or_panic (
      ap (get_elem? bytes) (sym (add-zero pos))
      ∙ (get_elem?-drop bytes pos 0 ∙ ap (λ t. get_elem? t 0) a.found))

  pub slice-At : (s : Bytes) → At bytes pos s → slice bytes pos (pos + length s) ≡ ok s
  unfolding slice
  slice-At s a =
      rw
        (
          ltb-false (pos + length s) pos (omega arith),
          ltb-false (length bytes) (pos + length s) a.reach,
        )
        (ap ok (
          ap (λ n. take n (drop pos bytes)) span
          ∙ (ap (take (length s)) a.found ∙ take-append s a.rest)))
    where
      span : pos + length s - pos ≡ length s
      span = omega arith

module _ {bytes : Bytes} {pos : ℕ} where
  -- A `u16` of two bytes.
  pub index_u16-At :
      (n : ℕ) (s : Bytes) → n < 65536 → At bytes pos (to_le 2 n ++ s) → index_u16 bytes pos ≡ ok n
  unfolding index_u16 to_le from_le
  index_u16-At n s h a = rw (index-At (n % 256) (n / 256 % 256 ∷ s) a) (
      rw (index-At (n / 256 % 256) s (At-back (n % 256 ∷ []) (n / 256 % 256 ∷ s) a))
        (ap ok (omega arith)))
