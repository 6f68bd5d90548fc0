-- ===== src/Inverted/Instance.antt =====
-- Hashes of external ids by their lengths, with a stable sort, for examples.
use mathlib.Core.List.{Permᴰ}
use mathlib.Core.List.Permᴰ
use inoxset.Prelude.{
  ℕ, ◌≤◌, true, List, [], ◌∷◌, ◌≡◌, refl, leb, length, arith, Bool-cases, inl, inr, if◌then◌else◌,
}
use inoxset.Inverted.{Row, Hashing, sorted_from}

unfoldable pub insert_row : Row → List Row → List Row
insert_row r [] = r ∷ []
insert_row r (q ∷ rows) = if leb r.h64 q.h64 then r ∷ q ∷ rows else q ∷ insert_row r rows

unfoldable pub sort_rows : List Row → List Row
unfolding insert_row
sort_rows [] = []
sort_rows (r ∷ rows) = insert_row r (sort_rows rows)

sorted_from-insert_row :
    (lo : ℕ) (r : Row) (rows : List Row)
    → lo ≤ r.h64
    → sorted_from lo rows ≡ true
    → sorted_from lo (insert_row r rows) ≡ true
unfolding sorted_from insert_row
sorted_from-insert_row lo r [] h s = ground arith
sorted_from-insert_row lo r (q ∷ rows) h s = ground (arith, sorted_from-insert_row q.h64 r rows)

pub sorted_from-sort_rows : (rows : List Row) → sorted_from 0 (sort_rows rows) ≡ true
unfolding sorted_from sort_rows
sorted_from-sort_rows [] = refl
sorted_from-sort_rows (r ∷ rows) =
    sorted_from-insert_row 0 r (sort_rows rows) (omega arith) (sorted_from-sort_rows rows)

insert_row-Perm : (r : Row) (rows : List Row) → Permᴰ (insert_row r rows) (r ∷ rows)
unfolding insert_row
insert_row-Perm r [] = Permᴰ.refl _
insert_row-Perm r (q ∷ rows) = elim (Bool-cases (leb r.h64 q.h64)) [
  | inl h ↦ rw h (Permᴰ.refl _)
  | inr h ↦ rw h (Permᴰ.trans (Permᴰ.cons refl (insert_row-Perm r rows)) (Permᴰ.swap refl refl))
]

pub sort_rows-Perm : (rows : List Row) → Permᴰ (sort_rows rows) rows
unfolding sort_rows
sort_rows-Perm [] = Permᴰ.nil
sort_rows-Perm (r ∷ rows) =
    Permᴰ.trans (insert_row-Perm r (sort_rows rows)) (Permᴰ.cons refl (sort_rows-Perm rows))

abbrev pub length_hashing : Hashing
length_hashing = record {
  fx_hash64 = λ s. length s;
  base_hashes = λ s. (length s, 7);
  optimal_params = λ n. (64, 1);
  num_bits_positive = λ n. omega arith;
  sort_unstable_by_key = sort_rows;
  sorts = sorted_from-sort_rows;
  permutes = sort_rows-Perm;
}
