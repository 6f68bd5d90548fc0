-- ===== src/Merge/Tests.antt =====
-- The merge of two data parts and a delta part, on bitmaps that are lists.
use inoxset.Prelude.{ℕ, Bytes, true, false, List, [], ◌∷◌, ◌++◌, ◌≡◌, refl}
use inoxset.Error.{Result, ok}
use inoxset.Roaring.Instance.{list_roaring, member}
use inoxset.Merge.{tag, merge_parts}
use inoxset.Merge.Newest.{survives, distinct, fresh}
use inoxset.Merge.Parts.{AllRead, merge_parts-survives}

abbrev bitmap_at : Bytes → List ℕ
bitmap_at path = path

abbrev read : Bytes → Result (List ℕ)
read path = ok path

abbrev data_parts : List (ℕ × Bytes)
data_parts = (3, 7 ∷ []) ∷ (1, 7 ∷ 8 ∷ []) ∷ []

abbrev delta_parts : List (ℕ × Bytes)
delta_parts = (2, 7 ∷ 8 ∷ []) ∷ []

all_read : AllRead list_roaring read ok bitmap_at (tag false data_parts ++ tag true delta_parts)
unfolding AllRead tag
all_read = (refl, (refl, (refl, tt)))

ids_distinct : distinct (tag false data_parts ++ tag true delta_parts) ≡ true
unfolding distinct fresh tag
ids_distinct = refl

merge_parts-survives_example :
    (m : List ℕ) × (merge_parts list_roaring read ok data_parts delta_parts ≡ ok m)
    × ((x : ℕ)
        → member m x
          ≡ survives list_roaring
              (λ p. bitmap_at p.path)
              x
              (tag false data_parts ++ tag true delta_parts)
              (tag false data_parts ++ tag true delta_parts))
merge_parts-survives_example =
    merge_parts-survives list_roaring read ok bitmap_at data_parts delta_parts all_read ids_distinct
      (λ b. (b, refl, λ x. refl))
