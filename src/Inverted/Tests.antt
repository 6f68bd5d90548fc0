-- ===== src/Inverted/Tests.antt =====
-- A small index.
use mathlib.Core.List.{Permᴰ}
use inoxset.Prelude.{ℕ, bytes, List, [], ◌∷◌, ◌≡◌, refl, arith, length}
use inoxset.Prelude.Eq.{text_beq}
use inoxset.Types.{Period, event_id, period_id, inline}
use inoxset.Error.{ok}
use inoxset.Roaring.Instance.{list_roaring}
use inoxset.Inverted.Instance.{length_hashing}
use inoxset.Inverted.{InvertedIndex, InvertedIndexBuilder, new_builder, add, build, lookup, decode}
use inoxset.Inverted.Rows.{packs, has_ext}
use inoxset.Inverted.Found.{staged, lookup-build}

abbrev names : InvertedIndexBuilder
names =
    new_builder (bytes "clicks" ∷ bytes "views" ∷ [])
      (Period.day 2026 4 1 ∷ Period.day 2026 4 2 ∷ [])

-- Rows of "alice" and "bob", not in the order of their hashes.
abbrev filled : InvertedIndexBuilder
filled =
    add length_hashing
      (add length_hashing (add length_hashing names (bytes "alice") 0 1) (bytes "bob") 0 0)
      (bytes "alice") 1 0

lookup-build_example :
    (idx : InvertedIndex (List ℕ)) × (found : List ℕ) × (build list_roaring length_hashing filled
      ≡ ok idx)
    × (lookup list_roaring length_hashing idx (bytes "alice") ≡ ok (decode filled.meta found))
    × Permᴰ found (packs (length (bytes "alice")) filled.raw)
unfolding staged has_ext add new_builder text_beq
lookup-build_example =
    lookup-build list_roaring length_hashing filled (bytes "alice") refl refl (omega arith)

-- What the lookup decodes to.
alice_memberships :
    decode filled.meta (packs (length (bytes "alice")) filled.raw)
    ≡ (bytes "clicks", Period.day 2026 4 2) ∷ (bytes "views", Period.day 2026 4 1) ∷ []
unfolding decode packs add new_builder event_id period_id inline
alice_memberships = refl
