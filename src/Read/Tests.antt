-- ===== src/Read/Tests.antt =====
-- The reads on bitmaps that are lists.
use inoxset.Prelude.{ℕ, Bytes, bytes, some, List, [], ◌∷◌, ◌≡◌, refl}
use inoxset.Types.{Period, SetExpr, ref, and, diff}
use inoxset.Error.{Result, ok}
use inoxset.Roaring.Instance.{list_roaring, member}
use inoxset.MemPart.{MemPart}
use inoxset.MemPart.Content.{holds}
use inoxset.Rollup.View.{visible}
use inoxset.Read.{get_cached, contains_bit, query}
use inoxset.Read.Bits.{get_cached-visible, contains_bit-visible}
use inoxset.Read.Query.{denotes, query-denotes}

-- Bit 7 is written and bit 8 is removed.
abbrev buffer : MemPart (List ℕ)
buffer = record {
  bitmaps = ((bytes "a", Period.static), 7 ∷ []) ∷ [];
  deltas = ((bytes "a", Period.static), 8 ∷ []) ∷ [];
  size_bytes = 0;
}

get_cached-visible_example :
    (b : List ℕ) × (get_cached list_roaring (some (8 ∷ 9 ∷ [])) buffer (bytes "a") Period.static
      ≡ some b)
    × ((x : ℕ)
        → member b x
          ≡ visible list_roaring (member (8 ∷ 9 ∷ []) x) buffer (bytes "a", Period.static) x)
get_cached-visible_example =
    get_cached-visible list_roaring (8 ∷ 9 ∷ []) buffer (bytes "a") Period.static

contains_bit-visible_example :
    contains_bit list_roaring (some (8 ∷ 9 ∷ [])) buffer (bytes "a") Period.static 8
    ≡ visible list_roaring
        (holds list_roaring (some (8 ∷ 9 ∷ [])) 8)
        buffer
        (bytes "a", Period.static)
        8
contains_bit-visible_example =
    contains_bit-visible list_roaring (some (8 ∷ 9 ∷ [])) buffer (bytes "a") Period.static 8

abbrev get : Bytes → Period → Result (List ℕ)
get e p = ok e

abbrev expr : SetExpr
expr =
    diff (and (ref (bytes "abc") Period.static) (ref (bytes "bcd") Period.static))
      (ref (bytes "c") Period.static)

query-denotes_example :
    (b : List ℕ) × (query list_roaring get expr ≡ ok b)
    × ((x : ℕ) → member b x ≡ denotes (λ e p y. member e y) expr x)
query-denotes_example = query-denotes list_roaring get (λ e p. e) (λ e p. refl) expr
