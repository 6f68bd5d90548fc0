-- ===== src/Codec/Part/RoundTrip.antt =====
-- Writing and reading part metadata.
use inoxset.Prelude.{
  ℕ, ◌+◌, ◌^◌, ◌≤◌, ◌<◌, ◌≡◌, refl, ap, Bytes, true, [], ◌∷◌, ◌++◌, length, length-append,
  append-nil, to_le, length-to_le, from_le-to_le, ltb-false, arith, subst, sym,
}
use inoxset.Types.{Period, PartKind, Part}
use inoxset.Error.{ok}
use inoxset.Codec.{slice, serialize_period}
use inoxset.Codec.Utf8.{is_utf8}
use inoxset.Codec.Cursor.{At, At-front, At-back, index-At, slice-At, index_u16-At}
use inoxset.Codec.RoundTrip.{InRange, deserialize_period-At}
use inoxset.Codec.Part.{
  kind_as_u8, kind_from_u8, put_text, part_bytes, serialize_part, read_u64, read_u8, read_text,
  read_tail, deserialize_part,
}

module _ {bytes : Bytes} {pos : ℕ} where
  read_u64-At :
      (n : ℕ) (s : Bytes) → n < 2 ^ 64 → At bytes pos (to_le 8 n ++ s) → read_u64 bytes pos ≡ ok n
  unfolding read_u64
  read_u64-At n s h a =
      rw
        (
          ltb-false (length bytes) (pos + 8)
              (omega (arith, length-append (to_le 8 n) s, length-to_le 8 n, a.reach)),
          word,
        )
        (ap ok (from_le-to_le 8 n h))
    where
      word : slice bytes pos (pos + 8) ≡ ok (to_le 8 n)
      word = unfold to_le in slice-At (to_le 8 n) (At-front (to_le 8 n) s a)

  read_u8-At : (b : ℕ) (s : Bytes) → At bytes pos (b ∷ s) → read_u8 bytes pos ≡ ok b
  unfolding read_u8
  read_u8-At b s a =
      rw (ltb-false (length bytes) (pos + 1) (omega (arith, a.reach)), index-At b s a) refl

  -- A text behind its length, and where it ends.
  read_text-At :
      (s t : Bytes)
      → length s ≤ 65535
      → is_utf8 s ≡ true
      → At bytes pos ((to_le 2 (length s) ++ s) ++ t)
      → read_text bytes pos ≡ ok (s, pos + 2 + length s)
  unfolding read_text to_le
  read_text-At s t h u a =
      rw
        (
          ltb-false (length bytes) (pos + 2) (omega (arith, a.reach)),
          index_u16-At (length s) (s ++ t) (omega arith) a,
          ltb-false (length bytes) (pos + 2 + length s) (omega (arith, length-append s t, a.reach)),
          slice-At s (At-front s t (At-back (to_le 2 (length s)) (s ++ t) a)),
          u,
        )
        refl

abbrev text_bytes : Bytes → Bytes
text_bytes s = to_le 2 (length s) ++ s

-- A text that the format can hold.
pub record Fits (s : Bytes) : Type 0 where
  pub short : length s ≤ 65535
  pub utf8 : is_utf8 s ≡ true

length-text_bytes : (s : Bytes) → length (text_bytes s) ≡ 2 + length s
length-text_bytes s = omega (arith, length-append (to_le 2 (length s)) s, length-to_le 2 (length s))

module _ {bytes : Bytes} {pos : ℕ} (p : Period) (event path : Bytes) (r : InRange p)
    (e : Fits event) (f : Fits path) where
  read_tail-At :
      At bytes pos (serialize_period p ++ (text_bytes event ++ text_bytes path))
      → read_tail bytes pos ≡ ok (p, event, path)
  unfolding read_tail
  read_tail-At a =
      rw
        (
          deserialize_period-At p r
              (At-front (serialize_period p) (text_bytes event ++ text_bytes path) a),
          read_text-At event (text_bytes path) e.short e.utf8 first,
          read_text-At path [] f.short f.utf8 second,
        )
        refl
    where
      start : ℕ
      start = pos + length (serialize_period p)

      first : At bytes start (text_bytes event ++ text_bytes path)
      first = At-back (serialize_period p) (text_bytes event ++ text_bytes path) a

      second : At bytes (start + 2 + length event) (text_bytes path ++ [])
      second =
          subst (λ s. At bytes (start + 2 + length event) s) (sym (append-nil (text_bytes path)))
            (subst (λ n. At bytes n (text_bytes path)) (omega (arith, length-text_bytes event))
              (At-back (text_bytes event) (text_bytes path) first))

-- The fields of a part are in the ranges of their Rust types, and its texts fit.
pub record IsStorable (p : Part) : Type 0 where
  pub part_id : p.part_id < 2 ^ 64
  pub size_bytes : p.size_bytes < 2 ^ 64
  pub cardinality : p.cardinality < 2 ^ 64
  pub created_at : p.created_at < 2 ^ 64
  pub period : InRange p.period
  pub event : Fits p.event
  pub path : Fits p.file_path

kind_lem : (k : PartKind) → kind_from_u8 (kind_as_u8 k) ≡ ok k
unfolding kind_from_u8 kind_as_u8
kind_lem PartKind.additive = refl
kind_lem PartKind.delta = refl

abbrev texts_of : Part → Bytes
texts_of p = text_bytes p.event ++ text_bytes p.file_path

At-word :
    {bytes : Bytes} {pos : ℕ} (n : ℕ) (s : Bytes)
    → At bytes pos (to_le 8 n ++ s)
    → At bytes (pos + 8) s
At-word n s a = unfold to_le in At-back (to_le 8 n) s a

period_bytes : (p : Period) → 1 ≤ length (serialize_period p)
unfolding serialize_period
period_bytes Period.static = omega arith
period_bytes _ = omega arith

-- The suffixes of the bytes of a part.
abbrev from_period : Part → Bytes
from_period p = serialize_period p.period ++ texts_of p

abbrev from_created : Part → Bytes
from_created p = to_le 8 p.created_at ++ (p.level ∷ from_period p)

abbrev from_cardinality : Part → Bytes
from_cardinality p = to_le 8 p.cardinality ++ from_created p

abbrev from_size : Part → Bytes
from_size p = to_le 8 p.size_bytes ++ from_cardinality p

abbrev from_id : Part → Bytes
from_id p = to_le 8 p.part_id ++ (kind_as_u8 p.kind ∷ from_size p)

module _ (p : Part) (v : IsStorable p) (bytes : Bytes) (a0 : At bytes 0 (1 ∷ from_id p)) where
  at1 : At bytes 1 (from_id p)
  at1 = At-back (1 ∷ []) (from_id p) a0

  at9 : At bytes 9 (kind_as_u8 p.kind ∷ from_size p)
  at9 = At-word p.part_id (kind_as_u8 p.kind ∷ from_size p) at1

  at10 : At bytes 10 (from_size p)
  at10 = At-back (kind_as_u8 p.kind ∷ []) (from_size p) at9

  at18 : At bytes 18 (from_cardinality p)
  at18 = At-word p.size_bytes (from_cardinality p) at10

  at26 : At bytes 26 (from_created p)
  at26 = At-word p.cardinality (from_created p) at18

  at34 : At bytes 34 (p.level ∷ from_period p)
  at34 = At-word p.created_at (p.level ∷ from_period p) at26

  at35 : At bytes 35 (from_period p)
  at35 = At-back (p.level ∷ []) (from_period p) at34

  long_enough : 40 ≤ length bytes
  long_enough = omega (
    arith,
    at35.reach,
    period_bytes p.period,
    length-append (serialize_period p.period) (texts_of p),
    length-append (text_bytes p.event) (text_bytes p.file_path),
    length-text_bytes p.event,
    length-text_bytes p.file_path,
  )

  read_back : deserialize_part bytes ≡ ok p
  unfolding deserialize_part
  read_back =
      rw
        (
          ltb-false (length bytes) 40 long_enough,
          index-At 1 (from_id p) a0,
          read_u64-At p.part_id (kind_as_u8 p.kind ∷ from_size p) v.part_id at1,
          read_u8-At (kind_as_u8 p.kind) (from_size p) at9,
          kind_lem p.kind,
          read_u64-At p.size_bytes (from_cardinality p) v.size_bytes at10,
          read_u64-At p.cardinality (from_created p) v.cardinality at18,
          read_u64-At p.created_at (p.level ∷ from_period p) v.created_at at26,
          read_u8-At p.level (from_period p) at34,
          read_tail-At p.period p.event p.file_path v.period v.event v.path at35,
        )
        refl

-- Part metadata whose fields are in range serializes to bytes from which it is read back.
pub deserialize_part-serialize :
    (p : Part)
    → IsStorable p
    → (stored : Bytes) × (serialize_part p ≡ ok stored) × (deserialize_part stored ≡ ok p)
unfolding serialize_part put_text
deserialize_part-serialize p v = (
  part_bytes p (texts_of p),
  rw
      (
        ltb-false 65535 (length p.event) v.event.short,
        ltb-false 65535 (length p.file_path) v.path.short,
      )
      refl,
  read_back p v (part_bytes p (texts_of p)) (
      unfold part_bytes in
      record { rest = []; found = sym (append-nil (1 ∷ from_id p)); reach = omega arith }),
)
