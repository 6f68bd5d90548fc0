-- ===== src/PartStore/Names.antt =====
-- The id in the path of a part file.
use inoxset.Prelude.{
  ℕ, ◌-◌, ◌^◌, ◌<◌, ◌≡◌, ◌≢◌, refl, ap, Bytes, bytes, true, false, some, [], ◌∷◌, ◌++◌, length,
  length-append, Bool-cases, inl, inr, arith,
}
use inoxset.Prelude.Eq.{text_beq, text_beq_iff}
use inoxset.Prelude.Decimal.{padded}
use inoxset.Types.{Granularity, dir_name, PartKind, Period}
use inoxset.Period.{key}
use inoxset.PartStore.{
  id_segment, part_file_path, strip_suffix, after_last_dot, without_d,
  extract_part_id_from_filename,
}
use inoxset.PartStore.Digits.{AllDigits, padded-AllDigits, parse_uint-padded, Short-u64}

same_length : (s t : Bytes) → text_beq s t ≡ true → length s ≡ length t
same_length s t e = ap length ((text_beq_iff s t).0 e)

longer : (s t : Bytes) → length t < length s → text_beq s t ≡ false
longer s t h = elim (Bool-cases (text_beq s t)) [
  | inl e ↦ absurd (omega (arith, same_length s t e))
  | inr e ↦ e
]

strip_itself : (s : Bytes) → strip_suffix s s ≡ some []
unfolding strip_suffix
strip_itself [] = refl
strip_itself (c ∷ s) = rw ((text_beq_iff (c ∷ s) (c ∷ s)).1 refl) refl

-- A suffix that was appended is taken off again.
strip-append : (s suffix : Bytes) → strip_suffix (s ++ suffix) suffix ≡ some s
unfolding strip_suffix
strip-append [] suffix = strip_itself suffix
strip-append (c ∷ s) suffix =
    rw
      (
        longer (c ∷ (s ++ suffix)) suffix (omega (arith, length-append s suffix)),
        strip-append s suffix,
      )
      refl

-- No byte is a dot.
abbrev pub DotFree : Bytes → Type 0
DotFree [] = Unit
DotFree (b ∷ s) = (b ≢ b'.') × DotFree s

DotFree-last : (best s : Bytes) → DotFree s → after_last_dot best s ≡ best
unfolding after_last_dot
DotFree-last best [] h = refl
DotFree-last best (c ∷ s) (n, h) = ground (arith, DotFree-last best s h)

after_last_dot-append :
    (front seg best : Bytes) → DotFree seg → after_last_dot best (front ++ b'.' ∷ seg) ≡ seg
unfolding after_last_dot
after_last_dot-append [] seg best h = DotFree-last seg seg h
after_last_dot-append (c ∷ front) seg best h = ground (
  arith,
  after_last_dot-append front seg best h,
  after_last_dot-append front seg (front ++ b'.' ∷ seg) h,
)

digits-DotFree : (s : Bytes) → AllDigits s → DotFree s
digits-DotFree [] h = tt
digits-DotFree (b ∷ s) (h, r) = (omega arith, digits-DotFree s r)

pub segment-DotFree : (n : ℕ) (k : PartKind) → DotFree (id_segment n k)
unfolding id_segment
segment-DotFree n PartKind.additive = digits-DotFree (padded 12 n) (padded-AllDigits 12 n)
segment-DotFree n PartKind.delta =
    (omega arith, (omega arith, digits-DotFree (padded 12 n) (padded-AllDigits 12 n)))

digits-without_d : (s : Bytes) → AllDigits s → without_d s ≡ s
unfolding without_d
digits-without_d [] h = refl
digits-without_d (b ∷ []) h = refl
digits-without_d (b ∷ c ∷ s) (h, r) = ground arith

segment-without_d : (n : ℕ) (k : PartKind) → without_d (id_segment n k) ≡ padded 12 n
unfolding id_segment
segment-without_d n PartKind.additive = digits-without_d (padded 12 n) (padded-AllDigits 12 n)
segment-without_d n PartKind.delta = unfold without_d in refl

pub extract-segment :
    (front : Bytes) (n : ℕ) (k : PartKind)
    → n < 2 ^ 64
    → extract_part_id_from_filename (front ++ b'.' ∷ id_segment n k ++ bytes ".roar") ≡ some n
unfolding extract_part_id_from_filename
extract-segment front n k h =
    rw
      (
        strip-append (front ++ b'.' ∷ id_segment n k) (bytes ".roar"),
        after_last_dot-append front (id_segment n k) (front ++ b'.' ∷ id_segment n k)
            (segment-DotFree n k),
        segment-without_d n k,
      )
      (parse_uint-padded (2 ^ 64 - 1) 12 n (omega arith) (Short-u64 n h) (omega arith))

-- The id of a part is read back from the path of its file, for every root, event, granularity,
-- period and kind.
pub extract_part_id_from_filename-part_file_path :
    (root event : Bytes) (g : Granularity) (p : Period) (id : ℕ) (k : PartKind)
    → id < 2 ^ 64
    → extract_part_id_from_filename (part_file_path root event g p id k) ≡ some id
unfolding part_file_path
extract_part_id_from_filename-part_file_path root event g p id k h =
    extract-segment (root ++ b'/' ∷ event ++ b'/' ∷ dir_name g ++ b'/' ∷ key p) id k h
