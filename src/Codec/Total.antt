-- ===== src/Codec/Total.antt =====
-- The decoders of src/catalog.rs on arbitrary bytes.
use inoxset.Prelude.{
  ℕ, zero, suc, ◌+◌, ◌-◌, ◌≤◌, ◌<◌, ◌≡◌, ◌≢◌, refl, Bytes, Bool, true, false, not, Option, none,
  some, [], ◌∷◌, length, get_elem?, take, drop, ◌==◌, ltb, leb, ltb-false, if◌then◌else◌, arith,
}
use inoxset.Types.{from_u8}
use inoxset.Error.{InoxSetError, Result, ok, err, panic, ◌>>=◌}
use inoxset.Codec.{
  index, or_panic, slice, index_u16, ok_or_corrupted, rollup_from_u8, deserialize_event_config,
  deserialize_period, hour_at, day_at, month_at, year_at,
}
use inoxset.Codec.Utf8.{is_utf8}
use inoxset.Codec.Part.{kind_from_u8, read_u64, read_u8, read_text, read_tail, deserialize_part}

-- The computation does not panic.
pub record IsSafe {ℓ} {A : Type ℓ} (r : Result A) : Type ℓ where
  pub returns : r ≢ panic

module _ {ℓ} {A : Type ℓ} where
  ok-IsSafe : (a : A) → IsSafe (ok a)
  ok-IsSafe a = record { returns = λ e. cc }

  err-IsSafe : (e : InoxSetError) → let r : Result A = err e in IsSafe r
  err-IsSafe e = record { returns = λ e. cc }

  if-IsSafe :
      (b : Bool) (m n : Result A)
      → (b ≡ true → IsSafe m)
      → (b ≡ false → IsSafe n)
      → IsSafe (if b then m else n)
  if-IsSafe true m n s t = s refl
  if-IsSafe false m n s t = t refl

  or-IsSafe : (o : Option A) → IsSafe (ok_or_corrupted o)
  or-IsSafe none = record { returns = λ e. cc }
  or-IsSafe (some a) = ok-IsSafe a

module _ {ℓ κ} {A : Type ℓ} {B : Type κ} where
  bind-IsSafe :
      (m : Result A) (f : A → Result B) → IsSafe m → ((a : A) → IsSafe (f a)) → IsSafe (m >>= f)
  bind-IsSafe (ok a) f s t = t a
  bind-IsSafe (err e) f s t = record { returns = λ e. cc }
  bind-IsSafe panic f s t = absurd (s.returns refl)

get-lt : (bytes : Bytes) (i : ℕ) → i < length bytes → IsSafe (or_panic (get_elem? bytes i))
get-lt [] i h = absurd (omega arith)
get-lt (b ∷ bytes) zero h = ok-IsSafe b
get-lt (b ∷ bytes) (suc i) h = get-lt bytes i (omega arith)

index-IsSafe : (bytes : Bytes) (i : ℕ) → i < length bytes → IsSafe (index bytes i)
unfolding index
index-IsSafe bytes i h = get-lt bytes i h

slice-IsSafe : (bytes : Bytes) (a b : ℕ) → a ≤ b → b ≤ length bytes → IsSafe (slice bytes a b)
unfolding slice
slice-IsSafe bytes a b h k =
    rw (ltb-false b a h, ltb-false (length bytes) b k) (ok-IsSafe (take (b - a) (drop a bytes)))

index_u16-IsSafe : (bytes : Bytes) (i : ℕ) → i + 1 < length bytes → IsSafe (index_u16 bytes i)
unfolding index_u16
index_u16-IsSafe bytes i h =
    bind-IsSafe (index bytes i) _ (index-IsSafe bytes i (omega arith))
      λ a. bind-IsSafe (index bytes (i + 1)) _ (index-IsSafe bytes (i + 1) h) λ b. ok-IsSafe _

ltb-false→le : (a b : ℕ) → ltb a b ≡ false → b ≤ a
ltb-false→le a b h = ground arith

leb-false→lt : (a b : ℕ) → leb a b ≡ false → b < a
leb-false→lt a b h = ground arith

module _ (bytes : Bytes) (offset : ℕ) where
  hour-IsSafe : IsSafe (hour_at bytes offset)
  unfolding hour_at
  hour-IsSafe =
      if-IsSafe _ _ _ (λ _. err-IsSafe _)
        λ t.
          let len = ltb-false→le (length bytes) (offset + 1 + 5) t in
          bind-IsSafe _ _ (index_u16-IsSafe bytes (offset + 1) (omega arith)) λ y.
            bind-IsSafe _ _ (index-IsSafe bytes (offset + 3) (omega arith)) λ m.
              bind-IsSafe _ _ (index-IsSafe bytes (offset + 4) (omega arith)) λ d.
                bind-IsSafe _ _ (index-IsSafe bytes (offset + 5) (omega arith)) λ h. ok-IsSafe _

  day-IsSafe : IsSafe (day_at bytes offset)
  unfolding day_at
  day-IsSafe =
      if-IsSafe _ _ _ (λ _. err-IsSafe _)
        λ t.
          let len = ltb-false→le (length bytes) (offset + 1 + 4) t in
          bind-IsSafe _ _ (index_u16-IsSafe bytes (offset + 1) (omega arith)) λ y.
            bind-IsSafe _ _ (index-IsSafe bytes (offset + 3) (omega arith))
              λ m. bind-IsSafe _ _ (index-IsSafe bytes (offset + 4) (omega arith)) λ d. ok-IsSafe _

  month-IsSafe : IsSafe (month_at bytes offset)
  unfolding month_at
  month-IsSafe =
      if-IsSafe _ _ _ (λ _. err-IsSafe _)
        λ t.
          let len = ltb-false→le (length bytes) (offset + 1 + 3) t in
          bind-IsSafe _ _ (index_u16-IsSafe bytes (offset + 1) (omega arith))
            λ y. bind-IsSafe _ _ (index-IsSafe bytes (offset + 3) (omega arith)) λ m. ok-IsSafe _

  year-IsSafe : IsSafe (year_at bytes offset)
  unfolding year_at
  year-IsSafe =
      if-IsSafe _ _ _ (λ _. err-IsSafe _)
        λ t.
          let len = ltb-false→le (length bytes) (offset + 1 + 2) t in
          bind-IsSafe _ _ (index_u16-IsSafe bytes (offset + 1) (omega arith)) λ y. ok-IsSafe _

  period-IsSafe : IsSafe (deserialize_period bytes offset)
  unfolding deserialize_period
  period-IsSafe =
      if-IsSafe _ _ _ (λ _. err-IsSafe _)
        λ t.
          let len = leb-false→lt (length bytes) offset t in
          bind-IsSafe _ _ (index-IsSafe bytes offset len) λ tag.
            if-IsSafe (tag == 0) _ _ (λ _. ok-IsSafe _)
              λ _.
                if-IsSafe (tag == 1) _ _ (λ _. hour-IsSafe)
                  λ _.
                    if-IsSafe (tag == 2) _ _ (λ _. day-IsSafe)
                      λ _.
                        if-IsSafe (tag == 3) _ _ (λ _. month-IsSafe)
                          λ _. if-IsSafe (tag == 4) _ _ (λ _. year-IsSafe) λ _. err-IsSafe _

  u64-IsSafe : IsSafe (read_u64 bytes offset)
  unfolding read_u64
  u64-IsSafe =
      if-IsSafe _ _ _ (λ _. err-IsSafe _)
        λ t.
          bind-IsSafe _ _
            (slice-IsSafe bytes offset (offset + 8) (omega arith)
              (ltb-false→le (length bytes) (offset + 8) t))
            λ w. ok-IsSafe _

  u8-IsSafe : IsSafe (read_u8 bytes offset)
  unfolding read_u8
  u8-IsSafe =
      if-IsSafe _ _ _ (λ _. err-IsSafe _)
        λ t.
          let len = ltb-false→le (length bytes) (offset + 1) t in
          index-IsSafe bytes offset (omega arith)

  text-IsSafe : IsSafe (read_text bytes offset)
  unfolding read_text
  text-IsSafe =
      if-IsSafe _ _ _ (λ _. err-IsSafe _)
        λ t.
          let room = ltb-false→le (length bytes) (offset + 2) t in
          bind-IsSafe _ _ (index_u16-IsSafe bytes offset (omega arith)) λ len.
            if-IsSafe _ _ _ (λ _. err-IsSafe _)
              λ u.
                bind-IsSafe _ _
                  (slice-IsSafe bytes (offset + 2) (offset + 2 + len) (omega arith)
                    (ltb-false→le (length bytes) (offset + 2 + len) u))
                  λ s. if-IsSafe (not (is_utf8 s)) _ _ (λ _. err-IsSafe _) λ _. ok-IsSafe _

tail-IsSafe : (bytes : Bytes) (pos : ℕ) → IsSafe (read_tail bytes pos)
unfolding read_tail
tail-IsSafe bytes pos = bind-IsSafe _ _ (period-IsSafe bytes pos) λ (p, n).
    bind-IsSafe _ _ (text-IsSafe bytes (pos + n))
      λ (e, a). bind-IsSafe _ _ (text-IsSafe bytes a) λ (f, b). ok-IsSafe _

kind-IsSafe : (v : ℕ) → IsSafe (kind_from_u8 v)
unfolding kind_from_u8
kind-IsSafe v = record { returns = λ e. ground arith }

rollup-IsSafe : (v : ℕ) → IsSafe (rollup_from_u8 v)
unfolding rollup_from_u8
rollup-IsSafe v = record { returns = λ e. ground arith }

part-IsSafe : (bytes : Bytes) → IsSafe (deserialize_part bytes)
unfolding deserialize_part
part-IsSafe bytes =
    if-IsSafe _ _ _ (λ _. err-IsSafe _)
      λ t.
        let len = ltb-false→le (length bytes) 40 t in
        bind-IsSafe _ _ (index-IsSafe bytes 0 (omega arith)) λ version.
          if-IsSafe (not (version == 1)) _ _ (λ _. err-IsSafe _)
            λ _. bind-IsSafe _ _ (u64-IsSafe bytes 1) λ part_id.
              bind-IsSafe _ _ (u8-IsSafe bytes 9) λ k. bind-IsSafe _ _ (kind-IsSafe k) λ kind.
                bind-IsSafe _ _ (u64-IsSafe bytes 10) λ size_bytes.
                  bind-IsSafe _ _ (u64-IsSafe bytes 18) λ cardinality.
                    bind-IsSafe _ _ (u64-IsSafe bytes 26) λ created_at.
                      bind-IsSafe _ _ (u8-IsSafe bytes 34)
                        λ level. bind-IsSafe _ _ (tail-IsSafe bytes 35) λ (p, e, f). ok-IsSafe _

config-IsSafe : (name bytes : Bytes) → IsSafe (deserialize_event_config name bytes)
unfolding deserialize_event_config
config-IsSafe name bytes =
    if-IsSafe _ _ _ (λ _. err-IsSafe _)
      λ t.
        let len = ltb-false→le (length bytes) 3 t in
        bind-IsSafe _ _ (index-IsSafe bytes 0 (omega arith)) λ version.
          if-IsSafe (not (version == 1)) _ _ (λ _. err-IsSafe _)
            λ _. bind-IsSafe _ _ (index-IsSafe bytes 1 (omega arith)) λ g.
              bind-IsSafe _ _ (or-IsSafe (from_u8 g)) λ gran.
                bind-IsSafe _ _ (index-IsSafe bytes 2 (omega arith))
                  λ r. bind-IsSafe _ _ (rollup-IsSafe r) λ rollup. ok-IsSafe _

-- On any bytes, at any offset, the decoders of event configurations, periods and parts return a value
-- or an error: no index or slice is out of range.
pub decoders-safe :
    (name bytes : Bytes) (offset : ℕ)
    → (deserialize_event_config name bytes ≢ panic)
      × (deserialize_period bytes offset ≢ panic)
      × (deserialize_part bytes ≢ panic)
decoders-safe name bytes offset = (
  (config-IsSafe name bytes).returns,
  (period-IsSafe bytes offset).returns,
  (part-IsSafe bytes).returns,
)
