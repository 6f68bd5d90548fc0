-- ===== src/PartStore/Search.antt =====
-- `serialized_contains` of src/part_store.rs: the search for a value in a serialized bitmap. The
-- branch without an offset header is never taken, since a bitmap without containers is left before
-- it. The sum of two `u16` is checked.
pub mod Sorted
pub mod Array
use inoxset.Prelude.{
  ℕ, zero, suc, ◌+◌, ◌*◌, ◌-◌, ◌/◌, ◌%◌, ◌^◌, Bytes, Bool, true, false, ◌&&◌, Option, none, some,
  [], ◌∷◌, length, get_elem?, from_le, ◌==◌, ltb, leb, if◌then◌else◌,
}
use inoxset.Error.{Result, ok, panic, ◌>>=◌}
use inoxset.Codec.{index, index_u16}

-- Where to go on: `Ordering::Equal`, `Less` and `Greater` of the entry against the value.
pub data Probe : Type 0 where
  here right left : Probe

unfoldable pub probe_of : ℕ → ℕ → Probe
probe_of entry value =
    if entry == value then Probe.here else if ltb entry value then Probe.right else Probe.left

next_lo : Probe → ℕ → ℕ → ℕ
next_lo Probe.here lo mid = lo
next_lo Probe.right lo mid = mid + 1
next_lo Probe.left lo mid = lo

next_hi : Probe → ℕ → ℕ → ℕ
next_hi Probe.here hi mid = hi
next_hi Probe.right hi mid = hi
next_hi Probe.left hi mid = mid

stop_or : Probe → ℕ → Result (Option ℕ) → Result (Option ℕ)
stop_or Probe.here mid rest = ok (some mid)
stop_or Probe.right mid rest = rest
stop_or Probe.left mid rest = rest

-- The loop `while lo_idx < hi_idx`, which the three binary searches share. `hi - lo` rounds are
-- enough, as each takes at least one index away.
unfoldable pub search : ℕ → (ℕ → Result Probe) → ℕ → ℕ → Result (Option ℕ)
unfolding next_lo next_hi stop_or
search zero probe lo hi = ok none
search (suc n) probe lo hi =
    let mid = lo + (hi - lo) / 2 in
    if ltb lo hi
    then (probe mid >>= λ p. stop_or p mid (search n probe (next_lo p lo mid) (next_hi p hi mid)))
    else ok none

unfoldable pub key_probe : Bytes → ℕ → ℕ → ℕ → Result Probe
unfolding probe_of
key_probe data_ desc_start hi mid = do
  key ← index_u16 data_ (desc_start + mid * 4)
  ok (probe_of key hi)

unfoldable pub array_probe : Bytes → ℕ → ℕ → ℕ → Result Probe
unfolding probe_of
array_probe data_ arr_start lo mid = do
  val ← index_u16 data_ (arr_start + mid * 2)
  ok (probe_of val lo)

-- A run holds the values from `start` to `start + length`.
unfoldable pub run_probe : Bytes → ℕ → ℕ → ℕ → Result Probe
run_probe data_ runs_start lo mid = do
  start ← index_u16 data_ (runs_start + mid * 4)
  len ← index_u16 data_ (runs_start + mid * 4 + 2)
  if ltb lo start
      then ok Probe.left
      else if leb (2 ^ 16) (start + len)
      then panic
      else if ltb (start + len) lo
      then ok Probe.right
      else ok Probe.here

unfoldable pub index_u32 : Bytes → ℕ → Result ℕ
index_u32 data_ i = do a ← index_u16 data_ i; b ← index_u16 data_ (i + 2); ok (a + b * 65536)

unfoldable pub is_here : Option ℕ → Bool
is_here none = false
is_here (some i) = true

-- `b & (1 << bit_idx) != 0`
bit_of : ℕ → ℕ → Bool
bit_of b bit_idx = b / 2 ^ bit_idx % 2 == 1

some_bit : Option ℕ → ℕ → Bool
unfolding bit_of
some_bit none bit_idx = false
some_bit (some b) bit_idx = bit_of b bit_idx

-- `(nb_containers, has_runs, header_start)`, or nothing where the header is not one.
unfoldable pub header : Bytes → Result (Option (ℕ × Bool × ℕ))
unfolding index_u32
header data_ = if ltb (length data_) 4 then ok none else do
  cookie ← index_u32 data_ 0
  if cookie == 12346
      then (if ltb (length data_) 8
          then ok none
          else do n ← index_u32 data_ 4; ok (some (n, false, 8)))
      else if cookie % 65536 == 12347
      then ok (some (cookie / 65536 + 1, true, 4))
      else ok none

unfoldable pub in_runs : Bytes → ℕ → ℕ → Result Bool
unfolding search run_probe is_here
in_runs data_ offset lo = if ltb (length data_) (offset + 2) then ok false else do
  n_runs ← index_u16 data_ offset
  if ltb (length data_) (offset + 2 + n_runs * 4)
      then ok false
      else do found ← search n_runs (run_probe data_ (offset + 2) lo) 0 n_runs; ok (is_here found)

unfoldable pub in_array : Bytes → ℕ → ℕ → ℕ → Result Bool
unfolding search array_probe is_here
in_array data_ arr_start cardinality lo =
    if ltb (length data_) (arr_start + cardinality * 2) then ok false else do
      found ← search cardinality (array_probe data_ arr_start lo) 0 cardinality
      ok (is_here found)

unfoldable pub in_bitmap : Bytes → ℕ → ℕ → Result Bool
unfolding bit_of
in_bitmap data_ bm_start lo =
    if ltb (length data_) (bm_start + 8192)
    then ok false
    else do b ← index data_ (bm_start + lo / 8); ok (bit_of b (lo % 8))

-- The container that was found.
unfoldable pub in_container : Bytes → ℕ → Bool → ℕ → ℕ → ℕ → ℕ → Result Bool
unfolding in_runs in_array in_bitmap some_bit
in_container data_ nb_containers has_runs header_start desc_start container_idx lo = do
  card_minus_1 ← index_u16 data_ (desc_start + container_idx * 4 + 2)
  let offset_off = desc_start + nb_containers * 4 + container_idx * 4
  if ltb (length data_) (offset_off + 4) then ok false else do
    offset ← index_u32 data_ offset_off
    if has_runs && some_bit (get_elem? data_ (header_start + container_idx / 8)) (container_idx % 8)
        then in_runs data_ offset lo
        else if leb (card_minus_1 + 1) 4096
        then in_array data_ offset (card_minus_1 + 1) lo
        else in_bitmap data_ offset lo

in_found : Bytes → ℕ → Bool → ℕ → ℕ → ℕ → Option ℕ → Result Bool
unfolding in_container
in_found data_ nb_containers has_runs header_start desc_start lo none = ok false
in_found data_ nb_containers has_runs header_start desc_start lo (some container_idx) =
    in_container data_ nb_containers has_runs header_start desc_start container_idx lo

run_bitmap_bytes : ℕ → Bool → ℕ
run_bitmap_bytes nb_containers false = 0
run_bitmap_bytes nb_containers true = (nb_containers + 7) / 8

in_header : Bytes → ℕ → Option (ℕ × Bool × ℕ) → Result Bool
unfolding in_found run_bitmap_bytes search key_probe
in_header data_ value none = ok false
in_header data_ value (some (nb_containers, has_runs, header_start)) =
    let desc_start = header_start + run_bitmap_bytes nb_containers has_runs in
    if nb_containers == 0
    then ok false
    else if ltb (length data_) (desc_start + nb_containers * 4)
    then ok false
    else do
      found ← search nb_containers (key_probe data_ desc_start (value / 65536)) 0 nb_containers
      in_found data_ nb_containers has_runs header_start desc_start (value % 65536) found

unfoldable pub serialized_contains : Bytes → ℕ → Result Bool
unfolding header in_header
serialized_contains data_ value = do found ← header data_; in_header data_ value found
