-- ===== src/PartStore/Search/Sorted.antt =====
-- The binary search of src/part_store.rs on sorted entries.
use inoxset.Prelude.{
  ℕ, zero, suc, ◌+◌, ◌-◌, ◌/◌, ◌≤◌, ◌<◌, Bool, true, false, Option, none, some, ◌⊎◌, inl, inr, ◌≡◌,
  ◌≢◌, refl, ap, ◌==◌, ==_iff, ltb, ltb→lt, Bool-cases, arith,
}
use inoxset.Error.{Result, ok, ◌>>=◌}
use inoxset.PartStore.Search.{Probe, probe_of, next_lo, next_hi, stop_or, search}

module _ (value : ℕ) (entry : ℕ → ℕ) (probe : ℕ → Result Probe) (top : ℕ)
    (reads : (i : ℕ) → i < top → probe i ≡ ok (probe_of (entry i) value))
    (sorted : (i j : ℕ) → i < j → j < top → entry i < entry j) where
  -- The search found an index with the value, or there is none between `lo` and `hi`.
  abbrev pub Decides : ℕ → ℕ → Result (Option ℕ) → Type 0
  Decides lo hi r =
      ((i : ℕ) × (lo ≤ i) × (i < hi) × (entry i ≡ value) × (r ≡ ok (some i)))
      ⊎ ((r ≡ ok none) × ((i : ℕ) → lo ≤ i → i < hi → entry i ≢ value))

  widen :
      (lo hi lo' hi' : ℕ) (r : Result (Option ℕ))
      → lo ≤ lo'
      → hi' ≤ hi
      → ((i : ℕ) → lo ≤ i → i < hi → entry i ≡ value → (lo' ≤ i) × (i < hi'))
      → Decides lo' hi' r
      → Decides lo hi r
  widen lo hi lo' hi' r a b inside (inl (i, c, d, e, f)) = inl (i, omega arith, omega arith, e, f)
  widen lo hi lo' hi' r a b inside (inr (e, missing)) =
      inr (e, λ i c d same. let (p, q) = inside i c d same in missing i p q same)

  same_entry : (i j : ℕ) → i ≡ j → entry i ≡ entry j
  same_entry i j e = ap entry e

  above_mid : (i mid : ℕ) → mid < top → entry i ≡ value → ltb (entry mid) value ≡ true → mid + 1 ≤ i
  above_mid i mid t same f = ground (arith, sorted i mid, same_entry i mid, same, f)

  below_mid :
      (i mid : ℕ)
      → i < top
      → entry i ≡ value
      → (entry mid == value) ≡ false
      → ltb (entry mid) value ≡ false
      → i < mid
  below_mid i mid t same e f =
      ground (arith, sorted mid i, same_entry i mid, ==_iff (entry mid) value, same, e, f)

  round :
      (n lo hi mid : ℕ)
      → lo ≤ mid
      → mid < hi
      → hi ≤ top
      → Decides (mid + 1) hi (search n probe (mid + 1) hi)
      → Decides lo mid (search n probe lo mid)
      → Decides lo hi
          (probe mid >>= λ p. stop_or p mid (search n probe (next_lo p lo mid) (next_hi p hi mid)))
  round n lo hi mid a b t above below =
      rw (reads mid (omega arith)) (pick (entry mid == value) refl)
    where
      pick :
          (c : Bool)
          → (entry mid == value) ≡ c
          → Decides lo hi (
              stop_or (probe_of (entry mid) value) mid (
                search n probe
                  (next_lo (probe_of (entry mid) value) lo mid)
                  (next_hi (probe_of (entry mid) value) hi mid)))
      pick true e =
          inl (mid, a, b, (==_iff (entry mid) value).0 e, unfold probe_of stop_or in rw e refl)
      pick false e = elim (Bool-cases (ltb (entry mid) value)) [
        | inl f ↦
            unfold probe_of stop_or next_lo next_hi in
            rw (e, f)
              (widen lo hi (mid + 1) hi (search n probe (mid + 1) hi) (omega arith) (omega arith)
                (λ i c d same. (above_mid i mid (omega arith) same f, d)) above)
        | inr f ↦
            unfold probe_of stop_or next_lo next_hi in
            rw (e, f)
              (widen lo hi lo mid (search n probe lo mid) (omega arith) (omega arith)
                (λ i c d same. (c, below_mid i mid (omega arith) same e f)) below)
      ]

  not_below : (lo hi : ℕ) → ltb lo hi ≡ false → hi ≤ lo
  not_below lo hi e = ground arith

  -- With as many rounds as there are indices the search does not run out of them: on sorted entries
  -- it returns an index that has the value, or nothing when no index between the bounds has it.
  pub search-Decides : (n lo hi : ℕ) → hi ≤ top → hi - lo ≤ n → Decides lo hi (search n probe lo hi)
  unfolding search
  search-Decides zero lo hi t h = inr (refl, λ i a b same. absurd (omega arith))
  search-Decides (suc n) lo hi t h = elim (Bool-cases (ltb lo hi)) [
    | inl e ↦ rw e (
        round n lo hi (lo + (hi - lo) / 2) (omega arith) (omega (arith, ltb→lt lo hi e)) t
          (search-Decides n (lo + (hi - lo) / 2 + 1) hi t (omega (arith, ltb→lt lo hi e)))
          (search-Decides n lo (lo + (hi - lo) / 2) (omega (arith, ltb→lt lo hi e))
            (omega (arith, ltb→lt lo hi e))))
    | inr e ↦ rw e (inr (refl, λ i a b same. absurd (omega (arith, not_below lo hi e))))
  ]
