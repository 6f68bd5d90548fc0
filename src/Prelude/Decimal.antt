-- ===== src/Prelude/Decimal.antt =====
-- `format!("{n:0w}")` and `str::parse` of an unsigned integer.
use Prim.Native.Nat.{ℕ, zero, suc, ◌+◌, ◌-◌, ◌*◌, ◌/◌, ◌%◌, ◌<◌, ◌≤◌}
use mathlib.Core.Path.{◌≡◌, refl, ap, ◌∙◌}
use mathlib.Core.Logic.{inl, inr}
use mathlib.Core.Option.{Option, none, some}
use mathlib.Core.List.{List, [], ◌∷◌, ◌++◌}
use native.Mathlib.Omega.{arith}
use inoxset.Prelude.Tests.{Bool-cases, ltb→lt, ltb, within, ◌==◌, if◌then◌else◌}
use inoxset.Prelude.Lists.{length, replicate}

-- The decimal digits of `n`, at most `fuel` of them: 20 are enough for a `u64`.
unfoldable pub decimal : ℕ → ℕ → List ℕ
decimal zero n = []
decimal (suc fuel) n =
    let front = decimal fuel (n / 10) in
    if ltb n 10 then (48 + n) ∷ [] else front ++ (48 + n % 10) ∷ []

-- `{n:0w}`: at least `w` characters, padded by zeros on the left.
unfoldable pub padded : ℕ → ℕ → List ℕ
unfolding decimal
padded w n = let s = decimal 20 n in replicate (w - length s) 48 ++ s

unfoldable pub parse_digits : ℕ → ℕ → List ℕ → Option ℕ
parse_digits max acc [] = some acc
parse_digits max acc (b ∷ bs) =
    let acc' = acc * 10 + (b - 48) in
    let rest = parse_digits max acc' bs in
    if within 48 57 b then (if ltb max acc' then none else rest) else none

-- `s.parse::<uN>().ok()` with `max` the largest value: one leading `+` is accepted.
unfoldable pub parse_uint : ℕ → List ℕ → Option ℕ
unfolding parse_digits
parse_uint max [] = none
parse_uint max (b ∷ []) = parse_digits max 0 (b ∷ [])
parse_uint max (b ∷ c ∷ bs) =
    if b == 43 then parse_digits max 0 (c ∷ bs) else parse_digits max 0 (b ∷ c ∷ bs)

-- The digit of `n` at `10 ^ k`, for the few `k` in use.
abbrev pub digit : ℕ → ℕ
digit n = 48 + n % 10

module _ (f n : ℕ) where
  dec1 : n < 10 → decimal (suc f) n ≡ digit n ∷ []
  unfolding decimal
  dec1 h = ground arith

  dec_step : 10 ≤ n → decimal (suc f) n ≡ decimal f (n / 10) ++ digit n ∷ []
  unfolding decimal
  dec_step h = ground arith

module _ (n : ℕ) where
  dec2 : 10 ≤ n → n < 100 → decimal 20 n ≡ digit (n / 10) ∷ digit n ∷ []
  dec2 h k = dec_step 19 n h ∙ ap (λ t. t ++ digit n ∷ []) (dec1 18 (n / 10) (omega arith))

  dec3 : 100 ≤ n → n < 1000 → decimal 20 n ≡ digit (n / 10 / 10) ∷ digit (n / 10) ∷ digit n ∷ []
  dec3 h k =
      dec_step 19 n (omega arith)
      ∙ ap (λ t. t ++ digit n ∷ [])
          (dec_step 18 (n / 10) (omega arith)
            ∙ ap (λ t. t ++ digit (n / 10) ∷ []) (dec1 17 (n / 10 / 10) (omega arith)))

  dec4 :
      1000 ≤ n
      → n < 10000
      → decimal 20 n
        ≡ digit (n / 10 / 10 / 10) ∷ digit (n / 10 / 10) ∷ digit (n / 10) ∷ digit n ∷ []
  dec4 h k =
      dec_step 19 n (omega arith)
      ∙ ap (λ t. t ++ digit n ∷ [])
          (dec_step 18 (n / 10) (omega arith)
            ∙ ap (λ t. t ++ digit (n / 10) ∷ [])
                (dec_step 17 (n / 10 / 10) (omega arith)
                  ∙ ap (λ t. t ++ digit (n / 10 / 10) ∷ [])
                      (dec1 16 (n / 10 / 10 / 10) (omega arith))))

  -- Two digits, and four, with the padding.
  pub padded2 : n < 100 → padded 2 n ≡ digit (n / 10) ∷ digit n ∷ []
  unfolding padded
  padded2 k = elim (Bool-cases (ltb n 10)) [
    | inl t ↦ rw (dec1 19 n (ltb→lt n 10 t)) (ground arith)
    | inr t ↦ rw (dec2 (ground arith) k) refl
  ]

  pub padded4 :
      n < 10000
      → padded 4 n ≡ digit (n / 10 / 10 / 10) ∷ digit (n / 10 / 10) ∷ digit (n / 10) ∷ digit n ∷ []
  unfolding padded
  padded4 k = elim (Bool-cases (ltb n 10)) [
    | inl t ↦ rw (dec1 19 n (ltb→lt n 10 t)) (ground arith)
    | inr t ↦ elim (Bool-cases (ltb n 100)) [
      | inl u ↦ rw (dec2 (ground arith) (ltb→lt n 100 u)) (ground arith)
      | inr u ↦ elim (Bool-cases (ltb n 1000)) [
        | inl v ↦ rw (dec3 (ground arith) (ltb→lt n 1000 v)) (ground arith)
        | inr v ↦ rw (dec4 (ground arith) k) refl
      ]
    ]
  ]

  -- A number of five digits is not cut to four.
  pub padded4_long :
      10000 ≤ n
      → n < 100000
      → padded 4 n
        ≡ digit (n / 10 / 10 / 10 / 10)
          ∷ digit (n / 10 / 10 / 10)
          ∷ digit (n / 10 / 10)
          ∷ digit (n / 10)
          ∷ digit n
          ∷ []
  unfolding padded
  padded4_long h k =
      rw
        (dec_step 19 n (omega arith)
          ∙ ap (λ t. t ++ digit n ∷ [])
              (dec_step 18 (n / 10) (omega arith)
                ∙ ap (λ t. t ++ digit (n / 10) ∷ [])
                    (dec_step 17 (n / 10 / 10) (omega arith)
                      ∙ ap (λ t. t ++ digit (n / 10 / 10) ∷ [])
                          (dec_step 16 (n / 10 / 10 / 10) (omega arith)
                            ∙ ap (λ t. t ++ digit (n / 10 / 10 / 10) ∷ [])
                                (dec1 15 (n / 10 / 10 / 10 / 10) (omega arith))))))
        refl

-- `parse` reads back what `format!` wrote.
module _ (max n : ℕ) where
  pub parse-padded2 : n < 100 → n ≤ max → parse_uint max (padded 2 n) ≡ some n
  unfolding parse_uint
  parse-padded2 h k = rw (padded2 n h) (ground arith)

  pub parse-padded4 : n < 10000 → n ≤ max → parse_uint max (padded 4 n) ≡ some n
  unfolding parse_uint
  parse-padded4 h k = rw (padded4 n h) (ground arith)
