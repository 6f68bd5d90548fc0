-- ===== src/PartStore/Digits.antt =====
-- The decimal text of an id and its parser.
use inoxset.Prelude.{
  ℕ, zero, suc, ◌+◌, ◌-◌, ◌*◌, ◌/◌, ◌%◌, ◌^◌, ◌≤◌, ◌<◌, ◌≡◌, refl, ap, sym, subst, within_intro,
  ltb-false, ◌∙◌, Bytes, some, [], ◌∷◌, ◌++◌, append_assoc, append-nil, length, length-append,
  replicate, ltb, ltb→lt, Bool-cases, inl, inr, arith,
}
use inoxset.Prelude.Decimal.{decimal, padded, parse_digits, parse_uint}

-- Every byte is a digit.
abbrev pub AllDigits : Bytes → Type 0
AllDigits [] = Unit
AllDigits (b ∷ s) = ((48 ≤ b) × (b ≤ 57)) × AllDigits s

append-AllDigits : (s t : Bytes) → AllDigits s → AllDigits t → AllDigits (s ++ t)
append-AllDigits [] t h k = k
append-AllDigits (b ∷ s) t (h, r) k = (h, append-AllDigits s t r k)

replicate-AllDigits : (n : ℕ) → AllDigits (replicate n 48)
replicate-AllDigits zero = tt
replicate-AllDigits (suc n) = ((omega arith, omega arith), replicate-AllDigits n)

decimal_small : (f n : ℕ) → n < 10 → decimal (suc f) n ≡ (48 + n) ∷ []
unfolding decimal
decimal_small f n h = ground arith

decimal_large : (f n : ℕ) → 10 ≤ n → decimal (suc f) n ≡ decimal f (n / 10) ++ (48 + n % 10) ∷ []
unfolding decimal
decimal_large f n h = ground arith

decimal-AllDigits : (f n : ℕ) → AllDigits (decimal f n)
decimal-AllDigits zero n = unfold decimal in tt
decimal-AllDigits (suc f) n = elim (Bool-cases (ltb n 10)) [
  | inl t ↦
      subst AllDigits (sym (decimal_small f n (ltb→lt n 10 t)))
        ((omega arith, omega (arith, ltb→lt n 10 t)), tt)
  | inr t ↦ subst AllDigits (sym (decimal_large f n (ground arith))) (
      append-AllDigits (decimal f (n / 10)) ((48 + n % 10) ∷ []) (decimal-AllDigits f (n / 10))
        ((omega arith, omega arith), tt))
]

pub padded-AllDigits : (w n : ℕ) → AllDigits (padded w n)
unfolding padded
padded-AllDigits w n =
    append-AllDigits (replicate (w - length (decimal 20 n)) 48) (decimal 20 n)
      (replicate-AllDigits (w - length (decimal 20 n))) (decimal-AllDigits 20 n)

-- One more digit.
parse_step :
    (max n d : ℕ) (rest : Bytes)
    → d < 10
    → n * 10 + d ≤ max
    → parse_digits max n ((48 + d) ∷ rest) ≡ parse_digits max (n * 10 + d) rest
unfolding parse_digits
parse_step max n d rest h k =
    rw
      (within_intro 48 57 (48 + d) (omega arith) (omega arith), minus, ltb-false max (n * 10 + d) k)
      refl
  where
    minus : 48 + d - 48 ≡ d
    minus = omega arith

parse_first :
    (max d : ℕ) (rest : Bytes)
    → d < 10
    → d ≤ max
    → parse_digits max 0 ((48 + d) ∷ rest) ≡ parse_digits max d rest
parse_first max d rest h k =
    parse_step max 0 d rest h (omega arith) ∙ ap (λ m. parse_digits max m rest) (omega arith)

-- `n` has at most `suc f` digits.
abbrev pub Short : ℕ → ℕ → Type 0
Short zero n = n < 10
Short (suc f) n = Short f (n / 10)

parse_digits-decimal :
    (max f n : ℕ) (rest : Bytes)
    → Short f n
    → n ≤ max
    → parse_digits max 0 (decimal (suc f) n ++ rest) ≡ parse_digits max n rest
parse_digits-decimal max zero n rest h k = rw (decimal_small 0 n h) (parse_first max n rest h k)
parse_digits-decimal max (suc f) n rest h k = elim (Bool-cases (ltb n 10)) [
  | inl t ↦ rw (decimal_small (suc f) n (ltb→lt n 10 t)) (parse_first max n rest (ltb→lt n 10 t) k)
  | inr t ↦
      rw
        (
          decimal_large (suc f) n (ground arith),
          append_assoc (decimal (suc f) (n / 10)) ((48 + n % 10) ∷ []) rest,
          parse_digits-decimal max f (n / 10) ((48 + n % 10) ∷ rest) h (omega arith),
        )
        (parse_step max (n / 10) (n % 10) rest (omega arith) (omega arith)
          ∙ ap (λ m. parse_digits max m rest) (omega arith))
]

parse_digits-zeros :
    (max z : ℕ) (s : Bytes) → parse_digits max 0 (replicate z 48 ++ s) ≡ parse_digits max 0 s
parse_digits-zeros max zero s = refl
parse_digits-zeros max (suc z) s =
    parse_step max 0 0 (replicate z 48 ++ s) (omega arith) (omega arith)
    ∙ parse_digits-zeros max z s

parse_uint-digits :
    (max : ℕ) (s : Bytes) → AllDigits s → 0 < length s → parse_uint max s ≡ parse_digits max 0 s
unfolding parse_uint
parse_uint-digits max [] h k = absurd (omega arith)
parse_uint-digits max (b ∷ []) h k = refl
parse_uint-digits max (b ∷ c ∷ s) h k = ground arith

length-replicate : (n : ℕ) → length (replicate {A = ℕ} n 48) ≡ n
length-replicate zero = refl
length-replicate (suc n) = ap suc (length-replicate n)

length-padded : (w n : ℕ) → w ≤ length (padded w n)
unfolding padded
length-padded w n = omega (
  arith,
  length-append (replicate (w - length (decimal 20 n)) 48) (decimal 20 n),
  length-replicate (w - length (decimal 20 n)),
)

parse_digits-padded :
    (max w n : ℕ) → Short 19 n → n ≤ max → parse_digits max 0 (padded w n) ≡ parse_digits max n []
unfolding padded
parse_digits-padded max w n h k =
    parse_digits-zeros max (w - length (decimal 20 n)) (decimal 20 n)
    ∙ ap (λ s. parse_digits max 0 s) (sym (append-nil (decimal 20 n)))
    ∙ parse_digits-decimal max 19 n [] h k

-- A number of at most 20 digits is read back from its padded text.
pub parse_uint-padded :
    (max w n : ℕ) → 0 < w → Short 19 n → n ≤ max → parse_uint max (padded w n) ≡ some n
parse_uint-padded max w n pos h k =
    parse_uint-digits max (padded w n) (padded-AllDigits w n) (omega (arith, length-padded w n))
    ∙ parse_digits-padded max w n h k
    ∙ (unfold parse_digits in refl)

pub Short-u64 : (n : ℕ) → n < 2 ^ 64 → Short 19 n
Short-u64 n h = omega arith
