-- ===== src/Types/Order.antt =====
-- The derived equality and order of periods.
use inoxset.Prelude.{ℕ, ◌≡◌, ◌↔◌, ◌⊎◌, inl, inr, refl, ap, true, false, List, [], ◌∷◌, arith}
use inoxset.Prelude.Eq.{Eq, text_beq_iff}
use inoxset.Types.{Period, components, period_beq, lex_ltb, period_ltb}

components_inj : (p q : Period) → components p ≡ components q → p ≡ q
unfolding components
components_inj Period.static Period.static h = refl
components_inj (Period.hour a b c d) (Period.hour e f g i) h = cc
components_inj (Period.day a b c) (Period.day e f g) h = cc
components_inj (Period.month a b) (Period.month e f) h = cc
components_inj (Period.year a) (Period.year e) h = cc
components_inj _ _ h = ground arith

pub period_beq_iff : (p q : Period) → (period_beq p q ≡ true) ↔ (p ≡ q)
unfolding period_beq
period_beq_iff p q =
    let e = text_beq_iff (components p) (components q) in
    (λ h. components_inj p q (e.0 h), λ h. e.1 (ap components h))

instance abbrev pub period_eq : Eq Period
period_eq = record { beq = period_beq; beq_iff = period_beq_iff }

pub lex_trans : (a b c : List ℕ) → lex_ltb a b ≡ true → lex_ltb b c ≡ true → lex_ltb a c ≡ true
unfolding lex_ltb
lex_trans [] [] c h k = cc
lex_trans [] (y ∷ b) [] h k = cc
lex_trans [] (y ∷ b) (z ∷ c) h k = refl
lex_trans (x ∷ a) [] c h k = cc
lex_trans (x ∷ a) (y ∷ b) [] h k = cc
lex_trans (x ∷ a) (y ∷ b) (z ∷ c) h k = ground (arith, lex_trans a b c)

pub lex_irrefl : (a : List ℕ) → lex_ltb a a ≡ false
unfolding lex_ltb
lex_irrefl [] = refl
lex_irrefl (x ∷ a) = ground (arith, lex_irrefl a)

lex_total : (a b : List ℕ) → (lex_ltb a b ≡ true) ⊎ (a ≡ b) ⊎ (lex_ltb b a ≡ true)
unfolding lex_ltb
lex_total [] [] = inr (inl refl)
lex_total [] (y ∷ b) = inl refl
lex_total (x ∷ a) [] = inr (inr refl)
lex_total (x ∷ a) (y ∷ b) = ground (arith, lex_total a b)

-- The derived `<` of periods is a strict total order.
pub period_ltb_order :
    (p q r : Period)
    → (period_ltb p p ≡ false)
      × (period_ltb p q ≡ true → period_ltb q r ≡ true → period_ltb p r ≡ true)
      × ((period_ltb p q ≡ true) ⊎ (p ≡ q) ⊎ (period_ltb q p ≡ true))
unfolding period_ltb
period_ltb_order p q r = (
  lex_irrefl (components p),
  lex_trans (components p) (components q) (components r),
  total (lex_total (components p) (components q)),
)
  where
    total :
        (lex_ltb (components p) (components q) ≡ true)
          ⊎ (components p ≡ components q)
          ⊎ (lex_ltb (components q) (components p) ≡ true)
        → (lex_ltb (components p) (components q) ≡ true)
          ⊎ (p ≡ q)
          ⊎ (lex_ltb (components q) (components p) ≡ true)
    total (inl h) = inl h
    total (inr (inl h)) = inr (inl (components_inj p q h))
    total (inr (inr h)) = inr (inr h)
