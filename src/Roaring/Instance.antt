-- ===== src/Roaring/Instance.antt =====
-- A bitmap as the list of its elements.
use inoxset.Prelude.{
  ℕ, ◌*◌, ◌+◌, Bool, true, false, not, ◌&&◌, ◌||◌, ◌==◌, ==_iff, ◌≡◌, ◌↔◌, refl, List, [], ◌∷◌,
  ◌++◌, length, if◌then◌else◌, arith,
}
use inoxset.Roaring.{Roaring, is_among}

unfoldable pub member : List ℕ → ℕ → Bool
member [] x = false
member (a ∷ as_) x = a == x || member as_ x

unfoldable pub without : List ℕ → List ℕ → List ℕ
unfolding member
without [] b = []
without (a ∷ l) b = let rest = without l b in if member b a then rest else a ∷ rest

unfoldable pub common : List ℕ → List ℕ → List ℕ
unfolding member
common [] b = []
common (a ∷ l) b = let rest = common l b in if member b a then a ∷ rest else rest

unfoldable pub count : List ℕ → ℕ
unfolding member
count [] = 0
count (a ∷ l) = let rest = count l in if member l a then rest else rest + 1

unfoldable pub no_member : List ℕ → Bool
no_member [] = true
no_member (a ∷ l) = false

pub member-new : (x : ℕ) → member [] x ≡ false
unfolding member
member-new x = refl

pub member-insert : (a : List ℕ) (i x : ℕ) → member (i ∷ a) x ≡ (i == x || member a x)
unfolding member
member-insert a i x = refl

pub member-append : (a b : List ℕ) (x : ℕ) → member (a ++ b) x ≡ (member a x || member b x)
unfolding member
member-append [] b x = refl
member-append (a ∷ l) b x = ground (arith, member-append l b x)

pub member-without :
    (a b : List ℕ) (x : ℕ) → member (without a b) x ≡ (member a x && not (member b x))
unfolding member without
member-without [] b x = refl
member-without (a ∷ l) b x = ground (arith, member-without l b x, ==_iff a x)

pub member-common : (a b : List ℕ) (x : ℕ) → member (common a b) x ≡ (member a x && member b x)
unfolding member common
member-common [] b x = refl
member-common (a ∷ l) b x = ground (arith, member-common l b x, ==_iff a x)

pub no_member_iff : (a : List ℕ) → (no_member a ≡ true) ↔ ((x : ℕ) → member a x ≡ false)
unfolding no_member member
no_member_iff [] = (λ h x. refl, λ h. refl)
no_member_iff (a ∷ l) = (λ h x. cc, λ h. ground (arith, h a))

pub count-empty : (a : List ℕ) → no_member a ≡ true → count a ≡ 0
unfolding no_member count
count-empty [] h = refl
count-empty (a ∷ l) h = cc

pub count-common-empty : (a b : List ℕ) → no_member a ≡ true → count (common a b) ≡ 0
unfolding no_member count common
count-common-empty [] b h = refl
count-common-empty (a ∷ l) b h = cc

pub is_among-member : (a : List ℕ) (x : ℕ) → is_among x a ≡ member a x
unfolding is_among member
is_among-member [] x = refl
is_among-member (i ∷ a) x = ground (arith, is_among-member a x)

abbrev pub list_roaring : Roaring
list_roaring = record {
  Bitmap = List ℕ;
  new = [];
  insert = λ a i. i ∷ a;
  contains = member;
  is_empty = no_member;
  union = ◌++◌;
  difference = without;
  intersection = common;
  len = count;
  intersection_len = λ a b. count (common a b);
  union_len = λ a b. count (a ++ b);
  serialized_size = λ a. 8 + 4 * length a;
  iter = λ a. a;
  is_among-iter = is_among-member;
  contains-new = member-new;
  contains-insert = member-insert;
  contains-union = member-append;
  contains-difference = member-without;
  contains-intersection = member-common;
  is_empty_iff = no_member_iff;
  len-empty = count-empty;
  intersection_len-empty = count-common-empty;
  intersection_len-len = λ a b. refl;
  union_len-len = λ a b. refl;
}
