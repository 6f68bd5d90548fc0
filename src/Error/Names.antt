-- ===== src/Error/Names.antt =====
-- What `validate_event_name` accepts.
use inoxset.Prelude.{ℕ, Bytes, bytes, Bool, true, ◌≡◌, ◌≢◌, ◌↔◌, refl, [], ◌∷◌, arith}
use inoxset.Prelude.Eq.{text_beq_iff}
use inoxset.Error.{
  ok, err, invalid_event_name, is_ascii_alphanumeric, is_name_byte, all_bytes, is_empty,
  validate_event_name,
}

abbrev pub All {ℓ} : (ℕ → Type ℓ) → Bytes → Type ℓ
All P [] = Unit
All P (b ∷ bs) = P b × All P bs

all_bytes_iff : (p : ℕ → Bool) (s : Bytes) → (all_bytes p s ≡ true) ↔ All (λ b. p b ≡ true) s
unfolding all_bytes
all_bytes_iff p [] = ground arith
all_bytes_iff p (b ∷ bs) = ground (arith, all_bytes_iff p bs)

is_empty_iff : (s : Bytes) → (is_empty s ≡ true) ↔ (s ≡ [])
unfolding is_empty
is_empty_iff [] = (λ _. refl, λ _. refl)
is_empty_iff (b ∷ s) = (λ h. cc, λ h. cc)

-- The names that can stand as a directory under the parts directory.
abbrev pub IsName : Bytes → Type 0
IsName name =
    (name ≢ []) × (name ≢ bytes ".") × (name ≢ bytes "..") × All (λ b. is_name_byte b ≡ true) name

-- `validate_event_name` accepts a name exactly when it is not empty, not "." or "..", and made of
-- ASCII letters, digits, '_', ':', '.' and '-' only; any other it refuses with that name.
pub validate_event_name_iff :
    (name : Bytes)
    → ((validate_event_name name ≡ ok tt) ↔ IsName name)
      × ((validate_event_name name ≡ err (invalid_event_name name)) ↔ (¬ IsName name))
unfolding validate_event_name
validate_event_name_iff name = ground (
  arith,
  is_empty_iff name,
  text_beq_iff name (bytes "."),
  text_beq_iff name (bytes ".."),
  all_bytes_iff is_name_byte name,
)

pub slash_free : (name : Bytes) → All (λ b. is_name_byte b ≡ true) name → All (λ b. b ≢ b'/') name
unfolding is_name_byte is_ascii_alphanumeric
slash_free [] h = tt
slash_free (b ∷ name) (h, r) = (ground arith, slash_free name r)
