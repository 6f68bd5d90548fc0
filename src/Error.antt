-- ===== src/Error.antt =====
-- src/error.rs: the errors of the crate, `Result`, and the test of event names. The texts that an
-- error carries for a reader (`reason`, `context`) are dropped; the values that they name stay.
-- `panic` is not an error of the crate: it is a Rust index out of range or a failed arithmetic
-- check, so that its absence can be stated.
pub mod Names
use inoxset.Prelude.{
  ℕ, Bytes, bytes, Bool, true, false, not, ◌&&◌, ◌||◌, ◌≡◌, refl, List, [], ◌∷◌, ◌==◌, within,
  if◌then◌else◌, arith,
}
use inoxset.Prelude.Eq.{text_beq}
use inoxset.Types.{Granularity, Period}

pub data InoxSetError : Type 0 where
  bitmap_io : Bytes → InoxSetError
  granularity_mismatch : Bytes → Period → Granularity → InoxSetError
  bitmap_corrupted : Bytes → Period → InoxSetError
  invalid_event_name : Bytes → InoxSetError
  invalid_period : Period → InoxSetError
  event_already_registered : Bytes → InoxSetError
  read_only closed configuration catalog_corrupted : InoxSetError

pub data Result {ℓ} (A : Type ℓ) : Type ℓ where
  ok : A → Result A
  err : InoxSetError → Result A
  panic : Result A

-- `?`
infixl 5 ◌>>=◌ ◌>>◌
abbrev pub ◌>>=◌ {ℓ κ} : {A : Type ℓ} {B : Type κ} → Result A → (A → Result B) → Result B
ok a >>= f = f a
err e >>= f = err e
panic >>= f = panic

abbrev pub ◌>>◌ {ℓ} : {B : Type ℓ} → Result (Unit {0}) → Result B → Result B
m >> k = m >>= λ _. k

-- `b.is_ascii_alphanumeric()`
unfoldable pub is_ascii_alphanumeric : ℕ → Bool
is_ascii_alphanumeric b = within b'0' b'9' b || within b'A' b'Z' b || within b'a' b'z' b

unfoldable pub is_name_byte : ℕ → Bool
unfolding is_ascii_alphanumeric
is_name_byte b = is_ascii_alphanumeric b || (b == b'_') || (b == b':') || (b == b'.') || (b == b'-')

unfoldable pub all_bytes : (ℕ → Bool) → Bytes → Bool
all_bytes p [] = true
all_bytes p (b ∷ bs) = p b && all_bytes p bs

unfoldable pub is_empty : Bytes → Bool
is_empty [] = true
is_empty (b ∷ bs) = false

unfoldable pub validate_event_name : Bytes → Result (Unit {0})
unfolding is_empty is_name_byte all_bytes text_beq
validate_event_name name =
    if is_empty name
      || text_beq name (bytes ".")
      || text_beq name (bytes "..")
      || not (all_bytes is_name_byte name)
    then err (invalid_event_name name)
    else ok tt
