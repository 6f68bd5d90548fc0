-- ===== src/Types/Codes.antt =====
-- The byte codes of src/types.rs, and the packing of a membership.
use inoxset.Prelude.{ℕ, ◌<◌, ◌≡◌, ◌↔◌, true, false, some, arith}
use inoxset.Types.{
  Granularity, as_u8, from_u8, granularity_beq, PeriodState, state_as_u8, state_from_u8, inline,
  is_extended, event_id, period_id,
}

-- `from_u8` returns a granularity exactly at the byte that `as_u8` gives it.
pub from_u8-as_u8 : (v : ℕ) (g : Granularity) → (from_u8 v ≡ some g) ↔ (v ≡ as_u8 g)
unfolding from_u8 as_u8
from_u8-as_u8 v Granularity.none = ground arith
from_u8-as_u8 v _ = ground arith

-- `PeriodState::from_u8` returns a state exactly at the byte that `as_u8` gives it.
pub state_from_u8-state_as_u8 :
    (v : ℕ) (s : PeriodState) → (state_from_u8 v ≡ some s) ↔ (v ≡ state_as_u8 s)
unfolding state_from_u8 state_as_u8
state_from_u8-state_as_u8 v PeriodState.opened = ground arith
state_from_u8-state_as_u8 v _ = ground arith

pub granularity_beq_iff : (a b : Granularity) → (granularity_beq a b ≡ true) ↔ (a ≡ b)
unfolding granularity_beq
granularity_beq_iff Granularity.none Granularity.none = ground arith
granularity_beq_iff _ _ = ground arith

-- A membership packed from ids in range is not extended and unpacks to the two ids.
pub inline_unpacks :
    (e p : ℕ)
    → e < 32768
    → p < 65536
    → (event_id (inline e p) ≡ e)
      × (period_id (inline e p) ≡ p)
      × (is_extended (inline e p) ≡ false)
unfolding inline event_id period_id is_extended
inline_unpacks e p he hp = ground arith
