-- ===== src/Types.antt =====
-- src/types.rs: granularities, periods, rollup, part metadata, lifecycle states, memberships and
-- set expressions. A Rust `u8`, `u16`, `u32` or `u64` is a number with its range as a hypothesis.
pub mod Codes
pub mod Order
use inoxset.Prelude.{
  ℕ, ◌+◌, ◌*◌, ◌/◌, ◌%◌, Bytes, bytes, Bool, not, Option, some, List, [], ◌∷◌, ◌==◌, leb, ltb,
  if◌then◌else◌,
}
use inoxset.Prelude.Eq.{text_beq}

pub data Granularity : Type 0 where
  none hour day month year : Granularity

unfoldable pub as_u8 : Granularity → ℕ
as_u8 Granularity.none = 0
as_u8 Granularity.hour = 1
as_u8 Granularity.day = 2
as_u8 Granularity.month = 3
as_u8 Granularity.year = 4

unfoldable pub from_u8 : ℕ → Option Granularity
from_u8 v =
    if v == 0
    then some Granularity.none
    else if v == 1
    then some Granularity.hour
    else if v == 2
    then some Granularity.day
    else if v == 3
    then some Granularity.month
    else if v == 4
    then some Granularity.year
    else Option.none

-- The derived `==`: two variants are equal when their declaration positions are.
unfoldable pub granularity_beq : Granularity → Granularity → Bool
unfolding as_u8
granularity_beq a b = as_u8 a == as_u8 b

unfoldable pub dir_name : Granularity → Bytes
dir_name Granularity.none = bytes "none"
dir_name Granularity.hour = bytes "hour"
dir_name Granularity.day = bytes "day"
dir_name Granularity.month = bytes "month"
dir_name Granularity.year = bytes "year"

pub data Period : Type 0 where
  static : Period
  hour : ℕ → ℕ → ℕ → ℕ → Period
  day : ℕ → ℕ → ℕ → Period
  month : ℕ → ℕ → Period
  year : ℕ → Period

-- The position of the variant and its components, on which the derived `==` and `<` work.
unfoldable pub components : Period → List ℕ
components Period.static = 0 ∷ []
components (Period.hour y m d h) = 1 ∷ y ∷ m ∷ d ∷ h ∷ []
components (Period.day y m d) = 2 ∷ y ∷ m ∷ d ∷ []
components (Period.month y m) = 3 ∷ y ∷ m ∷ []
components (Period.year y) = 4 ∷ y ∷ []

unfoldable pub period_beq : Period → Period → Bool
unfolding components text_beq
period_beq p q = text_beq (components p) (components q)

-- Lexicographic order.
unfoldable pub lex_ltb : List ℕ → List ℕ → Bool
lex_ltb [] [] = Bool.false
lex_ltb [] (y ∷ ys) = Bool.true
lex_ltb (x ∷ xs) [] = Bool.false
lex_ltb (x ∷ xs) (y ∷ ys) =
    let rest = lex_ltb xs ys in if ltb x y then Bool.true else if x == y then rest else Bool.false

-- The derived `p < q`; `p > q` is `period_ltb q p`.
unfoldable pub period_ltb : Period → Period → Bool
unfolding components lex_ltb
period_ltb p q = lex_ltb (components p) (components q)

pub data Rollup : Type 0 where
  auto none : Rollup

-- `Data` and `Delta`
pub data PartKind : Type 0 where
  additive delta : PartKind

-- `Open`, `Closed`, `Compacted`, `Dropped`
pub data PeriodState : Type 0 where
  opened closed compacted dropped : PeriodState

unfoldable pub state_as_u8 : PeriodState → ℕ
state_as_u8 PeriodState.opened = 0
state_as_u8 PeriodState.closed = 1
state_as_u8 PeriodState.compacted = 2
state_as_u8 PeriodState.dropped = 3

unfoldable pub state_from_u8 : ℕ → Option PeriodState
state_from_u8 v =
    if v == 0
    then some PeriodState.opened
    else if v == 1
    then some PeriodState.closed
    else if v == 2
    then some PeriodState.compacted
    else if v == 3
    then some PeriodState.dropped
    else Option.none

pub record EventConfig : Type 0 where
  pub name : Bytes
  pub finest_granularity : Granularity
  pub rollup : Rollup
  pub rollup_chain : List Granularity

-- The chain that `EventConfig::new` stores for `Rollup::Auto`.
unfoldable pub auto_chain : Granularity → List Granularity
auto_chain Granularity.none = []
auto_chain Granularity.hour =
    Granularity.hour ∷ Granularity.day ∷ Granularity.month ∷ Granularity.year ∷ []
auto_chain Granularity.day = Granularity.day ∷ Granularity.month ∷ Granularity.year ∷ []
auto_chain Granularity.month = Granularity.month ∷ Granularity.year ∷ []
auto_chain Granularity.year = Granularity.year ∷ []

unfoldable pub effective_rollup : Granularity → Rollup → Rollup
effective_rollup Granularity.none r = Rollup.none
effective_rollup Granularity.hour r = r
effective_rollup Granularity.day r = r
effective_rollup Granularity.month r = r
effective_rollup Granularity.year r = r

unfoldable pub chain_of : Granularity → Rollup → List Granularity
unfolding auto_chain
chain_of g Rollup.auto = auto_chain g
chain_of g Rollup.none = []

-- `EventConfig::new`
unfoldable pub new_config : Bytes → Granularity → Rollup → EventConfig
unfolding effective_rollup chain_of
new_config name g r = record {
  name = name;
  finest_granularity = g;
  rollup = effective_rollup g r;
  rollup_chain = chain_of g (effective_rollup g r);
}

-- A path is taken to be UTF-8 text.
pub record Part : Type 0 where
  pub part_id : ℕ
  pub kind : PartKind
  pub event : Bytes
  pub period : Period
  pub file_path : Bytes
  pub size_bytes : ℕ
  pub cardinality : ℕ
  pub created_at : ℕ
  pub level : ℕ

-- `Membership(u32)`: `((event_id as u32) << 16) | period_id`. The operands of `|` share no bit.
unfoldable pub inline : ℕ → ℕ → ℕ
inline event_id period_id = event_id * 65536 + period_id

unfoldable pub is_extended : ℕ → Bool
is_extended m = not (m / 2147483648 % 2 == 0)

unfoldable pub event_id : ℕ → ℕ
event_id m = m / 65536 % 32768

unfoldable pub period_id : ℕ → ℕ
period_id m = m % 65536

pub data SetExpr : Type 0 where
  ref : Bytes → Period → SetExpr
  and or diff : SetExpr → SetExpr → SetExpr
