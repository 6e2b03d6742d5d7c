-- ===== src/Gf2p16.antt =====
-- gf2p16/t.go: the field of 2^16 elements, by tables of logarithms to the base 3.
pub mod Residue
pub mod Generator
pub mod Product
pub mod Order
pub mod Tables
pub mod Field
pub mod Slice
use gopar_turbo.Base.{
  ℕ, zero, suc, ◌+◌, ◌-◌, ◌*◌, ◌/◌, ◌%◌, ◌^◌, ◌≡◌, Bool, not, ◌&&◌, ◌||◌, Option, none, some, ◌==◌,
  if◌then◌else◌,
}
use gopar_turbo.Bits.{◌⊕◌}
use gopar_turbo.Gf2
use gopar_turbo.Gf2.{Division}

-- `T.Plus` and `T.Minus`.
unfoldable pub plus : ℕ → ℕ → ℕ
plus t u = t ⊕ u

unfoldable pub minus : ℕ → ℕ → ℕ
minus t u = t ⊕ u

-- `order`.
abbrev pub order : ℕ
order = 2 ^ 16

-- The irreducible polynomial `m` of `init`.
abbrev pub modulus : ℕ
modulus = 0x1100b

-- The two global arrays, by index, and the variable `x` of the loop that fills them.
pub record State : Type 0 where
  pub x : ℕ
  pub log_table : ℕ → ℕ
  pub exp_table : ℕ → ℕ

abbrev pub update : (ℕ → ℕ) → ℕ → ℕ → ℕ → ℕ
update table i v j = if j == i then v else table j

-- `_, r := gf2.Poly64(x).Times(gf2.Poly64(g)).Div(m)`, and `T(r)`.
pub next_power : ℕ → Option ℕ
next_power x = elim (Gf2.div (Gf2.times x 3) modulus) [ none ↦ none | some d ↦ some (d.r % 2 ^ 16) ]

-- The writes at the end of a round, once the checks have passed.
pub store : ℕ → State → Option State
unfolding next_power
store p s = elim (next_power s.x) [
  | none ↦ none
  | some r ↦ some (record {
    x = r;
    log_table = update s.log_table (s.x - 1) (p % 2 ^ 16);
    exp_table = update s.exp_table p s.x;
  })
]

-- One round of the loop of `init`; `none` is a panic. `x - 1` is an index of a table of
-- `order - 1` entries only if `x` is not 0.
pub init_round : ℕ → State → Option State
unfolding store
init_round p s =
    if s.x == 1 && not (p == 0)
    then none
    else if s.x == 0
    then none
    else if not (s.x == 1) && not (s.log_table (s.x - 1) == 0)
    then none
    else if not (s.exp_table p == 0)
    then none
    else store p s

pub init_loop : ℕ → ℕ → State → Option State
init_loop zero p s = some s
init_loop (suc rounds) p s = elim (init_round p s) [
  | none ↦ none
  | some s' ↦ init_loop rounds (p + 1) s'
]

abbrev pub blank : State
blank = record { x = 1; log_table = λ _. 0; exp_table = λ _. 0 }

-- `init`, without `platformInit`.
pub init_tables : Option State
init_tables = init_loop (order - 1) 0 blank

-- The tables as the package uses them, after `init`.
pub tables : State
tables = elim init_tables [ none ↦ blank | some s ↦ s ]

-- `T.Times`.
pub times : ℕ → ℕ → ℕ
times t u =
    if t == 0 || u == 0
    then 0
    else tables.exp_table ((tables.log_table (t - 1) + tables.log_table (u - 1)) % (order - 1))

-- `T.Inverse`; `none` is its panic. The logarithm is at most `order - 1`.
pub inverse : ℕ → Option ℕ
inverse t =
    if t == 0
    then none
    else some (tables.exp_table (((order - 1) - tables.log_table (t - 1)) % (order - 1)))

-- `T.Div`; `none` is its panic.
pub div : ℕ → ℕ → Option ℕ
div t u =
    if u == 0
    then none
    else if t == 0
    then some 0
    else some (
        tables.exp_table
          ((tables.log_table (t - 1) + (order - 1) - tables.log_table (u - 1)) % (order - 1)))

-- `T.Pow`, with a 32-bit exponent: the product of the logarithm and `p` fits 64 bits.
pub pow : ℕ → ℕ → ℕ
pow t p =
    if t == 0
    then (if p == 0 then 1 else 0)
    else tables.exp_table (tables.log_table (t - 1) * p % 2 ^ 64 % (order - 1))
