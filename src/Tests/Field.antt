-- ===== src/Tests/Field.antt =====
-- gf2p16/t.go and gf2p16/slice.go at concrete inputs.
use gopar_turbo.Base.{ℕ, ◌<◌, ◌-◌, ◌^◌, ◌≡◌, arith, some}
use gopar_turbo.Gf2.Product.{product}
use gopar_turbo.Gf2p16.{times, plus, inverse, pow, tables, init_tables}
use gopar_turbo.Gf2p16.Residue.{Residue}
use gopar_turbo.Gf2p16.Generator.{power}
use gopar_turbo.Gf2p16.Tables.{init_tables-power}
use gopar_turbo.Gf2p16.Field.{
  times-Residue, times_assoc, times-plus, times-inverse, pow-repeated, repeated,
}

times-Residue_example : Residue (product 16 0x8000 3) (times 0x8000 3)
times-Residue_example = times-Residue 0x8000 3 (omega arith) (omega arith)

init_tables-power_example :
    (init_tables ≡ some tables)
    × (tables.exp_table 5 ≡ power 5)
    × (tables.log_table (power 5 - 1) ≡ 5)
    × (tables.log_table (7 - 1) < 65535)
    × (power (tables.log_table (7 - 1)) ≡ 7)
init_tables-power_example = init_tables-power 5 7 (omega arith) (omega arith) (omega arith)

times_assoc_example : times (times 2 0x8000) 77 ≡ times 2 (times 0x8000 77)
times_assoc_example = times_assoc 2 0x8000 77 (omega arith) (omega arith) (omega arith)

times-plus_example : times 513 (plus 0xff00 0x12) ≡ plus (times 513 0xff00) (times 513 0x12)
times-plus_example = times-plus 513 0xff00 0x12 (omega arith) (omega arith) (omega arith)

times-inverse_example :
    (s : ℕ) × (inverse 0x1234 ≡ some s) × (times 0x1234 s ≡ 1) × (0 < s) × (s < 2 ^ 16)
times-inverse_example = times-inverse 0x1234 (omega arith) (omega arith)

pow-repeated_example : pow 2 40 ≡ repeated 2 40
pow-repeated_example = pow-repeated 2 40 (omega arith) (omega arith)
