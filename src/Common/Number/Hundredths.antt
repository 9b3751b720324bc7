-- ===== src/Common/Number/Hundredths.antt =====
-- Fixed-point numbers with two decimals, which meet the laws asked of the language's numbers.
use fast_share.Common.Tests.{leb}
use fast_share.Common.Number.{Number, NumberLaws, QuotientLaws}
use Prim.Native.Nat.{ℕ, ◌+◌, ◌-◌, ◌*◌, ◌/◌, ◌^◌}
use native.Mathlib.Omega.{arith}

instance abbrev pub hundredths : Number ℕ
hundredths = record {
  of_nat = λ n. n * 100;
  lit = λ m k. m * 100 / 10 ^ k;
  add = λ a b. a + b;
  sub = λ a b. a - b;
  mul = λ a b. a * b / 100;
  div = λ a b. a * 100 / b;
  le = leb;
  round = λ a. (a + 50) / 100 * 100;
}

pub hundredths_laws : NumberLaws hundredths
hundredths_laws = record {
  le_total = λ a b. ground arith;
  le_trans = λ a b c h k. ground arith;
  le-add_lit = λ a m k. ground arith;
  add_mono = λ a b c h. ground arith;
  le-of_nat = λ a b. ground arith;
  le_antisym = λ a b h k. ground arith;
}

pub hundredths_quotients : QuotientLaws hundredths
hundredths_quotients = record {
  nonneg_div = λ a b h k. ground arith;
  nonneg_sub = λ a b h. ground arith;
}
