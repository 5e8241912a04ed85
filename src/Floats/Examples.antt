-- ===== src/Floats/Examples.antt =====
-- Natural numbers in the place of the floating-point numbers, for runs: they obey the laws of the
-- comparisons, and no other law is asked of them.
use hunch.Base.{ℕ, ◌+◌, ◌-◌, ◌*◌, ◌≡◌, true, ◌==◌, ltb, leb, arith}
use hunch.Floats.{Float64, ComparisonLaws}

abbrev pub naturals : Float64
naturals = record {
  F = ℕ;
  of_int = λ n. n;
  elapsed = λ at_time t. at_time - t;
  decimal = λ n k. n;
  ln2 = 1;
  neg = λ x. x;
  exp = λ x. x;
  add = λ x y. x + y;
  sub = λ x y. x - y;
  mul = λ x y. x * y;
  div = λ x y. x;
  lt = λ x y. ltb x y;
  le = λ x y. leb x y;
  eq = λ x y. x == y;
}

pub naturals-ComparisonLaws : ComparisonLaws naturals
naturals-ComparisonLaws = record {
  lt_trans = λ (x y z : ℕ) (h : ltb x y ≡ true) (k : ltb y z ≡ true). ground arith;
  eq_trans = λ (x y z : ℕ) (h : (x == y) ≡ true) (k : (y == z) ≡ true). ground arith;
  lt_eq = λ (x y z : ℕ) (h : ltb x y ≡ true) (k : (y == z) ≡ true). ground arith;
  eq_lt = λ (x y z : ℕ) (h : (x == y) ≡ true) (k : ltb y z ≡ true). ground arith;
  eq_symm = λ (x y : ℕ). ground arith;
  connected = λ (x y : ℕ) (h : (x == x) ≡ true) (k : (y == y) ≡ true). ground arith;
}
