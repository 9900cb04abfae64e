-- ===== src/Double/Fixed/Ordered.antt =====
-- Fixed-point numbers are ordered.
use outcome_router.Base.{some, none, arith}
use outcome_router.Double.Laws.{IsOrdered, ◌≼◌}
use outcome_router.Double.Fixed.{Fixed, fixed_double}

Fixed-le_trans : (x y z : Fixed) → x ≼ y → y ≼ z → x ≼ z
Fixed-le_trans (some a) (some b) (some c) h k = ground arith
Fixed-le_trans none y z h k = cc
Fixed-le_trans (some a) none z h k = cc
Fixed-le_trans (some a) (some b) none h k = cc

pub Fixed-IsOrdered : IsOrdered Fixed
Fixed-IsOrdered = record {
  number_of_le = ground arith;
  number_of_lt = ground arith;
  le_trans = Fixed-le_trans;
  le_total = ground arith;
  lt-eq-not-le = ground arith;
  max_bounds = ground arith;
  max_least = ground arith;
  min_bounds = ground arith;
}
