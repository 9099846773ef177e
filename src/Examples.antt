-- ===== src/Examples.antt =====
-- Concrete inputs: numbers that stand for `double`, with the operations that the program needs, and the
-- tests of the modules.
pub mod Json
pub mod Engine
pub mod Schema
pub mod Blob
pub mod Reading
pub mod Notes
pub mod Files
pub mod Query
pub mod Collection
pub mod Csv
use apx_db.Common.{ℕ, ltb, leb, ◌==◌, ◌%◌, ◌^◌}
use apx_db.Common.Int.{pos}
use apx_db.Libc.{Doubles, read_digits, skip_spaces}
use apx_db.Blob.Scalars.{Stores}

instance abbrev pub whole_doubles : Doubles ℕ
whole_doubles = record {
  strtod_value = λ s. read_digits 0 (skip_spaces s);
  less = ltb;
  less_eq = leb;
  equal = λ a b. a == b;
}

instance abbrev pub whole_stores : Stores ℕ
whole_stores = record {
  double_bits = λ d. d % 2 ^ 64;
  float_bits = λ d. d % 2 ^ 32;
  to_int64 = λ d. pos d;
}
