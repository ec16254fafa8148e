-- ===== src/Prelude/Times.antt =====
-- Lengths of time, in nanoseconds: `time.Minute` and `24 * time.Hour`.
use Prim.Native.Nat.{ℕ}

abbrev pub minute_length : ℕ
minute_length = 60000000000

abbrev pub day_length : ℕ
day_length = 86400000000000
