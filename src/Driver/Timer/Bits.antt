-- ===== src/Driver/Timer/Bits.antt =====
-- Fields of a register.
use cloud_system.Base.{ℕ, Bool, ◌==◌, leb, ◌&&◌}

-- The bits from `lo` up to `hi`.
abbrev pub span : ℕ → ℕ → ℕ → Bool
span lo hi k = leb lo k && leb k hi

abbrev pub one_bit : ℕ → ℕ → Bool
one_bit n k = k == n
