-- ===== src/Driver/Led/Tests.antt =====
-- The lamps of a board whose extension has one line that cannot be an output.
use cloud_system.Base.{◌⊎◌, false, none, [], ◌∷◌, ℤ, pos, ℕ}
use cloud_system.Driver.Led.{Board, Answer, Kernel, myleds_init}
use cloud_system.Driver.Led.Init.{Started, Refused, myleds_init-balance}

abbrev empty : Board
empty = record { gpios = λ _. 0; lines = λ _. 0; chrdev = false; class = false; device = false }

abbrev given : ℕ → Answer
given n = record { line = pos n; requested = pos 0; directed = pos 0 }

abbrev kernel : ℤ → Kernel
kernel directed = record {
  node = none;
  core = given 90 ∷ given 87 ∷ given 91 ∷ [];
  extend = given 74 ∷ record { line = pos 88; requested = pos 0; directed = directed } ∷ [];
  major = pos 240;
  class = none;
  device = none;
}

myleds_init_example :
    Started (kernel (ℤ.negsuc 0)) empty (pos 88) (myleds_init (kernel (ℤ.negsuc 0)) empty)
    ⊎ Refused 1 empty (pos 88) (myleds_init (kernel (ℤ.negsuc 0)) empty)
myleds_init_example =
    myleds_init-balance (kernel (ℤ.negsuc 0)) empty (pos 88)
      (record { node = tt; class = tt; device = tt })
