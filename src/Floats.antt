-- ===== src/Floats.antt =====
-- What the program uses of `float` and `double`: a parameter of the model, since numbers with a
-- fraction are no part of it.
use cloud_system.Base.{ℕ, Bool, List, Option}

-- `literal m k` is the constant m / 10 ^ k, `of_int` the conversion from `int`, `round` the
-- conversion to `float`. `print` is `%.2f`, `scan` is `%f`, which gives the number, if there is one,
-- and the rest of the text, and `atof` is the library's, already converted to `float`.
pub record Floats : Type 1 where
  pub Float : Type 0
  pub Double : Type 0
  pub zero : Float
  pub lt : Float → Float → Bool
  pub literal : ℕ → ℕ → Double
  pub of_int : ℕ → Double
  pub mul : Double → Double → Double
  pub div : Double → Double → Double
  pub sub : Double → Double → Double
  pub round : Double → Float
  pub print : Float → List ℕ
  pub scan : List ℕ → Option Float × List ℕ
  pub atof : List ℕ → Float
