-- ===== src/Cgi/Session/Cookie.antt =====
-- Which cookies the pages read within their buffer, and what they get from them.
use cloud_system.Base.{ℕ, ◌≡◌, refl, false, none, some, List, [], ◌∷◌, ◌++◌, arith, ◌==◌}
use cloud_system.Cgi.Session.{skip_to_value, read_value, device_name}

-- The byte does not occur.
abbrev pub Free : ℕ → List ℕ → Type 0
Free b [] = Unit
Free b (c ∷ cs) = ((c == b) ≡ false) × Free b cs

skip_to_value-found :
    (key value : List ℕ) → Free b'=' key → skip_to_value (key ++ b'=' ∷ value) ≡ some value
unfolding skip_to_value
skip_to_value-found [] value free = refl
skip_to_value-found (c ∷ key) value free = rw free.0 (skip_to_value-found key value free.1)

skip_to_value-overrun : (name : List ℕ) → Free b'=' name → skip_to_value name ≡ none
unfolding skip_to_value
skip_to_value-overrun [] free = refl
skip_to_value-overrun (c ∷ name) free = rw free.0 (skip_to_value-overrun name free.1)

read_value-found :
    (value rest : List ℕ) → Free 0 value → read_value (value ++ 0 ∷ rest) ≡ some value
unfolding read_value
read_value-found [] rest free = refl
read_value-found (c ∷ value) rest free =
    rw free.0 (ground (arith, read_value-found value rest free.1))

read_value-overrun : (s : List ℕ) → Free 0 s → read_value s ≡ none
unfolding read_value
read_value-overrun [] free = refl
read_value-overrun (c ∷ s) free = rw free.0 (ground (arith, read_value-overrun s free.1))

-- From the bytes `key=value` and a NUL, where the key holds no `=` and the value no NUL, the pages
-- take the value as the device's name. On bytes with no `=`, and on bytes with no NUL behind the
-- first `=`, the loops run on behind the buffer.
pub device_name_lem :
    (key value rest : List ℕ)
    → Free b'=' key
    → Free 0 value
    → (device_name (key ++ b'=' ∷ (value ++ 0 ∷ rest)) ≡ some value)
      × (device_name key ≡ none)
      × (device_name (key ++ b'=' ∷ value) ≡ none)
unfolding device_name
device_name_lem key value rest k v = (
  ground (arith, skip_to_value-found key (value ++ 0 ∷ rest) k, read_value-found value rest v),
  ground (arith, skip_to_value-overrun key k),
  ground (arith, skip_to_value-found key value k, read_value-overrun value v),
)
