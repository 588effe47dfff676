-- ===== src/Client/Shutdown.antt =====
-- `close_device` and `handle_sigint` of src/client.c. `PRINT_ERR` of include/myhead.h calls
-- `close_device` before it exits, and `close_device` calls `PRINT_ERR` when a write fails. What cannot
-- fail, switching the lamps off and closing the descriptors, is left out.
use cloud_system.Base.{
  ℕ, zero, suc, ◌+◌, ◌≤◌, ◌≡◌, refl, Bool, true, false, ◌&&◌, Option, none, some, arith,
  if◌then◌else◌, ℤ, is_neg,
}

-- How the call ends: it returns, or the process has exited in it.
pub data Ended : Type 0 where
  returns exits : Ended

abbrev pub exit_after : Option Ended → Option Ended
exit_after none = none
exit_after (some e) = some Ended.exits

-- `fan j` and `motor j` say whether the writes of the j-th call succeed; the next call is the n-th.
-- `none`: the fuel ran out.
unfoldable pub close_device : ℕ → (fan motor : ℕ → Bool) → ℕ → Option Ended
close_device zero fan motor n = none
close_device (suc k) fan motor n =
    let print_err = exit_after (close_device k fan motor (n + 1)) in
    if fan n then (if motor n then some Ended.returns else print_err) else print_err

-- `close_device(); exit(0);`
unfoldable pub handle_sigint : ℕ → (fan motor : ℕ → Bool) → Option Ended
handle_sigint k fan motor = exit_after (close_device k fan motor 0)

-- A write to a descriptor that `open` could not give fails; the driver decides on the others.
abbrev pub writes : ℤ → (ℕ → Bool) → ℕ → Bool
writes fd driver j = if is_neg fd then false else driver j

module _ (fan motor : ℕ → Bool) where
  -- When in no call both writes succeed, `close_device` does not end, however many calls it makes.
  pub close_device-spins :
      (k n : ℕ) (fails : (j : ℕ) → fan j && motor j ≡ false) → close_device k fan motor n ≡ none
  unfolding close_device
  close_device-spins zero n fails = refl
  close_device-spins (suc k) n fails = ground (arith, fails n, close_device-spins k (n + 1) fails)

  -- When both writes succeed in every call from the m-th on, a `close_device` that is the n-th call
  -- ends within m - n further calls: it returns if its own two writes succeed, and else the process
  -- has exited.
  pub close_device-ends :
      (k n m : ℕ) (good : (j : ℕ) → m ≤ j → fan j && motor j ≡ true)
      → m ≤ n + k
      → close_device (suc k) fan motor n
        ≡ some (if fan n && motor n then Ended.returns else Ended.exits)
  unfolding close_device
  close_device-ends zero n m good fuel = ground (arith, good n)
  close_device-ends (suc k) n m good fuel =
      ground (arith, close_device-ends k (n + 1) m good (omega arith))
