-- ===== src/Garden/Stale.antt =====
-- What another program's number, left in the fan driver's buffer, does to the shutdown of the client.
use cloud_system.Base.{
  ℕ, zero, suc, ◌<◌, ◌≤◌, ◌≡◌, ◌+◌, ◌*◌, ◌/◌, ◌%◌, refl, true, false, not, some, none, List, [],
  ◌∷◌, ◌++◌, arith, if◌then◌else◌, length, pos, ◌⊎◌, inl, inr, ltb, is_neg, Bool-cases, ◌∙◌, ap,
}
use cloud_system.Client.{Request, all_leds}
use cloud_system.Client.Shutdown.{close_device, close_device-spins, Ended}
use cloud_system.Driver.Fan
use cloud_system.Driver.Fan.{Parsed, Fan, number, duty_of}
use cloud_system.Driver.Fan.Level.{duty}
use cloud_system.Driver.Led.{myleds_ioctl}
use cloud_system.Driver.Motor
use cloud_system.Driver.Timer.{Timer}
use cloud_system.Garden.{Hardware, carry_out_all, carry_out, fan_accepts, motor_accepts}
use cloud_system.Garden.Rounds.{farewell, off_byte}
use cloud_system.Garden.Lasting.{motor_write-kbuf}
use cloud_system.Garden.Programs.{fan_test, sprintf_digits}

-- The kernel's `kstrtoint` reads two digits in front of a NUL.
abbrev pub ReadsDigits : (List ℕ → Parsed) → Type 0
ReadsDigits kstrtoint =
    (a d : ℕ) (rest : List ℕ)
    → a < 10
    → d < 10
    → kstrtoint ((b'0' + a) ∷ (b'0' + d) ∷ 0 ∷ rest) ≡ number (pos (a * 10 + d))

-- The digit d and a NUL stand behind the first byte.
abbrev pub IsLeft : ℕ → List ℕ → Type 0
IsLeft d kbuf = (c : ℕ) × (rest : List ℕ) × (kbuf ≡ c ∷ (b'0' + d) ∷ 0 ∷ rest)

module _ (kstrtoint : List ℕ → Parsed) where
  -- The hardware that the j-th call of `close_device` finds, when every call before failed at the fan.
  abbrev pub found : ℕ → Hardware → Hardware
  found zero h = h
  found (suc j) h =
      found j (carry_out_all kstrtoint (all_leds {F = Unit} false ++ Request.fan off_byte ∷ []) h)

module _ (kstrtoint : List ℕ → Parsed) (reads : ReadsDigits kstrtoint) where
  left_lem :
      (d : ℕ) (x : Fan)
      → IsLeft d x.kbuf
      → IsLeft d ((Fan.motor_write kstrtoint true [] off_byte 1 x).0.kbuf)
  left_lem d x (c, rest, is) = rw (motor_write-kbuf kstrtoint off_byte 1 x, is) (b'0', rest, refl)

  off_reads :
      (d : ℕ) (x : Fan)
      → d < 10
      → IsLeft d x.kbuf
      → let (x', result) = Fan.motor_write kstrtoint true [] off_byte 1 x in
        (x'.regs ≡ (if ltb d 4 then record (x.regs) { ccr1 = duty d } else x.regs))
        × (is_neg result ≡ not (ltb d 4))
  unfolding Fan.motor_write duty_of
  off_reads d x small (c, rest, is) =
      rw (is, reads 0 d rest (omega arith) small) (ground arith, ground arith)

  -- No call of `close_device` finds a fan that takes its byte.
  stuck :
      (d : ℕ)
      → d < 10
      → 4 ≤ d
      → (j : ℕ) (h : Hardware) → IsLeft d h.fan.kbuf
      → fan_accepts kstrtoint off_byte (found kstrtoint j h) ≡ false
  unfolding fan_accepts carry_out carry_out_all myleds_ioctl
  stuck d small big zero h left = let (regs, result) = off_reads d h.fan small left in ground arith
  stuck d small big (suc j) h left =
      stuck d small big j
        (carry_out_all kstrtoint (all_leds {F = Unit} false ++ Request.fan off_byte ∷ []) h)
        (left_lem d h.fan left)

  -- A digit below 4 is taken for a level.
  blows :
      (d : ℕ) (h : Hardware)
      → d < 4
      → IsLeft d h.fan.kbuf
      → ((carry_out_all kstrtoint {F = Unit} farewell h).fan.regs
          ≡ record (h.fan.regs) { ccr1 = duty d })
        × (close_device 1 (λ _. fan_accepts kstrtoint off_byte h) (λ _. motor_accepts off_byte h) 0
            ≡ some Ended.returns)
  unfolding fan_accepts motor_accepts carry_out carry_out_all myleds_ioctl close_device
      Motor.motor_write
  blows d h small left =
      let (regs, result) = off_reads d h.fan (omega arith) left in
      let low : ltb d 4 ≡ true = ground arith in
      (regs ∙ (rw low refl), rw (result, low, close_device) refl)

  sprintf_digits_lem :
      (n : ℕ) (buf : List ℕ)
      → 10 ≤ n
      → length buf ≡ 10
      → (rest : List ℕ) × (sprintf_digits n buf ≡ (b'0' + n / 10) ∷ (b'0' + n % 10) ∷ 0 ∷ rest)
        × (length rest ≡ 7)
  unfolding sprintf_digits
  sprintf_digits_lem n [] low ten = absurd (omega arith)
  sprintf_digits_lem n (x ∷ []) low ten = absurd (omega arith)
  sprintf_digits_lem n (x ∷ y ∷ []) low ten = absurd (omega arith)
  sprintf_digits_lem n (x ∷ y ∷ z ∷ rest) low ten = (rest, ground arith, omega arith)

  duty_none : (m : ℕ) → 4 ≤ m → duty_of (pos m) ≡ none
  unfolding duty_of
  duty_none m big = ground arith

  fan_test_lem :
      (n : ℕ) (buf : List ℕ) (h : Hardware)
      → 10 ≤ n
      → n < 100
      → length buf ≡ 10
      → let (h', status) = fan_test kstrtoint n buf h in
        (status ≡ 1) × (h'.fan.regs ≡ h.fan.regs) × IsLeft (n % 10) h'.fan.kbuf
  unfolding fan_test Fan.motor_write
  fan_test_lem n buf h low high ten =
      let (rest, is, seven) = sprintf_digits_lem n buf low ten in
      rw
        (
          is,
          seven,
          reads (n / 10) (n % 10) _ (omega arith) (omega arith),
          duty_none (n / 10 * 10 + n % 10) (omega arith),
          is,
          seven,
        )
        (refl, refl, (b'0' + n / 10, _, refl))

module _ (kstrtoint : List ℕ → Parsed) (n : ℕ) (buf : List ℕ) (h : Hardware) where
  abbrev pub tried : Hardware
  tried = (fan_test kstrtoint n buf h).0

  -- The program has failed and has changed no register, but its last digit stands in the driver's
  -- buffer.
  pub record IsStale : Type 0 where
    pub fails : ((fan_test kstrtoint n buf h).1 ≡ 1) × (tried.fan.regs ≡ h.fan.regs)
    pub shutdown :
        ((n % 10 < 4)
          × ((carry_out_all kstrtoint {F = Unit} farewell tried).fan.regs
              ≡ record (h.fan.regs) { ccr1 = duty (n % 10) })
          × (close_device 1
                (λ _. fan_accepts kstrtoint off_byte tried)
                (λ _. motor_accepts off_byte tried)
                0
              ≡ some Ended.returns))
        ⊎ ((4 ≤ n % 10)
            × ((k : ℕ)
                → close_device k
                    (λ j. fan_accepts kstrtoint off_byte (found kstrtoint j tried))
                    (λ j. motor_accepts off_byte (found kstrtoint j tried))
                    0
                  ≡ none))

  -- The fan driver's buffer outlives a refused write: when the fan's test program is given a number of
  -- two digits and `kstrtoint` reads two digits in front of a NUL, the program fails and no register
  -- changes; but a shutdown of the client after it, which writes the one byte '0', sets the duty cycle
  -- of the level that the number's last digit names, if it is below 4, and returns; and if it is not,
  -- `close_device` and `PRINT_ERR` call each other without end.
  pub fan_test-IsStale : ReadsDigits kstrtoint → 10 ≤ n → n < 100 → length buf ≡ 10 → IsStale
  fan_test-IsStale reads low high ten =
      let (status, same, left) = fan_test_lem kstrtoint reads n buf h low high ten in
      record {
        fails = (status, same);
        shutdown = elim (Bool-cases (ltb (n % 10) 4)) [
          | inl e ↦
              let small : n % 10 < 4 = ground (arith, e) in
              let (blown, ends) = blows kstrtoint reads (n % 10) tried small left in
              inl (small, blown ∙ ap (λ (r : Timer). record r { ccr1 = duty (n % 10) }) same, ends)
          | inr e ↦
              let big : 4 ≤ n % 10 = ground (arith, e) in
              inr (
                big,
                λ k.
                    close_device-spins
                      (λ j. fan_accepts kstrtoint off_byte (found kstrtoint j tried))
                      (λ j. motor_accepts off_byte (found kstrtoint j tried)) k 0
                      (λ j.
                        rw (stuck kstrtoint reads (n % 10) (omega arith) big j tried left) refl),
              )
        ];
      }
