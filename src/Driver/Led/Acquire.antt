-- ===== src/Driver/Led/Acquire.antt =====
-- What `myleds_init_value` holds when it returns.
use cloud_system.Base.{
  ℕ, ◌+◌, ◌-◌, ◌≤◌, ◌≡◌, ◌⊎◌, refl, inl, inr, Bool, true, false, not, List, [], ◌∷◌, arith,
  Bool-cases, if◌then◌else◌, ℤ, pos, is_neg, int_eq,
}
use cloud_system.Driver.Led.{
  Board, Answer, gpio_request, gpio_free, gpio_set_value, free_all, init_value, uninit_value,
  numbers,
}

-- How often a line stands in a list.
abbrev pub count : ℤ → List ℤ → ℕ
count x [] = 0
count x (n ∷ ns) = if int_eq x n then count x ns + 1 else count x ns

pub free_all-count :
    (x : ℤ) (got : List ℤ) (b : Board) → (free_all got b).gpios x ≡ b.gpios x - count x got
unfolding free_all
free_all-count x [] b = omega arith
free_all-count x (n ∷ got) b = ground (arith, free_all-count x got (gpio_free n b))

pub uninit_value-count :
    (x : ℤ) (nos : List ℤ) (b : Board) → (uninit_value nos b).gpios x ≡ b.gpios x - count x nos
unfolding uninit_value
uninit_value-count x [] b = omega arith
uninit_value-count x (n ∷ nos) b = ground (arith, uninit_value-count x nos (gpio_free n b))

-- The line that a failure leaves behind: that of the first name whose direction could not be set.
abbrev pub leaked : ℤ → List Answer → ℕ
leaked x [] = 0
leaked x (a ∷ rest) =
    if is_neg a.line
    then 0
    else if not (int_eq a.requested (pos 0))
    then 0
    else if not (int_eq a.directed (pos 0))
    then (if int_eq x a.line then 1 else 0)
    else leaked x rest

-- Whether each call succeeds for every name.
abbrev pub all_given : List Answer → Bool
all_given [] = true
all_given (a ∷ rest) =
    if is_neg a.line
    then false
    else if not (int_eq a.requested (pos 0))
    then false
    else if not (int_eq a.directed (pos 0))
    then false
    else all_given rest

pub leaked_none : (x : ℤ) (as' : List Answer) → all_given as' ≡ true → leaked x as' ≡ 0
leaked_none x [] h = refl
leaked_none x (a ∷ rest) h = ground (arith, leaked_none x rest)

-- The lines after `myleds_init_value`, from a board that holds those of the names before.
abbrev pub Holds : List Answer → List ℤ → Board → ℤ × Board → ℤ → Type 0
Holds as' got b (ret, b') x =
    ((ret ≡ pos 0) × (all_given as' ≡ true) × (b'.gpios x ≡ b.gpios x + count x (numbers as')))
    ⊎ ((int_eq ret (pos 0) ≡ false)
        × (all_given as' ≡ false)
        × (b'.gpios x + count x got ≡ b.gpios x + leaked x as'))

neg-ne-zero : (n : ℤ) → is_neg n ≡ true → int_eq n (pos 0) ≡ false
neg-ne-zero (pos n) h = cc
neg-ne-zero (ℤ.negsuc n) h = refl

pub init_value-Holds :
    (as' : List Answer) (got : List ℤ) (b : Board) (x : ℤ)
    → count x got ≤ b.gpios x
    → Holds as' got b (init_value as' got b) x
unfolding init_value
init_value-Holds [] got b x room = inl (refl, refl, omega arith)
init_value-Holds (a ∷ rest) got b x room = cases (
    init_value-Holds rest (a.line ∷ got) (gpio_set_value a.line 0 (gpio_request a.line b)) x
      (ground arith))
  where
    next : ℤ × Board
    next = init_value rest (a.line ∷ got) (gpio_set_value a.line 0 (gpio_request a.line b))

    follow :
        Holds rest (a.line ∷ got) (gpio_set_value a.line 0 (gpio_request a.line b)) next x
        → ((next.0 ≡ pos 0)
            × (all_given rest ≡ true)
            × (next.1.gpios x ≡ b.gpios x + count x (a.line ∷ numbers rest)))
          ⊎ ((int_eq next.0 (pos 0) ≡ false)
              × (all_given rest ≡ false)
              × (next.1.gpios x + count x got ≡ b.gpios x + leaked x rest))
    follow (inl (z, g, more)) = inl (z, g, ground arith)
    follow (inr (z, g, more)) = inr (z, g, ground arith)

    cases :
        Holds rest (a.line ∷ got) (gpio_set_value a.line 0 (gpio_request a.line b)) next x
        → Holds
            (a ∷ rest)
            got
            b
            (if is_neg a.line
              then (a.line, free_all got b)
              else if not (int_eq a.requested (pos 0))
              then (a.requested, free_all got b)
              else if not (int_eq a.directed (pos 0))
              then (a.directed, free_all got (gpio_request a.line b))
              else next)
            x
    cases ih = elim (Bool-cases (is_neg a.line)) [
      | inl bad ↦
          rw bad (inr (neg-ne-zero a.line bad, refl, ground (arith, free_all-count x got b)))
      | inr line' ↦ elim (Bool-cases (int_eq a.requested (pos 0))) [
        | inr bad ↦ rw (line', bad) (inr (bad, refl, ground (arith, free_all-count x got b)))
        | inl given ↦ elim (Bool-cases (int_eq a.directed (pos 0))) [
          | inr bad ↦
              rw (line', given, bad)
                (inr (bad, refl, ground (arith, free_all-count x got (gpio_request a.line b))))
          | inl directed ↦ rw (line', given, directed) (follow ih)
        ]
      ]
    ]
