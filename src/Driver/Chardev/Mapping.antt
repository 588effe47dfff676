-- ===== src/Driver/Chardev/Mapping.antt =====
-- How far the chain of `ioremap` calls gets.
use mathlib.Core.List.{append-nil, append_assoc}
use cloud_system.Base.{
  ℕ, ◌≡◌, refl, ap, Bool, true, false, List, [], ◌∷◌, ◌++◌, arith, ◌⊎◌, inl, Bool-cases, inr,
}
use cloud_system.Driver.Chardev.{Held, map_all}

abbrev pub AllMap : (ℕ → Bool) → List ℕ → Type 0
AllMap ok [] = Unit
AllMap ok (a ∷ as') = (ok a ≡ true) × AllMap ok as'

abbrev pub with_mapped : Held → List ℕ → Held
with_mapped h as' = record h { mapped = h.mapped ++ as' }

pub map_all-done :
    (ok : ℕ → Bool) (as' : List ℕ) (h : Held)
    → AllMap ok as'
    → map_all ok as' h ≡ (true, with_mapped h as')
unfolding map_all
map_all-done ok [] h all = ground (arith, append-nil h.mapped)
map_all-done ok (a ∷ as') h all =
    rw (all.0, map_all-done ok as' (with_mapped h (a ∷ [])) all.1)
      (ap (λ m. (true, record h { mapped = m })) (append_assoc h.mapped (a ∷ []) as'))

pub map_all-stopped :
    (ok : ℕ → Bool) (before after : List ℕ) (a : ℕ) (h : Held)
    → AllMap ok before
    → ok a ≡ false
    → map_all ok (before ++ a ∷ after) h ≡ (false, with_mapped h before)
unfolding map_all
map_all-stopped ok [] after a h all bad = rw bad (ground (arith, append-nil h.mapped))
map_all-stopped ok (b ∷ before) after a h all bad =
    rw (all.0, map_all-stopped ok before after a (with_mapped h (b ∷ [])) all.1 bad)
      (ap (λ m. (false, record h { mapped = m })) (append_assoc h.mapped (b ∷ []) before))

-- All registers can be mapped, or there is a first one that cannot.
pub AllMap-cases :
    (ok : ℕ → Bool) (as' : List ℕ)
    → AllMap ok as'
      ⊎ ((before after : List ℕ) × (a : ℕ) × (as' ≡ before ++ a ∷ after)
          × AllMap ok before
          × (ok a ≡ false))
AllMap-cases ok [] = inl tt
AllMap-cases ok (a ∷ as') = elim (Bool-cases (ok a)) [
  | inr bad ↦ inr ([], as', a, refl, tt, bad)
  | inl good ↦ elim (AllMap-cases ok as') [
    | inl all ↦ inl (good, all)
    | inr (before, after, b, split, all, bad) ↦
        inr (a ∷ before, after, b, ap (λ l. a ∷ l) split, (good, all), bad)
  ]
]
