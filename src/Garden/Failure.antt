-- ===== src/Garden/Failure.antt =====
-- A climate sensor that does not answer: what the client and the sensor's test program do.
use cloud_system.Base.{ℕ, ◌≡◌, ◌⊎◌, refl, false, none, List, [], ◌∷◌, ◌++◌, Option-cases, inl, inr}
use cloud_system.Floats.{Floats}
use cloud_system.Client.{Globals}
use cloud_system.Client.Env.{hold_round, temp_of, hume_of}
use cloud_system.Driver.Climate
use cloud_system.Driver.Climate.{tmp_addr, hum_addr}
use cloud_system.Driver.Fan.{Parsed}
use cloud_system.Driver.Fan.Level.{ReadsDigit}
use cloud_system.Garden.{Hardware, carry_out_all}
use cloud_system.Garden.Rounds.{goes, ends, Buses, Turn, ask, sensed, round, perform_all}
use cloud_system.Garden.Sensing.{Given, word, ask_lem, ask-none}
use cloud_system.Garden.Lasting.{AreAnswered, AreSound}
use cloud_system.Garden.Shutdown.{IsSafe, perform_all-IsSafe}
use cloud_system.Garden.Programs.{climate_test}

-- One of the two transfers fails.
abbrev pub IsSilent : Climate.Bus → Type 0
IsSilent bus = (bus tmp_addr ≡ none) ⊎ (bus hum_addr ≡ none)

-- Buses on which both transfers give two bytes, and what the program prints of them.
abbrev pub AllGiven : List Climate.Bus → Type 0
AllGiven [] = Unit
AllGiven (bus ∷ rest) = (Given (bus tmp_addr) × Given (bus hum_addr)) × AllGiven rest

module _ (fl : Floats) where
  abbrev pub readings : List Climate.Bus → List (fl.Float × fl.Float)
  readings [] = []
  readings (bus ∷ rest) =
      (temp_of fl (word (bus tmp_addr)), hume_of fl (word (bus hum_addr))) ∷ readings rest

  program_stops :
      (before after : List Climate.Bus) (bus : Climate.Bus)
      → AllGiven before
      → IsSilent bus
      → climate_test fl (before ++ bus ∷ after) ≡ (readings before, false)
  unfolding climate_test
  program_stops [] after bus all (inl tmp) =
      rw (ask-none bus Climate.Command.get_tmp (λ e. cc) tmp, climate_test) refl
  program_stops [] after bus all (inr hum) = elim (Option-cases (ask bus Climate.Command.get_tmp)) [
    | inl e ↦ rw (e, climate_test) refl
    | inr (t, e) ↦ rw (e, ask-none bus Climate.Command.get_hum (λ x. cc) hum, climate_test) refl
  ]
  program_stops (b ∷ before) after bus ((t, hu), all) silent =
      rw
        (
          ask_lem b Climate.Command.get_tmp (λ e. cc) t,
          ask_lem b Climate.Command.get_hum (λ e. cc) hu,
          program_stops before after bus all silent,
          climate_test,
        )
        refl

  module _ (kstrtoint : List ℕ → Parsed) where
    round_stops :
        (b : Buses) (g : Globals fl.Float) (h : Hardware)
        → IsSilent b.climate
        → round fl kstrtoint b g h ≡ ends h
    unfolding round sensed hold_round carry_out_all
    round_stops b g h (inl tmp) = rw (ask-none b.climate Climate.Command.get_tmp (λ e. cc) tmp) refl
    round_stops b g h (inr hum) = elim (Option-cases (ask b.climate Climate.Command.get_tmp)) [
      | inl e ↦ rw e refl
      | inr (t, e) ↦ rw (e, ask-none b.climate Climate.Command.get_hum (λ x. cc) hum) refl
    ]

    -- When a transfer of the climate sensor fails, the device shuts down, and safely: with a
    -- `kstrtoint` that reads a digit in front of a NUL, buffers of ten bytes for the outputs and a NUL
    -- as the second byte of the fan driver's buffer, the process runs through any order of rounds with
    -- an answering sensor, ends of the long pause and commands; the round that finds the sensor silent
    -- ends the process and leaves the hardware as it was, and then its `close_device` returns at its
    -- first call with the six lamps off, the duty cycle 0 and the motor stopped. The sensor's test
    -- program prints what the rounds before measure and ends at the same place.
    pub silent-IsSafe :
        (ts : List (Turn fl.Float)) (b : Buses) (before after : List Climate.Bus)
        (g : Globals fl.Float) (h : Hardware)
        → ReadsDigit kstrtoint
        → AreAnswered ts
        → AreSound g h
        → AllGiven before
        → IsSilent b.climate
        → ((g' : Globals fl.Float) × (h' : Hardware) × (perform_all fl kstrtoint ts g h
              ≡ goes (g', h'))
            × (round fl kstrtoint b g' h' ≡ ends h')
            × IsSafe fl.Float kstrtoint h')
          × (climate_test fl (before ++ b.climate ∷ after) ≡ (readings before, false))
    silent-IsSafe ts b before after g h reads answered sound given silent =
        let (g', h', ran, safe) = perform_all-IsSafe kstrtoint reads fl ts g h answered sound in
        (
          (g', h', ran, round_stops b g' h' silent, safe),
          program_stops before after b.climate given silent,
        )
