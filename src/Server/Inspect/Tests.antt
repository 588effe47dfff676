-- ===== src/Server/Inspect/Tests.antt =====
-- A list of three devices, of which the second hangs up, and the third falls silent later.
use cloud_system.Base.{◌≡◌, refl, true, List, [], ◌∷◌, pos, int_eq, ℕ, map, if◌then◌else◌, suc, ℤ}
use cloud_system.Server.Link.Heap.{Entry}
use cloud_system.Server.Inspect.{Heard, insprct_thread, show_list, rounds}
use cloud_system.Server.Inspect.Walk.{Comes, show_list-Comes}
use cloud_system.Server.Inspect.Keep.{by_socket, survive, insprct_thread-survive}

abbrev device : ℕ → Entry
device n = record { id = []; fd = pos n; tid = 70 }

abbrev three : List Entry
three = device 4 ∷ device 5 ∷ device 6 ∷ []

-- The second has hung up and the third is silent.
abbrev hears : ℕ → Entry → Heard
hears n e =
    if int_eq e.fd (pos 4)
    then Heard.answers
    else if int_eq e.fd (pos 5)
    then Heard.gone
    else Heard.silent

show_list_example : Comes hears (λ n. true) (show_list (suc (rounds 3)) hears (λ n. true) three)
show_list_example = show_list-Comes hears (λ n. true) three (refl, (refl, (refl, tt)))

-- In the first round all answer but the second.
abbrev two_rounds : List (ℤ → Heard)
two_rounds =
    (λ fd. if int_eq fd (pos 5) then Heard.gone else Heard.answers)
    ∷ (λ fd. if int_eq fd (pos 6) then Heard.silent else Heard.answers)
    ∷ []

insprct_thread_example : insprct_thread (map by_socket two_rounds) three ≡ survive two_rounds three
insprct_thread_example = insprct_thread-survive two_rounds three (refl, (refl, (refl, tt)))
