-- ===== src/Cgi/Login/Tests.antt =====
-- Login requests of three users, of which "ann" is the page's.
use cloud_system.Base.{ℕ, ◌≡◌, refl, none, some, List, [], ◌∷◌, arith, codes, pos}
use cloud_system.Message.{Msg, zeroed}
use cloud_system.Cgi.Login.{handler}
use cloud_system.Cgi.Login.Turn.{handler-ends, handler-spins}

abbrev login_of : List ℕ → Msg ℕ
login_of name = record (zeroed 0) {
  msgtype = pos 1;
  user = record { username = name; password = []; flags = 0 };
}

abbrev ann : Msg ℕ
ann = login_of (codes "ann")

abbrev bob : Msg ℕ
bob = login_of (codes "bob")

abbrev eve : Msg ℕ
eve = login_of (codes "eve")

handler-ends_example : handler 2 (codes "ann") ann (bob ∷ ann ∷ eve ∷ []) ≡ some (eve ∷ bob ∷ [])
handler-ends_example =
    handler-ends (codes "ann") 2 ann ann (bob ∷ []) (eve ∷ []) (omega arith) (refl, refl, tt) refl
      refl

handler-spins_example : handler 1000 (codes "ann") ann (bob ∷ eve ∷ []) ≡ none
handler-spins_example =
    handler-spins (codes "ann") 1000 ann bob (eve ∷ []) (refl, refl, (refl, refl, tt))
