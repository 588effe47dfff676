-- ===== src/Cgi/Register/Tests.antt =====
-- Registrations in a table with one user.
use cloud_system.Base.{ℕ, ◌≡◌, refl, List, [], ◌∷◌, ◌++◌, codes, inr, pos, true, arith}
use cloud_system.Message.{zeroed}
use cloud_system.Cgi.Login.{sql, submit}
use cloud_system.Cgi.Register.{Page, select_text, insert_text, examine, commit, register}
use cloud_system.Cgi.Register.Table.{Row}
use cloud_system.Cgi.Register.Recorded.{IsRecorded, register-IsRecorded}
use cloud_system.Cgi.Register.Unique.{AllDistinct, register-AllDistinct}
use cloud_system.Cgi.Register.Submit.{rows_of, register-submit}
use cloud_system.Cgi.Register.Race.{IsRaced, examine-IsRaced}
use cloud_system.Cgi.Register.Memory.{memory, memory-IsLawful}

abbrev ann : List ℕ
ann = codes "ann"

abbrev bob : List ℕ
bob = codes "bob"

abbrev pass : List ℕ
pass = codes "123"

abbrev word : List ℕ
word = codes "456"

abbrev one_user : List Row
one_user = (ann, pass) ∷ []

-- A new user, one whose name is taken, one who gives no name, and one with two passwords.
register_new :
    register memory one_user bob word word ≡ (Page.registered, one_user ++ (bob, word) ∷ [])
unfolding register examine commit select_text insert_text
register_new = refl

register_taken : register memory one_user ann word word ≡ (Page.taken, one_user)
unfolding register examine commit select_text insert_text
register_taken = refl

register_nameless : register memory one_user [] word word ≡ (Page.empty, one_user)
unfolding register examine
register_nameless = refl

register_differ : register memory one_user bob word pass ≡ (Page.differ, one_user)
unfolding register examine
register_differ = refl

registration_example :
    IsRecorded one_user
      (register memory one_user bob word word).1
      bob
      word
      word
      (register memory one_user bob word word).0
registration_example =
    register-IsRecorded memory (λ rows. rows) memory-IsLawful one_user bob word word refl refl

distinct_example : AllDistinct (register memory one_user bob word word).1
distinct_example =
    register-AllDistinct memory (λ rows. rows) memory-IsLawful one_user bob word word refl refl
      (refl, tt)

submit_example :
    submit {F = ℕ} 0 true
      (λ t. rows_of (memory.get_table (register memory one_user bob word word).1 t))
      bob
      word
    ≡ inr (record (zeroed 0) {
      msgtype = pos 1;
      user = record { username = bob; password = []; flags = 0 };
    })
unfolding register examine commit select_text insert_text sql
submit_example =
    register-submit memory (λ rows. rows) memory-IsLawful 0 one_user bob word word 1 refl refl refl
      refl

abbrev one_more : List Row
one_more = (commit memory one_user (insert_text bob pass)).1

race_example : IsRaced memory (λ rows. rows) one_user bob pass word one_more
unfolding commit select_text insert_text
race_example =
    examine-IsRaced memory (λ rows. rows) memory-IsLawful one_user bob pass word 0 1 refl refl refl
      (omega arith) (omega arith) (omega arith) refl refl refl refl refl refl refl
