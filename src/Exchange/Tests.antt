-- ===== src/Exchange/Tests.antt =====
-- A device that connects, and the pages on a server with one device, while a login request waits.
use cloud_system.Base.{
  ◌++◌, ℕ, ◌≡◌, refl, some, List, [], ◌∷◌, take, pos, codes, str_eq, if◌then◌else◌, ◌-◌, map, inr,
  inl,
}
use cloud_system.Message.{zeroed, with_type, with_flags}
use cloud_system.Server.World.{World}
use cloud_system.Server.Handler.{State, Thread}
use cloud_system.Cgi.{Form}
use cloud_system.Exchange.{IsReady, asked, Msg}
use cloud_system.Exchange.Samples.{fixed, device, world, thread, ready, cookie, named}
use cloud_system.Exchange.Limits.{IsLimited, limits-IsLimited}
use cloud_system.Exchange.Behind.{IsBehind, submit-IsBehind}
use cloud_system.Exchange.Crossed.{IsCrossed, view-IsCrossed}
use cloud_system.Exchange.Burst.{Call, IsInOrder, burst-IsInOrder}
use cloud_system.Exchange.Connect.{IsConnected, credentials-IsConnected}
use cloud_system.Exchange.Session.{Whole, pages}
use cloud_system.Exchange.Sequence.{answers, pages-answers}
use cloud_system.Client.Main.Serve.{serve_all}
use cloud_system.Client.Main.Overtaken.{all_good}
use cloud_system.Exchange.Login.{IsLoggedIn, login-IsLoggedIn}
use cloud_system.Exchange.View.{IsShown, view-IsShown}
use cloud_system.Cgi.Session.{device_name}
use cloud_system.Cgi.Session.Cookie.{device_name_lem}
use cloud_system.Exchange.Doubled.{twice, IsMixed, submit-IsMixed}
use cloud_system.Exchange.Echo.{IsEchoed, deaf_pages-IsEchoed}
use cloud_system.Exchange.Gone.{IsGone, submit-IsGone}
use cloud_system.Exchange.Twins.{IsTaken, request-IsTaken}

abbrev form : Form
form name max = take (max - 1) (if str_eq name (codes "FAN") then codes "2" else codes "ON")

view-IsShown_example : IsShown fixed world thread cookie (zeroed 0) device
view-IsShown_example =
    view-IsShown fixed world thread 0 cookie (zeroed 0) device ready named (refl, refl)

-- A login while nothing else is under way.
abbrev quiet : World ℕ
quiet = record world { queue = [] }

abbrev login_form : Form
login_form name max =
    take (max - 1) (if str_eq name (codes "ID") then codes "admin" else codes "123")

login-IsLoggedIn_example : IsLoggedIn {F = ℕ} 0 quiet (λ _. some 1) login_form (codes "admin")
login-IsLoggedIn_example =
    login-IsLoggedIn 0 quiet (λ _. some 1) login_form (codes "admin") (codes "123") 0 refl refl refl
      tt tt (refl, tt)

abbrev limits_form : Form
limits_form name max = take (max - 1) (
    if str_eq name (codes "temp_up")
    then codes "30"
    else if str_eq name (codes "temp_low")
    then codes "20"
    else if str_eq name (codes "hum_up")
    then codes "70"
    else if str_eq name (codes "hum_low")
    then codes "40"
    else if str_eq name (codes "illu_up")
    then codes "90"
    else codes "10")

limits-IsLimited_example : IsLimited fixed world thread cookie limits_form (zeroed 0) device
limits-IsLimited_example =
    limits-IsLimited fixed world thread 0 cookie limits_form (zeroed 0) device ready named
      (refl, refl)

-- The late answer has flag 1, and the command of the next page is the one for the limits.
submit-IsBehind_example :
    IsBehind world thread cookie
      (with_flags 1 (zeroed 0))
      (record (zeroed 0) { commd = 2 })
      (zeroed 0)
submit-IsBehind_example =
    submit-IsBehind world thread 0 cookie (with_flags 1 (zeroed 0))
      (record (zeroed 0) { commd = 2 }) (zeroed 0) ready named

-- A device connects to a server that has none yet.
abbrev fresh_world : World ℕ
fresh_world = record world { devices = [] }

abbrev fresh_thread : Thread ℕ
fresh_thread = record thread { state = State.logging_in; recvmsgtype = pos 0; sendmsgtype = pos 0 }

credentials-IsConnected_example : IsConnected fresh_world fresh_thread (zeroed 0) 0
credentials-IsConnected_example =
    credentials-IsConnected fresh_world fresh_thread (zeroed 0) 0 refl refl (refl, tt) (refl, tt)

-- The limits are set, the devices are switched, and the climate is asked for.
abbrev three_requests : List (Msg ℕ)
three_requests =
    record (zeroed 0) { commd = 2 }
    ∷ record (zeroed 0) { commd = 3; devctrl = 9 }
    ∷ record (zeroed 0) { commd = 1 }
    ∷ []

abbrev start : Whole ℕ
start = record { world = world; thread = thread; device = device }

pages-answers_example :
    (t : Whole ℕ) × (pages fixed (zeroed 0) cookie three_requests start
      ≡ some (answers fixed (zeroed 0) three_requests device, t))
    × (t.device ≡ serve_all fixed all_good (zeroed 0) (map asked three_requests) device)
    × (t.world.queue ≡ world.queue)
    × IsReady t.world t.thread 0
pages-answers_example =
    pages-answers fixed (zeroed 0) cookie named 0 three_requests start ready (refl, refl)
      (inr (inl refl), (inr (inr refl), (inl refl, tt)))

view-IsCrossed_example : IsCrossed fixed world thread cookie (zeroed 0) device
view-IsCrossed_example =
    view-IsCrossed fixed world thread 0 cookie (zeroed 0) device ready named (refl, refl)

-- Two pages ask at once.
abbrev two_calls : List (Call ℕ)
two_calls =
    (record (zeroed 0) { commd = 1 }, with_flags 1 (zeroed 0))
    ∷ (record (zeroed 0) { commd = 3; devctrl = 9 }, with_flags 1 (zeroed 0))
    ∷ []

burst-IsInOrder_example : IsInOrder world thread 0 two_calls
burst-IsInOrder_example = burst-IsInOrder world thread 0 two_calls ready

-- A login that has been answered is still in the queue.
abbrev served_world : World ℕ
served_world = record world { queue = with_type (pos 2) (zeroed 0) ∷ [] }

submit-IsGone_example :
    IsGone served_world thread cookie
      (record (zeroed 0) { commd = 3; devctrl = 9 })
      (record (zeroed 0) { commd = 1 })
      (with_type (pos 1) (zeroed 0))
submit-IsGone_example =
    submit-IsGone served_world thread 0 cookie (record (zeroed 0) { commd = 3; devctrl = 9 })
      (record (zeroed 0) { commd = 1 }) (with_type (pos 1) (zeroed 0)) (codes "admin") 71
      (record {
        waiting = refl;
        receives = refl;
        sends = refl;
        free = refl;
        listed = refl;
        no_request = (refl, tt);
        no_answer = (refl, tt);
      })
      named refl refl (refl, tt) refl

-- Two devices.
abbrev twin_world : World ℕ
twin_world = record world {
  devices =
      record { id = codes "admin"; fd = pos 6; tid = 73 }
      ∷ record { id = codes "admin"; fd = pos 4; tid = 71 }
      ∷ [];
}

abbrev twin : Thread ℕ
twin = record thread { accept_fd = pos 6; tid = 73 }

twins_example :
    IsTaken twin_world thread twin (zeroed 0) (with_flags 1 (zeroed 0))
    × IsTaken twin_world twin thread (zeroed 0) (with_flags 0 (zeroed 0))
twins_example =
    request-IsTaken twin_world thread twin 0 cookie (zeroed 0) (with_flags 1 (zeroed 0))
      (with_flags 0 (zeroed 0))
      (record {
        waiting = refl;
        receives = refl;
        sends = refl;
        free = refl;
        listed = refl;
        no_request = (refl, tt);
        no_answer = (refl, tt);
      })
      (record {
        waiting = refl;
        receives = refl;
        sends = refl;
        free = refl;
        listed = refl;
        no_request = (refl, tt);
        no_answer = (refl, tt);
      })
      named

-- A user whose name is that of the device twice.
abbrev double_cookie : List ℕ
double_cookie = codes "user" ++ b'=' ∷ (twice ++ 0 ∷ [])

named_twice : device_name double_cookie ≡ some twice
named_twice =
    (device_name_lem (codes "user") twice [] (refl, (refl, (refl, (refl, tt))))
      (refl, (refl, (refl, (refl, (refl, (refl, (refl, (refl, (refl, (refl, tt))))))))))).0

forged_example :
    IsMixed world thread cookie double_cookie
      (record (zeroed 0) { commd = 1 })
      (record (zeroed 0) { commd = 3; devctrl = 9 })
      (with_flags 1 (zeroed 0))
forged_example =
    submit-IsMixed world thread 0 cookie double_cookie (record (zeroed 0) { commd = 1 })
      (record (zeroed 0) { commd = 3; devctrl = 9 }) (with_flags 1 (zeroed 0)) ready named
      named_twice refl (refl, tt)

-- The socket of the device gives errors.
deaf_pages-IsEchoed_example : IsEchoed world thread 0 cookie three_requests
deaf_pages-IsEchoed_example =
    deaf_pages-IsEchoed 0 cookie named three_requests world thread ready (refl, (refl, (refl, tt)))
