-- ===== src/Cgi.antt =====
-- The web pages of cgisrc/, each a CGI program: `garden_stuff_view.c`, `garden_stuff_dev.c`,
-- `garden_stuff_set.c`, `login.c` and `register.c`. The CGI library cgic.c, which reads the form and
-- the cookie, and SQLite are not part of the program, and enter as arguments.
pub mod Session
pub mod Dev
pub mod View
pub mod Limits
pub mod Login
pub mod Register
use cloud_system.Base.{ℕ, List}

-- `cgiFormString(name, buf, max)`: the field of that name, cut to `max - 1` bytes.
abbrev pub Form : Type 0
Form = (name : List ℕ) → (max : ℕ) → List ℕ
