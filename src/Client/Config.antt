-- ===== src/Client/Config.antt =====
-- `setlimit_thread` and `read_config` of src/client.c: the limits, which the device keeps in the file
-- init.txt. A file is the list of its bytes.
pub mod Saved
mod Tests
use cloud_system.Base.{
  ℕ, Bool, true, false, not, ◌||◌, ◌&&◌, Option, none, some, List, [], ◌∷◌, ◌++◌, ◌==◌, leb,
  if◌then◌else◌, codes,
}
use cloud_system.Floats.{Floats}
use cloud_system.Message.{Msg, Limitset, with_flags}
use cloud_system.Client.{Globals, Request, Ran, finished, aborted}

abbrev newline : ℕ
newline = 10

-- What `isspace` says of a byte.
abbrev pub is_space : ℕ → Bool
is_space c = (c == 32) || (leb 9 c && leb c 13)

-- White space in the format of `fscanf`: all that comes is read.
unfoldable pub skip_space : List ℕ → List ℕ
skip_space [] = []
skip_space (c ∷ cs) = if is_space c then skip_space cs else c ∷ cs

-- A word in the format: the bytes that agree are read, and whether all did.
unfoldable pub match_word : List ℕ → List ℕ → Bool × List ℕ
match_word [] text = (true, text)
match_word (c ∷ cs) [] = (false, [])
match_word (c ∷ cs) (d ∷ ds) = if d == c then match_word cs ds else (false, d ∷ ds)

module _ (fl : Floats) where
  -- `fprintf(fp, "key=%.2f\n", x)` in front of the rest of the file.
  abbrev pub line : List ℕ → fl.Float → List ℕ → List ℕ
  line key x rest = key ++ (fl.print x ++ newline ∷ rest)

  unfoldable pub save_text : Limitset fl.Float → List ℕ
  save_text l = line (codes "tempup=") l.tempup (
      line (codes "tempdown=") l.tempdown (
        line (codes "humeup=") l.humeup (
          line (codes "humedown=") l.humedown
            (line (codes "luxup=") l.luxup (line (codes "luxdown=") l.luxdown [])))))

  -- The thread, by whether `fopen` and `send` succeed.
  unfoldable pub setlimit_thread :
      (file_ok send_ok : Bool) → Msg fl.Float → Globals fl.Float → Ran fl.Float
  setlimit_thread file_ok send_ok buf g =
      let g' = record g { setflags = 1; limits = buf.limitset } in
      let done = Request.save (save_text buf.limitset) ∷ Request.reply (with_flags 1 buf) ∷ [] in
      if not file_ok then aborted [] else if not send_ok then aborted done else finished g' done

  -- `fscanf(fp, "key=%f\n", &x)`: the value of x behind it, and the rest of the file.
  unfoldable pub read_field : List ℕ → fl.Float → List ℕ → fl.Float × List ℕ
  unfolding match_word skip_space
  read_field key x text =
      let (same, rest) = match_word key text in
      if not same then (x, rest) else (elim ((fl.scan rest).0) [
        | none ↦ (x, (fl.scan rest).1)
        | some y ↦ (y, skip_space (fl.scan rest).1)
      ])

  -- The six fields in their order, over what `armbuf` holds.
  unfoldable pub read_limits : Limitset fl.Float → List ℕ → Limitset fl.Float
  read_limits l text =
      let (tempup, t1) = read_field (codes "tempup=") l.tempup text in
      let (tempdown, t2) = read_field (codes "tempdown=") l.tempdown t1 in
      let (humeup, t3) = read_field (codes "humeup=") l.humeup t2 in
      let (humedown, t4) = read_field (codes "humedown=") l.humedown t3 in
      let (luxup, t5) = read_field (codes "luxup=") l.luxup t4 in
      let (luxdown, _) = read_field (codes "luxdown=") l.luxdown t5 in
      record {
        tempup = tempup;
        tempdown = tempdown;
        humeup = humeup;
        humedown = humedown;
        luxup = luxup;
        luxdown = luxdown;
      }

  -- `none`: the file cannot be opened, and the process shuts down.
  unfoldable pub read_config :
      Option (List ℕ) → Msg fl.Float → Globals fl.Float → Option (Msg fl.Float × Globals fl.Float)
  unfolding read_limits
  read_config none armbuf g = none
  read_config (some text) armbuf g =
      let l = read_limits armbuf.limitset text in
      some (record armbuf { limitset = l }, record g { limits = l })
