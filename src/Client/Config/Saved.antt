-- ===== src/Client/Config/Saved.antt =====
-- What `read_config` reads of a file that `setlimit_thread` has written.
use cloud_system.Base.{ℕ, ◌≡◌, refl, true, some, List, [], ◌∷◌, ◌++◌, arith, ==_refl, codes}
use cloud_system.Floats.{Floats}
use cloud_system.Message.{Msg, Limitset, with_flags}
use cloud_system.Client.{Globals, Request, finished}
use cloud_system.Client.Config.{
  skip_space, match_word, line, save_text, setlimit_thread, read_field, read_limits, read_config,
}

match_word-append : (key rest : List ℕ) → match_word key (key ++ rest) ≡ (true, rest)
unfolding match_word
match_word-append [] rest = refl
match_word-append (c ∷ key) rest = rw (==_refl c) (match_word-append key rest)

-- `%f` reads back what `%.2f` has printed in front of a newline, as `cut` of the number: the nearest
-- one with two digits behind the point.
abbrev pub ReadsBack : (fl : Floats) → (fl.Float → fl.Float) → Type 0
ReadsBack fl cut =
    (x : fl.Float) (rest : List ℕ) → fl.scan (fl.print x ++ 10 ∷ rest) ≡ (some (cut x), 10 ∷ rest)

module _ (fl : Floats) (cut : fl.Float → fl.Float) (reads : ReadsBack fl cut) where
  abbrev pub cut_all : Limitset fl.Float → Limitset fl.Float
  cut_all l = record {
    tempup = cut l.tempup;
    tempdown = cut l.tempdown;
    humeup = cut l.humeup;
    humedown = cut l.humedown;
    luxup = cut l.luxup;
    luxdown = cut l.luxdown;
  }

  read_field-line :
      (key : List ℕ) (x old : fl.Float) (rest : List ℕ)
      → skip_space rest ≡ rest
      → read_field fl key old (line fl key x rest) ≡ (cut x, rest)
  unfolding read_field skip_space
  read_field-line key x old rest words =
      ground (arith, match_word-append key (fl.print x ++ 10 ∷ rest), reads x rest)

  read_limits-save_text :
      (l old : Limitset fl.Float) → read_limits fl old (save_text fl l) ≡ cut_all l
  unfolding read_limits save_text skip_space
  read_limits-save_text l old =
      let t6 = line fl (codes "luxdown=") l.luxdown [] in
      let t5 = line fl (codes "luxup=") l.luxup t6 in
      let t4 = line fl (codes "humedown=") l.humedown t5 in
      let t3 = line fl (codes "humeup=") l.humeup t4 in
      let t2 = line fl (codes "tempdown=") l.tempdown t3 in
      rw (read_field-line (codes "tempup=") l.tempup old.tempup t2 refl) (
        rw (read_field-line (codes "tempdown=") l.tempdown old.tempdown t3 refl) (
          rw (read_field-line (codes "humeup=") l.humeup old.humeup t4 refl) (
            rw (read_field-line (codes "humedown=") l.humedown old.humedown t5 refl) (
              rw (read_field-line (codes "luxup=") l.luxup old.luxup t6 refl)
                (rw (read_field-line (codes "luxdown=") l.luxdown old.luxdown [] refl) refl)))))

  -- A device that starts on the file that `setlimit_thread` has written has the limits that were set,
  -- each cut to two digits behind the point, whatever its variables held; the thread itself has set
  -- them as they came, has answered with flag 1, and has switched the limits on.
  pub read_config-setlimit_thread :
      (buf armbuf : Msg fl.Float) (g h : Globals fl.Float)
      → let text = save_text fl buf.limitset in
        (setlimit_thread fl true true buf g
          ≡ finished
              (record g { setflags = 1; limits = buf.limitset })
              (Request.save text ∷ Request.reply (with_flags 1 buf) ∷ []))
        × (read_config fl (some text) armbuf h
            ≡ some (
              record armbuf { limitset = cut_all buf.limitset },
              record h { limits = cut_all buf.limitset },
            ))
  unfolding setlimit_thread read_config
  read_config-setlimit_thread buf armbuf g h =
      (refl, rw (read_limits-save_text buf.limitset armbuf.limitset) refl)
