-- ===== src/LogManager/Entries.antt =====
-- What the file names and the lines of the log say (oryx/LogManager.cpp).
use oryxgame.Common.{
  append_assoc, ℕ, ◌+◌, ◌<◌, ◌≡◌, refl, sym, ap, ◌∙◌, ◌⊎◌, inl, inr, Bool, true, false, none, some,
  [], ◌∷◌, ◌++◌, arith, length, Bool-cases,
}
use oryxgame.Common.Int.{ℤ, ltb_ℤ}
use oryxgame.Common.Bytes.{Bytes}
use oryxgame.LogManager.{
  max_file_name_size, Logger, Tm, Entry, padded, decimal, log_file_name, log_line, log,
  file_name_begin,
}
use oryxgame.LogManager.Names.{IsTm, IsPlain, file_name_begin_lem}
use oryxgame.LogManager.Numbers.{AreDigits, value_from, IsNumber, padded-IsNumber, padded-AreDigits}
use oryxgame.LogManager.Writing.{entry, log-written}

-- The part of a path that is shown: what stands behind its last `/`, or all of it if no `/` stands behind its
-- first character.
pub data Shows : Bytes → Bytes → Type 0 where
  behind :
      {path name : Bytes} (dir : Bytes)
      → 0 < length dir
      → IsPlain name
      → path ≡ dir ++ (47 ∷ name)
      → Shows path name
  at_start :
      {path name : Bytes} (plain : Bytes)
      → IsPlain plain
      → path ≡ 47 ∷ plain
      → name ≡ 47 ∷ plain
      → Shows path name
  alone : {path name : Bytes} → IsPlain name → path ≡ name → Shows path name

-- The file `<log>-<year><month><day>-<hour>.log`, and the line `<hour:minute:second>[name:line]message`.
pub record Says (now : Tm) (log_name name : Bytes) (line : ℕ) (message : Bytes) (e : Entry)
    : Type 0 where
  pub year : Bytes
  pub month : Bytes
  pub day : Bytes
  pub hour : Bytes
  pub minute : Bytes
  pub second : Bytes
  pub line_number : Bytes
  pub is_year : IsNumber 4 (now.tm_year + 1900) year
  pub is_month : IsNumber 2 (now.tm_mon + 1) month
  pub is_day : IsNumber 2 now.tm_mday day
  pub is_hour : IsNumber 2 now.tm_hour hour
  pub is_minute : IsNumber 2 now.tm_min minute
  pub is_second : IsNumber 2 now.tm_sec second
  pub is_line : AreDigits line_number × (value_from 0 line_number ≡ line)
  pub file :
      e.file
      ≡ log_name ++ (45 ∷ (year ++ month ++ day ++ (45 ∷ (hour ++ (46 ∷ 108 ∷ 111 ∷ 103 ∷ [])))))
  pub text :
      e.text
      ≡ 60
        ∷ (hour
            ++ (58
                ∷ (minute
                    ++ (58
                        ∷ (second
                            ++ (62
                                ∷ 91
                                ∷ (name
                                    ++ (58 ∷ (line_number ++ (93 ∷ (message ++ (10 ∷ []))))))))))))

shown : {path name : Bytes} → Shows path name → file_name_begin path ≡ name
shown (behind {path} {name} dir some_dir plain e) =
    ap file_name_begin e ∙ (file_name_begin_lem dir name plain some_dir).0
shown (at_start plain h e f) =
    let some_dir : 0 < length {A = ℕ} (0 ∷ []) = omega arith in
    ap file_name_begin e ∙ (file_name_begin_lem (0 ∷ []) plain h some_dir).1 ∙ sym f
shown (alone {path} {name} plain e) =
    let some_dir : 0 < length {A = ℕ} (0 ∷ []) = omega arith in
    ap file_name_begin e ∙ (file_name_begin_lem (0 ∷ []) name plain some_dir).2

entry-Says :
    (now : Tm) (path : Bytes) (line : ℕ) (message log_name : Bytes) (name : Bytes)
    → IsTm now
    → now.tm_min < 60
    → now.tm_sec < 62
    → Shows path name
    → Says now log_name name line message (entry now path line message log_name)
unfolding log_file_name log_line decimal
entry-Says now path line message log_name name (year, month, day, hour) minute second shows =
    record {
      year = padded 4 (now.tm_year + 1900);
      month = padded 2 (now.tm_mon + 1);
      day = padded 2 now.tm_mday;
      hour = padded 2 now.tm_hour;
      minute = padded 2 now.tm_min;
      second = padded 2 now.tm_sec;
      line_number = padded 1 line;
      is_year = padded-IsNumber 3 (now.tm_year + 1900) (omega arith);
      is_month = padded-IsNumber 1 (now.tm_mon + 1) (omega arith);
      is_day = padded-IsNumber 1 now.tm_mday (omega arith);
      is_hour = padded-IsNumber 1 now.tm_hour (omega arith);
      is_minute = padded-IsNumber 1 now.tm_min (omega arith);
      is_second = padded-IsNumber 1 now.tm_sec (omega arith);
      is_line = padded-AreDigits 1 line;
      file = simp append_assoc refl;
      text = rw (shown shows) (simp append_assoc refl);
    }

-- `log` until the year 9999, on a logger whose name leaves room for the 16 characters of the date and the
-- end. A message below the level of the logger is left out and counts as written. For any other, if the file
-- cannot be opened, the result is false and nothing is written; else one line is added to one file, whose name
-- holds the year, month, day and hour as decimal numbers of fixed width, and the line says the time of day,
-- what stands behind the last `/` of the path, unless that is its first character, the number of the line, and
-- the message. With a null pointer for the path or the format the result is false and nothing is written.
pub log_lem :
    (opened : Bool) (now : Tm) (level : ℤ) (path : Bytes) (line : ℕ) (message : Bytes) (l : Logger)
    (name : Bytes)
    → IsTm now
    → now.tm_min < 60
    → now.tm_sec < 62
    → length l.file_name + 16 < max_file_name_size
    → Shows path name
    → (((ltb_ℤ level l.max_log_type ≡ true)
          × (log opened now level (some path) line (some message) l ≡ some (true, [])))
        ⊎ ((ltb_ℤ level l.max_log_type ≡ false)
            × (opened ≡ false)
            × (log opened now level (some path) line (some message) l ≡ some (false, [])))
        ⊎ ((ltb_ℤ level l.max_log_type ≡ false)
            × (opened ≡ true)
            × ((e : Entry) × (log opened now level (some path) line (some message) l
                  ≡ some (true, e ∷ []))
                × Says now l.file_name name line message e)))
      × (log opened now level none line (some message) l ≡ some (false, []))
      × (log opened now level (some path) line none l ≡ some (false, []))
log_lem opened now level path line message l name date minute second short shows =
    let (logged, no_path, no_text) = log-written opened now level path line message l date short in
    (
      elim (Bool-cases (ltb_ℤ level l.max_log_type)) [
        | inl below ↦ inl (below, logged ∙ rw below refl)
        | inr above ↦ elim (Bool-cases opened) [
          | inr closed ↦ inr (inl (above, closed, logged ∙ rw (above, closed) refl))
          | inl open_file ↦ inr (
              inr (
                above,
                open_file,
                (
                  entry now path line message l.file_name,
                  logged ∙ rw (above, open_file) refl,
                  entry-Says now path line message l.file_name name date minute second shows,
                ),
              ))
        ]
      ],
      no_path,
      no_text,
    )
