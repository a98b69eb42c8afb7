-- ===== src/Tests/Calendar.antt =====
-- Timestamps and their strings.
use mysql_seed.Prelude.{
  ◌+◌, ◌*◌, ◌≡◌, refl, inl, some, [], ◌∷◌, ◌++◌, arith, ltb, if◌then◌else◌, codes,
}
use mysql_seed.Time.{Timestamp}
use mysql_seed.Time.Leap.{gregorian}
use mysql_seed.Time.MonthDay.{regular}
use mysql_seed.TimeString.{datetime_string_increment}
use mysql_seed.TimeString.Clock.{clock}
use mysql_seed.TimeString.Calendar.{OnCalendar, next_date, next_day}
use mysql_seed.Column.Fixed.{size_time_string}
use mysql_seed.Column.Fixed.Copies.{even_spans}
use mysql_seed.Column.Times.{build_column_datetime_unique}
use mysql_seed.Column.Times.Series.{build_column_datetime_unique-seconds}
use mysql_seed.TimeString.Datetime.{datetime_text, datetime_string_increment-next}
use mysql_seed.TimeString.Timestamp.{
  timestamp_string_increment, after, timestamp_string_increment-next,
}
use mysql_seed.TimeString.Init.{timestamp_string_init}
use mysql_seed.TimeString.Init.Round.{forward, timestamp_string_init-datetime_text}

-- 2000-02-29, where the last second of the day leads to March
leap_day : OnCalendar (gregorian 2000) 2 29
unfolding gregorian
leap_day = record { month = omega arith; day = omega arith; regular = refl }

datetime_string_increment-next_example :
    datetime_string_increment (datetime_text 2000 2 29 86399) ≡ (
      if ltb 86399 86399
      then datetime_text 2000 2 29 86400
      else clock 0 b' ' (next_date 2000 (next_day (gregorian 2000) 2 29)))
datetime_string_increment-next_example =
    datetime_string_increment-next 2000 2 29 86399 (omega arith) leap_day (omega arith)

march : clock 0 b' ' (next_date 2000 (next_day (gregorian 2000) 2 29)) ≡ datetime_text 2000 3 1 0
unfolding gregorian
march = refl

timestamp_string_increment-next_example :
    timestamp_string_increment (datetime_text 2000 2 29 86399)
    ≡ after 2000 2 29 86399 (omega arith) (omega arith) leap_day (omega arith)
timestamp_string_increment-next_example =
    timestamp_string_increment-next 2000 2 29 86399 (omega arith) (omega arith) leap_day
      (omega arith) (inl (omega arith))

abbrev noon : Timestamp
noon = record {
  year = 1999;
  leap_year = 0;
  month = 12;
  day = 31;
  hour = 12;
  minute = 34;
  second = 56;
}

timestamp_string_init-datetime_text_example :
    timestamp_string_init noon
    ≡ forward (datetime_text 1999 12 31 (12 * 3600 + 34 * 60 + 56)) ++ 0 ∷ []
timestamp_string_init-datetime_text_example =
    timestamp_string_init-datetime_text noon (omega arith) (omega arith) (omega arith) (omega arith)

-- the second block starts with the time of the last row of the first
build_column_datetime_unique-seconds_example :
    build_column_datetime_unique (datetime_text 2000 2 29 58) 2 (1 ∷ [])
    ≡ some (
      even_spans size_time_string 0 (2 ∷ 1 ∷ []),
      codes "2000-02-29 00:00:58"
          ++ 0 ∷ codes "2000-02-29 00:00:59"
          ++ 0 ∷ codes "2000-02-29 00:00:59"
          ++ 0 ∷ [],
    )
build_column_datetime_unique-seconds_example =
    build_column_datetime_unique-seconds 2000 2 29 58 2 (1 ∷ []) (omega arith) leap_day
      (omega arith, omega arith) (omega arith)
