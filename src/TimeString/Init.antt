-- ===== src/TimeString/Init.antt =====
-- timestamp_string_init of time/time_string.h: the strings of timestamps. Each of its switches is
-- a table of the cases and the text for each. The text is written from front to back.
pub mod Round
use Prim.Native.String.{String}
use mysql_seed.Prelude.{
  ℕ, zero, suc, ◌+◌, ◌-◌, ◌*◌, ◌/◌, ◌%◌, ◌^◌, ◌≤◌, ◌<◌, min, ◌≡◌, refl, sym, ap, ◌∙◌, ◌≢◌, ◌↔◌, ◌⊎◌,
  inl, inr, Bool, true, false, not, ◌&&◌, ◌||◌, Option, none, some, List, [], ◌∷◌, ◌++◌, map, arith,
  ltb, leb, ◌==◌, if◌then◌else◌, eq→==, ==→eq, lt→ltb, ltb→lt, le→ltb, ne→==, Bool-cases,
  Option-cases, length, get_or, set, replicate, length-append, length-replicate, all_below,
  all_below_sound, sum, sum-append, codes,
}
use mysql_seed.Cells.{digit_to_ascii}
use mysql_seed.Time.{Timestamp}

-- switch (n) { case C: PUT_STRING_WIDTH(string, TEXT, n); break; ... default: ... }
abbrev pub switch_number : ℕ → List (ℕ × String) → String → List ℕ
switch_number n [] default = codes default
switch_number n ((c, text) ∷ cases) default =
    if n == c then codes text else switch_number n cases default

abbrev pub month_string : ℕ → List ℕ
month_string n =
    switch_number n
      ((12, "-12-")
        ∷ (11, "-11-")
        ∷ (10, "-10-")
        ∷ (9, "-09-")
        ∷ (8, "-08-")
        ∷ (7, "-07-")
        ∷ (6, "-06-")
        ∷ (5, "-05-")
        ∷ (4, "-04-")
        ∷ (3, "-03-")
        ∷ (2, "-02-")
        ∷ [])
      "-01-"

abbrev pub day_string : ℕ → List ℕ
day_string n =
    switch_number n
      ((31, "31 ")
        ∷ (30, "30 ")
        ∷ (29, "29 ")
        ∷ (28, "28 ")
        ∷ (27, "27 ")
        ∷ (26, "26 ")
        ∷ (25, "25 ")
        ∷ (24, "24 ")
        ∷ (23, "23 ")
        ∷ (22, "22 ")
        ∷ (21, "21 ")
        ∷ (20, "20 ")
        ∷ (19, "19 ")
        ∷ (18, "18 ")
        ∷ (17, "17 ")
        ∷ (16, "16 ")
        ∷ (15, "15 ")
        ∷ (14, "14 ")
        ∷ (13, "13 ")
        ∷ (12, "12 ")
        ∷ (11, "11 ")
        ∷ (10, "10 ")
        ∷ (9, "09 ")
        ∷ (8, "08 ")
        ∷ (7, "07 ")
        ∷ (6, "06 ")
        ∷ (3, "03 ")
        ∷ (2, "02 ")
        ∷ [])
      "01 "

abbrev pub hour_string : ℕ → List ℕ
hour_string n =
    switch_number n
      ((23, "23:")
        ∷ (22, "22:")
        ∷ (21, "21:")
        ∷ (20, "20:")
        ∷ (19, "19:")
        ∷ (18, "18:")
        ∷ (17, "17:")
        ∷ (16, "16:")
        ∷ (15, "15:")
        ∷ (14, "14:")
        ∷ (13, "13:")
        ∷ (12, "12:")
        ∷ (11, "11:")
        ∷ (10, "10:")
        ∷ (9, "09:")
        ∷ (8, "08:")
        ∷ (7, "07:")
        ∷ (6, "06:")
        ∷ (5, "05:")
        ∷ (4, "04:")
        ∷ (3, "03:")
        ∷ (2, "02:")
        ∷ (1, "01:")
        ∷ [])
      "00:"

abbrev pub minute_string : ℕ → List ℕ
minute_string n =
    switch_number n
      ((59, "59:")
        ∷ (58, "58:")
        ∷ (57, "57:")
        ∷ (56, "56:")
        ∷ (55, "55:")
        ∷ (54, "54:")
        ∷ (53, "53:")
        ∷ (52, "52:")
        ∷ (51, "51:")
        ∷ (50, "50:")
        ∷ (49, "49:")
        ∷ (48, "48:")
        ∷ (47, "47:")
        ∷ (46, "46:")
        ∷ (45, "45:")
        ∷ (44, "44:")
        ∷ (43, "43:")
        ∷ (42, "42:")
        ∷ (41, "41:")
        ∷ (40, "40:")
        ∷ (39, "39:")
        ∷ (38, "38:")
        ∷ (37, "37:")
        ∷ (36, "36:")
        ∷ (35, "35:")
        ∷ (34, "34:")
        ∷ (33, "33:")
        ∷ (32, "32:")
        ∷ (31, "31:")
        ∷ (30, "30:")
        ∷ (29, "29:")
        ∷ (28, "28:")
        ∷ (27, "27:")
        ∷ (26, "26:")
        ∷ (25, "25:")
        ∷ (24, "24:")
        ∷ (23, "23:")
        ∷ (22, "22:")
        ∷ (21, "21:")
        ∷ (20, "20:")
        ∷ (19, "19:")
        ∷ (18, "18:")
        ∷ (17, "17:")
        ∷ (16, "16:")
        ∷ (15, "15:")
        ∷ (14, "14:")
        ∷ (13, "13:")
        ∷ (12, "12:")
        ∷ (11, "11:")
        ∷ (10, "10:")
        ∷ (9, "09:")
        ∷ (8, "08:")
        ∷ (7, "07:")
        ∷ (6, "06:")
        ∷ (5, "05:")
        ∷ (4, "04:")
        ∷ (3, "03:")
        ∷ (2, "02:")
        ∷ (1, "01:")
        ∷ [])
      "00:"

abbrev pub second_string : ℕ → List ℕ
second_string n =
    switch_number n
      ((59, "59")
        ∷ (58, "58")
        ∷ (57, "57")
        ∷ (56, "56")
        ∷ (55, "55")
        ∷ (54, "54")
        ∷ (53, "53")
        ∷ (52, "52")
        ∷ (51, "51")
        ∷ (50, "50")
        ∷ (49, "49")
        ∷ (48, "48")
        ∷ (47, "47")
        ∷ (46, "46")
        ∷ (45, "45")
        ∷ (44, "44")
        ∷ (43, "43")
        ∷ (42, "42")
        ∷ (41, "41")
        ∷ (40, "40")
        ∷ (39, "39")
        ∷ (38, "38")
        ∷ (37, "37")
        ∷ (36, "36")
        ∷ (35, "35")
        ∷ (34, "34")
        ∷ (33, "33")
        ∷ (32, "32")
        ∷ (31, "31")
        ∷ (30, "30")
        ∷ (29, "29")
        ∷ (28, "28")
        ∷ (27, "27")
        ∷ (26, "26")
        ∷ (25, "25")
        ∷ (24, "24")
        ∷ (23, "23")
        ∷ (22, "22")
        ∷ (21, "21")
        ∷ (20, "20")
        ∷ (19, "19")
        ∷ (18, "18")
        ∷ (17, "17")
        ∷ (16, "16")
        ∷ (15, "15")
        ∷ (14, "14")
        ∷ (13, "13")
        ∷ (12, "12")
        ∷ (11, "11")
        ∷ (10, "10")
        ∷ (9, "09")
        ∷ (8, "08")
        ∷ (7, "07")
        ∷ (6, "06")
        ∷ (5, "05")
        ∷ (4, "04")
        ∷ (3, "03")
        ∷ (2, "02")
        ∷ (1, "01")
        ∷ [])
      "00"

-- The bytes that are written from `string` on; the last one ends the string.
pub timestamp_string_init : Timestamp → List ℕ
timestamp_string_init ts =
    let rem = ts.year % 1000 in
    let rem' = rem % 100 in
    digit_to_ascii (ts.year / 1000)
      ∷ digit_to_ascii (rem / 100)
      ∷ digit_to_ascii (rem' / 10)
      ∷ digit_to_ascii (rem' % 10)
      ∷ month_string ts.month
    ++ (day_string ts.day
        ++ (hour_string ts.hour
            ++ (minute_string ts.minute ++ (second_string ts.second ++ 0 ∷ []))))
