-- ===== src/Uuid.antt =====
-- uuid/uuid_utils.h: counting through UUID strings.
pub mod ClockSequence
pub mod Time
use mysql_seed.Prelude.{
  ℕ, zero, suc, ◌+◌, ◌-◌, ◌*◌, ◌/◌, ◌%◌, ◌^◌, ◌≤◌, ◌<◌, min, ◌≡◌, refl, sym, ap, ◌∙◌, ◌≢◌, ◌↔◌, ◌⊎◌,
  inl, inr, Bool, true, false, not, ◌&&◌, ◌||◌, Option, none, some, List, [], ◌∷◌, ◌++◌, map, arith,
  ltb, leb, ◌==◌, if◌then◌else◌, eq→==, ==→eq, lt→ltb, ltb→lt, le→ltb, Bool-cases, Option-cases,
  length, get_or, set, replicate, length-append, length-replicate, all_below, all_below_sound, sum,
  sum-append, codes,
}
use mysql_seed.Cells.{set_string, next_hex, switch_on}

-- `cells` are the bytes at and before `ptr`, the last character of the clock sequence.
pub uuid_state_increment_clk_seq : List ℕ → List ℕ
uuid_state_increment_clk_seq cells = switch_on next_hex cells 0 0 (
    switch_on next_hex cells 1 1 (
      switch_on next_hex cells 2 2
        (switch_on next_hex cells 3 3 (set_string cells 3 (codes "0000")))))

-- The end of `uuid_string_increment_time`, behind "carry overflow to time_high_and_version".
pub increment_time_hi : List ℕ → ℕ → List ℕ
increment_time_hi cells p = switch_on next_hex cells p 0 (
    switch_on next_hex cells (p + 1) 1
      (switch_on next_hex cells (p + 2) 2 (set_string cells (p + 2) (codes "000"))))

-- Its middle, behind "carry overflow to time_mid".
pub increment_time_mid : List ℕ → ℕ → List ℕ
increment_time_mid cells p = switch_on next_hex cells p 0 (
    switch_on next_hex cells (p + 1) 1 (
      switch_on next_hex cells (p + 2) 2 (
        switch_on next_hex cells (p + 3) 3
          (increment_time_hi (set_string cells (p + 3) (codes "0000")) (p + 3 - 8)))))

-- `ptr`, at index `p`, is the last character of time_low.
pub uuid_string_increment_time : List ℕ → ℕ → List ℕ
unfolding increment_time_mid increment_time_hi
uuid_string_increment_time cells p = switch_on next_hex cells p 0 (
    switch_on next_hex cells (p + 1) 1 (
      switch_on next_hex cells (p + 2) 2 (
        switch_on next_hex cells (p + 3) 3 (
          switch_on next_hex cells (p + 4) 4 (
            switch_on next_hex cells (p + 5) 5 (
              switch_on next_hex cells (p + 6) 6 (
                switch_on next_hex cells (p + 7) 7 (
                  increment_time_mid (set_string cells (p + 7) (codes "00000000"))
                    (p + 7 - 12)))))))))
