-- ===== src/Group.antt =====
-- generate/group.c: how many rows each group of a table gets. The array is a list and a pointer
-- into it an index; size_t has 64 bits.
pub mod Even
use mysql_seed.Prelude.{
  ℕ, zero, suc, ◌+◌, ◌-◌, ◌*◌, ◌/◌, ◌%◌, ◌^◌, ◌≤◌, ◌<◌, min, ◌≡◌, refl, sym, ap, ◌∙◌, ◌≢◌, ◌↔◌, ◌⊎◌,
  inl, inr, Bool, true, false, not, ◌&&◌, ◌||◌, Option, none, some, List, [], ◌∷◌, ◌++◌, map, arith,
  ltb, leb, ◌==◌, if◌then◌else◌, eq→==, ==→eq, lt→ltb, ltb→lt, le→ltb, ne→==, Bool-cases,
  Option-cases, length, get_or, set, replicate, length-append, length-replicate, all_below,
  all_below_sound, sum, sum-append, codes,
}

-- The loop `while (group < until) { *group = v; ++group; }`, which runs `until - group` times: the
-- array and `group` behind it.
pub write_run : ℕ → ℕ → List ℕ → ℕ → List ℕ × ℕ
write_run zero v array group = (array, group)
write_run (suc n) v array group = write_run n v (set array group v) (suc group)

pub partition_groups_even : List ℕ → ℕ → ℕ → ℕ → List ℕ × ℕ
unfolding write_run
partition_groups_even array group group_count row_count =
    let until = group + group_count in
    let group_div = row_count / group_count in
    let group_rem = row_count % group_count in
    let group_extra = (group_div + 1) % 2 ^ 64 in
    let extra = write_run group_rem group_extra array group in
    write_run (until - suc extra.1) group_div (set extra.0 extra.1 group_div) (suc extra.1)
