-- ===== src/Lib.antt =====
-- mysql_seed writes large tables of made-up data: `mysql_seed generate` reads the databases, tables and
-- columns from the command line and builds the columns of a table as text, the rows of a column from
-- counters, UUID strings, time strings or random numbers, and a table's rows are cut into groups. This
-- library models the parser of the command line, the code that makes those texts and numbers and lays
-- out the files of the tables, and the thread pool that runs it.
--
--   Prelude      names of the library, C's tests on numbers, lists over native numbers
--   Bytes        memory as a function of the address
--   Cells        text buffers that are changed in place: SET_STRING_WIDTH (src/string/string_utils.h),
--                the switches on one character, and what a row of digits that carries shows
--   Decimal      uint_digit_count, do_put_uint and put_uint of src/string/string_utils.h; below it
--                Parse has parse_uint, parse_int and the comparisons of strings
--   Counter      src/generate/counter.h: counter_size_internals, counter_size_upto,
--                counter_size_mag_upto and count_buffer_increment; below it Fill has
--                counter_set_internals and counter_init_internals, which write all texts of a counter
--   Utf8         utf8_width of src/string/utf8_utils.h
--   Uuid         src/uuid/uuid_utils.h: uuid_state_increment_clk_seq and uuid_string_increment_time
--   Time         src/time/time_utils.h: is_leap_year, timestamp_set_month_day and timestamp_init; Leap
--                has the leap years of the Gregorian calendar, by their own rule
--   TimeString   src/time/time_string.h: timestamp_string_init, timestamp_string_increment with its
--                overflow, and datetime_string_increment
--   Generate     the parser of src/mysql_seed_generate.h: Flag (flag_match of src/mysql_seed_file.h),
--                Name and Count (names, texts and counts), State (the specifications and the
--                counters), Node (the ends of a column, GRP_SPEC and the errors), ColType (the types
--                of the columns and their qualifiers) and Spec (COL_SPEC, TBL_SPEC, DB_SPEC and
--                generate_dispatch up to the generation); Valid says what the parser keeps to
--   Column       the unique columns and the unique columns with groups of
--                src/generate/column_u_integer.c and column_integer.c; Fixed: the columns with a fixed value of
--                src/generate/column_string.c, column_integer.c, column_u_integer.c,
--                column_datetime.c and column_timestamp.c, from the granted memory on, run on one
--                turn of fuel for each row, which is enough since each turn writes a cell; Times:
--                build_column_datetime_unique and build_column_timestamp_unique, in the same way; Texts:
--                build_column_string_unique of src/generate/column_string.c, in the same way
--   RowBlock     src/generate/row_block.h and row_block.c: build_row_block
--   Table        src/generate/table.h and table.c: table_size_contents, table_put_header,
--                build_table_init and their variants without a header
--   Group        partition_groups_even of src/generate/group.c
--   Random       src/random/random.h and the 32-bit generator of src/random/pcg_random.h
--   TaskQueue    src/thread/task_queue.h: the doubly linked queues of tasks
--   ThreadPool   the workers of src/thread/thread_pool.h (worker_process_tasks), thread_pool_init,
--                thread_pool_reload and what thread_pool_await waits for
--   Tests        runs on concrete inputs
--
-- The main thread loads a pool with tasks that build the counter and the columns of the tables; the
-- workers take a task from the backlog to the active queue, call it and move its node to the complete
-- queue. The tasks of the columns use the counter's texts, the increments, the groups and the random
-- numbers; then one task for each table lays out its file, and one for each block of rows writes its
-- part of it from the cells of the columns.
--
-- A text buffer is the list of its bytes from the last one to the first, since the increments are
-- called at the last character and walk back; an index is the distance from the last byte. A function
-- that writes through a pointer returns the new buffer. Only timestamp_string_init, which writes
-- forward, returns the bytes in the order of the memory. put_uint takes such a list of the bytes around
-- the buffer too, and its pointers are the numbers of the bytes from there on. The fall-through of one switch into the next
-- is a function of the rest: `switch_text` takes what happens by default as an argument, and the
-- stages that datetime_string_increment and timestamp_string_increment have in common, written twice
-- in the source, are defined once and take the switches on the year, where the two differ.
--
-- Numbers are natural numbers with the wrap-around written out where the source's type can wrap;
-- size_t, uintmax_t and uint64_t have 64 bits and unsigned int has 32. The build is that of
-- LARGE_UPTO_MAX = 1 and HAVE_INT_STRING_ATTRS = 1.
--
-- An argument is the list of its bytes before the NUL, and a pointer into argv the list of the
-- arguments from there on. The functions of the parser end in calls of each other: each returns the
-- call that closes a cycle (parse_next_col_spec, parse_next_tbl_spec, parse_next_db_spec), or the state
-- at the end, and `run` makes these calls on fuel, one more than there are arguments, since each of
-- them takes an argument at least. A step of argv.arg.from beyond argv.arg.until is a fault.
-- A column function is the constructor of `Kind` with what it has been given.
--
-- The loop of put_uint runs on fuel 20, which is the most digits that a 64-bit number has. The loop of
-- random_uint32_bound has no bound of its own, since it waits for the generator to give a number that
-- is not below the threshold: it runs on any fuel, and returns once that is more than the numbers
-- drawn in vain; that such a number comes is not proved. random_int32_in_range is none also where the
-- difference of its bounds overflows, which is undefined in C. The loops of partition_groups_even are recursion on the number of their turns.
-- The loop of the unique columns with groups runs on fuel: one turn for each group behind the
-- first and one for each block.
--
-- The memory of a counter is two functions of an address, one for its pointers and one for its
-- bytes; a pointer to a text is its distance from the first byte. malloc is a parameter that grants
-- a memory or none. A queue lives in a memory of nodes, a function of the address, and a link is an
-- address or none. In build_row_block a pointer into the memory of a column is the list of the
-- bytes from there on, and the bytes written so far are a list, as in table_put_header. An
-- operation of a queue is what the source does while it holds the queue's lock, and returns which
-- condition variables it signals. The pool is a step relation: a step is one critical section of
-- one worker, or the call of its task; a worker that waits is asleep until a signal wakes it up or
-- it wakes up by itself, and a signal wakes up one worker at most; how many signals reach the workers
-- of a pool that is loaded again is what task_queue_reload adds to node_ready. A task touches no
-- queue and returns.
--
-- Not modelled: the supervisor and the log of src/thread, locks that the system refuses, JOIN_SPEC
-- (the model stops at parse_join_spec), the texts of the errors, ctor_flags, the SQL types and the
-- limits of random numbers that the column functions set (src/mysql_seed_generate.h), the other modes,
-- the files and the system calls (src/system), the calls of the database (src/execute), the
-- other builders of columns, floating-point numbers (partition_groups_linear, random_dbl_upto), the
-- 64-bit generator, and the copies of other projects (include/mysql, windows/pthreads_win32,
-- test/unity).
pub mod Prelude
pub mod Bytes
pub mod Cells
pub mod Decimal
pub mod Counter
pub mod Utf8
pub mod Uuid
pub mod Time
pub mod TimeString
pub mod Generate
pub mod Group
pub mod Random
pub mod Column
pub mod RowBlock
pub mod Table
pub mod TaskQueue
pub mod ThreadPool
pub mod Tests
