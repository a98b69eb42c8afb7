-- ===== src/Random/Pcg.antt =====
-- The steps of the 32-bit generator.
use mysql_seed.Prelude.{ℕ, ◌+◌, ◌-◌, ◌*◌, ◌%◌, ◌^◌, ◌<◌, ◌≡◌, ap, arith}
use mysql_seed.Random.{Pcg32, pcg_setseq_64_step_r}

-- 13877824140714322085 is the inverse of the multiplier modulo 2 ^ 64
abbrev step_back : Pcg32 → Pcg32
step_back rng = record rng {
  state = (rng.state + 2 ^ 64 - rng.increment) * 13877824140714322085 % 2 ^ 64;
}

unmultiply :
    (s c : ℕ)
    → s < 2 ^ 64
    → c < 2 ^ 64
    → ((s * 6364136223846793005 + c) % 2 ^ 64 + 2 ^ 64 - c) * 13877824140714322085 % 2 ^ 64 ≡ s
unmultiply s c h k = omega arith

-- Within 64 bits a step of the generator can be taken back, so no two states lead to one.
pcg_setseq_64_step_r-inverse :
    (rng : Pcg32)
    → rng.state < 2 ^ 64
    → rng.increment < 2 ^ 64
    → step_back (pcg_setseq_64_step_r rng) ≡ rng
unfolding pcg_setseq_64_step_r
pcg_setseq_64_step_r-inverse rng h k =
    ap (λ s. record rng { state = s }) (unmultiply rng.state rng.increment h k)
