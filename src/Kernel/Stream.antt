-- ===== src/Kernel/Stream.antt =====
-- The generator of crates/evo-kernel/src/rng.rs: its stream depends on the seed and the position only.
use evowork.Prelude.{ℕ, zero, suc, ◌+◌, ◌*◌, ◌<◌, ◌^◌, ◌≡◌, ◌∙◌, sym, arith}
use evowork.Prelude.Words.{u64}
use evowork.Kernel.Rng.{DeterministicRng, next_u64, mix}

-- The generator after a number of draws.
abbrev pub after : ℕ → DeterministicRng → DeterministicRng
after zero g = g
after (suc n) g = after n (next_u64 g).0

after-fields :
    (n : ℕ) (g : DeterministicRng)
    → g.counter < 2 ^ 64
    → ((after n g).seed ≡ g.seed) × ((after n g).counter ≡ u64 (g.counter + n))
unfolding next_u64
after-fields zero g h = ground arith
after-fields (suc n) g h = omega (arith, after-fields n (next_u64 g).0 (omega arith))

abbrev pub draw : ℕ → DeterministicRng → ℕ
draw n g = (next_u64 (after n g)).1

-- The draw number `n`, from 0 on, is the output function at the seed plus a multiple of the odd
-- constant that the position in the stream gives, all modulo 2 ^ 64: the draws before it leave no
-- other trace, so a replay that restores seed and counter draws the same numbers.
draw_lem :
    (n : ℕ) (g : DeterministicRng)
    → g.counter < 2 ^ 64
    → draw n g ≡ mix (u64 (g.seed + u64 (u64 (g.counter + n + 1) * 0x9e3779b97f4a7c15)))
unfolding next_u64
draw_lem n g h =
    let (p, q) = after-fields n g h in
    let position : u64 ((after n g).counter + 1) ≡ u64 (g.counter + n + 1) = omega arith in
    rw (p, position)

-- The stream repeats after 2 ^ 64 draws.
pub draw_period :
    (n : ℕ) (g : DeterministicRng) → g.counter < 2 ^ 64 → draw (n + 2 ^ 64) g ≡ draw n g
draw_period n g h =
    let position : u64 (g.counter + (n + 2 ^ 64) + 1) ≡ u64 (g.counter + n + 1) = omega arith in
    draw_lem (n + 2 ^ 64) g h ∙ rw position (sym (draw_lem n g h))
