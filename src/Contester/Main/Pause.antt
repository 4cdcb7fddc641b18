-- ===== src/Contester/Main/Pause.antt =====
-- The pause between two turns of the contester.
use checker_olimp.Base.{ℕ, ◌+◌, ◌-◌, ◌≤◌, ◌<◌, ◌≡◌, arith}
use checker_olimp.Base.Int.{pos}
use checker_olimp.Words.{word}
use checker_olimp.Contester.Main.{pause_time}

-- For a delay that is not negative, an end of the turn and a clock within 32 bits: if the end is
-- not over at the second reading of the clock, the pause lasts exactly until the end; if it is
-- over, the argument of `Sleep` has wrapped, to 2^32 less what the turn is late.
pub pause_time_lem :
    (delay start_time now : ℕ)
    → start_time + delay < word
    → now < word
    → (now ≤ start_time + delay → pause_time (pos delay) start_time now + now ≡ start_time + delay)
      × (start_time + delay < now
          → pause_time (pos delay) start_time now ≡ word - (now - (start_time + delay)))
unfolding pause_time
pause_time_lem delay start_time now h k = (λ l. omega arith, λ l. omega arith)
