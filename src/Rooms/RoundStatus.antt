-- ===== src/Rooms/RoundStatus.antt =====
-- shared/rooms-round-status.ts: the betting window of a rally, in blocks of Monad.
-- `version & 255n` and `version >> 8n` are the rest and the quotient by 256.
use pongit.Common.{ℕ, ◌+◌, ◌-◌, ◌*◌, ◌/◌, ◌%◌, Bool, not, ◌||◌, ◌&&◌, leb, ltb, ◌==◌, if◌then◌else◌}

pub data Phase : Type 0 where
  preparing open_betting closing : Phase

pub record RoundStatus : Type 0 where
  pub phase : Phase
  pub blocks_left : ℕ

unfoldable pub rooms_round_status : ℕ → ℕ → Bool → ℕ → RoundStatus
rooms_round_status rally version allowed head =
    let actual = version % 256 in
    let close_block = version / 256 in
    if not (actual == rally) || close_block == 0
    then record { phase = preparing; blocks_left = 0 }
    else if allowed && ltb head close_block
    then record { phase = open_betting; blocks_left = close_block - head }
    else if leb close_block head && ltb head (close_block + 2)
    then record { phase = closing; blocks_left = close_block + 2 - head }
    else record { phase = preparing; blocks_left = 0 }

-- A version of a rally below 256 with a close block that is not 0.
abbrev pub version_of : ℕ → ℕ → ℕ
version_of rally close_block = close_block * 256 + rally
