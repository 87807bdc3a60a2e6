-- ===== src/Relayer/LogRanges.antt =====
-- relayer/src/log-ranges.ts: the ranges of blocks that a long log request is split into.
use pongit.Common.{
  ℕ, zero, suc, ◌+◌, ◌-◌, ◌≤◌, ◌≡◌, leb, ltb, if◌then◌else◌, List, [], ◌∷◌, Option, none, some,
  Result, ok, ◌>>◌, throw_if, invalid_log_range, log_range_too_large,
}

pub record Range : Type 0 where
  pub from_block : ℕ
  pub to_block : ℕ

-- The loop over `first`, for at most `fuel` rounds.
unfoldable pub split : ℕ → ℕ → ℕ → ℕ → List Range
split zero first to chunk = []
split (suc fuel) first to chunk =
    let rest = split fuel (first + chunk) to chunk in
    let last = first + chunk - 1 in
    if leb first to
    then record { from_block = first; to_block = if ltb to last then to else last } ∷ rest
    else []

-- The ranges for a request from a block to another; none where it is short enough as it is. There
-- are at most as many ranges as blocks.
unfoldable pub chunked_ranges : ℕ → ℕ → ℕ → ℕ → Result (Option (List Range))
chunked_ranges from to chunk_size max_range = do
  throw_if (ltb to from) invalid_log_range
  let count = to - from + 1
  if leb count chunk_size then ok none else (do
    throw_if (ltb max_range count) log_range_too_large
    ok (some (split count from to chunk_size)))

-- The ranges follow one another without a gap from `first` to `to`, none empty and none longer than
-- the chunk.
abbrev pub Covers : ℕ → ℕ → ℕ → List Range → Type 0
Covers first to chunk [] = first ≡ to + 1
Covers first to chunk (r ∷ rs) =
    (r.from_block ≡ first)
    × (first ≤ r.to_block)
    × (r.to_block + 1 ≤ first + chunk)
    × Covers (r.to_block + 1) to chunk rs

-- What comes of a request with a chunk size that is not 0 and no more blocks than allowed: no split
-- where it fits in one chunk, and otherwise ranges that cover it.
abbrev pub IsChunked : ℕ → ℕ → ℕ → Option (List Range) → Type 0
IsChunked from to chunk none = to + 1 ≤ from + chunk
IsChunked from to chunk (some ranges) = Covers from to chunk ranges
