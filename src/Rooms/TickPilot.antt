-- ===== src/Rooms/TickPilot.antt =====
-- `TickPilot` of shared/engine-feed.ts: which of the two clients of a match sends a tick. Times are
-- milliseconds that are not negative; `progress` is -1 at first.
use pongit.Common.{
  ℕ, ◌+◌, ◌≤◌, ◌<◌, ◌≡◌, ◌≢◌, ◌⊎◌, Bool, true, false, not, ◌||◌, ◌&&◌, arith, leb, ltb, ◌==◌,
  if◌then◌else◌,
}
use pongit.Common.Int.{ℤ, pos, negsuc, ltb_ℤ, eqb_ℤ, ◌≤ℤ◌, ◌<ℤ◌}

pub record TickPilot : Type 0 where
  pub progress : ℤ
  pub at : ℕ
  pub last_own : ℕ
  pub backup : Bool
  pub writing : Bool

-- What the pilot reads of an `EngineState`.
pub record Engine : Type 0 where
  pub t : ℕ
  pub phase : ℕ
  pub awaiting_serve : Bool

abbrev pub new_pilot : TickPilot
new_pilot = record { progress = negsuc 0; at = 0; last_own = 0; backup = false; writing = false }

unfoldable pub sending : TickPilot → Bool → TickPilot
sending p value = record p { writing = value }

unfoldable pub observe : TickPilot → Engine → ℕ → Bool → TickPilot
observe p s now own =
    if eqb_ℤ (pos s.t) p.progress
    then p
    else if own
    then record p { progress = pos s.t; at = now; last_own = now }
    else record p {
      progress = pos s.t;
      at = now;
      backup = if not p.writing && ltb (p.last_own + 100) now then false else p.backup;
    }

unfoldable pub due : TickPilot → ℤ → Engine → ℕ → TickPilot × Bool
due p side s now =
    let stale = leb (p.at + 300) now in
    let backup = p.backup || leb (p.at + 900) now in
    if ltb_ℤ side (pos 0) || not (s.phase == 2) || s.awaiting_serve
    then (p, false)
    else if eqb_ℤ side (pos 0)
    then (p, stale)
    else (record p { backup = backup }, backup && stale)

-- A tick is due only for a player of a match that plays, at least 300 ms after the last progress;
-- for the second player only if they have taken over before, or after 900 ms, and then they have
-- taken over.
due_needs :
    (p : TickPilot) (side : ℤ) (s : Engine) (now : ℕ)
    → (due p side s now).1 ≡ true
    → (pos 0 ≤ℤ side)
      × (s.phase ≡ 2)
      × (s.awaiting_serve ≡ false)
      × (p.at + 300 ≤ now)
      × ((side ≡ pos 0)
          ⊎ (((p.backup ≡ true) ⊎ (p.at + 900 ≤ now)) × ((due p side s now).0.backup ≡ true)))
unfolding due
due_needs p side s now h = ground arith

-- Progress that another client made, at a time when the pilot is not sending and made none itself
-- for more than 100 ms, takes the second player's role back: their next tick is due no earlier than
-- 900 ms later.
pub observe_yields :
    (p : TickPilot) (side : ℤ) (s later : Engine) (now then' : ℕ)
    → pos s.t ≢ p.progress
    → p.writing ≡ false
    → p.last_own + 100 < now
    → pos 0 <ℤ side
    → (due (observe p s now false) side later then').1 ≡ true
    → now + 900 ≤ then'
unfolding due observe
observe_yields p side s later now then' new idle long second h = ground arith

-- Progress is recorded once: a second observation of the same state changes nothing.
pub observe_twice :
    (p : TickPilot) (s : Engine) (now later : ℕ) (own own' : Bool)
    → observe (observe p s now own) s later own' ≡ observe p s now own
unfolding observe
observe_twice p s now later own own' = ground arith
