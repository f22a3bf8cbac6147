-- ===== src/RateLimit/Blocked.antt =====
-- Blocking in internal/app/ratelimit/ratelimit.go: an address that goes over its rate is refused
-- through the second in which its block ends.
use obsidian.Common.{ℕ, ◌≤◌, ◌≡◌, true, List, [], ◌∷◌, Option, none, some}
use obsidian.RateLimit.{Visitor}
use obsidian.RateLimit.Api.{Op, request, tick}
use obsidian.RateLimit.Traffic.{Traffic}

-- Every request and clean-up comes at `u` or before.
abbrev pub Until : {S : Type 0} → ℕ → List (Op S) → Type 0
Until u [] = Unit
Until u (request ip endpoint now ∷ ops) = (now ≤ u) × Until u ops
Until u (tick now ∷ ops) = (now ≤ u) × Until u ops
Until u (_ ∷ ops) = ⊥

-- The visitor of the address is blocked until the Unix time `until`.
abbrev Shut : ℕ → Option Visitor → Type 0
Shut until none = ⊥
Shut until (some v) = (v.blocked ≡ true) × (v.block_until ≡ until)
