-- ===== src/Allocator/Sound.antt =====
-- What the allocator keeps: which units belong to which allocation, and where each window is listed.
-- The allocations in use are a list beside the state.
mod Examples
pub mod Same
pub mod Moves
pub mod Overlap
pub mod Take
pub mod Grow
pub mod Allocations
pub mod Promote
pub mod Release
pub mod Start
pub mod Runs
pub mod Reachable
pub mod Requests
pub mod Contents
pub mod Reallocations
pub mod Fallback
pub mod Usage
pub mod Integrity
use siamese.Prelude.{ℕ, ◌+◌, ◌≤◌, ◌<◌, ◌≡◌, List, [], ◌∷◌, leb, ltb, ◌==◌, if◌then◌else◌}
use siamese.Prelude.Int.{pos}
use siamese.Prelude.Lists.{length, get_or, count}
use siamese.Allocator.BitSet.{check}
use siamese.Allocator.System.Blocks.{IsInside}
use siamese.Allocator.Window.{WindowHeader, window_max_units, not_in_full_list}
use siamese.Allocator.Window.Consistent.{IsConsistent}
use siamese.Allocator.State.{Allocator, AllocationHeader, window_size_bytes, region_address}

-- An allocation: its window, the unit of its header, and its units.
pub record Region : Type 0 where
  pub window : ℕ
  pub start : ℕ
  pub units : ℕ

abbrev pub covers : Region → ℕ → ℕ → ℕ
covers r w j =
    if r.window == w
    then if leb r.start j then if ltb j (r.start + r.units) then 1 else 0 else 0
    else 0

-- How many allocations own unit j of window w.
abbrev pub owners : List Region → ℕ → ℕ → ℕ
owners [] w j = 0
owners (r ∷ rs) w j = covers r w j + owners rs w j

abbrev pub used_bit : WindowHeader → ℕ → ℕ
used_bit h j = if check h.used j then 1 else 0

-- How often a window is listed.
abbrev pub listed : Allocator → ℕ → ℕ
listed a w = count w a.preferred + count w a.full

abbrev pub AllRegions : (Region → Type 0) → List Region → Type 0
AllRegions P [] = Unit {0}
AllRegions P (r ∷ rs) = P r × AllRegions P rs

-- An allocation lies in a listed window, and its header says so.
abbrev pub IsRecorded : Allocator → Region → Type 0
IsRecorded a r =
    (1 ≤ listed a r.window)
    × (2 ≤ r.units)
    × (r.start + r.units ≤ window_max_units)
    × ((a.regions (region_address r.window r.start)).header ≡ r.window)
    × ((a.regions (region_address r.window r.start)).used_units ≡ r.units)

-- Each listed window is consistent, lies in a block of its own bytes, and each of its units in use
-- has one owner, each free unit none.
pub record IsOwned (live : List Region) (a : Allocator) : Type 0 where
  pub once : (w : ℕ) → listed a w ≤ 1
  pub consistent : (w : ℕ) → 1 ≤ listed a w → IsConsistent (a.windows w)
  pub owned :
      (w j : ℕ) → 1 ≤ listed a w → j < window_max_units → owners live w j ≡ used_bit (a.windows w) j
  pub nonnull : (w : ℕ) → 1 ≤ listed a w → 1 ≤ w
  pub inside : (w : ℕ) → 1 ≤ listed a w → IsInside w window_size_bytes (a.system).blocks
  pub apart : (v w : ℕ) → 1 ≤ listed a v → 1 ≤ listed a w → v < w → v + window_size_bytes ≤ w
  pub recorded : AllRegions (IsRecorded a) live

-- Each window knows its place in the full list, or that it is not in it.
pub record IsIndexed (a : Allocator) : Type 0 where
  pub outside : (w : ℕ) → 1 ≤ count w a.preferred → (a.windows w).full_list_index ≡ not_in_full_list
  pub place : (i : ℕ) → i < length a.full → (a.windows (get_or a.full i 0)).full_list_index ≡ pos i
