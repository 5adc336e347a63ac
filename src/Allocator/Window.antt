-- ===== src/Allocator/Window.antt =====
-- A window of PacketAllocator.h: its header, and the walk of Allocate in PacketAllocator.cpp over the
-- holes of its bit set. The walk runs on fuel; one step per bit is enough.
pub mod Outcomes
pub mod Regions
pub mod Tally
pub mod Consistent
pub mod Fresh
mod Examples
use siamese.Prelude.{ℕ, zero, suc, ◌+◌, ◌-◌, ◌^◌, Bool, true, false, Option, none, some}
use siamese.Prelude.{ltb, if◌then◌else◌, u32}
use siamese.Prelude.Int.{ℤ, negsuc}
use siamese.Allocator.BitSet.{
  CustomBitSet, find_first_clear, find_first_set, clear_all, set_range, clear_range,
}

abbrev pub window_max_units : ℕ
window_max_units = 2048

pub record WindowHeader : Type 0 where
  pub used : CustomBitSet
  pub free_unit_count : ℕ
  pub resume_scan_offset : ℕ
  pub full_list_index : ℤ
  pub preallocated : Bool

-- The unit at which a region of `units` clear units starts, from `region_start` on.
unfoldable pub walk : CustomBitSet → ℕ → ℕ → ℕ → Option ℕ
walk used units zero region_start = none
walk used units (suc fuel) region_start =
    let clear_at = find_first_clear window_max_units used region_start in
    let set_at = find_first_set used (clear_at + 1) (clear_at + units) in
    let rest = walk used units fuel (set_at + 1) in
    if ltb region_start window_max_units
    then if ltb window_max_units (clear_at + units)
      then none
      else if ltb (set_at - clear_at) units
      then rest
      else some clear_at
    else none

-- The walk of one window in the loop of Allocate.
unfoldable pub find_region : WindowHeader → ℕ → Option ℕ
find_region window units =
    if ltb window.free_unit_count units
    then none
    else walk window.used units window_max_units window.resume_scan_offset

-- kNotInFullList.
abbrev pub not_in_full_list : ℤ
not_in_full_list = negsuc 0

-- A window of the preallocated chunk, over whatever the chunk held.
unfoldable pub preallocated_window : CustomBitSet → WindowHeader
preallocated_window chunk = record {
  used = clear_all window_max_units chunk;
  free_unit_count = window_max_units;
  resume_scan_offset = 0;
  full_list_index = not_in_full_list;
  preallocated = true;
}

-- The header of allocateFromNewWindow, whose first region is taken.
unfoldable pub new_window : CustomBitSet → ℕ → WindowHeader
new_window chunk units = record {
  used = set_range (clear_all window_max_units chunk) 0 units;
  free_unit_count = u32 (window_max_units + 2 ^ 32 - units);
  resume_scan_offset = units;
  full_list_index = not_in_full_list;
  preallocated = false;
}

-- The update of the header in Allocate.
unfoldable pub carve : WindowHeader → ℕ → ℕ → WindowHeader
carve window region_start units = record window {
  free_unit_count = u32 (window.free_unit_count + 2 ^ 32 - units);
  used = set_range window.used region_start (region_start + units);
  resume_scan_offset = region_start + units;
}

-- The update of the header in Free.
unfoldable pub release : WindowHeader → ℕ → ℕ → WindowHeader
release window region_start units = record window {
  resume_scan_offset =
      if ltb region_start window.resume_scan_offset
      then region_start
      else window.resume_scan_offset;
  used = clear_range window.used region_start (region_start + units);
  free_unit_count = u32 (window.free_unit_count + units);
}

-- The update of the header in Shrink.
unfoldable pub give_back : WindowHeader → ℕ → ℕ → ℕ → WindowHeader
give_back window region_start units_needed units_current =
    if ltb units_needed units_current
    then (let region_end_new = region_start + units_needed in
        record window {
          resume_scan_offset =
              if ltb region_end_new window.resume_scan_offset
              then region_end_new
              else window.resume_scan_offset;
          used = clear_range window.used region_end_new (region_start + units_current);
          free_unit_count = u32 (window.free_unit_count + (units_current - units_needed));
        })
    else window
