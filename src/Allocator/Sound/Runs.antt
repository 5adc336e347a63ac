-- ===== src/Allocator/Sound/Runs.antt =====
-- Runs of an allocator: its client asks for memory, writes to it, shrinks it and gives it back, in
-- any order. The allocations that the client holds are a list beside the state.
use siamese.Prelude.{ℕ, ◌+◌, ◌-◌, ◌≤◌, ◌<◌, ◌≡◌, ◌≢◌, List, [], ◌∷◌}
use siamese.Prelude.Memory.{Memory}
use siamese.Allocator.System.{System, Calloc}
use siamese.Allocator.Window.{WindowHeader}
use siamese.Allocator.State.{
  Allocator, AllocationHeader, unit_size, fallback_threshold_units, region_address, unit_start,
  units_of,
}
use siamese.Allocator.Allocate.{allocate}
use siamese.Allocator.Free.{free, shrink, construct, default_members}
use siamese.Allocator.Sound.{Region}

pub record World : Type 0 where
  pub live : List Region
  pub allocator : Allocator

-- The pointer to the data of an allocation.
abbrev pub pointer : Region → ℕ
pointer r = region_address r.window r.start + unit_size

-- The allocation that the header in front of a pointer tells of.
abbrev pub region_at : ℕ → Allocator → Region
region_at ptr a =
    let region = ptr - unit_size in
    let window = (a.regions region).header in
    record {
      window = window;
      start = unit_start window region;
      units = (a.regions region).used_units;
    }

-- An allocation of a list, and those that are left.
pub data Picks (r : Region) : List Region → List Region → Type 0 where
  here : {rs : List Region} → Picks r (r ∷ rs) rs
  there : {q : Region} {rs rest : List Region} → Picks r rs rest → Picks r (q ∷ rs) (q ∷ rest)

-- The bytes of a request that is served from a window, in units.
abbrev pub IsSmall : ℕ → Type 0
IsSmall bytes = (2 ≤ units_of bytes) × (units_of bytes ≤ fallback_threshold_units)

pub data Step (calloc : Calloc) : World → World → Type 0 where
  allocated :
      (live : List Region) (a : Allocator) (bytes : ℕ)
      → 1 ≤ bytes
      → IsSmall bytes
      → (allocate calloc bytes a).0 ≢ 0
      → Step calloc
          (record { live = live; allocator = a })
          (record {
            live = region_at (allocate calloc bytes a).0 (allocate calloc bytes a).1 ∷ live;
            allocator = (allocate calloc bytes a).1;
          })
  refused :
      (live : List Region) (a : Allocator) (bytes : ℕ)
      → 1 ≤ bytes
      → IsSmall bytes
      → (allocate calloc bytes a).0 ≡ 0
      → Step calloc
          (record { live = live; allocator = a })
          (record { live = live; allocator = (allocate calloc bytes a).1 })
  fallen_back :
      (live : List Region) (a : Allocator) (bytes : ℕ)
      → 1 ≤ bytes
      → fallback_threshold_units < units_of bytes
      → Step calloc
          (record { live = live; allocator = a })
          (record { live = live; allocator = (allocate calloc bytes a).1 })
  freed :
      (r : Region) (live rest : List Region) (a : Allocator)
      → Picks r live rest
      → Step calloc
          (record { live = live; allocator = a })
          (record { live = rest; allocator = free (pointer r) a })
  shrunk :
      (r : Region) (live rest : List Region) (a : Allocator) (bytes : ℕ)
      → Picks r live rest
      → 2 ≤ units_of bytes
      → units_of bytes < r.units
      → Step calloc
          (record { live = live; allocator = a })
          (record {
            live = record r { units = units_of bytes } ∷ rest;
            allocator = shrink (pointer r) bytes a;
          })
  written :
      (live : List Region) (a : Allocator) (memory : Memory)
      → Step calloc
          (record { live = live; allocator = a })
          (record {
            live = live;
            allocator = record a { system = record (a.system) { memory = memory } };
          })

pub data Steps (calloc : Calloc) (s : World) : World → Type 0 where
  begun : Steps calloc s s
  next : {t u : World} → Steps calloc s t → Step calloc t u → Steps calloc s u

-- A run of an allocator whose constructor had its chunk.
abbrev pub constructed :
    Calloc → System → (ℕ → WindowHeader) → (ℕ → AllocationHeader) → ℕ → ℕ → World
constructed calloc system windows regions x y = record {
  live = [];
  allocator = construct calloc (default_members system windows regions x y);
}
