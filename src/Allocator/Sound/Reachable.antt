-- ===== src/Allocator/Sound/Reachable.antt =====
-- What holds in every state that a run reaches.
use siamese.Prelude.{ℕ, ◌+◌, ◌-◌, ◌*◌, ◌≤◌, ◌≡◌, ◌≢◌, refl, sym, ap, ◌∙◌, arith, ◌⊎◌, inl, inr}
use siamese.Prelude.{List, ◌∷◌, Bool, false, ltb, ◌==◌, if◌then◌else◌, if_cases, u32}
use mathlib.Core.Path.{subst}
use siamese.Prelude.Lists.{put}
use siamese.Prelude.Memory.{Memory}
use siamese.Allocator.System.{System, Calloc, simd_safe_allocate}
use siamese.Allocator.System.Blocks.{IsFresh, IsInside, IsInside-part, simd_safe_allocate-IsAligned}
use siamese.Allocator.Window.{WindowHeader}
use siamese.Allocator.State.{
  Allocator, AllocationHeader, window_size_bytes, unit_size, unit_start, units_of, region_address,
  fallback_threshold_units,
}
use siamese.Allocator.Allocate.{allocate, fallback_allocate}
use siamese.Allocator.Free.{construct, default_members}
use siamese.Allocator.Sound.{Region, covers, owners, AllRegions, IsRecorded, IsOwned, IsIndexed}
use siamese.Allocator.Sound.Overlap.{AllRegions-map, IsDisjoint, live-IsDisjoint}
use siamese.Allocator.Sound.Take.{region, IsAllocated}
use siamese.Allocator.Sound.Allocations.{allocate-IsAllocated}
use siamese.Allocator.Sound.Release.{free-IsKept, shrink-IsKept}
use siamese.Allocator.Sound.Start.{construct-IsOwned}
use siamese.Allocator.Sound.Runs.{
  World, Picks, here, there, Step, allocated, refused, fallen_back, freed, shrunk, written, Steps,
  begun, next, pointer, region_at, constructed,
}

pub Picks-owners :
    {r : Region} {live rest : List Region}
    → Picks r live rest
    → (w j : ℕ) → owners live w j ≡ covers r w j + owners rest w j
Picks-owners here w j = refl
Picks-owners (there p) w j = omega (arith, Picks-owners p w j)

Picks-AllRegions :
    (P : Region → Type 0) {r : Region} {live rest : List Region}
    → Picks r live rest
    → AllRegions P live
    → P r × AllRegions P rest
Picks-AllRegions P here all = all
Picks-AllRegions P (there p) (h, all) =
    let (found, others) = Picks-AllRegions P p all in (found, (h, others))

-- Any allocation may come first.
pub Picks-IsOwned :
    (r : Region) (live rest : List Region) (a : Allocator)
    → Picks r live rest
    → IsOwned live a
    → IsOwned (r ∷ rest) a
Picks-IsOwned r live rest a p own = record {
  once = own.once;
  consistent = own.consistent;
  owned = λ w j l h. sym (Picks-owners p w j) ∙ own.owned w j l h;
  nonnull = own.nonnull;
  inside = own.inside;
  apart = own.apart;
  recorded = Picks-AllRegions (IsRecorded a) p own.recorded;
}

-- The header in front of an allocation's pointer names it.
pub region_at-pointer : (a : Allocator) (r : Region) → IsRecorded a r → region_at (pointer r) a ≡ r
region_at-pointer a r rec =
    let here : pointer r - unit_size ≡ region_address r.window r.start = omega arith in
    let header : (a.regions (pointer r - unit_size)).header ≡ r.window =
      ap (λ (x : ℕ). (a.regions x).header) here ∙ rec.3 in
    let units : (a.regions (pointer r - unit_size)).used_units ≡ r.units =
      ap (λ (x : ℕ). (a.regions x).used_units) here ∙ rec.4 in
    let first : unit_start (a.regions (pointer r - unit_size)).header (pointer r - unit_size)
        ≡ r.start =
      omega (arith, header, rec.1, rec.2) in
    let w = (a.regions (pointer r - unit_size)).header in
    let n = (a.regions (pointer r - unit_size)).used_units in
    ap (λ (x : ℕ). region x (unit_start w (pointer r - unit_size)) n) header
    ∙ ap (λ (x : ℕ). region r.window x n) first
    ∙ ap (region r.window r.start) units

-- Bytes that the client writes change no ownership.
pub written-IsOwned :
    (live : List Region) (a : Allocator) (memory : Memory)
    → IsOwned live a
    → IsOwned live (record a { system = record (a.system) { memory = memory } })
written-IsOwned live a memory own = record {
  once = own.once;
  consistent = own.consistent;
  owned = own.owned;
  nonnull = own.nonnull;
  inside = own.inside;
  apart = own.apart;
  recorded = own.recorded;
}

-- What a run keeps.
abbrev pub IsSound : World → Type 0
IsSound s = IsOwned s.live s.allocator × IsIndexed s.allocator

-- A fallback allocation writes its header apart from the windows.
module _ (live : List Region) (a : Allocator) (own : IsOwned live a) (index : IsIndexed a)
    (ptr size : ℕ) (system : System) (header : AllocationHeader)
    (unmet : (v n : ℕ) → IsInside v n (a.system).blocks → (v + n ≤ ptr) ⊎ (ptr + size ≤ v))
    (old_inside : (v n : ℕ) → IsInside v n (a.system).blocks → IsInside v n system.blocks) where
  abbrev beside : Allocator
  beside = record a { system = system; regions = put a.regions ptr header }

  beside_record : (q : Region) → IsRecorded a q → IsRecorded beside q
  beside_record q rec =
      let t : (region_address q.window q.start == ptr) ≡ false =
        elim (unmet q.window window_size_bytes (own.inside q.window rec.0)) [
          | inl l ↦ ground (arith, rec.1, rec.2)
          | inr l ↦ ground (arith, rec.2)
        ] in
      let e : beside.regions (region_address q.window q.start)
          ≡ a.regions (region_address q.window q.start) =
        ap (λ (b : Bool). if b then header else a.regions (region_address q.window q.start)) t in
      (
        rec.0,
        rec.1,
        rec.2,
        ap (λ (x : AllocationHeader). x.header) e ∙ rec.3,
        ap (λ (x : AllocationHeader). x.used_units) e ∙ rec.4,
      )

  beside-IsOwned : IsOwned live beside
  beside-IsOwned = record {
    once = own.once;
    consistent = own.consistent;
    owned = own.owned;
    nonnull = own.nonnull;
    inside = λ v l. old_inside v window_size_bytes (own.inside v l);
    apart = own.apart;
    recorded = AllRegions-map (IsRecorded a) (IsRecorded beside) live beside_record own.recorded;
  }

  beside-IsIndexed : IsIndexed beside
  beside-IsIndexed = record { outside = index.outside; place = index.place }

module _ (calloc : Calloc) (fresh : IsFresh calloc) where
  fallback-IsSound :
      (live : List Region) (a : Allocator) (bytes : ℕ)
      → IsOwned live a
      → IsIndexed a
      → IsOwned live (fallback_allocate calloc bytes a).1
        × IsIndexed (fallback_allocate calloc bytes a).1
  unfolding fallback_allocate
  fallback-IsSound live a bytes own index =
      let size = u32 (unit_size * units_of bytes) in
      let result = simd_safe_allocate calloc a.system size in
      let P = λ (r : ℕ × Allocator). IsOwned live r.1 × IsIndexed r.1 in
      let header : AllocationHeader = record { header = 0; used_units = units_of bytes } in
      elim (simd_safe_allocate-IsAligned calloc fresh a.system size) [
        | inl (null, same) ↦
            if_cases P (result.0 == 0)
              (λ t. (
                subst (λ (x : System). IsOwned live (record a { system = x })) (sym same) own,
                record { outside = index.outside; place = index.place },
              ))
              (λ t. absurd (ground arith))
        | inr (positive, aligned, unmet, new_inside, old_inside) ↦
            if_cases P (result.0 == 0) (λ t. absurd (ground arith))
              (λ t. (
                beside-IsOwned live a own index result.0 size result.1 header unmet old_inside,
                beside-IsIndexed live a own index result.0 size result.1 header unmet old_inside,
              ))
      ]

  allocated-IsSound :
      (live : List Region) (a : Allocator) (bytes : ℕ)
      → IsAllocated live (units_of bytes) (allocate calloc bytes a)
      → (allocate calloc bytes a).0 ≢ 0
      → IsSound (record {
        live = region_at (allocate calloc bytes a).0 (allocate calloc bytes a).1 ∷ live;
        allocator = (allocate calloc bytes a).1;
      })
  allocated-IsSound live a bytes (inl (null, own, index)) some_ptr = absurd (some_ptr null)
  allocated-IsSound live a bytes (inr (r, units, at, own, index)) some_ptr =
      let b = (allocate calloc bytes a).1 in
      let e : region_at (allocate calloc bytes a).0 b ≡ r =
        ap (λ (p : ℕ). region_at p b) at ∙ region_at-pointer b r own.recorded.0 in
      (subst (λ (q : Region). IsOwned (q ∷ live) b) (sym e) own, index)

  refused-IsSound :
      (live : List Region) (a : Allocator) (bytes : ℕ)
      → IsAllocated live (units_of bytes) (allocate calloc bytes a)
      → (allocate calloc bytes a).0 ≡ 0
      → IsSound (record { live = live; allocator = (allocate calloc bytes a).1 })
  refused-IsSound live a bytes (inl (null, own, index)) no_ptr = (own, index)
  refused-IsSound live a bytes (inr (r, units, at, own, index)) no_ptr = absurd (omega arith)

  pub Step-IsSound : {s t : World} → Step calloc s t → IsSound s → IsSound t
  unfolding allocate
  Step-IsSound (allocated live a bytes h small some_ptr) (own, index) =
      allocated-IsSound live a bytes
        (allocate-IsAllocated calloc fresh live a own index bytes h small.1 small.0) some_ptr
  Step-IsSound (refused live a bytes h small no_ptr) (own, index) =
      refused-IsSound live a bytes
        (allocate-IsAllocated calloc fresh live a own index bytes h small.1 small.0) no_ptr
  Step-IsSound (fallen_back live a bytes h large) (own, index) =
      if_cases (λ (r : ℕ × Allocator). IsSound (record { live = live; allocator = r.1 }))
        (bytes == 0) (λ t. absurd (ground arith))
        (λ t.
          if_cases (λ (r : ℕ × Allocator). IsSound (record { live = live; allocator = r.1 }))
            (ltb fallback_threshold_units (units_of bytes))
            (λ u. fallback-IsSound live a bytes own index) (λ u. absurd (ground arith)))
  Step-IsSound (freed r live rest a p) (own, index) =
      free-IsKept r rest a (Picks-IsOwned r live rest a p own) index
  Step-IsSound (shrunk r live rest a bytes p two less) (own, index) =
      shrink-IsKept r rest a (Picks-IsOwned r live rest a p own) index bytes two less
  Step-IsSound (written live a memory) (own, index) =
      (written-IsOwned live a memory own, record { outside = index.outside; place = index.place })

  Steps-IsSound : {s t : World} → Steps calloc s t → IsSound s → IsSound t
  Steps-IsSound begun sound = sound
  Steps-IsSound (next run step) sound = Step-IsSound step (Steps-IsSound run sound)

  -- If calloc returns fresh blocks and the constructor had its chunk, then after any sequence of
  -- allocations, refused allocations, fallback allocations, frees and shrinks of live allocations of
  -- windows, and writes of the client, each listed window is consistent and lies in a block of the
  -- system's heap, apart from the other windows, each of its units in use belongs to exactly one
  -- live allocation and each free unit to none, each live allocation has a header that names its
  -- window and units, and each window is in one list, once, at the place that it knows.
  pub reachable-IsSound :
      (system : System) (windows : ℕ → WindowHeader) (regions : ℕ → AllocationHeader) (x y : ℕ)
      → (construct calloc (default_members system windows regions x y)).huge_chunk_start ≢ 0
      → {s : World} → Steps calloc (constructed calloc system windows regions x y) s
      → IsSound s
  reachable-IsSound system windows regions x y had run =
      Steps-IsSound run (construct-IsOwned calloc fresh system windows regions x y had)

picked-IsDisjoint :
    (s : World) (r : Region) (rest : List Region)
    → IsSound s
    → Picks r s.live rest
    → IsInside (pointer r) ((r.units - 1) * unit_size) (s.allocator.system).blocks
      × AllRegions (IsDisjoint r) rest
picked-IsDisjoint s r rest sound p =
    let own = Picks-IsOwned r s.live rest s.allocator p sound.0 in
    let (l, two, fit, window_named, units_named) = own.recorded.0 in
    (
      IsInside-part r.window window_size_bytes (pointer r) ((r.units - 1) * unit_size)
          (s.allocator.system).blocks (own.inside r.window l) (omega arith) (omega arith),
      live-IsDisjoint r rest s.allocator own,
    )

-- If calloc returns fresh blocks and the constructor had its chunk, then after any sequence of
-- allocations, refused allocations, fallback allocations, frees and shrinks of live allocations of
-- windows, and writes of the client, the data of each live allocation lies in one block of the
-- system's heap, and its bytes, its header included, meet those of no other live allocation.
pub reachable-IsDisjoint :
    (calloc : Calloc)
    → IsFresh calloc
    → (system : System) (windows : ℕ → WindowHeader) (regions : ℕ → AllocationHeader) (x y : ℕ)
    → (construct calloc (default_members system windows regions x y)).huge_chunk_start ≢ 0
    → (s : World) → Steps calloc (constructed calloc system windows regions x y) s
    → (r : Region) (rest : List Region) → Picks r s.live rest
    → IsInside (pointer r) ((r.units - 1) * unit_size) (s.allocator.system).blocks
      × AllRegions (IsDisjoint r) rest
reachable-IsDisjoint calloc fresh system windows regions x y had s run r rest p =
    picked-IsDisjoint s r rest (reachable-IsSound calloc fresh system windows regions x y had run) p
