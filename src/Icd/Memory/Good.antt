-- ===== src/Icd/Memory/Good.antt =====
-- The invariant of device memory and buffers of guest/vulkan_icd/imb_vulkan_icd.cpp, and the calls
-- that move bytes keep it.
use isaac_metal_bridge.Base.{
  subst, ℕ, ◌+◌, ◌-◌, ◌^◌, ◌≤◌, ◌<◌, ◌≡◌, refl, ap, ◌∙◌, inl, inr, Bool-cases, Option-cases, true,
  false, Option, some, List, [], ◌∷◌, ◌==◌, max64, lookup-put, arith, contains,
}
use isaac_metal_bridge.Cuda.Registry.{
  Registry, is_member, object, store_object, IsSound, store_object-IsSound,
}
use isaac_metal_bridge.Icd.Result.{VkResult, success}
use isaac_metal_bridge.Icd.Bindings.{SparseBufferBinding}
use isaac_metal_bridge.Icd.Bindings.View.{IsBound}
use isaac_metal_bridge.Icd.Driver.{Driver, DeviceMemoryState, BufferState, Step, and_then}
use isaac_metal_bridge.Icd.Memory.{store_memory}

-- A mapped memory has its bytes and a count of maps, its range lies inside, and so do the dirty
-- bytes.
pub record IsFit (m : DeviceMemoryState) : Type 0 where
  pub small : m.size ≤ max64
  pub dirty : m.dirty_end ≤ m.size
  pub within : m.mapped_offset + m.mapped_size ≤ m.size
  pub counted : m.map_reference_count ≤ 2 ^ 32 - 1
  pub held : m.mapped ≡ true → (0 < m.map_reference_count) × (m.backed ≡ true)
  pub free : m.mapped ≡ false → m.map_reference_count ≡ 0

-- The memories of the bindings are there.
abbrev pub AllBacked : List ℕ → List SparseBufferBinding → Type 0
AllBacked members [] = Unit {0}
AllBacked members (b ∷ bs) = (contains b.memory members ≡ true) × AllBacked members bs

pub record IsGood (d : Driver) : Type 0 where
  pub memories : IsSound d.memories
  pub buffers : IsSound d.buffers
  pub fit : (p : ℕ) (m : DeviceMemoryState) → object p d.memories ≡ some m → IsFit m
  pub bound :
      (q : ℕ) (b : BufferState)
      → object q d.buffers ≡ some b
      → (b.size ≤ max64)
        × IsBound b.size b.sparse_bindings
        × AllBacked d.memories.members b.sparse_bindings

-- The state after a call that makes and frees nothing.
pub record After (d d' : Driver) : Type 0 where
  pub good : IsGood d'
  pub members : d'.memories.members ≡ d.memories.members
  pub same_buffers : d'.buffers ≡ d.buffers

abbrev pub Runs : Driver → Step → Type 0
Runs d s = (r : VkResult) × (d' : Driver) × (s ≡ some (r, d')) × After d d'

pub After-trans : {d d' d'' : Driver} → After d d' → After d' d'' → After d d''
After-trans a b = record {
  good = b.good;
  members = b.members ∙ a.members;
  same_buffers = b.same_buffers ∙ a.same_buffers;
}

pub stays : {d : Driver} (r : VkResult) → IsGood d → Runs d (some (r, d))
stays {d} r g = (r, d, refl, record { good = g; members = refl; same_buffers = refl })

pub and_then-Runs :
    (d : Driver) (s : Step) (f : Driver → Step)
    → Runs d s
    → ((d' : Driver) → After d d' → Runs d' (f d'))
    → Runs d (and_then s f)
and_then-Runs d s f (success, d', e, a) k =
    let (r, d'', e', a') = k d' a in (r, d'', rw (e, and_then) e', After-trans a a')
and_then-Runs d s f (r, d', e, a) k = (r, d', rw e refl, a)

-- Files and transfers are not in the invariant.
pub moved-IsGood :
    (d : Driver) (files : ℕ → ℕ → ℕ) (transfers : ℕ)
    → IsGood d
    → IsGood (record d { files = files; transfers = transfers })
moved-IsGood d files transfers g = record {
  memories = g.memories;
  buffers = g.buffers;
  fit = g.fit;
  bound = g.bound;
}

-- A memory that stays as large is stored.
pub store_memory-After :
    (p : ℕ) (m m' : DeviceMemoryState) (d : Driver)
    → object p d.memories ≡ some m
    → IsFit m'
    → IsGood d
    → After d (store_memory p m' d)
store_memory-After p m m' d e fit g = record {
  good = record {
    memories = store_object-IsSound d.memories p m' (ground arith) g.memories;
    buffers = g.buffers;
    fit = λ q n h. stored_fit q n h;
    bound = g.bound;
  };
  members = refl;
  same_buffers = refl;
}
  where
    stored_fit :
        (q : ℕ) (n : DeviceMemoryState) → object q (store_object p m' d.memories) ≡ some n → IsFit n
    stored_fit q n h = elim (Bool-cases (p == q)) [
      | inl same ↦ subst (λ (x : DeviceMemoryState). IsFit x) (eq same) fit
      | inr other ↦ g.fit q n (ground (arith, lookup-put p q m' d.memories.live))
    ]
      where
        eq : (p == q) ≡ true → m' ≡ n
        eq same = ground (arith, lookup-put p q m' d.memories.live)

-- What a handle leads to.
pub data Live {A : Type 0} (o : Option A) : Type 0 where
  held : (a : A) → o ≡ some a → Live o

-- A member is live.
pub member-object :
    (p : ℕ) (d : Driver) → IsGood d → is_member p d.memories ≡ true → Live (object p d.memories)
member-object p d g h = elim (Option-cases (object p d.memories)) [
  | inl dead ↦ absurd (ground (arith, g.memories p))
  | inr (m, live) ↦ held m live
]

pub object-member :
    (p : ℕ) (m : DeviceMemoryState) (d : Driver)
    → IsGood d
    → object p d.memories ≡ some m
    → is_member p d.memories ≡ true
object-member p m d g h = ground (arith, g.memories p)

pub After-object :
    (p : ℕ) (d d' : Driver)
    → After d d'
    → is_member p d.memories ≡ true
    → Live (object p d'.memories)
After-object p d d' a h = member-object p d' a.good (ap (contains p) a.members ∙ h)

pub object-store_self :
    {A : Type 0} (p : ℕ) (a : A) (r : Registry A) → object p (store_object p a r) ≡ some a
object-store_self p a r = ground (arith, lookup-put p p a r.live)
