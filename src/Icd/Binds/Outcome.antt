-- ===== src/Icd/Binds/Outcome.antt =====
-- What each step of vkQueueBindSparse of guest/vulkan_icd/imb_vulkan_icd.cpp keeps, and what it makes
-- of a byte of a buffer.
use isaac_metal_bridge.Base.{
  ℕ, ◌≡◌, refl, ap, ◌∙◌, inl, inr, ◌⊎◌, Bool-cases, Bool, true, false, Option, none, some, List, [],
  ◌∷◌, ◌==◌, lookup-put, arith,
}
use isaac_metal_bridge.Cuda.Registry.{Registry, object, store_object, IsSound}
use isaac_metal_bridge.Icd.Result.{VkResult, success, initialization_failed}
use isaac_metal_bridge.Icd.Bindings.Pieces.{resolve}
use isaac_metal_bridge.Icd.Driver.{Driver, BufferState, ImageState, Step, and_then}
use isaac_metal_bridge.Icd.Memory.Good.{IsGood}
use isaac_metal_bridge.Icd.Binds.{has_zero, and_check, check_all}
use isaac_metal_bridge.Icd.Binds.Images.{each_step}

-- No size of a tile of a sparse image is zero.
abbrev pub IsTiled : ImageState → Type 0
IsTiled i =
    (i.sparse_tile_bytes == 0) ≡ false
    → (has_zero i.sparse_granularity ≡ false) × (has_zero i.metal_sparse_granularity ≡ false)

abbrev pub IsSolid : Registry ImageState → Type 0
IsSolid r = (p : ℕ) (i : ImageState) → object p r ≡ some i → IsTiled i

-- What a registry holds is still there in another one, with the same `f`.
module _ {A B : Type 0} (f : A → B) where
  abbrev pub Stays : Registry A → Registry A → Type 0
  Stays r r' =
      (p : ℕ) (a : A) → object p r ≡ some a → (a' : A) × (object p r' ≡ some a') × (f a' ≡ f a)

  pub Stays-refl : (r : Registry A) → Stays r r
  Stays-refl r p a h = (a, h, refl)

  pub Stays-trans : (r r' r'' : Registry A) → Stays r r' → Stays r' r'' → Stays r r''
  Stays-trans r r' r'' k l p a h =
      let (a', h', e) = k p a h in let (a'', h'', e') = l p a' h' in (a'', h'', e' ∙ e)

  pub stored-Stays :
      (p : ℕ) (a a' : A) (r : Registry A)
      → object p r ≡ some a
      → f a' ≡ f a
      → Stays r (store_object p a' r)
  stored-Stays p a a' r h e q c k = elim (Bool-cases (p == q)) [
    | inl same ↦
        let path : p ≡ q = ground arith in
        let found : object p r ≡ some c = rw path k in
        let one : a ≡ c = ground arith in
        (a', ground (arith, lookup-put p q a' r.live), e ∙ ap f one)
    | inr other ↦ (c, ground (arith, lookup-put p q a' r.live), refl)
  ]

pub record IsReady (d : Driver) : Type 0 where
  pub good : IsGood d
  pub images : IsSound d.images
  pub semaphores : IsSound d.semaphores
  pub fences : IsSound d.fences
  pub solid : IsSolid d.images

-- The objects are there, with the memories, the sizes of buffers and the tiles of images as they
-- were.
pub record Keeps (d d' : Driver) : Type 0 where
  pub ready : IsReady d'
  pub memories : d'.memories ≡ d.memories
  pub semaphores : d'.semaphores.members ≡ d.semaphores.members
  pub fences : d'.fences.members ≡ d.fences.members
  pub sizes : Stays (λ b. b.size) d.buffers d'.buffers
  pub tiles : Stays (λ i. i.sparse_tile_bytes) d.images d'.images

pub Keeps-refl : (d : Driver) → IsReady d → Keeps d d
Keeps-refl d r = record {
  ready = r;
  memories = refl;
  semaphores = refl;
  fences = refl;
  sizes = Stays-refl (λ b. b.size) d.buffers;
  tiles = Stays-refl (λ i. i.sparse_tile_bytes) d.images;
}

pub Keeps-trans : (d d' d'' : Driver) → Keeps d d' → Keeps d' d'' → Keeps d d''
Keeps-trans d d' d'' k l = record {
  ready = l.ready;
  memories = l.memories ∙ k.memories;
  semaphores = l.semaphores ∙ k.semaphores;
  fences = l.fences ∙ k.fences;
  sizes = Stays-trans (λ b. b.size) d.buffers d'.buffers d''.buffers k.sizes l.sizes;
  tiles = Stays-trans (λ i. i.sparse_tile_bytes) d.images d'.images d''.images k.tiles l.tiles;
}

-- The byte of memory behind byte `o` of buffer `q`.
abbrev pub resolved_in : ℕ → Option BufferState → Option (ℕ × ℕ)
resolved_in o none = none
resolved_in o (some b) = resolve b.sparse_bindings o

abbrev pub resolved : ℕ → ℕ → Driver → Option (ℕ × ℕ)
resolved q o d = resolved_in o (object q d.buffers)

abbrev pub Change : Type 0
Change = Option (ℕ × ℕ) → Option (ℕ × ℕ)

-- One change after the other.
unfoldable pub folded : {A : Type 0} → (A → Change) → List A → Change
folded f [] v = v
folded f (x ∷ xs) v = folded f xs (f x v)

pub record Does (q o : ℕ) (f : Change) (d : Driver) (s : Step) : Type 0 where
  pub result : VkResult
  pub state : Driver
  pub returns : s ≡ some (result, state)
  pub keeps : Keeps d state
  pub view : result ≡ success → resolved q o state ≡ f (resolved q o d)
  pub checked : result ≡ initialization_failed → ⊥

pub and_check-both :
    (a b : Option Bool) → and_check a b ≡ some true → (a ≡ some true) × (b ≡ some true)
and_check-both none b h = absurd (ground (arith, h))
and_check-both (some false) b h = absurd (ground (arith, h))
and_check-both (some true) b h = (refl, h)

pub success-cases : (r : VkResult) → (r ≡ success) ⊎ (r ≡ success → ⊥)
success-cases success = inl refl
success-cases r = inr (λ h. ground arith)

pub and_then-stops :
    (r : VkResult) (d : Driver) (k : Driver → Step)
    → (r ≡ success → ⊥)
    → and_then (some (r, d)) k ≡ some (r, d)
and_then-stops success d k h = absurd (h refl)
and_then-stops r d k h = refl

module _ (q o : ℕ) where
  pub Does-done : (d : Driver) → IsReady d → Does q o (λ v. v) d (some (success, d))
  Does-done d r = record {
    result = success;
    state = d;
    returns = refl;
    keeps = Keeps-refl d r;
    view = λ _. refl;
    checked = λ h. ground arith;
  }

  pub and_then-Does :
      (f g : Change) (d : Driver) (s : Step) (k : Driver → Step)
      → Does q o f d s
      → ((d' : Driver) → Keeps d d' → Does q o g d' (k d'))
      → Does q o (λ v. g (f v)) d (and_then s k)
  and_then-Does f g d s k a b = elim (success-cases a.result) [
    | inl done ↦
        let n = b a.state a.keeps in
        record {
          result = n.result;
          state = n.state;
          returns = rw (a.returns, done) n.returns;
          keeps = Keeps-trans d a.state n.state a.keeps n.keeps;
          view = λ h. n.view h ∙ ap g (a.view done);
          checked = n.checked;
        }
    | inr failed ↦ record {
      result = a.result;
      state = a.state;
      returns = rw a.returns (and_then-stops a.result a.state k failed);
      keeps = a.keeps;
      view = λ h. absurd (failed h);
      checked = a.checked;
    }
  ]

  -- A loop over elements that a check let pass at the start.
  pub each_step-Does :
      {A : Type 0} (check : A → Option Bool) (step : A → Driver → Step) (f : A → Change)
      (start : Driver)
      → ((x : A) → check x ≡ some true → (d : Driver) → Keeps start d → Does q o (f x) d (step x d))
      → (xs : List A) → check_all check xs ≡ some true
      → (d : Driver) → Keeps start d
      → Does q o (folded f xs) d (each_step step xs d)
  unfolding each_step folded check_all
  each_step-Does check step f start each [] h d k = Does-done d k.ready
  each_step-Does check step f start each (x ∷ xs) h d k =
      let c = and_check-both (check x) (check_all check xs) h in
      and_then-Does (f x) (folded f xs) d (step x d) (each_step step xs) (each x c.0 d k)
        (λ d' l. each_step-Does check step f start each xs c.1 d' (Keeps-trans start d d' k l))

  -- A step that touches no buffer.
  pub Does-quiet :
      (r : VkResult) (d d' : Driver)
      → (r ≡ initialization_failed → ⊥)
      → Keeps d d'
      → d'.buffers ≡ d.buffers
      → Does q o (λ v. v) d (some (r, d'))
  Does-quiet r d d' h k e = record {
    result = r;
    state = d';
    returns = refl;
    keeps = k;
    view = λ _. rw e refl;
    checked = h;
  }
