-- ===== src/Cuda/Libraries/Kernels.antt =====
-- The loop of cuLibraryUnload over the kernels, guest/cuda_shim/imb_cuda_shim.cpp.
use isaac_metal_bridge.Base.{
  ℕ, ◌≡◌, refl, ◌≢◌, inl, inr, Option-cases, Bool-cases, Bool, true, false, ◌&&◌, Option, none,
  some, List, [], ◌∷◌, contains, erase, remove, lookup-erase, contains-remove, arith, ◌==◌,
  if◌then◌else◌,
}
use isaac_metal_bridge.Cuda.Registry.{Registry, is_member, object, is_live, IsSound, delete_object}
use isaac_metal_bridge.Cuda.Libraries.{Code, KernelState, drop_kernel, drop_kernels}

-- What the loop relies on: valid handles are live, each kernel's function is valid, and no two
-- kernels share one.
pub record IsLinked (c : Code) : Type 0 where
  pub functions : IsSound c.functions
  pub kernels : IsSound c.kernels
  pub kernel_function :
      (k : ℕ) (s : KernelState)
      → object k c.kernels ≡ some s
      → is_member s.function c.functions ≡ true
  pub kernel_apart :
      (k l : ℕ) (s t : KernelState)
      → object k c.kernels ≡ some s
      → object l c.kernels ≡ some t
      → k ≢ l
      → s.function ≢ t.function

abbrev pub without {ℓ} : {A : Type ℓ} → ℕ → Registry A → Registry A
without p r = record { live = erase p r.live; members = remove p r.members }

-- The state after one kernel is dropped.
abbrev pub dropped : Code → ℕ → KernelState → Code
dropped c k s = record c {
  functions = without s.function c.functions;
  kernels = without k c.kernels;
}

module _ (c : Code) (v : IsLinked c) (k : ℕ) (s : KernelState)
    (e : object k c.kernels ≡ some s) where
  drop_kernel_lem : drop_kernel c k s ≡ some (dropped c k s)
  unfolding drop_kernel delete_object
  drop_kernel_lem = ground (arith, v.functions s.function, v.kernel_function k s e)

  dropped-IsLinked : IsLinked (dropped c k s)
  dropped-IsLinked = record {
    functions = λ p. ground (
      arith,
      lookup-erase s.function p c.functions.live,
      contains-remove s.function p c.functions.members,
      v.functions p,
    );
    kernels = λ p. ground (
      arith,
      lookup-erase k p c.kernels.live,
      contains-remove k p c.kernels.members,
      v.kernels p,
    );
    kernel_function = λ l t h. ground (
      arith,
      lookup-erase k l c.kernels.live,
      contains-remove s.function t.function c.functions.members,
      v.kernel_function l t,
      v.kernel_apart k l s t e,
    );
    kernel_apart = λ l n t u h g ne. ground (
      arith,
      lookup-erase k l c.kernels.live,
      lookup-erase k n c.kernels.live,
      v.kernel_apart l n t u,
    );
  }

abbrev pub Distinct : List ℕ → Type 0
Distinct [] = Unit {0}
Distinct (k ∷ ks) = (contains k ks ≡ false) × Distinct ks

Distinct-remove : (k : ℕ) (ks : List ℕ) → Distinct ks → Distinct (remove k ks)
unfolding remove
Distinct-remove k [] d = tt
Distinct-remove k (j ∷ ks) d = ground (arith, Distinct-remove k ks d.1, contains-remove k j ks)

-- Does this kernel belong to the library?
abbrev pub is_of : ℕ → Option KernelState → Bool
is_of library none = false
is_of library (some s) = s.library == library

-- The loop over `ks` deletes the kernels of the library among them, and no others.
pub record IsDropped (c : Code) (library : ℕ) (ks : List ℕ) (c' : Code) : Type 0 where
  pub linked : IsLinked c'
  pub objects :
      (p : ℕ)
      → object p c'.kernels
        ≡ (if contains p ks && is_of library (object p c.kernels) then none else object p c.kernels)
  pub function_gone :
      (p : ℕ) (s : KernelState)
      → contains p ks ≡ true
      → object p c.kernels ≡ some s
      → s.library ≡ library
      → is_member s.function c'.functions ≡ false
  pub functions_only : (f : ℕ) → is_member f c.functions ≡ false → is_member f c'.functions ≡ false
  pub distinct : Distinct c.kernels.members → Distinct c'.kernels.members
  pub modules : c'.modules ≡ c.modules
  pub libraries : c'.libraries ≡ c.libraries

module _ (library k : ℕ) (ks : List ℕ) (c c' : Code) (s : KernelState)
    (apart : contains k ks ≡ false) (e : object k c.kernels ≡ some s) where
  IsDropped-hit :
      s.library ≡ library
      → IsLinked c
      → IsDropped (dropped c k s) library ks c'
      → IsDropped c library (k ∷ ks) c'
  unfolding contains
  IsDropped-hit hit v r = record {
    linked = r.linked;
    objects = λ p. ground (arith, lookup-erase k p c.kernels.live, r.objects p);
    function_gone = λ p t member found of_library. ground (
      arith,
      lookup-erase k p c.kernels.live,
      r.function_gone p t,
      r.functions_only s.function,
      contains-remove s.function s.function c.functions.members,
    );
    functions_only = λ f h.
        r.functions_only f (ground (arith, contains-remove s.function f c.functions.members));
    distinct = λ d. r.distinct (Distinct-remove k c.kernels.members d);
    modules = r.modules;
    libraries = r.libraries;
  }

  IsDropped-miss : s.library ≢ library → IsDropped c library ks c' → IsDropped c library (k ∷ ks) c'
  unfolding contains
  IsDropped-miss miss r = record {
    linked = r.linked;
    objects = λ p. ground (arith, r.objects p);
    function_gone = λ p t member found of_library. ground (arith, r.function_gone p t);
    functions_only = r.functions_only;
    distinct = r.distinct;
    modules = r.modules;
    libraries = r.libraries;
  }

module _ (library : ℕ) where
  pub drop_kernels_lem :
      (ks : List ℕ) (c : Code)
      → Distinct ks
      → IsLinked c
      → ((p : ℕ) → contains p ks ≡ true → is_live p c.kernels ≡ true)
      → (c' : Code) × (drop_kernels c library ks ≡ some c') × IsDropped c library ks c'
  unfolding drop_kernels contains
  drop_kernels_lem [] c d v live = (
    c,
    refl,
    record {
      linked = v;
      objects = λ p. refl;
      function_gone = λ p s h. cc;
      functions_only = λ f h. h;
      distinct = λ d. d;
      modules = refl;
      libraries = refl;
    },
  )
  drop_kernels_lem (k ∷ ks) c d v live = elim (Option-cases (object k c.kernels)) [
    | inl dead ↦ absurd (ground (arith, live k))
    | inr (s, e) ↦ elim (Bool-cases (s.library == library)) [
      | inl hit ↦
          let rest =
            drop_kernels_lem ks (dropped c k s) d.1 (dropped-IsLinked c v k s e)
              (λ p h. ground (arith, lookup-erase k p c.kernels.live, live p)) in
          rw (e, drop_kernels, hit, drop_kernel_lem c v k s e)
            (rest.0, rest.1, IsDropped-hit library k ks c rest.0 s d.0 e (ground arith) v rest.2)
      | inr miss ↦
          let rest = drop_kernels_lem ks c d.1 v (λ p h. ground (arith, live p)) in
          rw (e, drop_kernels, miss)
            (rest.0, rest.1, IsDropped-miss library k ks c rest.0 s d.0 e (ground arith) rest.2)
    ]
  ]
