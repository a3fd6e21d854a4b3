-- ===== src/Cuda/External/LevelArrays.antt =====
-- The arrays behind the levels of a mipmap, guest/cuda_shim/imb_cuda_shim.cpp: made one by one,
-- and deleted together.
use isaac_metal_bridge.Base.{
  ℕ, zero, suc, ◌+◌, ◌<◌, ◌≡◌, refl, ap, ◌∙◌, inl, inr, Option-cases, Bool-cases, Bool, true, false,
  ◌||◌, Option, none, some, List, [], ◌∷◌, length, erase, remove, set, replicate, lookup-put,
  lookup-erase, contains-remove, ◌==◌, if◌then◌else◌, arith,
}
use isaac_metal_bridge.Cuda.Registry.{
  Registry, object, IsSound, delete_object, enrol, new_object, enrol-IsSound,
}
use isaac_metal_bridge.Cuda.External.{ArrayState}
use isaac_metal_bridge.Cuda.External.Mipmaps.{
  Levels, made, bad_alloc, level_at, make_levels, delete_levels,
}

-- Is this array one of the levels?
unfoldable pub listed : ℕ → List (Option ℕ) → Bool
listed a [] = false
listed a (none ∷ levels) = listed a levels
listed a (some b ∷ levels) = b == a || listed a levels

-- Each level is a live array that says which level of which mipmap it is; `first` is the number of
-- the first level of the list.
abbrev pub Owns : ℕ → ℕ → List (Option ℕ) → Registry ArrayState → Type 0
Owns mipmap first levels arrays =
    (l a : ℕ)
    → level_at levels l ≡ some a
    → object a arrays ≡ some (record { mipmap = mipmap; level = first + l })

pub listed-level_at :
    (a : ℕ) (levels : List (Option ℕ))
    → listed a levels ≡ true
    → (l : ℕ) × (level_at levels l ≡ some a)
unfolding listed
listed-level_at a [] h = absurd (ground arith)
listed-level_at a (none ∷ levels) h = let r = listed-level_at a levels h in (suc r.0, r.1)
listed-level_at a (some b ∷ levels) h = elim (Bool-cases (b == a)) [
  | inl e ↦ (0, ground arith)
  | inr e ↦ let r = listed-level_at a levels (ground arith) in (suc r.0, r.1)
]

pub level_at-listed :
    (a : ℕ) (levels : List (Option ℕ)) (l : ℕ) → level_at levels l ≡ some a → listed a levels ≡ true
unfolding listed
level_at-listed a [] l h = cc
level_at-listed a (none ∷ levels) zero h = cc
level_at-listed a (none ∷ levels) (suc l) h = level_at-listed a levels l h
level_at-listed a (some b ∷ levels) zero h = ground arith
level_at-listed a (some b ∷ levels) (suc l) h = ground (arith, level_at-listed a levels l)

-- Deleting the levels of a mipmap deletes exactly its arrays, and never one twice.
pub delete_levels_lem :
    (mipmap first : ℕ) (levels : List (Option ℕ)) (arrays : Registry ArrayState)
    → IsSound arrays
    → Owns mipmap first levels arrays
    → (arrays' : Registry ArrayState) × (delete_levels levels arrays ≡ some arrays')
      × IsSound arrays'
      × ((q : ℕ) → object q arrays' ≡ (if listed q levels then none else object q arrays))
unfolding delete_levels listed delete_object
delete_levels_lem mipmap first [] arrays v o = (arrays, refl, v, λ q. refl)
delete_levels_lem mipmap first (none ∷ levels) arrays v o =
    delete_levels_lem mipmap (suc first) levels arrays v (λ l a h.
      o (suc l) a h ∙ ap (λ (t : ℕ). some (record { mipmap = mipmap; level = t })) (next l))
  where
    next : (l : ℕ) → first + suc l ≡ suc first + l
    next l = omega arith
delete_levels_lem mipmap first (some a ∷ levels) arrays v o =
    let own = o 0 a refl in
    let rest =
      delete_levels_lem mipmap (suc first) levels
        (record { live = erase a arrays.live; members = remove a arrays.members })
        (λ q. ground (arith, lookup-erase a q arrays.live, contains-remove a q arrays.members, v q))
        (λ l b h. ground (arith, own, o (suc l) b h, lookup-erase a b arrays.live)) in
    (
      rest.0,
      ground (arith, own, rest.1),
      rest.2,
      λ q. ground (arith, lookup-erase a q arrays.live, rest.3 q),
    )

level_at-set :
    (levels : List (Option ℕ)) (k l a : ℕ)
    → k < length levels
    → level_at (set levels k (some a)) l ≡ (if k == l then some a else level_at levels l)
level_at-set [] k l a h = absurd (omega arith)
level_at-set (x ∷ levels) zero zero a h = ground arith
level_at-set (x ∷ levels) zero (suc l) a h = ground arith
level_at-set (x ∷ levels) (suc k) zero a h = ground arith
level_at-set (x ∷ levels) (suc k) (suc l) a h = ground (arith, level_at-set levels k l a)

-- A null level takes an array.
listed-set :
    (levels : List (Option ℕ)) (k a q : ℕ)
    → k < length levels
    → level_at levels k ≡ none
    → listed q (set levels k (some a)) ≡ (a == q || listed q levels)
unfolding listed
listed-set [] k a q h e = absurd (omega arith)
listed-set (none ∷ levels) zero a q h e = refl
listed-set (some b ∷ levels) zero a q h e = cc
listed-set (none ∷ levels) (suc k) a q h e = listed-set levels k a q (omega arith) e
listed-set (some b ∷ levels) (suc k) a q h e = ground (arith, listed-set levels k a q)

length-set :
    (levels : List (Option ℕ)) (k : ℕ) (x : Option ℕ) → length (set levels k x) ≡ length levels
length-set [] k x = refl
length-set (y ∷ levels) zero x = refl
length-set (y ∷ levels) (suc k) x = ap suc (length-set levels k x)

level_at-replicate : (n l : ℕ) → level_at (replicate n none) l ≡ none
level_at-replicate zero l = refl
level_at-replicate (suc n) zero = refl
level_at-replicate (suc n) (suc l) = level_at-replicate n l

-- The arrays that `new` makes for a mipmap: not in use, and all different.
pub record IsFresh (before : Registry ArrayState) (news : ℕ → Option ℕ) : Type 0 where
  pub unused : (l a : ℕ) → news l ≡ some a → object a before ≡ none
  pub apart : (l k a : ℕ) → news l ≡ some a → news k ≡ some a → l ≡ k

-- The state of the loop with `level` arrays made since `before`.
pub record IsBuilt (before : Registry ArrayState) (news : ℕ → Option ℕ) (mipmap level : ℕ)
    (arrays : Registry ArrayState) (levels : List (Option ℕ)) : Type 0 where
  pub sound : IsSound arrays
  pub owns : Owns mipmap 0 levels arrays
  pub origin : (l a : ℕ) → level_at levels l ≡ some a → (news l ≡ some a) × (l < level)
  pub others : (q : ℕ) → listed q levels ≡ false → object q arrays ≡ object q before
  pub unused : (q : ℕ) → listed q levels ≡ true → object q before ≡ none

module _ (before : Registry ArrayState) (news : ℕ → Option ℕ) (fresh : IsFresh before news)
    (mipmap : ℕ) where
  IsBuilt-null :
      (level : ℕ) (arrays : Registry ArrayState) (levels : List (Option ℕ))
      → IsBuilt before news mipmap level arrays levels
      → level_at levels level ≡ none
  IsBuilt-null level arrays levels b = elim (Option-cases (level_at levels level)) [
    | inl e ↦ e
    | inr (a, e) ↦ absurd (omega (arith, (b.origin level a e).1))
  ]

  IsBuilt-next :
      (level a : ℕ) (arrays : Registry ArrayState) (levels : List (Option ℕ))
      → news level ≡ some a
      → level < length levels
      → IsBuilt before news mipmap level arrays levels
      → IsBuilt before news mipmap
          (level + 1)
          (enrol a (new_object a (record { mipmap = mipmap; level = level }) arrays))
          (set levels level (some a))
  IsBuilt-next level a arrays levels e room b =
      let null = IsBuilt-null level arrays levels b in
      let state : ArrayState = record { mipmap = mipmap; level = level } in
      record {
        sound = enrol-IsSound arrays a state b.sound;
        owns = λ l c h. ground (
          arith,
          level_at-set levels level l a,
          lookup-put a c state arrays.live,
          b.owns l c,
          b.origin l c,
          fresh.apart level l a,
        );
        origin = λ l c h. ground (arith, level_at-set levels level l a, b.origin l c);
        others = λ q h.
            ground
              (arith, listed-set levels level a q, lookup-put a q state arrays.live, b.others q);
        unused =
            λ q h. ground (arith, listed-set levels level a q, fresh.unused level a, b.unused q);
      }

  -- The loop ends in such a state, whether it makes every array or `new` throws on the way.
  abbrev pub Builds : Levels → Type 0
  Builds (made arrays levels) = (level : ℕ) × IsBuilt before news mipmap level arrays levels
  Builds (bad_alloc arrays levels) = (level : ℕ) × IsBuilt before news mipmap level arrays levels

  pub make_levels-Builds :
      (n level : ℕ) (arrays : Registry ArrayState) (levels : List (Option ℕ))
      → level + n ≡ length levels
      → IsBuilt before news mipmap level arrays levels
      → Builds (make_levels mipmap n level news arrays levels)
  unfolding make_levels
  make_levels-Builds zero level arrays levels e b = (level, b)
  make_levels-Builds (suc n) level arrays levels e b = elim (Option-cases (news level)) [
    | inl h ↦ rw (h, make_levels) (level, b)
    | inr (a, h) ↦
        rw (h, make_levels)
          (make_levels-Builds n (level + 1) _ _ (omega (arith, length-set levels level (some a)))
            (IsBuilt-next level a arrays levels h (omega arith) b))
  ]

  pub start-IsBuilt :
      (n : ℕ) → IsSound before → IsBuilt before news mipmap 0 before (replicate n none)
  start-IsBuilt n v = record {
    sound = v;
    owns = λ l a h. cc (level_at-replicate n l);
    origin = λ l a h. absurd (cc (level_at-replicate n l));
    others = λ q h. refl;
    unused = λ q h.
        let found = listed-level_at q (replicate n none) h in
        absurd (cc (found.1, level_at-replicate n found.0));
  }

  -- What was made is taken back by `delete_levels`: the objects are those from before.
  pub delete_built :
      (level : ℕ) (arrays : Registry ArrayState) (levels : List (Option ℕ))
      → IsBuilt before news mipmap level arrays levels
      → (arrays' : Registry ArrayState) × (delete_levels levels arrays ≡ some arrays')
        × IsSound arrays'
        × ((q : ℕ) → object q arrays' ≡ object q before)
  delete_built level arrays levels b =
      let r = delete_levels_lem mipmap 0 levels arrays b.sound b.owns in
      (r.0, r.1, r.2, λ q. ground (arith, r.3 q, b.others q, b.unused q))
