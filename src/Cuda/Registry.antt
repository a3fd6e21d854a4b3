-- ===== src/Cuda/Registry.antt =====
-- The pattern of guest/cuda_shim/imb_cuda_shim.cpp for every kind of handle: objects made by
-- `new (std::nothrow)`, a `std::unordered_set` of the valid pointers, and `delete`.
use isaac_metal_bridge.Base.{
  ℕ, ◌≡◌, Bool, true, false, Option, none, some, List, [], Table, lookup, put, erase, contains,
  insert, remove, lookup-put, lookup-erase, contains-insert, contains-remove, arith,
}

pub record Registry {ℓ} (A : Type ℓ) : Type ℓ where
  -- the objects made and not deleted
  pub live : Table A
  -- the set of handles
  pub members : List ℕ

module _ {ℓ} {A : Type ℓ} where
  abbrev pub empty : Registry A
  empty = record { live = []; members = [] }

  abbrev pub is_member : ℕ → Registry A → Bool
  is_member p r = contains p r.members

  -- `static_cast<A*>(p)`, followed: `none` for a pointer that is not live.
  abbrev pub object : ℕ → Registry A → Option A
  object p r = lookup p r.live

  abbrev pub is_live : ℕ → Registry A → Bool
  is_live p r = elim (lookup p r.live) [ none ↦ false | some _ ↦ true ]

  -- `new` returning `p`, before the pointer is in the set.
  abbrev pub new_object : ℕ → A → Registry A → Registry A
  new_object p a r = record r { live = put p a r.live }

  abbrev pub enrol : ℕ → Registry A → Registry A
  enrol p r = record r { members = insert p r.members }

  abbrev pub withdraw : ℕ → Registry A → Registry A
  withdraw p r = record r { members = remove p r.members }

  -- `delete p`: `none` for a pointer that is not live.
  unfoldable pub delete_object : ℕ → Registry A → Option (Registry A)
  delete_object p r = elim (lookup p r.live) [
    | none ↦ none
    | some _ ↦ some (record r { live = erase p r.live })
  ]

  -- A write through a live pointer.
  abbrev pub store_object : ℕ → A → Registry A → Registry A
  store_object p a r = record r { live = put p a r.live }

-- The handles are the live objects: none dangles and none is lost.
abbrev pub IsSound {ℓ} : {A : Type ℓ} → Registry A → Type 0
IsSound r = (p : ℕ) → is_member p r ≡ is_live p r

module _ {ℓ} {A : Type ℓ} (r : Registry A) (p : ℕ) where
  pub enrol-IsSound : (a : A) → IsSound r → IsSound (enrol p (new_object p a r))
  enrol-IsSound a h q = ground (arith, contains-insert p q r.members, lookup-put p q a r.live, h q)

  pub store_object-IsSound : (a : A) → is_live p r ≡ true → IsSound r → IsSound (store_object p a r)
  store_object-IsSound a live h q = ground (arith, lookup-put p q a r.live, h q, h p)

  pub delete_object-IsSound :
      (r' : Registry A) → delete_object p (withdraw p r) ≡ some r' → IsSound r → IsSound r'
  unfolding delete_object
  delete_object-IsSound r' e h q =
      ground (arith, contains-remove p q r.members, lookup-erase p q r.live, h q)

  -- A member can be deleted.
  pub delete_object-ne_none :
      is_member p r ≡ true → IsSound r → delete_object p (withdraw p r) ≡ none → ⊥
  unfolding delete_object
  delete_object-ne_none m h e = ground (arith, h p)
