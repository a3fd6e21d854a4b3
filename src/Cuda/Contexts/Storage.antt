-- ===== src/Cuda/Contexts/Storage.antt =====
-- The context-local storage of guest/cuda_shim/imb_cuda_shim.cpp is a map from contexts and keys to
-- values with room for as many keys as the array has entries.
use isaac_metal_bridge.Base.{
  ℕ, suc, ◌≡◌, ◌↔◌, ◌≢◌, ◌⊎◌, inl, inr, refl, Bool, true, false, ◌&&◌, Option, none, some,
  Bool-cases, Option-cases, List, [], ◌∷◌, ◌==◌, if◌then◌else◌, arith,
}
use native.Mathlib.Decide.{ℕ_discrete}
use isaac_metal_bridge.Cuda.Result.{CuResult, success}
use isaac_metal_bridge.Cuda.Contexts.{
  ContextStorageEntry, Contexts, resolve_context, replace_entry, add_entry, clear_entry, find_entry,
  is_entry, context_storage_put, context_storage_delete, context_storage_get,
}

abbrev pub Entries : Type 0
Entries = List ContextStorageEntry

-- No two used entries have the same context and key.
unfoldable pub IsUnique : Entries → Type 0
IsUnique [] = Unit {0}
IsUnique (e ∷ es) = (e.used ≡ true → find_entry es e.context e.key ≡ none) × IsUnique es

abbrev pub same_key : ℕ → ℕ → ℕ → ℕ → Bool
same_key c k c' k' = c == c' && k == k'

replace_entry_lem :
    (es : Entries) (c k v d : ℕ)
    → IsUnique es
    → (find_entry es c k ≢ none)
    → (es' : Entries) × (replace_entry es c k v d ≡ some es')
      × ((c' k' : ℕ)
          → find_entry es' c' k' ≡ (if same_key c k c' k' then some v else find_entry es c' k'))
      × IsUnique es'
unfolding replace_entry find_entry IsUnique
replace_entry_lem [] c k v d u h = absurd (h refl)
replace_entry_lem (e ∷ es) c k v d u h = elim (Bool-cases (is_entry c k e)) [
  | inl here ↦
      (record e { value = v; destructor = d } ∷ es, ground arith, λ c' k'. ground (arith, u.0), u)
  | inr there ↦
      let r = replace_entry_lem es c k v d u.1 (ground (arith, h)) in
      (
        e ∷ r.0,
        ground (arith, r.1),
        λ c' k'. ground (arith, r.2 c' k'),
        ((λ used. ground (arith, r.2 e.context e.key, u.0)), r.3),
      )
]

replace_entry-none :
    (es : Entries) (c k v d : ℕ) → find_entry es c k ≡ none → replace_entry es c k v d ≡ none
unfolding replace_entry find_entry
replace_entry-none [] c k v d h = refl
replace_entry-none (e ∷ es) c k v d h = ground (arith, replace_entry-none es c k v d)

-- The number of entries that are not used.
unfoldable pub spare : Entries → ℕ
spare [] = 0
spare (e ∷ es) = let rest = spare es in if e.used then rest else suc rest

abbrev entry : ℕ → ℕ → ℕ → ℕ → ContextStorageEntry
entry c k v d = record { context = c; key = k; value = v; destructor = d; used = true }

add_entry-none : (es : Entries) (e : ContextStorageEntry) → spare es ≡ 0 → add_entry es e ≡ none
unfolding add_entry spare
add_entry-none [] e h = refl
add_entry-none (f ∷ es) e h = ground (arith, add_entry-none es e)

add_entry_lem :
    (es : Entries) (c k v d : ℕ)
    → IsUnique es
    → find_entry es c k ≡ none
    → spare es ≢ 0
    → (es' : Entries) × (add_entry es (entry c k v d) ≡ some es')
      × ((c' k' : ℕ)
          → find_entry es' c' k' ≡ (if same_key c k c' k' then some v else find_entry es c' k'))
      × IsUnique es'
      × (suc (spare es') ≡ spare es)
unfolding add_entry find_entry IsUnique spare
add_entry_lem [] c k v d u h room = absurd (room refl)
add_entry_lem (e ∷ es) c k v d u h room = elim (Bool-cases e.used) [
  | inr free ↦ (
    entry c k v d ∷ es,
    ground arith,
    λ c' k'. ground arith,
    ((λ used. ground arith), u.1),
    ground arith,
  )
  | inl taken ↦
      let r = add_entry_lem es c k v d u.1 (ground arith) (ground (arith, room)) in
      (
        e ∷ r.0,
        ground (arith, r.1),
        λ c' k'. ground (arith, r.2 c' k'),
        ((λ used. ground (arith, r.2 e.context e.key, u.0)), r.3),
        ground (arith, r.4),
      )
]

clear_entry_lem :
    (es : Entries) (c k : ℕ)
    → IsUnique es
    → ((c' k' : ℕ)
        → find_entry (clear_entry es c k) c' k'
          ≡ (if same_key c k c' k' then none else find_entry es c' k'))
      × IsUnique (clear_entry es c k)
unfolding clear_entry find_entry IsUnique
clear_entry_lem [] c k u = ((λ c' k'. ground arith), tt)
clear_entry_lem (e ∷ es) c k u =
    let r = clear_entry_lem es c k u.1 in
    elim (Bool-cases (is_entry c k e)) [
      | inl here ↦ rw here ((λ c' k'. ground (arith, u.0)), ((λ used. ground arith), u.1))
      | inr there ↦ rw there (
        (λ c' k'. ground (arith, r.0 c' k')),
        ((λ used. ground (arith, r.0 e.context e.key, u.0)), r.1),
      )
    ]

-- The storage as a map from contexts and keys, null contexts taken for the current one.
abbrev pub view : Contexts → ℕ → ℕ → Option ℕ
view s context key = find_entry s.storage (resolve_context s context) key

abbrev pub ok : CuResult → Bool
ok success = true
ok _ = false

-- In a storage without duplicate keys, putting a value succeeds exactly if its key is there or an
-- entry is free; then that key has the value and every other key what it had, else every key has
-- what it had; the storage is again without duplicates.
pub context_storage_put_lem :
    (s : Contexts) (context key v d : ℕ)
    → IsUnique s.storage
    → (let r = context_storage_put s context key v d in
        ((r.result ≡ success) ↔ ((view s context key ≢ none) ⊎ (spare s.storage ≢ 0)))
        × ((c' k' : ℕ)
            → find_entry (r.state).storage c' k' ≡ (
                if ok (r.result) && same_key (resolve_context s context) key c' k'
                then some v
                else find_entry s.storage c' k'))
        × IsUnique (r.state).storage)
unfolding context_storage_put
context_storage_put_lem s context key v d u =
    let c = resolve_context s context in
    elim (Option-cases (find_entry s.storage c key)) [
      | inr (w, e) ↦
          let present : find_entry s.storage c key ≢ none = λ z. cc (e, z) in
          let r = replace_entry_lem s.storage c key v d u present in
          rw (r.1, context_storage_put) (((λ h. inl present), (λ h. refl)), r.2, r.3)
      | inl e ↦
          let missing = replace_entry-none s.storage c key v d e in
          elim (ℕ_discrete (spare s.storage) 0) [
            | yes full ↦
                let none_free = add_entry-none s.storage (entry c key v d) full in
                rw (missing, context_storage_put, none_free)
                  (
                    ((λ h. cc), (λ h. elim h [ inl p ↦ absurd (p e) | inr q ↦ absurd (q full) ])),
                    (λ c' k'. refl),
                    u,
                  )
            | no room ↦
                let r = add_entry_lem s.storage c key v d u e room in
                rw (missing, context_storage_put, r.1) (((λ h. inr room), (λ h. refl)), r.2, r.3)
          ]
    ]

-- In a storage without duplicate keys, deleting a key leaves it without a value and every other
-- key with what it had, in a storage without duplicates.
pub context_storage_delete_lem :
    (s : Contexts) (context key : ℕ)
    → IsUnique s.storage
    → (let r = context_storage_delete s context key in
        ((c' k' : ℕ)
          → find_entry (r.state).storage c' k' ≡ (
              if same_key (resolve_context s context) key c' k'
              then none
              else find_entry s.storage c' k'))
        × IsUnique (r.state).storage)
unfolding context_storage_delete
context_storage_delete_lem s context key u =
    clear_entry_lem s.storage (resolve_context s context) key u

put-current :
    (s : Contexts) (context key v d c' : ℕ)
    → resolve_context (context_storage_put s context key v d).state c' ≡ resolve_context s c'
unfolding context_storage_put resolve_context
put-current s context key v d c' = ground arith

-- In a storage without duplicate keys, after a put that succeeds a get of that context and key
-- hands out the value, and a get of any other context or key hands out what it did before, null
-- contexts standing for the current one.
pub context_storage_get-put :
    (s : Contexts) (context key v d c' k' : ℕ)
    → IsUnique s.storage
    → (context_storage_put s context key v d).result ≡ success
    → (let after = (context_storage_put s context key v d).state in
        ((context_storage_get after true context key).out ≡ some v)
        × (same_key (resolve_context s context) key (resolve_context s c') k' ≡ false
            → (context_storage_get after true c' k').out ≡ (context_storage_get s true c' k').out))
context_storage_get-put s context key v d c' k' u h =
    let p = (context_storage_put_lem s context key v d u).1 in
    let same = put-current s context key v d in
    let mine = p (resolve_context s context) key in
    let other = p (resolve_context s c') k' in
    (
      unfold context_storage_get in ground (arith, mine, same context),
      λ apart. unfold context_storage_get in ground (arith, other, same c'),
    )
