-- ===== src/Cuda/Contexts.antt =====
-- The current context and the context-local storage of guest/cuda_shim/imb_cuda_shim.cpp, for one
-- thread. Contexts, keys, values and destructors are addresses, 0 for null.
pub mod Storage
pub mod Current
use isaac_metal_bridge.Base.{
  ℕ, Bool, true, false, not, ◌&&◌, ◌||◌, Option, none, some, List, [], ◌∷◌, ◌==◌, if◌then◌else◌,
}
use isaac_metal_bridge.Cuda.Result.{
  CuResult, Reply, fail, succeed, quiet, success, invalid_value, invalid_device, invalid_handle,
  not_supported,
}

pub record ContextStorageEntry : Type 0 where
  pub context : ℕ
  pub key : ℕ
  pub value : ℕ
  pub destructor : ℕ
  pub used : Bool

-- gCurrentContext, the address of gPrimaryContextToken, and gContextStorage.
pub record Contexts : Type 0 where
  pub current : ℕ
  pub primary : ℕ
  pub storage : List ContextStorageEntry

unfoldable pub resolve_context : Contexts → ℕ → ℕ
resolve_context s context =
    if not (context == 0) then context else if not (s.current == 0) then s.current else s.primary

abbrev pub is_entry : ℕ → ℕ → ContextStorageEntry → Bool
is_entry context key e = e.used && (e.context == context && e.key == key)

-- The first loop of `contextStoragePut`; `none` if it ends.
unfoldable pub replace_entry :
    List ContextStorageEntry → ℕ → ℕ → ℕ → ℕ → Option (List ContextStorageEntry)
replace_entry [] context key value destructor = none
replace_entry (e ∷ es) context key value destructor =
    let rest = replace_entry es context key value destructor in
    if is_entry context key e
    then some (record e { value = value; destructor = destructor } ∷ es)
    else elim rest [ none ↦ none | some es' ↦ some (e ∷ es') ]

-- The second loop.
unfoldable pub add_entry :
    List ContextStorageEntry → ContextStorageEntry → Option (List ContextStorageEntry)
add_entry [] entry = none
add_entry (e ∷ es) entry =
    let rest = add_entry es entry in
    if not e.used then some (entry ∷ es) else elim rest [ none ↦ none | some es' ↦ some (e ∷ es') ]

unfoldable pub context_storage_put : Contexts → ℕ → ℕ → ℕ → ℕ → Reply Contexts (Unit {0})
context_storage_put s context key value destructor =
    let c = resolve_context s context in
    let entry : ContextStorageEntry = record {
      context = c;
      key = key;
      value = value;
      destructor = destructor;
      used = true;
    } in
    elim (replace_entry s.storage c key value destructor) [
      | some es ↦ quiet (record s { storage = es })
      | none ↦ elim (add_entry s.storage entry) [
        | some es ↦ quiet (record s { storage = es })
        | none ↦ fail s not_supported
      ]
    ]

abbrev pub no_entry : ContextStorageEntry
no_entry = record { context = 0; key = 0; value = 0; destructor = 0; used = false }

unfoldable pub clear_entry : List ContextStorageEntry → ℕ → ℕ → List ContextStorageEntry
clear_entry [] context key = []
clear_entry (e ∷ es) context key =
    let rest = clear_entry es context key in
    if is_entry context key e then no_entry ∷ es else e ∷ rest

unfoldable pub context_storage_delete : Contexts → ℕ → ℕ → Reply Contexts (Unit {0})
context_storage_delete s context key =
    quiet (record s { storage = clear_entry s.storage (resolve_context s context) key })

unfoldable pub find_entry : List ContextStorageEntry → ℕ → ℕ → Option ℕ
find_entry [] context key = none
find_entry (e ∷ es) context key =
    let rest = find_entry es context key in if is_entry context key e then some e.value else rest

-- `given` is false for a null pointer to the result. A key that is not there stores null.
unfoldable pub context_storage_get : Contexts → Bool → ℕ → ℕ → Reply Contexts ℕ
context_storage_get s given context key =
    if not given
    then fail s invalid_value
    else elim (find_entry s.storage (resolve_context s context) key) [
      | some value ↦ succeed s value
      | none ↦ record { result = invalid_handle; out = some 0; state = s }
    ]

-- The calls on the primary context; `valid` is `validDevice(device)`.
unfoldable pub cu_device_primary_ctx_retain : Contexts → Bool → Bool → Reply Contexts ℕ
cu_device_primary_ctx_retain s given valid =
    if not given
    then fail s invalid_value
    else if not valid
    then fail s invalid_device
    else succeed s s.primary

unfoldable pub cu_device_primary_ctx_release : Contexts → Bool → Reply Contexts (Unit {0})
cu_device_primary_ctx_release s valid = if valid then quiet s else fail s invalid_device

unfoldable pub cu_device_primary_ctx_reset : Contexts → Bool → Reply Contexts (Unit {0})
cu_device_primary_ctx_reset s valid =
    if not valid then fail s invalid_device else quiet (record s { current = 0 })

-- The flags and whether a context is current.
unfoldable pub cu_device_primary_ctx_get_state :
    Contexts → Bool → Bool → Bool → Reply Contexts (ℕ × ℕ)
cu_device_primary_ctx_get_state s given_flags given_active valid =
    if not given_flags || not given_active
    then fail s invalid_value
    else if not valid
    then fail s invalid_device
    else succeed s (0, (if not (s.current == 0) then 1 else 0))

unfoldable pub cu_ctx_set_current : Contexts → ℕ → Reply Contexts (Unit {0})
cu_ctx_set_current s context = quiet (record s { current = context })

unfoldable pub cu_ctx_create : Contexts → Bool → Bool → Reply Contexts ℕ
cu_ctx_create s given valid =
    if not given
    then fail s invalid_value
    else if not valid
    then fail s invalid_device
    else succeed (record s { current = s.primary }) s.primary

unfoldable pub cu_ctx_detach : Contexts → ℕ → Reply Contexts (Unit {0})
cu_ctx_detach s context = quiet (if s.current == context then record s { current = 0 } else s)

unfoldable pub cu_ctx_get_current : Contexts → Bool → Reply Contexts ℕ
cu_ctx_get_current s given = if not given then fail s invalid_value else succeed s s.current

unfoldable pub cu_ctx_push_current : Contexts → ℕ → Reply Contexts (Unit {0})
cu_ctx_push_current s context = quiet (record s { current = context })

unfoldable pub cu_ctx_pop_current : Contexts → Bool → Reply Contexts ℕ
cu_ctx_pop_current s given =
    if not given then fail s invalid_value else succeed (record s { current = 0 }) s.current

unfoldable pub cu_ctx_destroy : Contexts → ℕ → Reply Contexts (Unit {0})
cu_ctx_destroy s context =
    if context == 0
    then fail s invalid_value
    else quiet (if s.current == context then record s { current = 0 } else s)
