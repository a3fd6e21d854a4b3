-- ===== src/Cuda/Memory/Storage.antt =====
-- Reading and writing the storage behind the addresses of guest/cuda_shim/imb_cuda_shim.cpp.
use isaac_metal_bridge.Base.{
  ℕ, zero, suc, ◌+◌, ◌<◌, ◌≡◌, ◌≢◌, refl, ap, sym, ◌∙◌, some, List, [], ◌∷◌, length, get_elem?,
  arith,
}
use isaac_metal_bridge.Cuda.Memory.Bytes.{Bytes, Pages, load, store, store_byte}

-- No access to the range faults.
abbrev pub IsMapped : Pages → ℕ → ℕ → Type 0
IsMapped pages a size = (i : ℕ) → i < size → (c : ℕ) × (pages (a + i) ≡ some c)

-- No byte of the range has two addresses in it.
abbrev pub IsSingle : Pages → ℕ → ℕ → Type 0
IsSingle pages a size =
    (i j c : ℕ) → i < size → j < size → pages (a + i) ≡ some c → pages (a + j) ≡ some c → i ≡ j

-- The byte has no address in the range.
abbrev pub IsOutside : Pages → ℕ → ℕ → ℕ → Type 0
IsOutside pages a size c = (i : ℕ) → i < size → pages (a + i) ≢ some c

pub shift : (a i : ℕ) → a + 1 + i ≡ a + suc i
shift a i = omega arith

pub add-zero : (a : ℕ) → a + 0 ≡ a
add-zero a = omega arith

touched : (c₀ w c : ℕ) (bytes : Bytes) → c₀ ≡ c → store_byte c₀ w bytes c ≡ w
touched c₀ w c bytes e = ground (arith, e)

untouched : (c₀ w c : ℕ) (bytes : Bytes) → c₀ ≢ c → store_byte c₀ w bytes c ≡ bytes c
untouched c₀ w c bytes h = ground (arith, h)

load_step :
    (pages : Pages) (bytes : Bytes) (a n c : ℕ) (vs : List ℕ)
    → pages a ≡ some c
    → load pages bytes (a + 1) n ≡ some vs
    → load pages bytes a (suc n) ≡ some (bytes c ∷ vs)
unfolding load
load_step pages bytes a n c vs e f = rw (load, e, f) refl

store_step :
    (pages : Pages) (a c w : ℕ) (ws : List ℕ) (bytes : Bytes)
    → pages a ≡ some c
    → store pages a (w ∷ ws) bytes ≡ store pages (a + 1) ws (store_byte c w bytes)
unfolding store
store_step pages a c w ws bytes e = rw (store, e) refl

IsMapped-rest : (pages : Pages) (a n : ℕ) → IsMapped pages a (suc n) → IsMapped pages (a + 1) n
IsMapped-rest pages a n h i l = let r = h (suc i) (omega arith) in (r.0, ap pages (shift a i) ∙ r.1)

IsMapped-first : (pages : Pages) (a n : ℕ) → IsMapped pages a (suc n) → (c : ℕ) × (pages a ≡ some c)
IsMapped-first pages a n h =
    let r = h 0 (omega arith) in let same : a ≡ a + 0 = omega arith in (r.0, ap pages same ∙ r.1)

-- The bytes read.
pub record IsLoaded (pages : Pages) (bytes : Bytes) (a size : ℕ) (vs : List ℕ) : Type 0 where
  pub long : length vs ≡ size
  pub values : (i c : ℕ) → i < size → pages (a + i) ≡ some c → get_elem? vs i ≡ some (bytes c)

pub load_lem :
    (pages : Pages) (bytes : Bytes) (a n : ℕ)
    → IsMapped pages a n
    → (vs : List ℕ) × (load pages bytes a n ≡ some vs) × IsLoaded pages bytes a n vs
unfolding load
load_lem pages bytes a zero h =
    ([], refl, record { long = refl; values = λ i c l. absurd (omega arith) })
load_lem pages bytes a (suc n) h =
    let first = IsMapped-first pages a n h in
    let rest = load_lem pages bytes (a + 1) n (IsMapped-rest pages a n h) in
    (
      bytes first.0 ∷ rest.0,
      load_step pages bytes a n first.0 rest.0 first.1 rest.1,
      record { long = ap suc rest.2.long; values = value first.0 first.1 rest.0 rest.2 },
    )
  where
    value :
        (c₀ : ℕ)
        → pages a ≡ some c₀
        → (vs : List ℕ) → IsLoaded pages bytes (a + 1) n vs
        → (i c : ℕ) → i < suc n
        → pages (a + i) ≡ some c
        → get_elem? (bytes c₀ ∷ vs) i ≡ some (bytes c)
    value c₀ e vs v zero c l p =
        let same : a + 0 ≡ a = omega arith in
        let here : some c₀ ≡ some c = sym e ∙ sym (ap pages same) ∙ p in
        let here' : c₀ ≡ c = ground (arith, here) in ap (λ (x : ℕ). some (bytes x)) here'
    value c₀ e vs v (suc i) c l p = v.values i c (omega arith) (ap pages (shift a i) ∙ p)

-- The bytes written.
pub record IsStored (pages : Pages) (a : ℕ) (vs : List ℕ) (bytes bytes' : Bytes) : Type 0 where
  pub inside :
      (i c v : ℕ) → i < length vs → pages (a + i) ≡ some c → get_elem? vs i ≡ some v → bytes' c ≡ v
  pub outside : (c : ℕ) → IsOutside pages a (length vs) c → bytes' c ≡ bytes c

pub store_lem :
    (pages : Pages) (a : ℕ) (vs : List ℕ) (bytes : Bytes)
    → IsMapped pages a (length vs)
    → IsSingle pages a (length vs)
    → (bytes' : Bytes) × (store pages a vs bytes ≡ some bytes') × IsStored pages a vs bytes bytes'
unfolding store
store_lem pages a [] bytes h s =
    (bytes, refl, record { inside = λ i c v l. absurd (omega arith); outside = λ c o. refl })
store_lem pages a (w ∷ ws) bytes h s =
    let first = IsMapped-first pages a (length ws) h in
    let rest =
      store_lem pages (a + 1) ws (store_byte first.0 w bytes) (IsMapped-rest pages a (length ws) h)
        (λ i j c l m p q.
          let same : suc i ≡ suc j =
            s (suc i) (suc j) c (omega arith) (omega arith) (ap pages (sym (shift a i)) ∙ p)
              (ap pages (sym (shift a j)) ∙ q) in
          omega (arith, same)) in
    (
      rest.0,
      store_step pages a first.0 w ws bytes first.1 ∙ rest.1,
      record {
        inside = written first.0 first.1 rest.0 rest.2;
        outside = λ c o.
            rest.2.outside c (λ i l p. o (suc i) (omega arith) (ap pages (sym (shift a i)) ∙ p))
            ∙ untouched first.0 w c bytes
                (λ e. o 0 (omega arith) (ap pages (add-zero a) ∙ first.1 ∙ ap some e));
      },
    )
  where
    written :
        (c₀ : ℕ)
        → pages a ≡ some c₀
        → (bytes' : Bytes) → IsStored pages (a + 1) ws (store_byte c₀ w bytes) bytes'
        → (i c v : ℕ) → i < length (w ∷ ws)
        → pages (a + i) ≡ some c
        → get_elem? (w ∷ ws) i ≡ some v
        → bytes' c ≡ v
    written c₀ e bytes' r zero c v l p g =
        let p' : pages a ≡ some c = sym (ap pages (add-zero a)) ∙ p in
        let same : c₀ ≡ c = ground (arith, sym e ∙ p') in
        let put : w ≡ v = ground (arith, g) in
        r.outside c (λ i l q.
          let twice : 0 ≡ suc i =
            s 0 (suc i) c (omega arith) (omega (arith, l)) p (ap pages (sym (shift a i)) ∙ q) in
          absurd (omega (arith, twice)))
        ∙ touched c₀ w c bytes same
        ∙ put
    written c₀ e bytes' r (suc i) c v l p g =
        r.inside i c v (omega arith) (ap pages (shift a i) ∙ p) g
