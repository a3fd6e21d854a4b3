-- ===== src/Cuda/Memory/Filled.antt =====
-- Filling the storage behind a range, in guest/cuda_shim/imb_cuda_shim.cpp.
use isaac_metal_bridge.Base.{
  subst, ℕ, zero, suc, ◌+◌, ◌*◌, ◌/◌, ◌<◌, ◌≡◌, refl, ap, sym, ◌∙◌, some, length, get_elem?, arith,
}
use isaac_metal_bridge.Cuda.Memory.Bytes.{Bytes, Pages, byte_of, value_bytes, store, fill_n}
use isaac_metal_bridge.Cuda.Memory.Storage.{IsMapped, IsSingle, IsOutside, IsStored, store_lem}

length-value_bytes : (width v : ℕ) → length (value_bytes width v) ≡ width
length-value_bytes zero v = refl
length-value_bytes (suc width) v = ap suc (length-value_bytes width (v / 256))

get_elem?-value_bytes :
    (width v i : ℕ) → i < width → get_elem? (value_bytes width v) i ≡ some (byte_of i v)
unfolding byte_of
get_elem?-value_bytes zero v i h = absurd (omega arith)
get_elem?-value_bytes (suc width) v zero h = refl
get_elem?-value_bytes (suc width) v (suc i) h =
    get_elem?-value_bytes width (v / 256) i (omega arith)

behind : (a n i : ℕ) → a + n + i ≡ a + (n + i)
behind a n i = omega arith

module _ (pages : Pages) (a n m : ℕ) where
  IsMapped-front : IsMapped pages a (n + m) → IsMapped pages a n
  IsMapped-front h i l = h i (omega arith)

  IsMapped-back : IsMapped pages a (n + m) → IsMapped pages (a + n) m
  IsMapped-back h i l = let r = h (n + i) (omega arith) in (r.0, ap pages (behind a n i) ∙ r.1)

  IsSingle-front : IsSingle pages a (n + m) → IsSingle pages a n
  IsSingle-front s i j c l k = s i j c (omega arith) (omega arith)

  IsSingle-back : IsSingle pages a (n + m) → IsSingle pages (a + n) m
  IsSingle-back s i j c l k p q =
      let same : n + i ≡ n + j =
        s (n + i) (n + j) c (omega arith) (omega arith) (ap pages (sym (behind a n i)) ∙ p)
          (ap pages (sym (behind a n j)) ∙ q) in
      omega (arith, same)

-- Every byte of every element of the range is the matching byte of the value, and no other byte
-- changed.
pub record IsFilled (pages : Pages) (before after : Bytes) (a count width v : ℕ) : Type 0 where
  pub inside :
      (k i c : ℕ)
      → k < count
      → i < width
      → pages (a + k * width + i) ≡ some c
      → after c ≡ byte_of i v
  pub outside : (c : ℕ) → IsOutside pages a (count * width) c → after c ≡ before c

turns : (count width : ℕ) → suc count * width ≡ width + count * width
turns count width = grind arith

next_turn : (a k width i : ℕ) → a + width + k * width + i ≡ a + suc k * width + i
next_turn a k width i = grind arith

pub fill_n_lem :
    (pages : Pages) (width count a v : ℕ) (bytes : Bytes)
    → IsMapped pages a (count * width)
    → IsSingle pages a (count * width)
    → (bytes' : Bytes) × (fill_n pages width count a v bytes ≡ some bytes')
      × IsFilled pages bytes bytes' a count width v
unfolding fill_n
fill_n_lem pages width zero a v bytes h s =
    (bytes, refl, record { inside = λ k i c l. absurd (omega arith); outside = λ c o. refl })
fill_n_lem pages width (suc count) a v bytes h s =
    let h' = subst (IsMapped pages a) (turns count width) h in
    let s' = subst (IsSingle pages a) (turns count width) s in
    let long = length-value_bytes width v in
    let first =
      store_lem pages a (value_bytes width v) bytes
        (subst (IsMapped pages a) (sym long) (IsMapped-front pages a width (count * width) h'))
        (subst (IsSingle pages a) (sym long) (IsSingle-front pages a width (count * width) s')) in
    let rest =
      fill_n_lem pages width count (a + width) v first.0
        (IsMapped-back pages a width (count * width) h')
        (IsSingle-back pages a width (count * width) s') in
    (
      rest.0,
      filled first.0 rest.0 first.1 rest.1,
      record {
        inside = inside first.0 rest.0 first.2 rest.2 s';
        outside = λ c o.
            rest.2.outside c (λ i l p.
              o (width + i) (omega (arith, turns count width, l))
                (ap pages (sym (behind a width i)) ∙ p))
            ∙ first.2.outside c (λ i l p. o i (omega (arith, turns count width, long, l)) p);
      },
    )
  where
    filled :
        (one all : Bytes)
        → store pages a (value_bytes width v) bytes ≡ some one
        → fill_n pages width count (a + width) v one ≡ some all
        → fill_n pages width (suc count) a v bytes ≡ some all
    filled one all e f = rw (fill_n, e) f

    inside :
        (one all : Bytes)
        → IsStored pages a (value_bytes width v) bytes one
        → IsFilled pages one all (a + width) count width v
        → IsSingle pages a (width + count * width)
        → (k i c : ℕ) → k < suc count
        → i < width
        → pages (a + k * width + i) ≡ some c
        → all c ≡ byte_of i v
    inside one all st fi single zero i c h l p =
        let start : a + 0 * width + i ≡ a + i = omega arith in
        let p' : pages (a + i) ≡ some c = ap pages (sym start) ∙ p in
        fi.outside c (λ j m q.
          let same : i ≡ width + j =
            single i (width + j) c (omega arith) (omega arith) p'
              (ap pages (sym (behind a width j)) ∙ q) in
          absurd (omega (arith, same, l)))
        ∙ st.inside i c (byte_of i v) (omega (arith, length-value_bytes width v, l)) p'
            (get_elem?-value_bytes width v i l)
    inside one all st fi single (suc k) i c h l p =
        fi.inside k i c (omega arith) l (ap pages (next_turn a k width i) ∙ p)
