-- ===== src/Cuda/Memory/Copied.antt =====
-- What a transfer between two ranges of guest/cuda_shim/imb_cuda_shim.cpp does to the storage.
use isaac_metal_bridge.Base.{
  subst, ℕ, zero, suc, ◌+◌, ◌<◌, ◌≡◌, refl, ap, sym, ◌∙◌, inl, inr, Bool, true, false, not, ◌&&◌,
  Option, none, some, ◌==◌, Bool-cases, arith,
}
use isaac_metal_bridge.Cuda.Memory.Bytes.{Bytes, Pages, meets, clashes, same_place, transfer}
use isaac_metal_bridge.Cuda.Memory.Storage.{
  IsMapped, IsSingle, IsOutside, shift, add-zero, load_lem, store_lem,
}

-- No address of the range leads to the byte of the address, or only the address itself.
meets_lem :
    (pages : Pages) (moved : Bool) (a from n : ℕ)
    → ((j c : ℕ)
        → j < n
        → pages a ≡ some c
        → pages (from + j) ≡ some c
        → (moved ≡ true) × (a ≡ from + j))
    → meets pages moved a from n ≡ false
unfolding meets
meets_lem pages moved a from zero h = refl
meets_lem pages moved a from (suc n) h =
    let rest = meets_lem pages moved a (from + 1) n (λ j c l p q.
      let r = h (suc j) c (omega arith) p (ap pages (sym (shift from j)) ∙ q) in
      (r.0, r.1 ∙ sym (shift from j))) in
    let first = single (pages a) (pages from) (λ c p q.
      let r = h 0 c (omega arith) p (ap pages (add-zero from) ∙ q) in (r.0, r.1 ∙ add-zero from)) in
    rw (first, rest) refl
  where
    single :
        (x y : Option ℕ)
        → ((c : ℕ) → x ≡ some c → y ≡ some c → (moved ≡ true) × (a ≡ from))
        → (same_place x y && not (moved && a == from)) ≡ false
    single none y k = refl
    single (some c) none k = refl
    single (some c) (some d) k = elim (Bool-cases (c == d)) [
      | inr e ↦ ground (arith, e)
      | inl e ↦
          let same : c ≡ d = ground (arith, e) in
          let r = k c refl (ap some (sym same)) in ground (arith, r.0, r.1)
    ]

clashes_lem :
    (pages : Pages) (moved : Bool) (to n from size : ℕ)
    → ((i j c : ℕ)
        → i < n
        → j < size
        → pages (to + i) ≡ some c
        → pages (from + j) ≡ some c
        → (moved ≡ true) × (to + i ≡ from + j))
    → clashes pages moved to n from size ≡ false
unfolding clashes
clashes_lem pages moved to zero from size h = refl
clashes_lem pages moved to (suc n) from size h =
    let first = meets_lem pages moved to from size (λ j c l p q.
      let r = h 0 j c (omega arith) l (ap pages (add-zero to) ∙ p) q in
      (r.0, sym (add-zero to) ∙ r.1)) in
    let rest = clashes_lem pages moved (to + 1) n from size (λ i j c l m p q.
      let r = h (suc i) j c (omega arith) m (ap pages (sym (shift to i)) ∙ p) q in
      (r.0, shift to i ∙ r.1)) in
    rw (first) rest

-- What [from, from + size) held stands in [to, to + size), and no other byte changed.
pub record IsCopied (pages : Pages) (before after : Bytes) (to from size : ℕ) : Type 0 where
  pub inside :
      (i c d : ℕ)
      → i < size
      → pages (to + i) ≡ some c
      → pages (from + i) ≡ some d
      → after c ≡ before d
  pub outside : (c : ℕ) → IsOutside pages to size c → after c ≡ before c

pub transfer_lem :
    (pages : Pages) (moved : Bool) (to from size : ℕ) (bytes : Bytes)
    → IsMapped pages to size
    → IsMapped pages from size
    → IsSingle pages to size
    → ((i j c : ℕ)
        → i < size
        → j < size
        → pages (to + i) ≡ some c
        → pages (from + j) ≡ some c
        → (moved ≡ true) × (to + i ≡ from + j))
    → (bytes' : Bytes) × (transfer pages moved to from size bytes ≡ some bytes')
      × IsCopied pages bytes bytes' to from size
transfer_lem pages moved to from size bytes mapped readable single apart =
    let clash = clashes_lem pages moved to size from size apart in
    let own =
      clashes_lem pages true to size to size
        (λ i j c l m p q. (refl, ap (λ (x : ℕ). to + x) (single i j c l m p q))) in
    let read = load_lem pages bytes from size readable in
    let write =
      store_lem pages to read.0 bytes (subst (IsMapped pages to) (sym read.2.long) mapped)
        (subst (IsSingle pages to) (sym read.2.long) single) in
    (
      write.0,
      rw (own, clash, read.1) (write.1),
      record {
        inside = λ i c d l p q.
            write.2.inside i c (bytes d) (omega (arith, read.2.long, l)) p (read.2.values i d l q);
        outside = λ c o.
            write.2.outside c (subst (λ (n : ℕ). IsOutside pages to n c) (sym read.2.long) o);
      },
    )
