-- ===== src/Clock/Table.antt =====
-- The table of call sites of guest/timer_shim/imb_clock_shim.cpp is a hash table with open
-- addressing: what `callSiteFor` finds, and when it finds nothing.
use isaac_metal_bridge.Base.{
  ℕ, zero, suc, ◌+◌, ◌<◌, ◌≡◌, ◌≢◌, inl, inr, refl, ap, subst, ◌∙◌, sym, Bool, true, false, Option,
  none, some, Bool-cases, ltb, ltb→lt, arith,
}
use native.Mathlib.Decide.{ℕ_discrete}
use isaac_metal_bridge.Clock.{CallSites, slot_at, try_slot, probe_from, call_site_for}

abbrev pub address_at : CallSites → ℕ → ℕ
address_at sites slot = (sites slot).address

-- The slots of the first `d` turns belong to other addresses.
abbrev pub Passed : CallSites → ℕ → ℕ → Type 0
Passed sites address d =
    (e : ℕ)
    → e < d
    → (address_at sites (slot_at address e) ≢ 0) × (address_at sites (slot_at address e) ≢ address)

-- An address stands in the first slot of its turns that is not another's.
abbrev pub IsOpen : CallSites → Type 0
IsOpen sites =
    (slot : ℕ)
    → slot < 256
    → address_at sites slot ≢ 0
    → (d : ℕ) × (slot ≡ slot_at (address_at sites slot) d) × Passed sites (address_at sites slot) d

-- A taken slot keeps its address.
pub record IsExtension (sites sites' : CallSites) : Type 0 where
  pub kept : (slot : ℕ) → address_at sites slot ≢ 0 → address_at sites' slot ≡ address_at sites slot

pub Passed-extension :
    (sites sites' : CallSites) (address d : ℕ)
    → IsExtension sites sites'
    → Passed sites address d
    → Passed sites' address d
Passed-extension sites sites' address d x p e h =
    let old = p e h in
    let kept = x.kept (slot_at address e) old.0 in
    ((λ z. old.0 (sym kept ∙ z)), (λ z. old.1 (sym kept ∙ z)))

module _ (sites : CallSites) (address probe : ℕ) (nonnull : address ≢ 0)
    (passed : Passed sites address probe) where
  abbrev turn : Bool × CallSites
  turn = try_slot sites address (slot_at address probe)

  pub turn-IsExtension : IsExtension sites turn.1
  unfolding try_slot
  turn-IsExtension = record { kept = λ slot h. ground arith }

  -- A turn that ends the loop leaves the address in the slot.
  pub turn-found : turn.0 ≡ true → address_at turn.1 (slot_at address probe) ≡ address
  unfolding try_slot
  turn-found h = ground arith

  pub turn-missed : turn.0 ≡ false → (turn.1 ≡ sites) × Passed sites address (probe + 1)
  unfolding try_slot
  turn-missed h = (
    ground arith,
    λ e below. elim (ℕ_discrete e probe) [
      | yes same ↦
          subst
            (λ (t : ℕ).
              (address_at sites (slot_at address t) ≢ 0)
              × (address_at sites (slot_at address t) ≢ address))
            (sym same) ((ground arith), (ground arith))
      | no other ↦ passed e (omega arith)
    ],
  )

  turn-claims :
      (slot : ℕ)
      → address_at sites slot ≡ 0
      → address_at turn.1 slot ≢ 0
      → (slot ≡ slot_at address probe) × (address_at turn.1 slot ≡ address)
  unfolding try_slot
  turn-claims slot free taken = (ground arith, ground arith)

  pub turn-IsOpen : IsOpen sites → IsOpen turn.1
  turn-IsOpen o slot range taken = elim (ℕ_discrete (address_at sites slot) 0) [
    | yes free ↦
        let claim = turn-claims slot free taken in
        subst (λ (a : ℕ). (d : ℕ) × (slot ≡ slot_at a d) × Passed turn.1 a d) (sym claim.1)
          (probe, claim.0, Passed-extension sites turn.1 address probe turn-IsExtension passed)
    | no busy ↦
        let old = o slot range busy in
        subst (λ (a : ℕ). (d : ℕ) × (slot ≡ slot_at a d) × Passed turn.1 a d)
          (sym (turn-IsExtension.kept slot busy))
          (
            old.0,
            old.1,
            Passed-extension sites turn.1 (address_at sites slot) old.0 turn-IsExtension old.2,
          )
  ]

-- In an open table an address is in one slot only.
pub IsOpen-slot :
    (sites : CallSites) (s t : ℕ)
    → IsOpen sites
    → s < 256
    → t < 256
    → address_at sites s ≢ 0
    → address_at sites s ≡ address_at sites t
    → s ≡ t
IsOpen-slot sites s t o hs ht taken same =
    let a = address_at sites s in
    let x = o s hs taken in
    let y : (d : ℕ) × (t ≡ slot_at a d) × Passed sites a d =
      subst (λ (b : ℕ). (d : ℕ) × (t ≡ slot_at b d) × Passed sites b d) (sym same)
        (o t ht (λ z. taken (same ∙ z))) in
    elim (ℕ_discrete x.0 y.0) [
      | yes e ↦ x.1 ∙ ap (λ (d : ℕ). slot_at a d) e ∙ sym y.1
      | no e ↦ absurd (elim (Bool-cases (ltb x.0 y.0)) [
        | inl before ↦
            (y.2 x.0 (ltb→lt x.0 y.0 before)).1 (ap (λ (k : ℕ). address_at sites k) (sym x.1))
        | inr after ↦
            (x.2 y.0 (ground arith)).1 (ap (λ (k : ℕ). address_at sites k) (sym y.1) ∙ sym same)
      ])
    ]

-- What the loop gives: a slot that holds the address, in a table where every taken slot kept its
-- address; or nothing, after which the table is the same and its slots are all of other addresses.
abbrev pub Probed : CallSites → ℕ → ℕ → Option ℕ × CallSites → Type 0
Probed sites address turns (some slot, sites') =
    (slot < 256) × (address_at sites' slot ≡ address) × IsOpen sites' × IsExtension sites sites'
Probed sites address turns (none, sites') = (sites' ≡ sites) × Passed sites address turns

pub IsExtension-trans : (r s t : CallSites) → IsExtension r s → IsExtension s t → IsExtension r t
IsExtension-trans r s t x y = record {
  kept = λ k h. y.kept k (λ z. h (sym (x.kept k h) ∙ z)) ∙ x.kept k h;
}

pub probe_from_lem :
    (n probe : ℕ) (sites : CallSites) (address : ℕ)
    → address ≢ 0
    → IsOpen sites
    → Passed sites address probe
    → Probed sites address (probe + n) (probe_from n probe sites address)
unfolding probe_from
probe_from_lem zero probe sites address nonnull o passed =
    (refl, subst (λ (t : ℕ). Passed sites address t) (same probe) passed)
  where
    same : (k : ℕ) → k ≡ k + 0
    same k = omega arith
probe_from_lem (suc n) probe sites address nonnull o passed =
    let r = try_slot sites address (slot_at address probe) in
    elim (Bool-cases r.0) [
      | inl hit ↦ rw hit (
        omega arith,
        turn-found sites address probe nonnull passed hit,
        turn-IsOpen sites address probe nonnull passed o,
        turn-IsExtension sites address probe nonnull passed,
      )
      | inr miss ↦
          let m = turn-missed sites address probe nonnull passed miss in
          rw (miss, m.0)
            (subst (λ (k : ℕ). Probed sites address k (probe_from n (probe + 1) sites address))
              (next probe n) (probe_from_lem n (probe + 1) sites address nonnull o m.1))
    ]
  where
    next : (probe n : ℕ) → probe + 1 + n ≡ probe + suc n
    next probe n = omega arith

-- In a table in which addresses stand where they are looked for, looking for an address that is
-- not null either finds a slot below 256 that then holds it, in a table again in that order where
-- every taken slot kept its address, or finds none, changes nothing, and has met a slot of another
-- address in each of the 256 turns.
pub call_site_for_lem :
    (sites : CallSites) (address : ℕ)
    → address ≢ 0
    → IsOpen sites
    → Probed sites address 256 (call_site_for sites address)
call_site_for_lem sites address nonnull o =
    probe_from_lem 256 0 sites address nonnull o (λ e h. absurd (omega arith))
