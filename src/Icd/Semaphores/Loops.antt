-- ===== src/Icd/Semaphores/Loops.antt =====
-- The loops around `pwrite` and `pread` on the payloads of guest/vulkan_icd/imb_vulkan_icd.cpp end.
use isaac_metal_bridge.Base.{
  ℕ, zero, suc, ◌+◌, ◌-◌, ◌≤◌, ◌<◌, ◌≡◌, ◌≢◌, refl, ap, ◌∙◌, inl, inr, Bool-cases, Bool, true,
  false, some, leb, ltb, ◌==◌, if◌then◌else◌, arith,
}
use isaac_metal_bridge.Cuda.Semaphores.{Device, moved, failed}
use isaac_metal_bridge.Cuda.Semaphores.Signals.{IsDevice, Transfer-cases, interrupted-before}
use isaac_metal_bridge.Icd.Driver.{Driver}
use isaac_metal_bridge.Icd.Driver.Transfers.{within, counted}
use isaac_metal_bridge.Icd.Semaphores.{stored_value, write_payload, read_payload}

-- The state after transfers.
abbrev pub transferred : Driver → (ℕ → ℕ → ℕ) → ℕ → Driver
transferred d files transfers = record d { files = files; transfers = transfers }

-- No transfer that is asked for a byte fails: each moves one at least, or is interrupted.
pub record IsWorking (device : Device) : Type 0 where
  pub ne_failed : (i n : ℕ) → 0 < n → device i n ≢ failed
  pub ne_zero : (i n : ℕ) → 0 < n → device i n ≢ moved 0

module _ (m : ℕ) (device : Device) (h : IsDevice m device) where
  pub write_payload-ends :
      (n fd value written : ℕ) (d : Driver)
      → (m - d.transfers) + (8 - written) < n
      → (ok : Bool) × (files : ℕ → ℕ → ℕ) × (t : ℕ) × (write_payload n device fd value written d
          ≡ some (ok, transferred d files t))
  unfolding write_payload
  write_payload-ends zero fd value written d fuel = absurd (omega arith)
  write_payload-ends (suc n) fd value written d fuel = elim (Bool-cases (leb 8 written)) [
    | inl all ↦ (true, d.files, d.transfers, rw all refl)
    | inr part ↦ elim (Transfer-cases (device d.transfers (8 - written))) [
      | inr (inr e) ↦ (false, d.files, d.transfers + 1, rw (part, e) refl)
      | inr (inl e) ↦
          let early : d.transfers < m = interrupted-before m device h d.transfers (8 - written) e in
          let r = write_payload-ends n fd value written (counted d) (omega arith) in
          (r.0, r.1, r.2, rw (part, e) r.3)
      | inl (k, e) ↦ elim (Bool-cases (k == 0)) [
        | inl stuck ↦ (false, d.files, d.transfers + 1, rw (part, e, stuck) refl)
        | inr moves ↦
            let r =
              write_payload-ends n fd value (written + k) (stored_value d fd value written k)
                (ground arith) in
            (r.0, r.1, r.2, rw (part, e, moves) r.3)
      ]
    ]
  ]

  pub read_payload-ends :
      (n fd : ℕ) (bytes : ℕ → ℕ) (read : ℕ) (d : Driver)
      → (m - d.transfers) + (8 - read) < n
      → (ok : Bool) × (bytes' : ℕ → ℕ) × (t : ℕ) × (read_payload n device fd bytes read d
          ≡ some (ok, bytes', transferred d d.files t))
  unfolding read_payload
  read_payload-ends zero fd bytes read d fuel = absurd (omega arith)
  read_payload-ends (suc n) fd bytes read d fuel = elim (Bool-cases (leb 8 read)) [
    | inl all ↦ (true, bytes, d.transfers, rw all refl)
    | inr part ↦ elim (Transfer-cases (device d.transfers (8 - read))) [
      | inr (inr e) ↦ (false, bytes, d.transfers + 1, rw (part, e) refl)
      | inr (inl e) ↦
          let early : d.transfers < m = interrupted-before m device h d.transfers (8 - read) e in
          let r = read_payload-ends n fd bytes read (counted d) (omega arith) in
          (r.0, r.1, r.2, rw (part, e) r.3)
      | inl (k, e) ↦ elim (Bool-cases (k == 0)) [
        | inl stuck ↦ (false, bytes, d.transfers + 1, rw (part, e, stuck) refl)
        | inr moves ↦
            let r =
              read_payload-ends n fd (λ a. if within read k a then d.files fd a else bytes a)
                (read + k) (counted d) (ground arith) in
            (r.0, r.1, r.2, rw (part, e, moves) r.3)
      ]
    ]
  ]

  -- With transfers that work, the eight bytes of the file are read.
  pub read_payload-reads :
      IsWorking device
      → (n fd : ℕ) (bytes : ℕ → ℕ) (read : ℕ) (d : Driver) → (m - d.transfers) + (8 - read) < n
      → (bytes' : ℕ → ℕ) × (t : ℕ) × (read_payload n device fd bytes read d
          ≡ some (true, bytes', transferred d d.files t))
        × ((a : ℕ) → a < read → bytes' a ≡ bytes a)
        × ((a : ℕ) → read ≤ a → a < 8 → bytes' a ≡ d.files fd a)
  unfolding read_payload
  read_payload-reads w zero fd bytes read d fuel = absurd (omega arith)
  read_payload-reads w (suc n) fd bytes read d fuel = elim (Bool-cases (leb 8 read)) [
    | inl all ↦ (bytes, d.transfers, rw all refl, λ a l. refl, λ a l u. absurd (ground arith))
    | inr part ↦ elim (Transfer-cases (device d.transfers (8 - read))) [
      | inr (inr e) ↦ absurd (w.ne_failed d.transfers (8 - read) (ground arith) e)
      | inr (inl e) ↦
          let early : d.transfers < m = interrupted-before m device h d.transfers (8 - read) e in
          let r = read_payload-reads w n fd bytes read (counted d) (omega arith) in
          (r.0, r.1, rw (part, e) r.2, r.3, r.4)
      | inl (count, e) ↦ elim (Bool-cases (count == 0)) [
        | inl stuck ↦ absurd (
            w.ne_zero d.transfers (8 - read) (ground arith)
              (e ∙ ap (λ (x : ℕ). moved x) (ground arith)))
        | inr moves ↦
            let next : ℕ → ℕ = λ a. if within read count a then d.files fd a else bytes a in
            let r = read_payload-reads w n fd next (read + count) (counted d) (ground arith) in
            (
              r.0,
              r.1,
              rw (part, e, moves) r.2,
              λ a l. ground (arith, r.3 a (omega (arith, l))),
              λ a l u. elim (Bool-cases (ltb a (read + count))) [
                | inl inside ↦ ground (arith, r.3 a (ground arith))
                | inr above ↦ r.4 a (ground arith) u
              ],
            )
      ]
    ]
  ]
