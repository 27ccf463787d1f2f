-- ===== src/Pcie/Request/Gather.antt =====
-- The loops of `C_req_write` gather the strobed bytes, in the order of the lanes.
pub mod Write
use mathlib.Core.Path.{ap₂}
use mathlib.Core.List.{append_assoc}
use qemu_hdl_sim.Base.{
  ℕ, zero, suc, ◌+◌, ◌-◌, ◌*◌, ◌/◌, ◌%◌, ◌^◌, ◌≤◌, ◌<◌, ◌≡◌, ◌≢◌, ◌⊎◌, inl, inr, refl, sym, ap, ◌∙◌,
  arith, Bool, true, false, List, [], ◌∷◌, ◌++◌, Bytes, load, store, ltb, leb, ◌==◌, ◌&&◌,
  if◌then◌else◌, length, length-append, Exec, ret, stop, emit, ◌>>=◌, Bool-cases,
}
use qemu_hdl_sim.Base.Memory.Laws.{store_outside}
use qemu_hdl_sim.Protocol.{buff_size}
use qemu_hdl_sim.Protocol.AccData
use qemu_hdl_sim.Pcie.Setup.{Bridge}
use qemu_hdl_sim.Pcie.Request.{Gathered, gather_lane, gather_beat, gather_beats, has_room}

-- The bytes of `left` lanes from `at` on whose bits are set in `strb`, lowest first.
abbrev pub chosen : Bytes → ℕ → ℕ → ℕ → List ℕ
chosen bus_data at strb zero = []
chosen bus_data at strb (suc left) =
    let rest = chosen bus_data (at + 1) (strb / 2) left in
    if strb % 2 == 1 then bus_data at ∷ rest else rest

-- The bytes of `left` beats from `i` on.
abbrev pub chosen_beats : ℕ → Bytes → (ℕ → ℕ) → ℕ → ℕ → List ℕ
chosen_beats busw bus_data strb i zero = []
chosen_beats busw bus_data strb i (suc left) =
    chosen bus_data (i * busw) (strb i) busw ++ chosen_beats busw bus_data strb (i + 1) left

-- Bytes written one after another.
abbrev pub put_list : ℕ → List ℕ → Bytes → Bytes
put_list at [] b = b
put_list at (x ∷ xs) b = put_list (at + 1) xs (store 1 at x b)

-- The strobes after `left` lanes of beat `i`.
abbrev pub shifted : ℕ → ℕ → (ℕ → ℕ) → ℕ → ℕ
shifted zero i strb = strb
shifted (suc left) i strb = shifted left i (λ n. if n == i then strb n / 2 else strb n)

shifted-ne : (left i : ℕ) (strb : ℕ → ℕ) (n : ℕ) → n ≢ i → shifted left i strb n ≡ strb n
shifted-ne zero i strb n h = refl
shifted-ne (suc left) i strb n h = shifted-ne left i _ n h ∙ ground arith

pub put_list-append :
    (at : ℕ) (xs ys : List ℕ) (b : Bytes)
    → put_list at (xs ++ ys) b ≡ put_list (at + length xs) ys (put_list at xs b)
put_list-append at [] ys b = ap (λ (t : ℕ). put_list t ys b) (omega arith)
put_list-append at (x ∷ xs) ys b =
    put_list-append (at + 1) xs ys (store 1 at x b)
    ∙ ap (λ (t : ℕ). put_list t ys (put_list (at + 1) xs (store 1 at x b))) (omega arith)

-- What a gathering has made of `g` with the bytes `xs`.
abbrev pub extended : Gathered → List ℕ → (ℕ → ℕ) → Gathered
extended g xs strb = record {
  acc = put_list (AccData.data_offset + g.k) xs g.acc;
  k = g.k + length xs;
  strb = strb;
}

-- The state after a lane, set or not.
abbrev lane_set : Gathered → ℕ → ℕ → Gathered
lane_set g i x = record {
  acc = store 1 (AccData.data_offset + g.k) x g.acc;
  k = g.k + 1;
  strb = λ n. if n == i then g.strb n / 2 else g.strb n;
}

abbrev lane_clear : Gathered → ℕ → Gathered
lane_clear g i = record g { strb = λ n. if n == i then g.strb n / 2 else g.strb n }

extended-cons :
    (g : Gathered) (i x : ℕ) (xs : List ℕ) (t : ℕ → ℕ)
    → extended (lane_set g i x) xs t ≡ extended g (x ∷ xs) t
extended-cons g i x xs t =
    ap₂ (λ (a : Bytes) (k : ℕ). record { acc = a; k = k; strb = t })
      (ap (λ (at : ℕ). put_list at xs (store 1 (AccData.data_offset + g.k) x g.acc)) (omega arith))
      (omega arith)

own_strobe : (strb : ℕ → ℕ) (i : ℕ) → (if i == i then strb i / 2 else strb i) ≡ strb i / 2
own_strobe strb i = ground arith

module _ (bridge : Bridge) (bus_data : Bytes) where
  gather_beat_lem :
      (left i j at : ℕ) (g : Gathered)
      → at ≡ i * bridge.busw + j
      → at + left ≤ buff_size
      → g.k + length (chosen bus_data at (g.strb i) left) ≤ buff_size
      → gather_beat bridge bus_data left i j g
        ≡ ret (extended g (chosen bus_data at (g.strb i) left) (shifted left i g.strb))
  unfolding gather_beat
  gather_beat_lem zero i j at g e lanes room =
      ap (λ (t : ℕ). ret (record g { k = t })) (omega arith)
  gather_beat_lem (suc left) i j at g e lanes room = elim (Bool-cases (g.strb i % 2 == 1)) [
    | inl set ↦
        let xs = chosen bus_data (at + 1) (g.strb i / 2) left in
        let g1 = lane_set g i (bus_data at) in
        let inside : (ltb (i * bridge.busw + j) buff_size && has_room i g) ≡ true =
          (let r = rw set at room in rw set (ground arith)) in
        let room' : g1.k + length (chosen bus_data (at + 1) (g1.strb i) left) ≤ buff_size =
          (let r = rw set at room in rw (own_strobe g.strb i) (omega arith)) in
        let ih = gather_beat_lem left i (j + 1) (at + 1) g1 (omega arith) (omega arith) room' in
        rw (inside, set, ← e)
          (ih
            ∙ ap
                (λ (s : ℕ).
                  ret (extended g1 (chosen bus_data (at + 1) s left) (shifted left i g1.strb)))
                (own_strobe g.strb i)
            ∙ ap ret (extended-cons g i (bus_data at) xs (shifted left i g1.strb)))
    | inr clear ↦
        let g1 = lane_clear g i in
        let inside : (ltb (i * bridge.busw + j) buff_size && has_room i g) ≡ true =
          rw clear (ground arith) in
        let room' : g1.k + length (chosen bus_data (at + 1) (g1.strb i) left) ≤ buff_size =
          (let r = rw clear at room in rw (own_strobe g.strb i) r) in
        let ih = gather_beat_lem left i (j + 1) (at + 1) g1 (omega arith) (omega arith) room' in
        rw (inside, clear)
          (ih
            ∙ ap
                (λ (s : ℕ).
                  ret (extended g1 (chosen bus_data (at + 1) s left) (shifted left i g1.strb)))
                (own_strobe g.strb i))
  ]

pub length-chosen-le :
    (bus_data : Bytes) (left at s : ℕ) → length (chosen bus_data at s left) ≤ left
length-chosen-le bus_data zero at s = omega arith
length-chosen-le bus_data (suc left) at s =
    ground (arith, length-chosen-le bus_data left (at + 1) (s / 2))

module _ (busw : ℕ) (bus_data : Bytes) where
  pub length-chosen_beats-le :
      (left i : ℕ) (strb : ℕ → ℕ) → length (chosen_beats busw bus_data strb i left) ≤ left * busw
  length-chosen_beats-le zero i strb = omega arith
  length-chosen_beats-le (suc left) i strb =
      let xs = chosen bus_data (i * busw) (strb i) busw in
      omega (
        arith,
        length-append xs (chosen_beats busw bus_data strb (i + 1) left),
        length-chosen-le bus_data busw (i * busw) (strb i),
        length-chosen_beats-le left (i + 1) strb,
      )

  chosen_beats_ext :
      (left i : ℕ) (strb strb' : ℕ → ℕ)
      → ((n : ℕ) → i ≤ n → strb n ≡ strb' n)
      → chosen_beats busw bus_data strb i left ≡ chosen_beats busw bus_data strb' i left
  chosen_beats_ext zero i strb strb' h = refl
  chosen_beats_ext (suc left) i strb strb' h =
      ap₂ ◌++◌ (ap (λ (s : ℕ). chosen bus_data (i * busw) s busw) (h i (omega arith)))
        (chosen_beats_ext left (i + 1) strb strb' (λ n p. h n (omega arith)))

extended-extended :
    (g : Gathered) (xs ys : List ℕ) (s t : ℕ → ℕ)
    → extended (extended g xs s) ys t ≡ extended g (xs ++ ys) t
extended-extended g xs ys s t =
    ap₂ (λ (a : Bytes) (k : ℕ). record { acc = a; k = k; strb = t })
      (ap (λ (at : ℕ). put_list at ys (put_list (AccData.data_offset + g.k) xs g.acc)) (omega arith)
        ∙ sym (put_list-append (AccData.data_offset + g.k) xs ys g.acc))
      (omega (arith, length-append xs ys))

module _ (bridge : Bridge) (bus_data : Bytes) where
  -- Where the lanes lie in the HDL's arrays, the loops end, and have appended the strobed bytes.
  pub gather_beats_lem :
      (left i : ℕ) (g : Gathered)
      → (i + left) * bridge.busw ≤ buff_size
      → g.k + left * bridge.busw ≤ buff_size
      → (t : ℕ → ℕ) × (gather_beats bridge bus_data left i g
          ≡ ret (extended g (chosen_beats bridge.busw bus_data g.strb i left) t))
  unfolding gather_beats
  gather_beats_lem zero i g lanes room =
      (g.strb, ap (λ (k : ℕ). ret (record g { k = k })) (omega arith))
  gather_beats_lem (suc left) i g lanes room =
      let busw = bridge.busw in
      let xs = chosen bus_data (i * busw) (g.strb i) busw in
      let short = length-chosen-le bus_data busw (i * busw) (g.strb i) in
      let s = shifted busw i g.strb in
      let g1 = extended g xs s in
      let (t, ih) = gather_beats_lem left (i + 1) g1 (grind arith) (grind (arith, short)) in
      let same =
        chosen_beats_ext busw bus_data left (i + 1) s g.strb
          (λ n p. shifted-ne busw i g.strb n (omega arith)) in
      (
        t,
        rw
            (gather_beat_lem bridge bus_data busw i 0 (i * busw) g (omega arith) (grind arith)
              (grind (arith, short)))
            (ih
              ∙ ap (λ ys. ret (extended g1 ys t)) same
              ∙ ap ret
                  (extended-extended g xs (chosen_beats busw bus_data g.strb (i + 1) left) s t)),
      )
