-- ===== src/Device/Mmio/Ids.antt =====
-- The transaction ids of a sequence of BAR accesses.
use qemu_hdl_sim.Base.{
  ℕ, zero, suc, ◌+◌, ◌%◌, ◌^◌, ◌<◌, ◌≡◌, ◌≢◌, refl, arith, Option, some, List, [], ◌∷◌, Frame,
  zeroes, load, store, get_elem?,
}
use qemu_hdl_sim.Base.Memory.Laws.{load-store_self}
use qemu_hdl_sim.Protocol.AccData
use qemu_hdl_sim.Device.Mmio.{mmio_write, mmio_read}

-- One access of the guest: the BAR, the address, the size, and the value of a write.
pub data Call : Type 0 where
  reads : ℕ → ℕ → ℕ → Call
  writes : ℕ → ℕ → ℕ → ℕ → Call

-- The frame that an access sends, and the counter it leaves.
unfoldable pub call : ℕ → Call → (Frame → Option Frame) → Frame × ℕ
call counter (reads num addr size) answer =
    let a = mmio_read num counter addr size answer in (a.request, a.counter)
call counter (writes num addr size val) answer =
    let a = mmio_write num counter addr val size answer in (a.request, a.counter)

unfoldable pub requests : ℕ → List Call → (Frame → Option Frame) → List Frame
requests counter [] answer = []
requests counter (c ∷ cs) answer =
    let (f, counter') = call counter c answer in f ∷ requests counter' cs answer

call-counter :
    (counter : ℕ) (c : Call) (answer : Frame → Option Frame)
    → (call counter c answer).1 ≡ (counter + 1) % 2 ^ 64
unfolding call mmio_read mmio_write
call-counter counter (reads num addr size) answer = refl
call-counter counter (writes num addr size val) answer = refl

call-id :
    (counter : ℕ) (c : Call) (answer : Frame → Option Frame)
    → AccData.id (call counter c answer).0.bytes ≡ (counter + 1) % 2 ^ 32
unfolding call mmio_read mmio_write load store zeroes
call-id counter (reads num addr size) answer =
    omega (arith, load-store_self 4 0 ((counter + 1) % 2 ^ 32) zeroes)
call-id counter (writes num addr size val) answer =
    omega (arith, load-store_self 4 0 ((counter + 1) % 2 ^ 32) zeroes)

-- The access at index `i` of a sequence carries the counter's value `i + 1` steps on.
requests-id :
    (cs : List Call) (counter i : ℕ) (answer : Frame → Option Frame) {f : Frame}
    → get_elem? (requests counter cs answer) i ≡ some f
    → AccData.id f.bytes ≡ (counter + 1 + i) % 2 ^ 32
unfolding requests
requests-id [] counter i answer e = ground arith
requests-id (c ∷ cs) counter zero answer {f} e = ground (arith, call-id counter c answer)
requests-id (c ∷ cs) counter (suc i) answer e =
    omega
      (arith, requests-id cs (call counter c answer).1 i answer e, call-counter counter c answer)

-- Two accesses that are fewer than 2 ^ 32 apart carry different ids, also across the wrap of the
-- counter and of its truncation to 32 bits.
pub requests-ids-ne :
    (cs : List Call) (counter i j : ℕ) (answer : Frame → Option Frame) {f g : Frame}
    → i < j
    → j < i + 2 ^ 32
    → get_elem? (requests counter cs answer) i ≡ some f
    → get_elem? (requests counter cs answer) j ≡ some g
    → AccData.id f.bytes ≢ AccData.id g.bytes
requests-ids-ne cs counter i j answer below close ei ej =
    omega (arith, requests-id cs counter i answer ei, requests-id cs counter j answer ej)
