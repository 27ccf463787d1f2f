-- ===== src/Device/Host/Serve.antt =====
-- What a run of the handler does to the host, as a sequence of transactions.
use mathlib.Core.List.{append-nil, append_assoc}
use qemu_hdl_sim.Base.{
  ℕ, ◌+◌, ◌≤◌, ◌<◌, ◌≡◌, ◌⊎◌, inl, inr, refl, arith, ap, sym, ◌∙◌, true, false, Option, none, some,
  List, [], ◌∷◌, ◌++◌, Bytes, Frame, ltb, leb, Exec, ret, stop, emit, returns, halts, exits, ◌>>=◌,
  effects, result,
}
use qemu_hdl_sim.Protocol.{AccOp, noop, read, write, intr, init, op_of_code}
use qemu_hdl_sim.Protocol.AccData
use qemu_hdl_sim.Device.Host.{
  HostMemory, Arrival, Effect, answered, written, notified, payload, answer, dispatch, serve,
  handle_hdl_request,
}

-- What a frame asks for.
pub data Transaction : Type 0 where
  fetches : Frame → Transaction
  puts : ℕ → ℕ → Bytes → Transaction
  interrupts : ℕ → Transaction
  idles : Transaction

abbrev transaction : Frame → Option AccOp → Transaction
transaction f (some read) = fetches f
transaction f (some write) =
    puts (AccData.address f.bytes) (AccData.data_size f.bytes) (payload f.bytes)
transaction f (some intr) = interrupts (AccData.vector f.bytes)
transaction f (some noop) = idles
transaction f (some init) = idles
transaction f none = idles

unfoldable pub asked_by : Frame → Transaction
asked_by f = transaction f (op_of_code (AccData.op f.bytes))

-- A frame that the handler can serve: an ACCData whose data fit it, and an answer can be sent.
pub record IsServable (a : Arrival) (f : Frame) : Type 0 where
  pub present : a.frame ≡ some f
  pub whole : AccData.size ≤ f.size
  pub fits : AccData.data_offset + AccData.data_size f.bytes ≤ f.size
  pub can_send : a.send_ok ≡ true

-- `zframe_recv` failed, or the frame is shorter than an ACCData.
abbrev pub IsFatal : Arrival → Type 0
IsFatal a = (a.frame ≡ none) ⊎ ((f : Frame) × (a.frame ≡ some f) × (f.size < AccData.size))

-- The frames of a list of arrivals that can all be served.
abbrev pub AllServable : List Arrival → List Frame → Type 0
AllServable [] [] = Unit {0}
AllServable [] (f ∷ fs) = ⊥
AllServable (a ∷ as_) [] = ⊥
AllServable (a ∷ as_) (f ∷ fs) = IsServable a f × AllServable as_ fs

module _ (host : HostMemory) where
  open host use {Memory, fetch, put}

  -- The memory that a transaction leaves, and what it does outside.
  abbrev pub after : Memory → Transaction → Memory
  after m (puts addr n b) = put m addr n b
  after m _ = m

  abbrev pub done_by : Memory → Transaction → List Effect
  done_by m (fetches f) = answered (answer host m f) ∷ []
  done_by m (puts addr n b) = written addr n b ∷ []
  done_by m (interrupts v) = notified v ∷ []
  done_by m idles = []

  abbrev pub final : Memory → List Frame → Memory
  final m [] = m
  final m (f ∷ fs) = final (after m (asked_by f)) fs

  abbrev pub all_done : Memory → List Frame → List Effect
  all_done m [] = []
  all_done m (f ∷ fs) = done_by m (asked_by f) ++ all_done (after m (asked_by f)) fs

  abbrev finished : Memory → List Effect → Exec Effect Memory
  finished m [] = ret m
  finished m (e ∷ es) = emit e (finished m es)

  dispatch-finished :
      (m : Memory) (f : Frame) (op : Option AccOp)
      → leb (AccData.data_offset + AccData.data_size f.bytes) f.size ≡ true
      → dispatch host m f true op
        ≡ finished (after m (transaction f op)) (done_by m (transaction f op))
  unfolding dispatch
  dispatch-finished m f (some read) h = rw h
  dispatch-finished m f (some write) h = rw h
  dispatch-finished m f (some intr) h = refl
  dispatch-finished m f (some noop) h = refl
  dispatch-finished m f (some init) h = refl
  dispatch-finished m f none h = refl

  serve-IsServable :
      (m : Memory) (a : Arrival) (f : Frame)
      → IsServable a f
      → serve host m a.frame a.send_ok ≡ finished (after m (asked_by f)) (done_by m (asked_by f))
  unfolding serve asked_by
  serve-IsServable m a f v =
      let long : ltb f.size AccData.size ≡ false = ground arith in
      rw (v.present, v.can_send, long)
        (dispatch-finished m f (op_of_code (AccData.op f.bytes)) (ground arith))

  finished->>= :
      {B : Type 0} (m : Memory) (es : List Effect) (k : Memory → Exec Effect B)
      → (effects (finished m es >>= k) ≡ es ++ effects (k m))
        × (result (finished m es >>= k) ≡ result (k m))
  finished->>= m [] k = (refl, refl)
  finished->>= m (e ∷ es) k = let rest = finished->>= m es k in (ap (◌∷◌ e) rest.0, rest.1)

  -- The handler on servable arrivals, and then on any others.
  pub handle-AllServable :
      (m : Memory) (as_ : List Arrival) (fs : List Frame) (rest : List Arrival)
      → AllServable as_ fs
      → (effects (handle_hdl_request host m (as_ ++ rest))
          ≡ all_done m fs ++ effects (handle_hdl_request host (final m fs) rest))
        × (result (handle_hdl_request host m (as_ ++ rest))
            ≡ result (handle_hdl_request host (final m fs) rest))
  unfolding handle_hdl_request
  handle-AllServable m [] [] rest v = (refl, refl)
  handle-AllServable m [] (f ∷ fs) rest v = absurd v
  handle-AllServable m (a ∷ as_) [] rest v = absurd v
  handle-AllServable m (a ∷ as_) (f ∷ fs) rest v =
      let t = asked_by f in
      let ih = handle-AllServable (after m t) as_ fs rest v.1 in
      let here =
        finished->>= (after m t) (done_by m t) (λ m'. handle_hdl_request host m' (as_ ++ rest)) in
      rw (serve-IsServable m a f v.0) (
        here.0 ∙ ap (◌++◌ (done_by m t)) ih.0 ∙ sym (append_assoc (done_by m t) _ _),
        here.1 ∙ ih.1,
      )

  stops :
      (m : Memory) (bad : Arrival) (rest : List Arrival)
      → IsFatal bad
      → handle_hdl_request host m (bad ∷ rest) ≡ stop (exits 1)
  unfolding handle_hdl_request serve
  stops m bad rest (inl e) = rw e
  stops m bad rest (inr (f, e, short)) =
      let cut : ltb f.size AccData.size ≡ true = ground arith in rw (e, cut)

  -- Whatever servable frames are waiting, `handle_hdl_request` returns after serving every one of
  -- them in their order: it does the effects of each transaction on the memory that the earlier
  -- ones left, and leaves the memory after the last.
  pub handle_hdl_request-drains :
      (m : Memory) (as_ : List Arrival) (fs : List Frame)
      → AllServable as_ fs
      → (effects (handle_hdl_request host m as_) ≡ all_done m fs)
        × (result (handle_hdl_request host m as_) ≡ returns (final m fs))
  handle_hdl_request-drains m as_ fs v =
      let all = handle-AllServable m as_ fs [] v in
      let ended : handle_hdl_request host (final m fs) [] ≡ ret (final m fs) =
        unfold handle_hdl_request in refl in
      (
        ap (λ l. effects (handle_hdl_request host m l)) (sym (append-nil as_))
            ∙ all.0
            ∙ ap (λ e. all_done m fs ++ effects e) ended
            ∙ append-nil (all_done m fs),
        ap (λ l. result (handle_hdl_request host m l)) (sym (append-nil as_))
            ∙ all.1
            ∙ ap result ended,
      )

  -- If the arrivals before it can all be served, then at the first arrival that is no frame, or is
  -- shorter than an ACCData, the process exits with status 1. It has served the arrivals before it
  -- in full, as `handle_hdl_request` does without the rest, and looks at nothing after it. An
  -- arrival can be served if it is a whole ACCData whose data fit the frame, and an answer to it
  -- can be sent.
  pub handle_hdl_request-exits :
      (m : Memory) (as_ : List Arrival) (fs : List Frame) (bad : Arrival) (rest : List Arrival)
      → AllServable as_ fs
      → IsFatal bad
      → (effects (handle_hdl_request host m (as_ ++ bad ∷ rest)) ≡ all_done m fs)
        × (result (handle_hdl_request host m (as_ ++ bad ∷ rest)) ≡ halts (exits 1))
  handle_hdl_request-exits m as_ fs bad rest v fatal =
      let all = handle-AllServable m as_ fs (bad ∷ rest) v in
      let ended = stops (final m fs) bad rest fatal in
      (
        all.0 ∙ ap (λ e. all_done m fs ++ effects e) ended ∙ append-nil (all_done m fs),
        all.1 ∙ ap result ended,
      )
