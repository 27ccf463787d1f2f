-- ===== src/Device/Msix/Balance.antt =====
-- How often each vector is in use after the MSI-X calls.
use mathlib.Core.List.{append-nil}
use qemu_hdl_sim.Base.{
  ℕ, zero, suc, ◌+◌, ◌≤◌, ◌<◌, ◌≡◌, refl, ap, ◌∙◌, arith, Bool, true, false, List, [], ◌∷◌, ◌++◌,
  Bytes, ltb, leb, ◌==◌, if◌then◌else◌, ret, returns, halts, exits, effects, result, ◌&&◌,
  Bool-cases, inl, inr, dec_lt,
}
use qemu_hdl_sim.Base.Effects.Laws.{>>=-returns}
use qemu_hdl_sim.Protocol.AccConf
use qemu_hdl_sim.Device.Msix.{
  Effect, init_called, uninit_called, vector_used, vector_unused, unuse_from, unuse_msix_vectors,
  use_from, use_msix_vectors, uninit_unless, init_msix, bars_exist,
}

-- How often a sequence of calls uses a vector, and how often it gives it up.
abbrev pub uses : ℕ → List Effect → ℕ
uses v [] = 0
uses v (vector_used u ∷ es) = (if u == v then 1 else 0) + uses v es
uses v (vector_unused u ∷ es) = uses v es
uses v (init_called n tb to pb po ∷ es) = uses v es
uses v (uninit_called tb pb ∷ es) = uses v es

abbrev pub unuses : ℕ → List Effect → ℕ
unuses v [] = 0
unuses v (vector_used u ∷ es) = unuses v es
unuses v (vector_unused u ∷ es) = (if u == v then 1 else 0) + unuses v es
unuses v (init_called n tb to pb po ∷ es) = unuses v es
unuses v (uninit_called tb pb ∷ es) = unuses v es

pub uses-append : (v : ℕ) (xs ys : List Effect) → uses v (xs ++ ys) ≡ uses v xs + uses v ys
uses-append v [] ys = omega arith
uses-append v (vector_used u ∷ xs) ys = omega (arith, uses-append v xs ys)
uses-append v (vector_unused u ∷ xs) ys = uses-append v xs ys
uses-append v (init_called n tb to pb po ∷ xs) ys = uses-append v xs ys
uses-append v (uninit_called tb pb ∷ xs) ys = uses-append v xs ys

pub unuses-append : (v : ℕ) (xs ys : List Effect) → unuses v (xs ++ ys) ≡ unuses v xs + unuses v ys
unuses-append v [] ys = omega arith
unuses-append v (vector_used u ∷ xs) ys = unuses-append v xs ys
unuses-append v (vector_unused u ∷ xs) ys = omega (arith, unuses-append v xs ys)
unuses-append v (init_called n tb to pb po ∷ xs) ys = unuses-append v xs ys
unuses-append v (uninit_called tb pb ∷ xs) ys = unuses-append v xs ys

-- 1 for the vectors from `i` up to `j`, 0 for the others.
abbrev pub one_in : ℕ → ℕ → ℕ → ℕ
one_in i j v = if leb i v && ltb v j then 1 else 0

pub unuse_from-counts :
    (left i v : ℕ)
    → (uses v (effects (unuse_from left i)) ≡ 0)
      × (unuses v (effects (unuse_from left i)) ≡ one_in i (i + left) v)
      × (result (unuse_from left i) ≡ returns tt)
unfolding unuse_from
unuse_from-counts zero i v = (refl, ground arith, refl)
unuse_from-counts (suc left) i v =
    let ih = unuse_from-counts left (i + 1) v in (ih.0, ground (arith, ih.1), ih.2)

module _ (entries : ℕ) where
  use_from-enough :
      (left i v : ℕ)
      → i + left ≤ entries
      → (uses v (effects (use_from entries left i)) ≡ one_in i (i + left) v)
        × (unuses v (effects (use_from entries left i)) ≡ 0)
        × (result (use_from entries left i) ≡ returns true)
  unfolding use_from
  use_from-enough zero i v h = (ground arith, refl, refl)
  use_from-enough (suc left) i v h =
      let ih = use_from-enough left (i + 1) v (omega arith) in
      let more : leb entries i ≡ false = ground arith in rw more (ground (arith, ih.0), ih.1, ih.2)

  -- Where the vectors run out, those used so far are given up again.
  use_from-short :
      (left i v : ℕ)
      → i ≤ entries
      → entries < i + left
      → (uses v (effects (use_from entries left i)) ≡ one_in i entries v)
        × (unuses v (effects (use_from entries left i)) ≡ one_in 0 entries v)
        × (result (use_from entries left i) ≡ returns false)
  unfolding use_from unuse_msix_vectors
  use_from-short zero i v h k = absurd (omega arith)
  use_from-short (suc left) i v h k = elim (Bool-cases (leb entries i)) [
    | inl out ↦
        let gone = unuse_from-counts i 0 v in
        let both = >>=-returns (unuse_from i 0) (λ _. ret false) tt gone.2 in
        rw (out, both.0, both.1, append-nil) (ground (arith, gone.0), ground (arith, gone.1), refl)
    | inr more ↦
        let ih = use_from-short left (i + 1) v (ground arith) (omega arith) in
        rw more (ground (arith, ih.0), ih.1, ih.2)
  ]

-- Is the capability there after a sequence of calls?
abbrev pub is_present : Bool → List Effect → Bool
is_present p [] = p
is_present p (init_called n tb to pb po ∷ es) = is_present true es
is_present p (uninit_called tb pb ∷ es) = is_present false es
is_present p (vector_used u ∷ es) = is_present p es
is_present p (vector_unused u ∷ es) = is_present p es

pub is_present-append :
    (p : Bool) (xs ys : List Effect) → is_present p (xs ++ ys) ≡ is_present (is_present p xs) ys
is_present-append p [] ys = refl
is_present-append p (init_called n tb to pb po ∷ xs) ys = is_present-append true xs ys
is_present-append p (uninit_called tb pb ∷ xs) ys = is_present-append false xs ys
is_present-append p (vector_used u ∷ xs) ys = is_present-append p xs ys
is_present-append p (vector_unused u ∷ xs) ys = is_present-append p xs ys

pub unuse_from-present : (p : Bool) (left i : ℕ) → is_present p (effects (unuse_from left i)) ≡ p
unfolding unuse_from
unuse_from-present p zero i = refl
unuse_from-present p (suc left) i = unuse_from-present p left (i + 1)

use_from-present :
    (entries : ℕ) (p : Bool) (left i : ℕ) → is_present p (effects (use_from entries left i)) ≡ p
unfolding use_from unuse_msix_vectors
use_from-present entries p zero i = refl
use_from-present entries p (suc left) i = elim (Bool-cases (leb entries i)) [
  | inl out ↦
      let both = >>=-returns (unuse_from i 0) (λ _. ret false) tt (unuse_from-counts i 0 0).2 in
      rw (out, both.0, append-nil) (unuse_from-present p i 0)
  | inr more ↦ rw more (use_from-present entries p left (i + 1))
]

module _ (conf : Bytes) (entries : ℕ) (bars : bars_exist conf ≡ true) where
  abbrev num : ℕ
  num = AccConf.msix_vec_num conf

  abbrev started : Effect
  started =
      init_called num (AccConf.msix_table_bar conf) (AccConf.msix_table_offset conf)
        (AccConf.msix_pba_bar conf) (AccConf.msix_pba_offset conf)

  abbrev used_up : List Effect
  used_up = effects (use_from entries num 0)

  init-effects :
      (used : Bool)
      → result (use_from entries num 0) ≡ returns used
      → (effects (init_msix conf true entries)
          ≡ started ∷ effects (use_from entries num 0) ++ effects (uninit_unless conf used))
        × (result (init_msix conf true entries) ≡ returns tt)
  unfolding init_msix
  init-effects used e =
      let both = >>=-returns (use_from entries num 0) (λ u. uninit_unless conf u) used e in
      rw bars (ap (◌∷◌ started) both.0, both.1 ∙ uninit-returns used)
    where
      uninit-returns : (u : Bool) → result (uninit_unless conf u) ≡ returns tt
      uninit-returns true = unfold uninit_unless in refl
      uninit-returns false = unfold uninit_unless in refl

  init-balance :
      (v : ℕ)
      → let es = effects (init_msix conf true entries) in
        let n = AccConf.msix_vec_num conf in
        (result (init_msix conf true entries) ≡ returns tt)
        × (n ≤ entries
            → (uses v es ≡ one_in 0 n v) × (unuses v es ≡ 0) × (is_present false es ≡ true))
        × (entries < n → (uses v es ≡ unuses v es) × (is_present false es ≡ false))
  unfolding uninit_unless use_msix_vectors
  init-balance v = elim (dec_lt entries num) [
    | yes few ↦
        let made = use_from-short entries num 0 v (omega arith) (omega arith) in
        let all = init-effects false made.2 in
        let ended = effects (uninit_unless conf false) in
        (
          all.1,
          λ h. absurd (omega arith),
          λ h. rw all.0 (
            omega
                (arith, uses-append v used_up ended, unuses-append v used_up ended, made.0, made.1),
            is_present-append true used_up ended,
          ),
        )
    | no enough ↦
        let made = use_from-enough entries num 0 v (omega arith) in
        let all = init-effects true made.2 in
        (
          all.1,
          λ h.
              rw (all.0, append-nil)
                (
                  made.0 ∙ ap (λ (j : ℕ). one_in 0 j v) (omega arith),
                  made.1,
                  use_from-present entries true num 0,
                ),
          λ h. absurd (enough h),
        )
  ]

  init-fails :
      (result (init_msix conf false entries) ≡ halts (exits 0))
      × (effects (init_msix conf false entries) ≡ started ∷ [])
  unfolding init_msix
  init-fails = rw bars (refl, refl)

  -- For a configuration whose two MSI-X BARs are among the six: where `msix_init` succeeds,
  -- `acc_init_msix` returns. With enough vectors in the table it has then used each vector of the
  -- configuration once and no other, and leaves the capability present; with too few, it has given
  -- up every vector it used, and taken the capability away again. Where `msix_init` fails, the
  -- process exits with status 0, and no vector was used.
  pub init_msix_lem :
      (v : ℕ)
      → let es = effects (init_msix conf true entries) in
        let n = AccConf.msix_vec_num conf in
        (result (init_msix conf true entries) ≡ returns tt)
        × (n ≤ entries
            → (uses v es ≡ one_in 0 n v) × (unuses v es ≡ 0) × (is_present false es ≡ true))
        × (entries < n → (uses v es ≡ unuses v es) × (is_present false es ≡ false))
        × (result (init_msix conf false entries) ≡ halts (exits 0))
        × (uses v (effects (init_msix conf false entries)) ≡ 0)
  init_msix_lem v =
      let (run, enough, few) = init-balance v in
      (run, enough, few, init-fails.0, ap (uses v) init-fails.1)
