-- ===== src/Interp/World/Isolation.antt =====
-- bhwi-ffi/src/interp.rs: the calls of one interpreter among the calls of all the others.
pub mod Answers
pub mod Own
pub mod Others
use bhwi_ffi.Prelude.{
  ℕ, false, List, ◌≡◌, arith, refl, sym, leb, ◌∙◌, ap, inl, inr, Bool-cases, if◌then◌else◌, [], ◌∷◌,
  filter_by,
}
use bhwi_ffi.Core.Primitives.{Primitives}
use bhwi_ffi.Core.Device.{Device}
use bhwi_ffi.Core.Library.{Library}
use bhwi_ffi.Core.Family.{Families}
use bhwi_ffi.Interp.World.{World}
use bhwi_ffi.Interp.World.Calls.{Call, run, step, IsFresh}
use bhwi_ffi.Interp.World.Exclusive.{Inv}
use bhwi_ffi.Interp.World.Runs.{fresh-Inv, step-Inv, run-Inv}
use bhwi_ffi.Interp.World.Kept.{step-old}
use bhwi_ffi.Interp.World.Slots.{Slot, same, built, started, exchanged, consumed, step-Slot}
use bhwi_ffi.Interp.World.Isolation.Answers.{Answer, answer, is_on}
use bhwi_ffi.Interp.World.Isolation.Own.{Agree, own-Agree}
use bhwi_ffi.Interp.World.Isolation.Others.{other-cell}

-- the calls on interpreter `i`, without the others
abbrev pub only : ℕ → List Call → List Call
only i = filter_by (is_on i)

module _ ⦃P : Primitives⦄ ⦃F : Families⦄ where
  module _ ⦃L : Library⦄ ⦃D : Device⦄ where
    other-slot :
        (c : Call) (w : World) (i : ℕ)
        → leb w.next i ≡ false
        → is_on i c ≡ false
        → (step c w).interps i ≡ w.interps i
    other-slot c w i old other = by_slot (step c w) (step-Slot c w i)
      where
        by_slot : (w' : World) → Slot w c i w' → w'.interps i ≡ w.interps i
        by_slot w' (same e n) = e
        by_slot w' (built s b here n u f e) = absurd (ground arith)
        by_slot w' (started command s k live e n) = absurd (ground arith)
        by_slot w' (exchanged reply s k live e n) = absurd (ground arith)
        by_slot w' (consumed s k live e n) = absurd (ground arith)

    -- A call that is not made on interpreter `i` changes nothing that `i` sees.
    other-Agree :
        (i : ℕ) (w w' : World) (c : Call)
        → Agree i w w'
        → Inv w
        → leb w.next i ≡ false
        → is_on i c ≡ false
        → Agree i (step c w) w'
    other-Agree i w w' c g v old other =
        let kept : (step c w).interps i ≡ w.interps i = other-slot c w i old other in
        record {
          slot = kept ∙ g.slot;
          cell = λ s live.
              let lives = sym (ap (λ m. m.value) kept) ∙ live in
              other-cell c w i s v lives other ∙ g.cell s lives;
        }

    -- what the calls on interpreter `i` return, in order
    unfoldable pub answers : ℕ → List Call → World → List Answer
    answers i [] w = []
    answers i (c ∷ cs) w =
        let rest = answers i cs (step c w) in if is_on i c then answer c w ∷ rest else rest

    run-Agree :
        (i : ℕ) (calls : List Call) (w w' : World)
        → Inv w
        → leb w.next i ≡ false
        → Agree i w w'
        → answers i calls w ≡ answers i (only i calls) w'
    unfolding answers
    run-Agree i [] w w' v old g = refl
    run-Agree i (c ∷ cs) w w' v old g = elim (Bool-cases (is_on i c)) [
      | inl mine ↦
          let (result, g') = own-Agree i w w' g c (v.borrowed i) mine in
          let rest =
            run-Agree i cs (step c w) (step c w') (step-Inv c w v) (step-old c w i old) g' in
          rw mine (cc (result, rest))
      | inr other ↦
          let g' = other-Agree i w w' c g v old other in
          rw other (run-Agree i cs (step c w) w' (step-Inv c w v) (step-old c w i old) g')
    ]

    -- After any schedule of calls from fresh handles, what an interpreter that has been built answers to
    -- its own calls, in a schedule with any other calls on any handles and interpreters in between, is
    -- what it answers to its own calls alone.
    pub run-isolated :
        (before after : List Call) (w : World)
        → IsFresh w
        → (i : ℕ) → leb (run before w).next i ≡ false
        → answers i after (run before w) ≡ answers i (only i after) (run before w)
    run-isolated before after w f i old =
        run-Agree i after _ _ (run-Inv before w (fresh-Inv w f)) old
          (record { slot = refl; cell = λ s live. refl })
