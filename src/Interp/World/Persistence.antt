-- ===== src/Interp/World/Persistence.antt =====
-- bhwi-ffi/src/interp.rs and state.rs: the pairing material that a BitBox02 command leaves in its
-- handle.
use bhwi_ffi.Prelude.{
  ℕ, Bool, true, false, Option, none, some, List, [], ◌∷◌, ◌≡◌, arith, refl, sym, ◌∙◌, ap, inl, inr,
  Bool-cases, Option-cases, eqb, all, not, subst,
}
use bhwi_ffi.Error.{Outcome, ok, err, panicked}
use bhwi_ffi.Network.{to_core_network}
use bhwi_ffi.Core.Primitives.{Primitives}
use bhwi_ffi.Core.Device.{Device}
use bhwi_ffi.Core.Library.{Library}
use bhwi_ffi.Core.Family.{Families}
use bhwi_ffi.State.Leased.{acquire, with_cell, get_leased}
use bhwi_ffi.State.Noise.{NoiseHandle, export_config, from_data}
use bhwi_ffi.Types.Device
use bhwi_ffi.Interp.Session
use bhwi_ffi.Interp.Session.{unleased, noise, Session, Called, Devices, end_inner, drop_lease}
use bhwi_ffi.Interp.World.{
  World, build, given, new_bitbox, new_coldcard, new_jade, new_ledger, new_specter, new_trezor,
  new_keepkey, start_call, exchange_call, end, end_session,
}
use bhwi_ffi.Interp.World.Calls.{
  Call, builds_bitbox, builds_coldcard, builds_jade, builds_specter, builds_ledger, builds_trezor,
  builds_keepkey, step, run, IsFresh,
}
use bhwi_ffi.Interp.World.Cells.{cell_at, noise_state, cell_at-drop_lease, cell_at-write_noise}
use bhwi_ffi.Interp.World.Exclusive.{Inv, session_at}
use bhwi_ffi.Interp.World.Frame.{is_out, start_call-IsFrame, exchange_call-IsFrame}
use bhwi_ffi.Interp.World.Isolation.Others.{step-cell}
use bhwi_ffi.Interp.World.Lifecycle.{end_eq, end-consumes}
use bhwi_ffi.Interp.World.Ownership.{lease_beq, lease_beq_iff}
use bhwi_ffi.Interp.World.Runs.{fresh-Inv, step-Inv, run-Inv, end-Inv}
use bhwi_ffi.Interp.World.Slots.{
  is_build, Slot, same, built, started, exchanged, consumed, slot_of, step-Slot,
}
use bhwi_ffi.Interp.World.Sound.{run-unpoisoned}

-- whether a call builds an interpreter on the noise handle `h`
abbrev pub builds_on : ℕ → Call → Bool
builds_on h (builds_bitbox k network) = eqb k h
builds_on h _ = false

module _ ⦃P : Primitives⦄ ⦃F : Families⦄ where
  slot_of-lease :
      {R : Type 0} (c : Called R) (s t : Session)
      → c.session.lease ≡ s.lease
      → (slot_of c).value ≡ some t
      → t.lease ≡ s.lease
  slot_of-lease c s t e h = ground arith

  given-lease :
      {A : Type 0} (o : Outcome A) (f : A → World → Outcome ℕ × World) (w : World) (h : ℕ)
      (s : Session)
      → session_at w w.next ≡ none
      → session_at (given o f w).1 w.next ≡ some s
      → ((a : A) → session_at (f a w).1 w.next ≡ some s → lease_beq (noise h) s.lease ≡ false)
      → lease_beq (noise h) s.lease ≡ false
  given-lease (ok a) f w h s e at g = g a at
  given-lease (err x) f w h s e at g = absurd (ground arith)
  given-lease panicked f w h s e at g = absurd (ground arith)

  module _ ⦃L : Library⦄ ⦃D : Device⦄ where
    -- A new interpreter does not hold the lease of `h`, if it was not built on `h`.
    built-lease :
        (c : Call) (w : World) (h : ℕ) (s : Session)
        → builds_on h c ≡ false
        → is_build c ≡ true
        → session_at w w.next ≡ none
        → session_at (step c w) w.next ≡ some s
        → lease_beq (noise h) s.lease ≡ false
    unfolding step new_bitbox new_coldcard new_jade new_ledger new_specter new_trezor new_keepkey
        build acquire
    built-lease (builds_bitbox k network) w h s n b e at = ground arith
    built-lease (builds_coldcard k) w h s n b e at = ground arith
    built-lease (builds_jade network) w h s n b e at = ground arith
    built-lease (builds_specter network) w h s n b e at = ground arith
    built-lease builds_ledger w h s n b e at = ground arith
    built-lease (builds_trezor network p on_device) w h s n b e at =
        given-lease {A = Option P.HostPassphrase} _
          (λ q.
            build (Session.trezor (F.trezor_new (to_core_network network) q on_device))
              Device.trezor unleased w.devices)
          w h s e at λ q. ground arith
    built-lease (builds_keepkey network p) w h s n b e at =
        given-lease {A = Option P.HostPassphrase} _
          (λ q.
            build (Session.keepkey (F.keepkey_new (to_core_network network) q)) Device.keepkey
              unleased w.devices)
          w h s e at λ q. ground arith
    built-lease _ w h s n b e at = absurd (ground arith)

    -- No interpreter holds the noise handle `h`.
    abbrev IsUnheld : World → ℕ → Type 0
    IsUnheld w h =
        (i : ℕ) (s : Session) → session_at w i ≡ some s → lease_beq (noise h) s.lease ≡ false

    step-IsUnheld :
        (c : Call) (w : World) (h : ℕ)
        → Inv w
        → builds_on h c ≡ false
        → IsUnheld w h
        → IsUnheld (step c w) h
    step-IsUnheld c w h v n free i = by_slot (step c w) refl (step-Slot c w i)
      where
        by_slot :
            (w' : World)
            → w' ≡ step c w
            → Slot w c i w'
            → (s : Session) → session_at w' i ≡ some s
            → lease_beq (noise h) s.lease ≡ false
        by_slot w' e (same k m) s at = free i s (sym (ap (λ m. m.value) k) ∙ at)
        by_slot w' e (built t b here m u f k) s at =
            built-lease c w h s n b (v.fresh w.next (ground arith))
              (ap (λ x. session_at x w.next) (sym e) ∙ (ap (λ j. session_at w' j) (sym here) ∙ at))
        by_slot w' e (started command t k live slot m) s at =
            let kept =
              slot_of-lease (start_call command t w.devices) t s
                (start_call-IsFrame command t w.devices).lease
                (sym (ap (λ m. m.value) slot) ∙ at) in
            subst (λ l. lease_beq (noise h) l ≡ false) (sym kept) (free i t live)
        by_slot w' e (exchanged reply t k live slot m) s at =
            let kept =
              slot_of-lease (exchange_call reply t w.devices) t s
                (exchange_call-IsFrame reply t w.devices).lease
                (sym (ap (λ m. m.value) slot) ∙ at) in
            subst (λ l. lease_beq (noise h) l ≡ false) (sym kept) (free i t live)
        by_slot w' e (consumed t k live gone m) s at = absurd (ground arith)

    -- The cell of a handle that no interpreter holds stays as it is.
    run-IsUnheld :
        (calls : List Call) (w : World) (h : ℕ)
        → Inv w
        → all (λ c. not (builds_on h c)) calls ≡ true
        → IsUnheld w h
        → (cell_at (run calls w).devices (noise h) ≡ cell_at w.devices (noise h))
          × IsUnheld (run calls w) h
    unfolding run
    run-IsUnheld [] w h v n free = (refl, free)
    run-IsUnheld (c ∷ cs) w h v n free =
        let off : builds_on h c ≡ false = ground arith in
        let (kept, still) =
          run-IsUnheld cs (step c w) h (step-Inv c w v) (ground arith)
            (step-IsUnheld c w h v off free) in
        (kept ∙ step-cell w v (noise h) c (λ j t on at. free j t at), still)

    export_config-free :
        (n : NoiseHandle)
        → n.state.leased ≡ false
        → (export_config n).0 ≡ ok (from_data (D.noise_data (get_leased n.state)))
    unfolding export_config with_cell acquire get_leased
    export_config-free n free = ground arith

    unheld-free : (w : World) (h : ℕ) → Inv w → IsUnheld w h → is_out w.devices (noise h) ≡ false
    unheld-free w h v free = elim (Bool-cases (is_out w.devices (noise h))) [
      | inr not_out ↦ not_out
      | inl out ↦
          let (i, held) = v.ownership.owned (noise h) out in
          elim (Option-cases (session_at w i)) [
            | inl gone ↦ absurd (ground arith)
            | inr (s, live) ↦
                absurd (ground (arith, free i s live, lease_beq_iff (noise h) s.lease))
          ]
    ]

    free-IsUnheld : (w : World) (h : ℕ) → Inv w → is_out w.devices (noise h) ≡ false → IsUnheld w h
    free-IsUnheld w h v out j t at = elim (Bool-cases (lease_beq (noise h) t.lease)) [
      | inr other ↦ other
      | inl mine ↦
          absurd (ground (arith, v.ownership.held j (noise h), lease_beq_iff (noise h) t.lease))
    ]

    end_session-cell :
        (s : Session) (d : Devices) (h : ℕ) (b : F.bitbox.Interpreter)
        → s.finished ≡ true
        → s.inner ≡ Session.bitbox h b
        → s.lease ≡ noise h
        → cell_at (end_session s d).1 (noise h)
          ≡ noise_state (F.bitbox.finish b (get_leased (d.noises h).state)).1
    unfolding end_session end_inner
    end_session-cell s d h b finished inner mine =
        let dropped : (end_session s d).1 ≡ drop_lease s.lease (end_inner s.inner d).1 =
          ground arith in
        ap (λ x. cell_at x (noise h)) dropped
        ∙ (cell_at-drop_lease s.lease (end_inner s.inner d).1 (noise h)
            ∙ (ap (λ x. cell_at (end_inner x d).1 (noise h)) inner ∙ cell_at-write_noise h _ [] d))

    -- When a BitBox02 command that has finished is ended, after any schedule of calls from fresh handles,
    -- what the host exports from the noise handle is the pairing material of the state that the
    -- interpreter left there; it stays so through any calls on any handles and interpreters, as long
    -- as no further interpreter is built on the handle.
    pub run-exports :
        (before after : List Call) (w : World)
        → IsFresh w
        → (i h : ℕ) (s : Session) (b : F.bitbox.Interpreter) → session_at (run before w) i ≡ some s
        → s.finished ≡ true
        → s.inner ≡ Session.bitbox h b
        → all (λ c. not (builds_on h c)) after ≡ true
        → (export_config ((run after (end i (run before w)).1).devices.noises h)).0
          ≡ ok (
              from_data (
                D.noise_data
                  (F.bitbox.finish b (get_leased ((run before w).devices.noises h).state)).1))
    run-exports before after w f i h s b live finished inner n =
        let v = run-Inv before w (fresh-Inv w f) in
        let sound = run-unpoisoned before w f.nothing_poisoned i in
        let w1 = (end i (run before w)).1 in
        let mine : s.lease ≡ noise h = ground (arith, v.borrowed i s live) in
        let freed = (end-consumes i (run before w) s (live, sound)).0 in
        let v1 = end-Inv i (run before w) v in
        let free = free-IsUnheld w1 h v1 (subst (λ l. is_out w1.devices l ≡ false) mine freed) in
        let (kept, still) = run-IsUnheld after w1 h v1 n free in
        let ended = end_session-cell s (run before w).devices h b finished inner mine in
        let left =
          kept
          ∙ (ap (λ x. cell_at x.1.devices (noise h)) (end_eq i (run before w) s live sound)
              ∙ ended) in
        let out = unheld-free (run after w1) h (run-Inv after w1 v1) still in
        export_config-free ((run after w1).devices.noises h) out
        ∙ ap (λ n. ok (from_data (D.noise_data n))) (cc left)
