-- ===== src/Interp/World/Exclusive.antt =====
-- The exclusion that the unsafe borrows of `Interp::new_bitbox` and `new_coldcard` rest on.
use bhwi_ffi.Prelude.{
  ℕ, ◌≤◌, Bool, true, false, not, ◌&&◌, Option, none, some, ◌≡◌, update, if◌then◌else◌, arith,
}
use bhwi_ffi.Error.{Outcome, ok, err, panicked, is_bad_state}
use bhwi_ffi.Core.Primitives.{Primitives}
use bhwi_ffi.Core.Family.{Families}
use bhwi_ffi.Interp.Session.{StateLease, Session, Called, Devices}
use bhwi_ffi.Interp.World.{World, settle, keep, retire, poison}
use bhwi_ffi.Interp.World.Ownership.{IsExclusive, IsExclusive-same, IsExclusive-drop}
use bhwi_ffi.Interp.World.Frame.{is_out, is_out-drop_lease, borrows, IsFrame}

module _ ⦃P : Primitives⦄ ⦃F : Families⦄ where
  abbrev pub lease_of : Option Session → Option StateLease
  lease_of none = none
  lease_of (some s) = some s.lease

  -- the session of an interpreter, if it is alive
  abbrev pub session_at : World → ℕ → Option Session
  session_at w i = (w.interps i).value

  abbrev pub holds : World → ℕ → Option StateLease
  holds w i = lease_of (session_at w i)

  pub record Inv (w : World) : Type 0 where
    -- a lease that is out has one live interpreter, and the lease of a live interpreter is out
    pub ownership : IsExclusive (holds w) (is_out w.devices)
    -- an interpreter borrows from the handle whose lease it holds
    pub borrowed : (i : ℕ) (s : Session) → session_at w i ≡ some s → borrows s.inner ≡ s.lease
    pub fresh : (i : ℕ) → w.next ≤ i → session_at w i ≡ none

  module _ (w : World) (v : Inv w) (i : ℕ) (s : Session) (live : session_at w i ≡ some s) where
    pub keep-Inv :
        (s' : Session) (p : Bool) (d : Devices)
        → s'.lease ≡ s.lease
        → borrows s'.inner ≡ borrows s.inner
        → ((k : StateLease) → is_out d k ≡ is_out w.devices k)
        → Inv (record w {
          devices = d;
          interps = update w.interps i (record { value = some s'; poisoned = p });
        })
    keep-Inv s' p d same borrow flags = record {
      ownership = IsExclusive-same v.ownership (λ j. ground arith) flags;
      borrowed = λ j t e. ground (arith, v.borrowed j t, v.borrowed i s);
      fresh = λ j h. ground (arith, v.fresh j);
    }

    pub retire-Inv :
        (lease : StateLease) (d : Devices)
        → lease ≡ s.lease
        → ((k : StateLease) → is_out d k ≡ is_out w.devices k)
        → Inv (retire i lease d w)
    retire-Inv lease d same flags = record {
      ownership =
          IsExclusive-drop v.ownership i lease (ground arith) (λ j. ground arith)
            (λ k. ground (arith, is_out-drop_lease lease d k, flags k));
      borrowed = λ j t e. ground (arith, v.borrowed j t);
      fresh = λ j h. ground (arith, v.fresh j);
    }

    pub settle-Inv : {R : Type 0} (c : Called R) → IsFrame s w.devices c → Inv (settle i c w).1
    unfolding settle
    settle-Inv {R = R} c f = by_outcome c.outcome
      where
        by_test :
            (b : Bool)
            → Inv (if b then retire i c.session.lease c.devices w else keep i c.session c.devices w)
        by_test true = retire-Inv c.session.lease c.devices f.lease f.flags
        by_test false = keep-Inv c.session false c.devices f.lease f.borrow f.flags

        by_outcome :
            (o : Outcome R)
            → Inv (elim o [
              | ok r ↦ keep i c.session c.devices w
              | err e ↦
                  if c.session.started && not (is_bad_state e)
                  then retire i c.session.lease c.devices w
                  else keep i c.session c.devices w
              | panicked ↦ poison i c.session c.devices w
            ])
        by_outcome (ok r) = keep-Inv c.session false c.devices f.lease f.borrow f.flags
        by_outcome (err e) = by_test (c.session.started && not (is_bad_state e))
        by_outcome panicked = keep-Inv c.session true c.devices f.lease f.borrow f.flags
