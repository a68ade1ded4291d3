-- ===== src/Interp/World/Locality/Reads.antt =====
-- bhwi-ffi/src/interp.rs: what a step of the core's interpreter reads of the handles.
use bhwi_ffi.Prelude.{◌≡◌, refl, sym, ◌∙◌, ap}
use bhwi_ffi.Text.{Bytes}
use bhwi_ffi.Core.Primitives.{Primitives}
use bhwi_ffi.Core.Family.{Families}
use bhwi_ffi.Error.{Outcome}
use bhwi_ffi.State.Leased.{get_leased}
use bhwi_ffi.Interp.Session
use bhwi_ffi.Interp.Session.{
  StateLease, Inner, Session, Called, Devices, Ran, exchange_inner, end_inner,
}
use bhwi_ffi.Interp.World.Frame.{borrows}
use bhwi_ffi.Interp.World.Cells.{
  noise_state, engine_state, cell_at, cell_at-write_noise, cell_at-write_engine,
}

module _ ⦃P : Primitives⦄ ⦃F : Families⦄ where
  -- Two calls with the same result, the same session left, and the same left in the cell behind `l`.
  pub record IsAlike {A : Type 0} (l : StateLease) (a b : Called A) : Type 0 where
    pub outcome : a.outcome ≡ b.outcome
    pub session : a.session ≡ b.session
    pub cell : cell_at a.devices l ≡ cell_at b.devices l

  pub record IsAlikeRan {A : Type 0} (l : StateLease) (a b : Ran A) : Type 0 where
    pub result : a.result ≡ b.result
    pub inner : a.inner ≡ b.inner
    pub cell : cell_at a.devices l ≡ cell_at b.devices l

  module _ (d e : Devices) where
    pub exchange_inner-IsAlike :
        (inner : Inner) (reply : Bytes)
        → cell_at d (borrows inner) ≡ cell_at e (borrows inner)
        → IsAlikeRan (borrows inner) (exchange_inner inner reply d) (exchange_inner inner reply e)
    unfolding exchange_inner
    exchange_inner-IsAlike (Session.bitbox h i) reply at =
        let read : get_leased (d.noises h).state ≡ get_leased (e.noises h).state = cc at in
        record {
          result = ap (λ c. (F.bitbox.exchange_step i c reply).result) read;
          inner = ap (λ c. Session.bitbox h (F.bitbox.exchange_step i c reply).interpreter) read;
          cell =
              cell_at-write_noise h _ _ d
              ∙ (ap (λ c. noise_state (F.bitbox.exchange_step i c reply).cell) read
                  ∙ sym (cell_at-write_noise h _ _ e));
        }
    exchange_inner-IsAlike (Session.coldcard h i) reply at =
        let read : get_leased (d.engines h).engine ≡ get_leased (e.engines h).engine = cc at in
        record {
          result = ap (λ c. (F.coldcard.exchange_step i c reply).result) read;
          inner =
              ap (λ c. Session.coldcard h (F.coldcard.exchange_step i c reply).interpreter) read;
          cell =
              cell_at-write_engine h _ d
              ∙ (ap (λ c. engine_state (F.coldcard.exchange_step i c reply).cell) read
                  ∙ sym (cell_at-write_engine h _ e));
        }
    exchange_inner-IsAlike _ reply at = record { result = refl; inner = refl; cell = refl }

    pub end_inner_alike :
        (inner : Inner)
        → cell_at d (borrows inner) ≡ cell_at e (borrows inner)
        → ((end_inner inner d).0 ≡ (end_inner inner e).0)
          × (cell_at (end_inner inner d).1 (borrows inner)
              ≡ cell_at (end_inner inner e).1 (borrows inner))
    unfolding end_inner
    end_inner_alike (Session.bitbox h i) at =
        let read : get_leased (d.noises h).state ≡ get_leased (e.noises h).state = cc at in
        (
          ap (λ c. (F.bitbox.finish i c).0) read,
          cell_at-write_noise h _ _ d
              ∙ (ap (λ c. noise_state (F.bitbox.finish i c).1) read
                  ∙ sym (cell_at-write_noise h _ _ e)),
        )
    end_inner_alike (Session.coldcard h i) at =
        let read : get_leased (d.engines h).engine ≡ get_leased (e.engines h).engine = cc at in
        (
          ap (λ c. (F.coldcard.finish i c).0) read,
          cell_at-write_engine h _ d
              ∙ (ap (λ c. engine_state (F.coldcard.finish i c).1) read
                  ∙ sym (cell_at-write_engine h _ e)),
        )
    end_inner_alike _ at = (refl, refl)

    pub kept-IsAlike :
        {A : Type 0} (l : StateLease) (o : Outcome A) (s : Session)
        → cell_at d l ≡ cell_at e l
        → IsAlike l
            (record { outcome = o; session = s; devices = d })
            (record { outcome = o; session = s; devices = e })
    kept-IsAlike l o s at = record { outcome = refl; session = refl; cell = at }
