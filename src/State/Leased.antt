-- ===== src/State/Leased.antt =====
-- bhwi-ffi/src/state.rs: `Leased`, a cell whose exclusivity is a flag, and the `Mutex` of the
-- standard library beside it. A pointer that `acquire` hands out is the access that its holder has
-- to the cell; the model passes the cell's value instead.
use bhwi_ffi.Prelude.{Bool, true, false, Option, none, some, ◌≡◌, arith}

pub record Mutex {ℓ} (A : Type ℓ) : Type ℓ where
  pub value : A
  pub poisoned : Bool

abbrev pub mutex {ℓ} : {A : Type ℓ} → A → Mutex A
mutex a = record { value = a; poisoned = false }

pub record Leased {ℓ} (A : Type ℓ) : Type ℓ where
  pub cell : A
  pub leased : Bool

module _ {ℓ} {A : Type ℓ} where
  -- `Leased::new`
  unfoldable pub new : A → Leased A
  new value = record { cell = value; leased = false }

  -- `Leased::acquire`: `compare_exchange(false, true)`
  unfoldable pub acquire : Leased A → Option (Leased A)
  acquire l = elim l.leased [ true ↦ none | false ↦ some (record l { leased = true }) ]

  -- `Leased::release`
  unfoldable pub release : Leased A → Leased A
  release l = record l { leased = false }

  -- `Leased::get_leased`, a read through the lease
  unfoldable pub get_leased : Leased A → A
  get_leased l = l.cell

  -- a write through the lease
  unfoldable pub put_leased : A → Leased A → Leased A
  put_leased a l = record l { cell = a }

  -- `Leased::with`
  unfoldable pub with_cell {κ} : {R : Type κ} → (A → R × A) → Leased A → Option R × Leased A
  unfolding acquire release put_leased
  with_cell f l = elim (acquire l) [
    | none ↦ (none, l)
    | some held ↦ let (r, a) = f held.cell in (some r, release (put_leased a held))
  ]

  -- A lease excludes: after a successful `acquire`, and until `release`, no `acquire` and no `with`
  -- gets in and the cell is untouched. After `release` both get in, and a `with` that gets in runs
  -- its function on the cell and leaves no lease behind.
  pub acquire_excludes {κ} :
      {R : Type κ} (l held : Leased A) (f : A → R × A)
      → acquire l ≡ some held
      → (acquire held ≡ none)
        × (with_cell f held ≡ (none, held))
        × (held.cell ≡ l.cell)
        × (with_cell f (release held) ≡ (some (f l.cell).0, new (f l.cell).1))
  unfolding acquire release with_cell new
  acquire_excludes l held f h = ground arith
