-- ===== src/Helpers/Addresses.antt =====
-- bhwi-ffi/src/helpers.rs: which addresses `derive_addresses` returns.
use bhwi_ffi.Prelude.{
  ℕ, zero, suc, ◌+◌, ◌-◌, ◌^◌, ◌≤◌, ◌<◌, Bool, false, Option, none, some, List, [], ◌∷◌, ltb,
  length, get_elem?, ◌≡◌, ◌↔◌, refl, ap, arith,
}
use bhwi_ffi.Text.{Text, trim}
use bhwi_ffi.Error.{ok, or_err, reject_if, >>=-eq-ok, or_err-eq-ok, reject_if-eq-ok}
use bhwi_ffi.Network.{Network, to_core_network}
use bhwi_ffi.Core.Primitives.{Primitives}
use bhwi_ffi.Core.Result.{CoreResult, success, failure}
use bhwi_ffi.Core.Bitcoin.{CoreNetwork}
use bhwi_ffi.Core.Library.{Library}
use bhwi_ffi.Helpers.{
  AddressEntry, max_derive_count, checked_add_u32, or_message, branch_index, derive_from,
  derive_addresses,
}

checked_add_u32_iff :
    (start count end : ℕ)
    → (checked_add_u32 start count ≡ some end) ↔ ((start + count < 2 ^ 32) × (end ≡ start + count))
unfolding checked_add_u32
checked_add_u32_iff start count end = ground arith

or_message_iff {ℓ} :
    {A : Type ℓ} (r : CoreResult Prim.Native.String.String A) (a : A)
    → (or_message r ≡ ok a) ↔ (r ≡ success a)
or_message_iff (success b) a = ground arith
or_message_iff (failure msg) a = ground arith

module _ ⦃P : Primitives⦄ ⦃L : Library⦄ where
  -- The entries of `count` indices from `index` on, in order.
  abbrev pub Derived : P.SingleDescriptor → CoreNetwork → ℕ → ℕ → List AddressEntry → Type 0
  Derived branch network zero index [] = Unit
  Derived branch network zero index (e ∷ entries) = ⊥
  Derived branch network (suc count) index [] = ⊥
  Derived branch network (suc count) index (e ∷ entries) =
      (e.index ≡ index)
      × (L.derive_address branch index network ≡ success e.address)
      × Derived branch network count (index + 1) entries

  derive_from_iff :
      (branch : P.SingleDescriptor) (network : CoreNetwork) (count index : ℕ)
      (entries : List AddressEntry)
      → (derive_from branch network count index ≡ ok entries)
        ↔ Derived branch network count index entries
  unfolding derive_from
  derive_from_iff branch network zero index [] = ground arith
  derive_from_iff branch network zero index (e ∷ entries) = ground arith
  derive_from_iff branch network (suc count) index [] = (
    λ h.
        let (a, ae, h1) = >>=-eq-ok (or_message (L.derive_address branch index network)) _ h in
        let (es, ese, h2) = >>=-eq-ok (derive_from branch network count (index + 1)) _ h1 in cc h2,
    λ h. absurd h,
  )
  derive_from_iff branch network (suc count) index (e ∷ entries) = (
    λ h.
        let (a, ae, h1) = >>=-eq-ok (or_message (L.derive_address branch index network)) _ h in
        let (es, ese, h2) = >>=-eq-ok (derive_from branch network count (index + 1)) _ h1 in
        let same : es ≡ entries = ground arith in
        (
          ground arith,
          ground (arith, or_message_iff (L.derive_address branch index network) a),
          (derive_from_iff branch network count (index + 1) entries).0 (rw same at ese),
        ),
    λ (i, a, rest).
        rw (a, (derive_from_iff branch network count (index + 1) entries).1 rest, ← i) refl,
  )

  -- The branch that a descriptor text has for `change`.
  abbrev pub HasBranch : Text → Bool → P.SingleDescriptor → Type 0
  HasBranch descriptor change branch =
      (parsed : P.Descriptor) × (branches : List P.SingleDescriptor) × (L.parse_descriptor
          (trim descriptor)
        ≡ some parsed)
      × (L.into_single_descriptors parsed ≡ success branches)
      × (get_elem? branches (branch_index change) ≡ some branch)

  -- What a call that derives addresses asks for, and gets.
  abbrev pub IsDerivation : Text → Network → Bool → ℕ → ℕ → List AddressEntry → Type 0
  IsDerivation descriptor network change start count entries =
      (count ≤ 1000)
      × (start + count < 2 ^ 32)
      × ((branch : P.SingleDescriptor) × HasBranch descriptor change branch
          × Derived branch (to_core_network network) count start entries)

  module _ (descriptor : Text) (network : Network) (change : Bool) (start count : ℕ)
      (entries : List AddressEntry) where
    derive_addresses-IsDerivation :
        derive_addresses descriptor network change start count ≡ ok entries
        → IsDerivation descriptor network change start count entries
    unfolding derive_addresses
    derive_addresses-IsDerivation h =
        let (_, few, h1) = >>=-eq-ok (reject_if (ltb max_derive_count count) _) _ h in
        let (end, ee, h2) = >>=-eq-ok (or_err (checked_add_u32 start count) _) _ h1 in
        let (parsed, pe, h3) = >>=-eq-ok (or_err (L.parse_descriptor (trim descriptor)) _) _ h2 in
        let (branches, be, h4) = >>=-eq-ok (or_message (L.into_single_descriptors parsed)) _ h3 in
        let (branch, ge, h5) =
          >>=-eq-ok (or_err (get_elem? branches (branch_index change)) _) _ h4 in
        let (fits, last) = (checked_add_u32_iff start count end).0 (or_err-eq-ok _ _ ee) in
        let rounds : end - start ≡ count = omega arith in
        (
          ground (arith, reject_if-eq-ok _ _ few),
          fits,
          (
            branch,
            (
              parsed,
              branches,
              or_err-eq-ok _ _ pe,
              (or_message_iff _ branches).0 be,
              or_err-eq-ok _ _ ge,
            ),
            (derive_from_iff branch (to_core_network network) count start entries).0
                (rw rounds at h5),
          ),
        )

    IsDerivation-derive_addresses :
        IsDerivation descriptor network change start count entries
        → derive_addresses descriptor network change start count ≡ ok entries
    unfolding derive_addresses
    IsDerivation-derive_addresses (few, fits, (branch, (parsed, branches, pe, be, ge), d)) =
        let bound : ltb max_derive_count count ≡ false = ground arith in
        let rounds : start + count - start ≡ count = omega arith in
        rw
          (
            bound,
            (checked_add_u32_iff start count (start + count)).1 (fits, refl),
            pe,
            be,
            ge,
            rounds,
            (derive_from_iff branch (to_core_network network) count start entries).1 d,
          )
          refl

  -- Addresses are derived exactly when at most 1000 are asked for, the range of indices ends below
  -- 2^32, the descriptor parses and has the branch, and the branch has an address at each index. The
  -- result then has those indices, from `start` on and in order, each with its address.
  pub derive_addresses_iff :
      (descriptor : Text) (network : Network) (change : Bool) (start count : ℕ)
      (entries : List AddressEntry)
      → (derive_addresses descriptor network change start count ≡ ok entries) ↔ (
          (count ≤ 1000)
          × (start + count < 2 ^ 32)
          × ((branch : P.SingleDescriptor) × HasBranch descriptor change branch
              × Derived branch (to_core_network network) count start entries))
  derive_addresses_iff descriptor network change start count entries = (
    derive_addresses-IsDerivation descriptor network change start count entries,
    IsDerivation-derive_addresses descriptor network change start count entries,
  )

  Derived-length :
      (branch : P.SingleDescriptor) (network : CoreNetwork) (count index : ℕ)
      (entries : List AddressEntry)
      → Derived branch network count index entries
      → length entries ≡ count
  Derived-length branch network zero index [] d = refl
  Derived-length branch network zero index (e ∷ entries) d = elim d [ ]
  Derived-length branch network (suc count) index [] d = elim d [ ]
  Derived-length branch network (suc count) index (e ∷ entries) (i, a, rest) =
      ap suc (Derived-length branch network count (index + 1) entries rest)

  -- the entry `i` of a result
  abbrev pub EntryAt : P.SingleDescriptor → CoreNetwork → ℕ → Option AddressEntry → Type 0
  EntryAt branch network index none = ⊥
  EntryAt branch network index (some e) =
      (e.index ≡ index) × (L.derive_address branch index network ≡ success e.address)

  Derived-get_elem? :
      (branch : P.SingleDescriptor) (network : CoreNetwork) (count index i : ℕ)
      (entries : List AddressEntry)
      → Derived branch network count index entries
      → i < count
      → EntryAt branch network (index + i) (get_elem? entries i)
  Derived-get_elem? branch network zero index i [] d h = absurd (omega arith)
  Derived-get_elem? branch network zero index i (e ∷ entries) d h = elim d [ ]
  Derived-get_elem? branch network (suc count) index i [] d h = elim d [ ]
  Derived-get_elem? branch network (suc count) index zero (e ∷ entries) (n, a, rest) h =
      let here : index + 0 ≡ index = omega arith in rw here (n, a)
  Derived-get_elem? branch network (suc count) index (suc i) (e ∷ entries) (n, a, rest) h =
      let there : index + suc i ≡ index + 1 + i = omega arith in
      rw there (Derived-get_elem? branch network count (index + 1) i entries rest (omega arith))

  -- A result has as many entries as were asked for, at most 1000, and its entry `i` is the address of
  -- its branch at index `start + i`, which is below 2^32.
  pub derive_addresses_bounds :
      (descriptor : Text) (network : Network) (change : Bool) (start count i : ℕ)
      (entries : List AddressEntry)
      → derive_addresses descriptor network change start count ≡ ok entries
      → i < count
      → (length entries ≡ count)
        × (count ≤ 1000)
        × (start + i < 2 ^ 32)
        × ((branch : P.SingleDescriptor) × HasBranch descriptor change branch
            × EntryAt branch (to_core_network network) (start + i) (get_elem? entries i))
  derive_addresses_bounds descriptor network change start count i entries h inside =
      let (few, fits, (branch, has, d)) =
        (derive_addresses_iff descriptor network change start count entries).0 h in
      (
        Derived-length branch (to_core_network network) count start entries d,
        few,
        omega arith,
        (
          branch,
          has,
          Derived-get_elem? branch (to_core_network network) count start i entries d inside,
        ),
      )
