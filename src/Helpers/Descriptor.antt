-- ===== src/Helpers/Descriptor.antt =====
-- bhwi-ffi/src/helpers.rs: what `build_singlesig_descriptor` returns, and what `derive_addresses`
-- does with it.
use bhwi_ffi.Prelude.{
  ℕ, ◌+◌, ◌^◌, ◌≤◌, ◌<◌, Bool, false, some, List, ◌++◌, get_elem?, ◌≡◌, ◌↔◌, refl, ◌!=◌, beq→eq,
  beq_refl, Eq, Bool-cases, inl, inr,
}
use bhwi_ffi.Text.{Text, chars, is_whitespace, trim}
use bhwi_ffi.Error.{ok, or_err, reject_if, >>=-eq-ok, or_err-eq-ok, reject_if-eq-ok}
use bhwi_ffi.Network.{Network, to_core_network, AddressFormat}
use bhwi_ffi.Core.Primitives.{Primitives}
use bhwi_ffi.Core.Result.{success}
use bhwi_ffi.Core.Bitcoin.{network_kind_eq}
use bhwi_ffi.Core.Library.{Library, DescriptorLaws}
use bhwi_ffi.Helpers.{
  AddressEntry, normalize_origin, key_text, wrap_key, branch_index, build_singlesig_descriptor,
  derive_addresses,
}
use bhwi_ffi.Helpers.Described.{Describes, wrap_key-descriptor_text}
use bhwi_ffi.Helpers.Steps.{normalize_origin_iff}
use bhwi_ffi.Helpers.Origin.{starts_by, is_m, normalize_origin-prefix}
use bhwi_ffi.Helpers.Addresses.{Derived, derive_addresses_iff}

differs_iff {ℓ} : {A : Type ℓ} ⦃e : Eq A⦄ (a b : A) → ((a != b) ≡ false) ↔ (a ≡ b)
differs_iff ⦃e⦄ a b = elim (Bool-cases (e.beq a b)) [
  | inl t ↦ rw t (λ _. beq→eq a b t, λ _. refl)
  | inr f ↦ rw f (λ h. cc h, λ same. cc (f, same, beq_refl a))
]

module _ ⦃P : Primitives⦄ ⦃L : Library⦄ where
  -- A path that starts with neither white space nor an `m` gives the same descriptor, or the same
  -- error, with `m/` in front of it.
  pub build_singlesig_descriptor-prefix :
      (xpub fingerprint path : Text) (kind : AddressFormat) (network : Network)
      → starts_by is_whitespace path ≡ false
      → starts_by is_m path ≡ false
      → build_singlesig_descriptor xpub fingerprint (chars "m/" ++ path) kind network
        ≡ build_singlesig_descriptor xpub fingerprint path kind network
  unfolding build_singlesig_descriptor
  build_singlesig_descriptor-prefix xpub fingerprint path kind network visible plain =
      rw (normalize_origin-prefix path visible plain) refl

  build_singlesig_descriptor_iff :
      (xpub fingerprint origin_path : Text) (kind : AddressFormat) (network : Network) (text : Text)
      → (build_singlesig_descriptor xpub fingerprint origin_path kind network ≡ ok text) ↔ (
          (d : P.Descriptor) × Describes xpub fingerprint origin_path kind network d
          × (text ≡ L.show_descriptor d))
  unfolding build_singlesig_descriptor
  build_singlesig_descriptor_iff xpub fingerprint origin_path kind network text = (
    λ h.
        let (key, ke, h1) = >>=-eq-ok (or_err (L.parse_xpub (trim xpub)) _) _ h in
        let differs = key.network != L.network_kind (to_core_network network) in
        let (_, same, h2) = >>=-eq-ok (reject_if differs _) _ h1 in
        let (f, fe, h3) = >>=-eq-ok (or_err (L.parse_fingerprint (trim fingerprint)) _) _ h2 in
        let steps = normalize_origin origin_path in
        let expression = key_text (L.show_fingerprint f) steps (L.show_xpub key) in
        let (d, de, h4) =
          >>=-eq-ok (or_err (L.parse_descriptor (wrap_key kind expression)) _) _ h3 in
        let framed = wrap_key-descriptor_text kind (L.show_fingerprint f) steps (L.show_xpub key) in
        (
          d,
          record {
            key = key;
            master = f;
            steps = steps;
            is_key = or_err-eq-ok _ _ ke;
            of_network = (differs_iff key.network _).0 (reject_if-eq-ok _ _ same);
            is_master = or_err-eq-ok _ _ fe;
            has_steps = (normalize_origin_iff origin_path steps).1 refl;
            parsed = rw framed at (or_err-eq-ok _ _ de);
          },
          cc h4,
        ),
    λ (d, r, shown).
        let same = (differs_iff r.key.network _).1 r.of_network in
        let origin = (normalize_origin_iff origin_path r.steps).0 r.has_steps in
        let framed =
          wrap_key-descriptor_text kind (L.show_fingerprint r.master) r.steps (L.show_xpub r.key) in
        rw (r.is_key, same, r.is_master, origin, framed, r.parsed, shown) refl,
  )

  -- `build_singlesig_descriptor` succeeds exactly with the text of a descriptor that its arguments
  -- describe: of the key that the first one parses to, which is of the network's kind, behind the
  -- fingerprint and the steps of the origin path without the `m` and the slashes around them, with its
  -- receive and change branches, in the script of the address format. And `derive_addresses` on the
  -- text of any descriptor, given that descriptors survive printing and parsing, derives from that
  -- very descriptor: it succeeds exactly when at most 1000 addresses are asked for, below index 2^32,
  -- of a branch of it that has them.
  pub build-derive_addresses :
      DescriptorLaws L
      → (xpub fingerprint origin_path : Text) (kind : AddressFormat) (network : Network)
        (text : Text) (change : Bool) (start count : ℕ) (entries : List AddressEntry)
      → ((build_singlesig_descriptor xpub fingerprint origin_path kind network ≡ ok text) ↔ (
          (d : P.Descriptor) × Describes xpub fingerprint origin_path kind network d
          × (text ≡ L.show_descriptor d)))
        × ((d : P.Descriptor)
            → text ≡ L.show_descriptor d
            → (derive_addresses text network change start count ≡ ok entries) ↔ (
                (count ≤ 1000)
                × (start + count < 2 ^ 32)
                × ((branches : List P.SingleDescriptor) × (branch : P.SingleDescriptor)
                    × (L.into_single_descriptors d ≡ success branches)
                    × (get_elem? branches (branch_index change) ≡ some branch)
                    × Derived branch (to_core_network network) count start entries)))
  build-derive_addresses laws xpub fingerprint origin_path kind network text change start count
        entries =
      (
        build_singlesig_descriptor_iff xpub fingerprint origin_path kind network text,
        λ d shown.
            let parses : L.parse_descriptor (trim text) ≡ some d =
              rw (shown, laws.trim_show d) (laws.parse_show d) in
            let derived = derive_addresses_iff text network change start count entries in
            (
              λ e.
                  let (few, fits, (branch, (p, branches, pe, be, ge), all)) = derived.0 e in
                  let same : p ≡ d = cc (pe, parses) in
                  (few, fits, (branches, branch, rw same at be, ge, all)),
              λ (few, fits, (branches, branch, be, ge, all)).
                  derived.1 (few, fits, (branch, (d, branches, parses, be, ge), all)),
            ),
      )
