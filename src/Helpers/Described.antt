-- ===== src/Helpers/Described.antt =====
-- What descriptor the arguments of `build_singlesig_descriptor` in bhwi-ffi/src/helpers.rs describe,
-- written out on its own.
use mathlib.Core.List.{append_assoc}
use bhwi_ffi.Prelude.{String, some, [], ◌∷◌, ◌++◌, ◌≡◌, ap}
use bhwi_ffi.Text.{Text, chars, trim}
use bhwi_ffi.Network.{
  Network, to_core_network, AddressFormat, legacy, nested_segwit, native_segwit, taproot,
}
use bhwi_ffi.Core.Primitives.{Primitives}
use bhwi_ffi.Core.Bitcoin.{Xpub}
use bhwi_ffi.Core.Library.{Library}
use bhwi_ffi.Helpers.{key_text, wrap_key}
use bhwi_ffi.Helpers.Steps.{IsOrigin}

-- what stands before the key expression of an address format, and behind it
abbrev opening : AddressFormat → String
opening legacy = "pkh("
opening nested_segwit = "sh(wpkh("
opening native_segwit = "wpkh("
opening taproot = "tr("

abbrev closing : AddressFormat → String
closing nested_segwit = "))"
closing _ = ")"

-- the steps behind the fingerprint
abbrev origin_steps : Text → Text
origin_steps [] = []
origin_steps (c ∷ s) = b'/' ∷ c ∷ s

-- A descriptor of one key with its origin, and its receive and change branches.
abbrev pub descriptor_text : AddressFormat → Text → Text → Text → Text
descriptor_text kind fingerprint steps xpub =
    chars (opening kind)
    ++ (chars "["
        ++ (fingerprint
            ++ (origin_steps steps
                ++ (chars "]" ++ (xpub ++ (chars "/<0;1>/*" ++ chars (closing kind)))))))

module _ ⦃P : Primitives⦄ ⦃L : Library⦄ where
  key_text-steps :
      (fingerprint steps xpub rest : Text)
      → key_text fingerprint steps xpub ++ rest
        ≡ chars "["
          ++ (fingerprint
              ++ (origin_steps steps ++ (chars "]" ++ (xpub ++ (chars "/<0;1>/*" ++ rest)))))
  unfolding key_text
  key_text-steps fingerprint [] xpub rest = simp (append_assoc)
  key_text-steps fingerprint (c ∷ s) xpub rest = simp (append_assoc)

  pub wrap_key-descriptor_text :
      (kind : AddressFormat) (fingerprint steps xpub : Text)
      → wrap_key kind (key_text fingerprint steps xpub)
        ≡ descriptor_text kind fingerprint steps xpub
  unfolding wrap_key
  wrap_key-descriptor_text legacy fingerprint steps xpub =
      ap (λ t. chars "pkh(" ++ t) (key_text-steps fingerprint steps xpub (chars ")"))
  wrap_key-descriptor_text nested_segwit fingerprint steps xpub =
      ap (λ t. chars "sh(wpkh(" ++ t) (key_text-steps fingerprint steps xpub (chars "))"))
  wrap_key-descriptor_text native_segwit fingerprint steps xpub =
      ap (λ t. chars "wpkh(" ++ t) (key_text-steps fingerprint steps xpub (chars ")"))
  wrap_key-descriptor_text taproot fingerprint steps xpub =
      ap (λ t. chars "tr(" ++ t) (key_text-steps fingerprint steps xpub (chars ")"))

  -- The descriptor that the arguments describe, which the core parses: the key of the text `xpub`,
  -- of the network's kind, with the fingerprint and the steps of the origin path, in the frame of the
  -- address format.
  pub record Describes (xpub fingerprint origin_path : Text) (kind : AddressFormat)
      (network : Network) (d : P.Descriptor) : Type 0 where
    pub key : Xpub
    pub master : P.Fingerprint
    pub steps : Text
    pub is_key : L.parse_xpub (trim xpub) ≡ some key
    pub of_network : key.network ≡ L.network_kind (to_core_network network)
    pub is_master : L.parse_fingerprint (trim fingerprint) ≡ some master
    pub has_steps : IsOrigin origin_path steps
    pub parsed :
        L.parse_descriptor
          (descriptor_text kind (L.show_fingerprint master) steps (L.show_xpub key))
        ≡ some d
