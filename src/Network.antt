-- ===== src/Network.antt =====
-- bhwi-ffi/src/lib.rs: `Network` and `AddressFormat`, mirrored from the bitcoin crate.
use bhwi_ffi.Prelude.{◌≡◌, refl}
use bhwi_ffi.Core.Bitcoin.{CoreNetwork, AddressType, p2pkh, p2sh, p2wpkh, p2tr}

pub data Network : Type 0 where
  bitcoin testnet signet regtest : Network

-- `From<Network> for bhwi::bitcoin::Network`
unfoldable pub to_core_network : Network → CoreNetwork
to_core_network bitcoin = CoreNetwork.bitcoin
to_core_network testnet = CoreNetwork.testnet
to_core_network signet = CoreNetwork.signet
to_core_network regtest = CoreNetwork.regtest

-- `From<bhwi::bitcoin::Network> for Network`
unfoldable pub from_core_network : CoreNetwork → Network
from_core_network CoreNetwork.bitcoin = bitcoin
from_core_network CoreNetwork.signet = signet
from_core_network CoreNetwork.regtest = regtest
from_core_network _ = testnet

pub data AddressFormat : Type 0 where
  legacy nested_segwit native_segwit taproot : AddressFormat

-- `From<AddressFormat> for bhwi::bitcoin::AddressType`
unfoldable pub to_address_type : AddressFormat → AddressType
to_address_type legacy = p2pkh
to_address_type nested_segwit = p2sh
to_address_type native_segwit = p2wpkh
to_address_type taproot = p2tr

-- A network that the host names comes back from the core as itself, and every network that the
-- binding has no name for comes back as a test network, never as the main one.
pub from-to_core_network :
    ((n : Network) → from_core_network (to_core_network n) ≡ n)
    × ((c : CoreNetwork) → from_core_network c ≡ bitcoin → c ≡ CoreNetwork.bitcoin)
unfolding from_core_network to_core_network
from-to_core_network = (there, only)
  where
    there : (n : Network) → from_core_network (to_core_network n) ≡ n
    there bitcoin = refl
    there testnet = refl
    there signet = refl
    there regtest = refl

    only : (c : CoreNetwork) → from_core_network c ≡ bitcoin → c ≡ CoreNetwork.bitcoin
    only CoreNetwork.bitcoin h = refl
    only CoreNetwork.testnet h = cc
    only CoreNetwork.signet h = cc
    only CoreNetwork.regtest h = cc
    only (CoreNetwork.other_network k) h = cc
