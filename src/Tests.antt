-- ===== src/Tests.antt =====
-- A small concrete core: every opaque type is the numbers, and the interpreters are the simplest
-- that go through a whole command. The examples of the library run on it.
pub mod Runs
pub mod Isolation
pub mod Units
pub mod Conversation
pub mod Commands
pub mod Handles
pub mod Helpers
pub mod Flows
pub mod Pairing
pub mod Registering
use bhwi_ffi.Prelude.{
  ◌+◌, ◌-◌, leb, ℕ, ◌*◌, Bool, true, false, Option, none, some, List, [], ◌∷◌, ◌++◌, nat_eq,
  if◌then◌else◌, eqb, length,
}
use bhwi_ffi.Text.{Bytes, Text}
use bhwi_ffi.Core.Primitives.{Primitives}
use bhwi_ffi.Core.Result.{CoreResult, success, failure}
use bhwi_ffi.Core.Bitcoin
use bhwi_ffi.Core.Bitcoin.{
  DescriptorPublicKey, Psbt, Input, Transaction, MultiXpubKey, main, hardened, unhardened_wildcard,
}
use bhwi_ffi.Core.Protocol
use bhwi_ffi.Core.Protocol.{Command, Response, Transmit, Error, to_device}
use bhwi_ffi.Core.Library.{Library}
use bhwi_ffi.Core.Device.{Device, NoiseConfigData}
use bhwi_ffi.Core.Family.{Family, Families, Stepped}

instance abbrev pub sample_primitives : Primitives
sample_primitives = record {
  Script = ℕ;
  script_eq = nat_eq;
  Witness = ℕ;
  witness_eq = nat_eq;
  PublicKey = ℕ;
  public_key_eq = nat_eq;
  LeafKey = ℕ;
  leaf_key_eq = nat_eq;
  EcdsaSignature = ℕ;
  ecdsa_signature_eq = nat_eq;
  TaprootSignature = ℕ;
  taproot_signature_eq = nat_eq;
  EcdsaSighashType = ℕ;
  ecdsa_sighash_type_eq = nat_eq;
  TapSighashType = ℕ;
  tap_sighash_type_eq = nat_eq;
  PsbtSighashType = ℕ;
  Txid = ℕ;
  Wtxid = ℕ;
  wtxid_eq = nat_eq;
  Fingerprint = ℕ;
  MessageSignature = ℕ;
  Descriptor = ℕ;
  CorePolicy = ℕ;
  SingleDescriptor = ℕ;
  HostPin = ℕ;
  HostPassphrase = ℕ;
  NoiseState = ℕ;
  Engine = ℕ;
  EncryptionKey = ℕ;
  ResponseDecoder = ℕ;
  OtherResponse = ℕ;
}

-- a transaction without outputs, and an input that key 5 has signed with signature 7
abbrev pub sample_tx : Transaction
sample_tx = record { input = []; output = [] }

abbrev pub unsigned_input : Input
unsigned_input = record {
  partial_sigs = [];
  tap_key_sig = none;
  tap_script_sigs = [];
  final_script_sig = none;
  final_script_witness = none;
  sighash_type = none;
  witness_utxo = none;
  non_witness_utxo = none;
  witness_script = none;
  redeem_script = none;
}

abbrev pub signed_input : Input
signed_input = record unsigned_input { partial_sigs = (5, 7) ∷ [] }

abbrev pub unsigned_psbt : Psbt
unsigned_psbt = record { unsigned_tx = sample_tx; inputs = unsigned_input ∷ [] }

abbrev pub answered_psbt : Psbt
answered_psbt = record { unsigned_tx = sample_tx; inputs = signed_input ∷ [] }

-- The account key of descriptor 1.
abbrev pub account_key : MultiXpubKey
account_key = record {
  origin = some (9, hardened 84 ∷ hardened 0 ∷ hardened 0 ∷ []);
  xkey = record { network = main; depth = 3; child_number = hardened 0; encoded = [] };
  derivation_paths = (Bitcoin.normal 0 ∷ []) ∷ (Bitcoin.normal 1 ∷ []) ∷ [];
  wildcard = unhardened_wildcard;
}

abbrev pub address_key : DescriptorPublicKey
address_key = Bitcoin.xpub (record {
  origin = some (9, hardened 84 ∷ hardened 0 ∷ hardened 0 ∷ []);
  xkey = record { network = main; depth = 3; child_number = hardened 0; encoded = [] };
  derivation_path = Bitcoin.normal 0 ∷ Bitcoin.normal 5 ∷ [];
  wildcard = Bitcoin.no_wildcard;
})

instance abbrev pub sample_library : Library
sample_library = record {
  usize_max = 65535;
  base64_decode = λ t. some t;
  base64_encode = λ b. b;
  psbt_deserialize = λ b. some unsigned_psbt;
  psbt_serialize = λ p. 1 ∷ [];
  compute_wtxid = λ t. 3;
  ecdsa_serialize = λ s. s ∷ [];
  ecdsa_sighash = λ s. 1;
  taproot_serialize = λ s. s ∷ [];
  taproot_sighash = λ s. 1;
  ecdsa_hash_ty = λ i. some 1;
  taproot_hash_ty = λ i. some 1;
  witness_items = λ w. [];
  instructions = λ s. [];
  is_p2wsh = λ s. false;
  is_p2wpkh = λ s. true;
  compact_signature = λ s. s ∷ [];
  show_txid = λ t. t ∷ [];
  show_fingerprint = λ f. f ∷ [];
  show_xpub = λ x. x.encoded;
  parse_xpub = λ t. none;
  parse_fingerprint = λ t. none;
  parse_derivation_path = λ t. some (hardened 84 ∷ hardened 0 ∷ hardened 0 ∷ []);
  parse_key = λ t. some address_key;
  parse_descriptor = λ t. some 1;
  show_descriptor = λ d. d ∷ [];
  is_bare = λ d. false;
  iter_pk = λ d. Bitcoin.multi_xpub account_key ∷ [];
  policy_from_descriptor = λ d. some d;
  into_single_descriptors = λ d. success (d ∷ d ∷ []);
  derive_address = λ d i n. success (d ∷ i ∷ []);
  address_from_script = λ s n. none;
  checked_add = λ a b. if leb (a + b) 1000 then some (a + b) else none;
  checked_sub = λ a b. if leb b a then some (a - b) else none;
  network_kind = λ n. main;
  host_pin = λ t. some (length t);
  extract_parts = λ p. none;
  policy_id = λ p. none;
}

instance abbrev pub sample_device : Device
sample_device = record {
  noise_default = record { app_static_privkey = none; device_static_pubkeys = [] };
  add_device_static_pubkey =
      λ d key. record d { device_static_pubkeys = d.device_static_pubkeys ++ key ∷ [] };
  noise_new = λ d. 0;
  noise_data = λ s. record { app_static_privkey = none; device_static_pubkeys = [] };
  engine_ready = λ e key. (key, none);
  host_passphrase = λ t. length t;
  byte_len = λ p. p;
  decoder_default = 0;
  decoder_push = λ d b. (d, success (some b));
}

abbrev pub hello : Transmit
hello = record { payload = 1 ∷ 2 ∷ []; encrypted = false; recipient = to_device }

-- An interpreter that sends a message, and another for each reply of two bytes; a reply of another
-- length ends with `response`, and an empty one is an error. A command is its own lowering.
abbrev pub sample_family : {C E : Type 0} → E → Response → Family C E
sample_family e response = record {
  Interpreter = ℕ;
  FamilyCommand = Command;
  lower = λ c. success c;
  start_step =
      λ i cell c. record { result = success hello; interpreter = 1; cell = cell; effect = e };
  exchange_step = λ i cell reply. record {
    result =
        if eqb (length reply) 0
        then failure Protocol.user_cancelled
        else (if eqb (length reply) 2 then success (some hello) else success none);
    interpreter = 2;
    cell = cell;
    effect = e;
  };
  finish = λ i cell. (success response, cell);
}

instance abbrev pub sample_families : Families
sample_families = record {
  bitbox = sample_family [] (Protocol.master_fingerprint 5);
  coldcard = sample_family tt (Protocol.encryption_key 6);
  jade = sample_family tt Protocol.task_done;
  ledger = sample_family tt Protocol.task_done;
  trezor = sample_family tt Protocol.task_done;
  keepkey = sample_family tt Protocol.task_done;
  specter = sample_family tt (Protocol.signed_psbt answered_psbt);
  bitbox_new = λ n. 0;
  coldcard_new = 0;
  jade_new = λ n. 0;
  ledger_new = 0;
  trezor_new = λ n p d. 0;
  keepkey_new = λ n p. 0;
  specter_new = λ n. 0;
  registered_policy = λ c. none;
  status_ok = λ w. eqb w 36864;
}
