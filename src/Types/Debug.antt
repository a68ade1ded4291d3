-- ===== src/Types/Debug.antt =====
-- bhwi-ffi/src/types.rs: the `Debug` instances that are written out, to redact secrets.
use bhwi_ffi.Prelude.{String, Option, none, some, List, [], ◌∷◌, false, ◌≡◌, ◌≢◌, ◌↔◌, refl, arith}
use bhwi_ffi.Text.{Text, Bytes}
use bhwi_ffi.Types.Command
use bhwi_ffi.Types.Command.{HwiCommand, WalletPolicy}
use bhwi_ffi.Types.Response.{WalletRegistration}
use bhwi_ffi.Types.Response
use bhwi_ffi.Network.{Network}

-- The value of a field that a formatter writes: a quoted `String`, `None`, or `Some` of a literal.
pub data Shown : Type 0 where
  quoted : Text → Shown
  absent : Shown
  present : String → Shown

-- A plain text, or a struct with its named fields.
pub data Written : Type 0 where
  plain : String → Written
  structure : String → List (String × Shown) → Written

-- `.as_ref().map(|_| "<redacted>")`
unfoldable show_secret : Option Bytes → Shown
show_secret none = absent
show_secret (some secret) = present "<redacted>"

-- `Debug for HwiCommand`
unfoldable show_command : HwiCommand → Written
show_command (Command.unlock network) = plain "Unlock"
show_command Command.get_version = plain "GetVersion"
show_command Command.prompt_pin = plain "PromptPin"
show_command (Command.send_pin positions) = plain "SendPin(<redacted>)"
show_command Command.get_master_fingerprint = plain "GetMasterFingerprint"
show_command (Command.get_xpub path display) = plain "GetXpub"
show_command (Command.display_address path display format) = plain "DisplayAddress"
show_command (Command.register_wallet name descriptor) = plain "RegisterWallet"
show_command (Command.display_descriptor_address index change display wallet) =
    plain "DisplayDescriptorAddress"
show_command (Command.display_multisig_address threshold sorted format keys) =
    plain "DisplayMultisigAddress"
show_command (Command.sign_message message path) = plain "SignMessage"
show_command (Command.sign_psbt psbt_base64 wallet_policy) = plain "SignPsbt"

-- `Debug for WalletPolicy`
unfoldable show_policy : WalletPolicy → Written
unfolding show_secret
show_policy wallet = structure "WalletPolicy" (
    ("name", quoted wallet.name)
    ∷ ("descriptor", quoted wallet.descriptor)
    ∷ ("ledger_hmac", show_secret wallet.ledger_hmac)
    ∷ [])

-- `Debug for WalletRegistration`
unfoldable show_registration : WalletRegistration → Written
unfolding show_secret
show_registration (Response.complete hmac) = structure "Complete" (("hmac", show_secret hmac) ∷ [])
show_registration Response.pending_user_confirmation = plain "PendingUserConfirmation"

-- a command with its payload replaced
unfoldable erase : HwiCommand → HwiCommand
erase (Command.unlock network) = Command.unlock Network.bitcoin
erase (Command.send_pin positions) = Command.send_pin []
erase (Command.get_xpub path display) = Command.get_xpub [] false
erase (Command.display_address path display format) = Command.display_address [] false none
erase (Command.register_wallet name descriptor) = Command.register_wallet [] []
erase (Command.display_descriptor_address index change display wallet) =
    Command.display_descriptor_address 0 false false
      (record { name = []; descriptor = []; ledger_hmac = none })
erase (Command.display_multisig_address threshold sorted format keys) =
    Command.display_multisig_address 0 false Command.legacy []
erase (Command.sign_message message path) = Command.sign_message [] []
erase (Command.sign_psbt psbt_base64 wallet_policy) = Command.sign_psbt [] none
erase command = command

-- The debug text of a command depends on its variant alone, and on no part of its payload.
show_command-erase : (command : HwiCommand) → show_command command ≡ show_command (erase command)
unfolding show_command erase
show_command-erase Command.get_version = refl
show_command-erase command = ground arith

abbrev is_given : Option Bytes → Option Bytes
is_given none = none
is_given (some secret) = some []

show_secret_iff : (a b : Option Bytes) → (show_secret a ≡ show_secret b) ↔ (is_given a ≡ is_given b)
unfolding show_secret
show_secret_iff a b = ground arith

-- The debug texts of two policies agree exactly when their names and descriptors do and both have an
-- HMAC or neither has: of the HMAC the text says only whether there is one.
show_policy_iff :
    (a b : WalletPolicy)
    → (show_policy a ≡ show_policy b) ↔ (
        (a.name ≡ b.name)
        × (a.descriptor ≡ b.descriptor)
        × (is_given a.ledger_hmac ≡ is_given b.ledger_hmac))
unfolding show_policy
show_policy_iff a b = ground (arith, show_secret_iff a.ledger_hmac b.ledger_hmac)

-- The debug text of a completed registration says of the HMAC only whether there is one, and is not
-- that of a pending one.
show_registration_iff :
    (a b : Option Bytes)
    → ((show_registration (Response.complete a) ≡ show_registration (Response.complete b))
        ↔ (is_given a ≡ is_given b))
      × (show_registration (Response.complete a)
          ≢ show_registration Response.pending_user_confirmation)
unfolding show_registration
show_registration_iff a b = ground (arith, show_secret_iff a b)
