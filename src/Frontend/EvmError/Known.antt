-- ===== src/Frontend/EvmError/Known.antt =====
-- frontend/lib/bridge/evm/error.ts: the signatures of the errors that it knows.
use lunarys_bridge.Prelude.{List, [], ◌∷◌}
use lunarys_bridge.Prelude.Text.{Text, lit}

-- The custom errors of NewRelayer, of OpenZeppelin and of the FHE library.
unfoldable pub new_relayer_error_sigs : List Text
new_relayer_error_sigs =
    lit "OnlyRelayer()"
    ∷ lit "NotAuthorizedNode()"
    ∷ lit "ZeroAddress()"
    ∷ lit "ZeroAmount()"
    ∷ lit "InvalidFee()"
    ∷ lit "RequestAlreadyFinalized()"
    ∷ lit "RequestNotFound()"
    ∷ lit "ActiveClaim()"
    ∷ lit "NotSolver()"
    ∷ lit "ClaimExpired()"
    ∷ lit "NoClaim()"
    ∷ lit "BondTooLow()"
    ∷ []

unfoldable pub oz_error_sigs : List Text
oz_error_sigs =
    lit "ERC20InsufficientAllowance(address,uint256,uint256)"
    ∷ lit "ERC20InsufficientBalance(address,uint256,uint256)"
    ∷ lit "ERC20InvalidSender(address)"
    ∷ lit "ERC20InvalidReceiver(address)"
    ∷ lit "ERC20InvalidApprover(address)"
    ∷ lit "ERC20InvalidSpender(address)"
    ∷ lit "SafeTransferFailed()"
    ∷ lit "AddressInsufficientBalance(address)"
    ∷ lit "AddressEmptyCode(address)"
    ∷ lit "FailedInnerCall()"
    ∷ []

unfoldable pub fhe_error_sigs : List Text
fhe_error_sigs =
    lit "InputLengthAbove64Bytes(uint256)"
    ∷ lit "InputLengthAbove128Bytes(uint256)"
    ∷ lit "InputLengthAbove256Bytes(uint256)"
    ∷ lit "HandlesAlreadySavedForRequestID()"
    ∷ lit "NoHandleFoundForRequestID()"
    ∷ lit "InvalidKMSSignatures()"
    ∷ lit "UnsupportedHandleType()"
    ∷ []
