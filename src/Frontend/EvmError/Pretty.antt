-- ===== src/Frontend/EvmError/Pretty.antt =====
-- frontend/lib/bridge/evm/error.ts: what the page says of a decoded error.
use lunarys_bridge.Prelude.{
  zero, Bool, true, false, not, Option, none, some, List, [], ◌∷◌, ◌++◌, if◌then◌else◌,
}
use lunarys_bridge.Prelude.Int.{pos}
use lunarys_bridge.Prelude.Text.{Text, lit, text_eq, is_empty}
use lunarys_bridge.Prelude.Numeral.{to_text}
use lunarys_bridge.Frontend.EvmError.Decode.{
  Kind, Arg, DecodedEvmError, Dictionary, lookup, revert, panic, word, int,
}

abbrev arg_text : Arg → Text
arg_text (word s) = s
arg_text (int z) = to_text z

abbrev is_truthy : Arg → Bool
is_truthy (word s) = not (is_empty s)
is_truthy (int (pos zero)) = false
is_truthy (int z) = true

-- The texts of two errors that name an account and two amounts, and those without them.
unfoldable pub balance_message : List Arg → Text
balance_message (from ∷ balance ∷ needed ∷ rest) =
    if is_truthy from
    then lit "Saldo insuficiente: "
      ++ arg_text from
      ++ lit " tiene "
      ++ arg_text balance
      ++ lit " y se requieren "
      ++ arg_text needed
      ++ lit " (en unidades del token)."
    else lit "Saldo insuficiente para transferir."
balance_message few = lit "Saldo insuficiente para transferir."

unfoldable pub allowance_message : List Arg → Text
allowance_message (spender ∷ current ∷ needed ∷ rest) =
    if is_truthy spender
    then lit "Allowance insuficiente para "
      ++ arg_text spender
      ++ lit ": actual "
      ++ arg_text current
      ++ lit ", requerido "
      ++ arg_text needed
      ++ lit " (en unidades del token)."
    else lit "Allowance insuficiente."
allowance_message few = lit "Allowance insuficiente."

-- The texts of the cases that need no argument.
unfoldable pub plain_messages : Dictionary
plain_messages =
    (lit "OnlyRelayer", lit "Solo el relayer puede ejecutar esta acción.")
    ∷ (lit "NotAuthorizedNode", lit "Nodo no autorizado para reclamar.")
    ∷ (lit "ZeroAddress", lit "Dirección cero no permitida.")
    ∷ (lit "ZeroAmount", lit "La cantidad debe ser mayor que cero.")
    ∷ (lit "InvalidFee", lit "Fee inválida (fuera de límites configurados).")
    ∷ (lit "RequestAlreadyFinalized", lit "La solicitud ya fue finalizada.")
    ∷ (lit "RequestNotFound", lit "Solicitud de bridge no encontrada.")
    ∷ (lit "ActiveClaim", lit "La solicitud tiene un claim activo.")
    ∷ (lit "NotSolver", lit "Solo el solver actual puede operar.")
    ∷ (lit "ClaimExpired", lit "El claim expiró.")
    ∷ (lit "NoClaim", lit "La solicitud no tiene claim.")
    ∷ (lit "BondTooLow", lit "Bond en ETH insuficiente.")
    ∷ (lit "ERC20InvalidSender", lit "Remitente ERC20 inválido.")
    ∷ (lit "ERC20InvalidReceiver", lit "Receptor ERC20 inválido.")
    ∷ (lit "ERC20InvalidApprover", lit "Aprobador ERC20 inválido.")
    ∷ (lit "ERC20InvalidSpender", lit "Spender ERC20 inválido.")
    ∷ (lit "SafeTransferFailed", lit "Falló el safeTransfer (token no cumple ERC20 o revertió).")
    ∷ (lit "AddressEmptyCode", lit "La dirección de destino no tiene código (no es contrato).")
    ∷ (
      lit "AddressInsufficientBalance",
      lit "La dirección no tiene balance suficiente para la llamada.",
    )
    ∷ (lit "FailedInnerCall", lit "Falló una llamada interna (low-level call).")
    ∷ (lit "InputLengthAbove64Bytes", lit "Input demasiado grande (> 64 bytes).")
    ∷ (lit "InputLengthAbove128Bytes", lit "Input demasiado grande (> 128 bytes).")
    ∷ (lit "InputLengthAbove256Bytes", lit "Input demasiado grande (> 256 bytes).")
    ∷ (lit "HandlesAlreadySavedForRequestID", lit "Ya existen handles guardados para ese request.")
    ∷ (lit "NoHandleFoundForRequestID", lit "No se encontró handle para el request.")
    ∷ (lit "InvalidKMSSignatures", lit "Firmas KMS inválidas.")
    ∷ (lit "UnsupportedHandleType", lit "Tipo de handle no soportado.")
    ∷ []

abbrev args_or_none : Option (List Arg) → List Arg
args_or_none none = []
args_or_none (some args) = args

-- The `switch` on the name.
unfoldable pub specific_message : Text → Option (List Arg) → Option Text
specific_message name args =
    if text_eq name (lit "ERC20InsufficientBalance")
    then some (balance_message (args_or_none args))
    else if text_eq name (lit "ERC20InsufficientAllowance")
    then some (allowance_message (args_or_none args))
    else lookup name plain_messages

abbrev message_for : Option Text → Option (List Arg) → Option Text
message_for none args = none
message_for (some name) args = specific_message name args

abbrev or_readable : Option Text → Text → Text
or_readable none readable = readable
or_readable (some s) readable = s

unfoldable pub pretty_by_kind : Kind → Option Text → DecodedEvmError → Text
pretty_by_kind revert (some reason) d =
    if is_empty reason then or_readable (message_for d.name d.args) d.readable else reason
pretty_by_kind panic reason d = d.readable
pretty_by_kind kind reason d = or_readable (message_for d.name d.args) d.readable

unfoldable pub pretty_bridge_error : Option DecodedEvmError → Text
pretty_bridge_error none = lit "Transacción revertida"
pretty_bridge_error (some d) = pretty_by_kind d.kind d.reason d
