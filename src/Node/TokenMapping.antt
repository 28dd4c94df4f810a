-- ===== src/Node/TokenMapping.antt =====
-- node/src/common/token-mapping.service.ts: the node's own table of tokens and change of units.
pub mod Agreement
use lunarys_bridge.Prelude.{
  ℕ, ◌^◌, ◌==◌, Bool, true, false, ◌||◌, Option, none, some, List, [], ◌∷◌, find?, if◌then◌else◌,
}
use lunarys_bridge.Prelude.Int.{ℤ, pos, pos_part, neg_part, sub_ℕ, scale, tdiv, ltb_ℤ}
use lunarys_bridge.Prelude.Text.{Text, lit, text_eq, is_empty, to_lower}
use lunarys_bridge.Prelude.Numeral.{trim}
use lunarys_bridge.Prelude.Effect.{Result, ok, thrown, plain}

pub record Decimals : Type 0 where
  pub evm : ℕ
  pub solana : ℕ

pub record TokenMapping : Type 0 where
  pub evm_address : Text
  pub solana_address : Text
  pub decimals : Decimals

-- The values of NodeConfig that the service reads; the decimals are finite numbers.
pub record TokenConfig : Type 0 where
  pub fhevm_chain_id : ℕ
  pub eth_usdc_address : Text
  pub sol_usdc_address : Text
  pub token_decimals_evm : ℕ
  pub token_decimals_sol : ℕ

-- `this.table`: the chain that has a list, and its list.
pub record Table : Type 0 where
  pub chain_id : ℕ
  pub mappings : List TokenMapping

-- `onModuleInit`
unfoldable pub on_module_init : TokenConfig → Result Table
on_module_init cfg =
    let evm = to_lower (trim cfg.eth_usdc_address) in
    let solana = trim cfg.sol_usdc_address in
    if is_empty evm || is_empty solana
    then thrown (record {
      kind = plain;
      message = lit "Invalid token mapping in NodeConfig (addresses are empty)";
    })
    else ok (record {
      chain_id = cfg.fhevm_chain_id;
      mappings =
          record {
            evm_address = evm;
            solana_address = solana;
            decimals = record { evm = cfg.token_decimals_evm; solana = cfg.token_decimals_sol };
          }
          ∷ [];
    })

-- `list`
unfoldable pub list : Table → ℕ → List TokenMapping
list table chain_id = if table.chain_id == chain_id then table.mappings else []

unfoldable pub get_token_mapping : Table → Text → ℕ → Option TokenMapping
get_token_mapping table evm_address chain_id =
    if is_empty evm_address
    then none
    else find? (λ m. text_eq m.evm_address (to_lower evm_address)) (list table chain_id)

-- `this.tokens.getAll(this.chainId).find(m => m.solanaAddress === mint)`
unfoldable pub find_by_mint : Table → Text → ℕ → Option TokenMapping
find_by_mint table mint chain_id = find? (λ m. text_eq m.solana_address mint) (list table chain_id)

unfoldable pub get_solana_token_address : Table → Text → ℕ → Option Text
get_solana_token_address table evm_address chain_id =
    elim (get_token_mapping table evm_address chain_id) [
      | none ↦ none
      | some m ↦ some m.solana_address
    ]

unfoldable pub get_evm_token_address : Table → Text → ℕ → Option Text
get_evm_token_address table mint chain_id = elim (find_by_mint table mint chain_id) [
  | none ↦ none
  | some m ↦ some m.evm_address
]

-- `if (diff > 0) … ; if (diff < 0) … ; return amount;`
unfoldable pub convert : ℤ → ℤ → ℤ
convert amount diff =
    if ltb_ℤ (pos 0) diff
    then scale amount (10 ^ pos_part diff)
    else if ltb_ℤ diff (pos 0)
    then tdiv amount (10 ^ neg_part diff)
    else amount

unfoldable pub convert_evm_to_sol : ℤ → TokenMapping → ℤ
convert_evm_to_sol amount m = convert amount (sub_ℕ m.decimals.solana m.decimals.evm)

unfoldable pub convert_sol_to_evm : ℤ → TokenMapping → ℤ
convert_sol_to_evm amount m = convert amount (sub_ℕ m.decimals.evm m.decimals.solana)

unfoldable pub is_native_token : Text → Bool
is_native_token address =
    text_eq (to_lower address) (lit "0x0000000000000000000000000000000000000000")
    || text_eq (to_lower address) (lit "0xeeeeeeeeeeeeeeeeeeeeeeeeeeeeeeeeeeeeeeee")
