-- ===== src/Node/Configuration.antt =====
-- node/src/config/configuration.ts: the node's configuration, read from the environment.
pub mod Complete
use lunarys_bridge.Prelude.{
  ℕ, ltb, ◌||◌, Option, none, some, List, [], ◌∷◌, ◌++◌, length, if◌then◌else◌,
}
use lunarys_bridge.Prelude.Int.{ℤ, pos}
use lunarys_bridge.Prelude.Text.{Text, lit, is_empty, starts_with}
use lunarys_bridge.Prelude.Numeral.{big_int, trim}
use lunarys_bridge.Prelude.Effect.{Result, ok, thrown, plain}

-- `process.env`
abbrev pub Env : Type 0
Env = Text → Option Text

pub record NodeConfig : Type 0 where
  pub ethereum_rpc_url : Text
  pub ethereum_private_key : Text
  pub fhevm_chain_id : ℤ
  pub new_relayer_address : Option Text
  pub solana_rpc_url : Text
  pub solana_private_key : Text
  pub solana_program_id : Text
  pub solana_min_solver_bond_lamports : ℤ
  pub solana_sign_seed : Text
  pub bond_amount : Text
  pub poll_interval : ℤ
  pub fhevm_gateway_url : Text
  pub fhevm_acl_address : Text
  pub fhevm_kms_verifier_address : Text
  pub relayer_api_url : Text
  pub test_solana_destination : Text
  pub test_evm_destination : Text
  pub eth_usdc_address : Text
  pub sol_usdc_address : Text
  pub token_decimals_evm : ℤ
  pub token_decimals_sol : ℤ
  pub arcium_program_id : Text
  pub arcium_mxe_program_id : Text
  pub arcium_comp_def_reseal_pda : Text
  pub arcium_comp_def_plan_payout_pda : Text
  pub arcium_cluster_pda : Text
  pub arcium_fee_pool : Text
  pub arcium_clock : Text
  pub arcium_mxe_x25519_public_key : Text
  pub solver_x25519_secret : Text

-- `s ?? d`
abbrev pub or_default : Option Text → Text → Text
or_default none d = d
or_default (some s) d = s

abbrev finite_or : Option ℤ → ℤ → ℤ
finite_or none d = d
finite_or (some n) d = n

-- `num`, on texts of integers; a fraction or an exponent is outside the model and counts as not
-- finite.
unfoldable pub num : Option Text → ℤ → ℤ
num none d = d
num (some s) d = finite_or (big_int s) d

-- `0x` is put in front where it is missing.
unfoldable pub with_0x : Text → Text
with_0x key = if starts_with (b'0' ∷ b'x' ∷ []) key then key else b'0' ∷ b'x' ∷ key

unfoldable pub read_config : Env → NodeConfig
read_config env = record {
  ethereum_rpc_url = or_default (env (lit "ETHEREUM_RPC_URL")) [];
  ethereum_private_key = with_0x (or_default (env (lit "ETHEREUM_PRIVATE_KEY")) []);
  fhevm_chain_id = num (env (lit "FHEVM_CHAIN_ID")) (pos 11155111);
  new_relayer_address = env (lit "NEW_RELAYER_ADDRESS");
  solana_rpc_url = or_default (env (lit "SOLANA_RPC_URL")) [];
  solana_private_key = or_default (env (lit "SOLANA_PRIVATE_KEY")) [];
  solana_program_id = or_default (env (lit "SOLANA_PROGRAM_ID")) [];
  solana_min_solver_bond_lamports = num (env (lit "SOLANA_MIN_SOLVER_BOND_LAMPORTS")) (pos 1000000);
  solana_sign_seed = or_default (env (lit "SOLANA_SIGN_SEED")) (lit "SignerAccount");
  bond_amount = or_default (env (lit "BOND_AMOUNT")) (lit "0.03");
  poll_interval = num (env (lit "POLL_INTERVAL")) (pos 12000);
  fhevm_gateway_url =
      or_default (env (lit "FHEVM_GATEWAY_URL")) (lit "https://gateway.sepolia.zama.ai");
  fhevm_acl_address = or_default (env (lit "FHEVM_ACL_ADDRESS")) [];
  fhevm_kms_verifier_address = or_default (env (lit "FHEVM_KMS_VERIFIER_ADDRESS")) [];
  relayer_api_url = or_default (env (lit "RELAYER_API_URL")) [];
  test_solana_destination = or_default (env (lit "TEST_SOLANA_DESTINATION")) [];
  test_evm_destination = or_default (env (lit "TEST_EVM_DESTINATION")) [];
  eth_usdc_address = trim (or_default (env (lit "TOKEN_USDC")) []);
  sol_usdc_address = trim (or_default (env (lit "TOKEN_SOL")) []);
  token_decimals_evm = num (env (lit "TOKEN_DECIMALS_EVM")) (pos 6);
  token_decimals_sol = num (env (lit "TOKEN_DECIMALS_SOL")) (pos 6);
  arcium_program_id = or_default (env (lit "ARCIUM_PROGRAM_ID")) [];
  arcium_mxe_program_id = or_default (env (lit "ARCIUM_MXE_PROGRAM_ID")) [];
  arcium_comp_def_reseal_pda = or_default (env (lit "ARCIUM_COMPDEF_RESEAL_PDA")) [];
  arcium_comp_def_plan_payout_pda = or_default (env (lit "ARCIUM_COMPDEF_PLAN_PAYOUT_PDA")) [];
  arcium_cluster_pda = or_default (env (lit "ARCIUM_CLUSTER_PDA")) [];
  arcium_fee_pool = or_default (env (lit "ARCIUM_FEE_POOL")) [];
  arcium_clock = or_default (env (lit "ARCIUM_CLOCK")) [];
  arcium_mxe_x25519_public_key = or_default (env (lit "ARCIUM_MXE_X25519_PUBLIC_KEY")) [];
  solver_x25519_secret = or_default (env (lit "SOLVER_X25519_SECRET")) [];
}

-- `if (!value) throw new Error('NAME is required')`, in the order of the list.
unfoldable pub require_all : List (Text × Text) → NodeConfig → Result NodeConfig
require_all [] cfg = ok cfg
require_all ((name, value) ∷ rest) cfg =
    if is_empty value
    then thrown (record { kind = plain; message = name ++ lit " is required" })
    else require_all rest cfg

unfoldable pub required : NodeConfig → List (Text × Text)
required cfg =
    (lit "SOLANA_PRIVATE_KEY", cfg.solana_private_key)
    ∷ (lit "SOLANA_PROGRAM_ID", cfg.solana_program_id)
    ∷ (lit "FHEVM_ACL_ADDRESS", cfg.fhevm_acl_address)
    ∷ (lit "FHEVM_KMS_VERIFIER_ADDRESS", cfg.fhevm_kms_verifier_address)
    ∷ (lit "ARCIUM_MXE_PROGRAM_ID", cfg.arcium_mxe_program_id)
    ∷ (lit "ARCIUM_COMPDEF_RESEAL_PDA", cfg.arcium_comp_def_reseal_pda)
    ∷ (lit "ARCIUM_CLUSTER_PDA", cfg.arcium_cluster_pda)
    ∷ (lit "ARCIUM_FEE_POOL", cfg.arcium_fee_pool)
    ∷ (lit "ARCIUM_CLOCK", cfg.arcium_clock)
    ∷ []

unfoldable pub check_config : NodeConfig → Result NodeConfig
check_config cfg =
    if is_empty cfg.ethereum_private_key || ltb (length cfg.ethereum_private_key) 10
    then thrown (record { kind = plain; message = lit "ETHEREUM_PRIVATE_KEY is required" })
    else require_all (required cfg) cfg

unfoldable pub configuration : Env → Result NodeConfig
configuration env = check_config (read_config env)
