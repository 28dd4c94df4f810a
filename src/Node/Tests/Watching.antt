-- ===== src/Node/Tests/Watching.antt =====
-- The node's reading of a logged event, its claim, and the data that Arcium reseals.
use lunarys_bridge.Prelude.{
  ℕ, ◌-◌, ◌^◌, ◌≡◌, refl, false, some, List, [], ◌∷◌, ◌++◌, replicate, All,
}
use lunarys_bridge.Prelude.Int.{pos, negsuc}
use lunarys_bridge.Prelude.Text.{Text, lit, starts_with}
use lunarys_bridge.Prelude.Bytes.{le_bytes}
use lunarys_bridge.Prelude.Effect.{ok, ◌>>=◌}
use lunarys_bridge.Prelude.Json.Objects.{IsWord, all_words-All}
use lunarys_bridge.Node.SolToEvm.{ResealOutput}
use lunarys_bridge.Node.SolanaMonitor.{includes, on_logs}
use lunarys_bridge.Node.SolanaMonitor.Logged.{event_line, reads_logged_event, read_event}
use lunarys_bridge.Node.SolanaProgram.{
  ProgramServices, SolanaProgramService, number, bytes, u64_le, to_u32_from_sdk_offset,
  send_and_confirm, claim_request,
}
use lunarys_bridge.Node.SolanaProgram.Claimed.{Claimed, program_reads_claim}
use lunarys_bridge.Node.ArciumReader.{words_from, fetch_reseal_output}
use lunarys_bridge.Node.ArciumReader.Layout.{Passes, reseal_output-Passes}

abbrev payer : Text
payer = lit "9xQe"

abbrev mint : Text
mint = lit "So11"

payer-IsWord : All IsWord payer
unfolding lit
payer-IsWord = all_words-All (lit "9xQe") refl

mint-IsWord : All IsWord mint
unfolding lit
mint-IsWord = all_words-All (lit "So11") refl

abbrev first_line : Text
first_line = lit "Program Brdg invoke [1]"

first_line-excludes : includes (lit "Event: BridgeInitiated") first_line ≡ false
unfolding includes starts_with lit
first_line-excludes = refl

reads_logged_event_example :
    on_logs false ((first_line ∷ []) ++ event_line 7 1000 payer mint ∷ [])
    ≡ some (read_event 7 1000 payer mint)
reads_logged_event_example =
    reads_logged_event 7 1000 payer mint payer-IsWord mint-IsWord (first_line ∷ []) []
      (first_line-excludes, tt)

abbrev program_services : ProgramServices
program_services = record {
  key_bytes = λ key. key;
  find_program_address = λ seeds program. lit "pda";
  mxe = λ program. lit "mxe";
  mempool = λ program. lit "mempool";
  executing_pool = λ program. lit "pool";
  computation = λ program offset. lit "computation";
  comp_def_offset = λ name. bytes (1 ∷ 2 ∷ 0 ∷ 0 ∷ []);
  comp_def = λ program offset. lit "comp_def";
  sha256 = λ text. replicate 32 5;
  system_program = lit "system";
  confirmed = λ sent. ok (lit "sig");
}

abbrev program_service : SolanaProgramService
program_service = record {
  services = program_services;
  wallet = lit "wallet";
  bridge_program_id = lit "Brdg";
  arcium_program_id = lit "Arcm";
  arcium_cluster = lit "cluster";
  arcium_fee_pool = lit "fees";
  arcium_clock = lit "clock";
  sign_seed = lit "SignerAccount";
}

claim_request_test :
    ((claim_request program_service (pos 9) (lit "owner") (pos 300) (replicate 32 1) []).0
      ≡ ok (lit "sig"))
    × (u64_le (pos 300) ≡ ok (44 ∷ 1 ∷ 0 ∷ 0 ∷ 0 ∷ 0 ∷ 0 ∷ 0 ∷ []))
    × (to_u32_from_sdk_offset (number (negsuc 0)) ≡ ok (2 ^ 32 - 1))
    × (to_u32_from_sdk_offset (bytes (1 ∷ 2 ∷ 0 ∷ 0 ∷ [])) ≡ ok 513)
unfolding claim_request u64_le to_u32_from_sdk_offset ◌>>=◌ le_bytes send_and_confirm
claim_request_test = (refl, refl, refl, refl)

program_reads_claim_example :
    Claimed program_service
      (pos 9)
      (lit "owner")
      (pos 300)
      (replicate 32 1)
      []
      (claim_request program_service (pos 9) (lit "owner") (pos 300) (replicate 32 1) []).1
program_reads_claim_example =
    program_reads_claim program_service (pos 9) (lit "owner") (pos 300) (replicate 32 1)
      (λ text. refl) []

abbrev resealed : List ℕ
resealed = replicate 16 1 ++ replicate 128 2

abbrev reseal_output : ResealOutput
reseal_output = record { ct_words = some (words_from 4 16 resealed); nonce = replicate 16 1 }

fetched : fetch_reseal_output (lit "computation") (some resealed) ≡ ok reseal_output
unfolding fetch_reseal_output
fetched = refl

reseal_output-Passes_example : (bs : List ℕ) × (some resealed ≡ some bs) × Passes bs reseal_output
reseal_output-Passes_example = reseal_output-Passes (lit "computation") (some resealed) fetched
