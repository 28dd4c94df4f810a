-- ===== src/Relayer/Api.antt =====
-- relayer/src/common/guards/api-token.guard.ts, relayer/src/verification/verification.controller.ts
-- and the two queries of relayer/src/verification/verification.service.ts: the routes of the API,
-- behind the token's guard.
pub mod Guarded
use lunarys_bridge.Prelude.{
  ℕ, ◌≡◌, ◌≢◌, refl, ◌↔◌, ◌⊎◌, inl, inr, Bool, true, false, Option, none, some, List, [], ◌∷◌, drop,
  if◌then◌else◌, Bool-cases, Option-cases,
}
use lunarys_bridge.Prelude.Text.{Text, lit, text_eq, text_eq_iff, is_empty, starts_with}
use lunarys_bridge.Prelude.Effect.{
  Result, ok, thrown, Failure, Eff, pure, raise, not_found, type_error, ◌>>=◌, bind-ok, bind-at,
  ok-injective, thrown-ne-ok,
}
use lunarys_bridge.Relayer.Repository.EvmToSol.{EvmToSolRecord, get_by_request}
use lunarys_bridge.Relayer.Repository.SolToEvm.{SolToEvmRecord}
use lunarys_bridge.Relayer.World.{World, Relayer, on_e2s, on_s2e}
use lunarys_bridge.Relayer.Verification.EvmToSol.{
  EvmToSolVerificationDto, Settlement, handle_evm_to_sol,
}
use lunarys_bridge.Relayer.Verification.SolToEvm.{
  SolToEvmVerificationDto, Payment, handle_sol_to_evm,
}

-- A header: absent, one text, or a list of texts.
pub data Header : Type 0 where
  absent : Header
  single : Text → Header
  several : List Text → Header

pub record Headers : Type 0 where
  pub x_api_token : Header
  pub authorization : Header

-- `a || b`: an empty text counts as absent, a list does not.
unfoldable pub or_header : Header → Header → Header
or_header absent b = b
or_header (single s) b = if is_empty s then b else single s
or_header (several l) b = several l

abbrev type_failure : {A : Type 0} → Result A
type_failure = thrown (record {
  kind = type_error;
  message = lit "Cannot read properties of undefined (reading 'startsWith')";
})

-- `provided.startsWith('Bearer ') ? provided.slice(7) : provided`
unfoldable pub token_of : Text → Text
token_of provided = if starts_with (lit "Bearer ") provided then drop 7 provided else provided

unfoldable pub check_header : Text → Header → Result Bool
check_header required absent = ok false
check_header required (single s) =
    if is_empty s then ok false else ok (text_eq (token_of s) required)
check_header required (several []) = type_failure
check_header required (several (s ∷ l)) = ok (text_eq (token_of s) required)

-- `canActivate`, given `RELAYER_API_TOKEN`.
unfoldable pub can_activate : Option Text → Headers → Result Bool
can_activate none h = ok true
can_activate (some []) h = ok true
can_activate (some (c ∷ token)) h =
    check_header (c ∷ token) (or_header h.x_api_token h.authorization)

abbrev pub or_not_found : {S A : Type 0} → Text → Option A → Eff S A
or_not_found message none = raise not_found message
or_not_found message (some a) = pure a

module _ {D E : Type 0} (r : Relayer D E) where
  unfoldable pub get_evm_to_sol_status : Text → Eff (World D E) EvmToSolRecord
  get_evm_to_sol_status id = do
    rec ← on_e2s (get_by_request r.e2s id)
    or_not_found (lit "EVM->SOL record not found") rec

  unfoldable pub get_sol_to_evm_status : Text → Eff (World D E) SolToEvmRecord
  get_sol_to_evm_status id = do
    rec ← on_s2e (lunarys_bridge.Relayer.Repository.SolToEvm.get_by_request r.s2e id)
    or_not_found (lit "SOL->EVM record not found") rec

-- The four routes.
pub data Request : Type 0 where
  evm_to_sol : EvmToSolVerificationDto → Request
  sol_to_evm : SolToEvmVerificationDto → Request
  evm_to_sol_status : Text → Request
  sol_to_evm_status : Text → Request

pub data Response : Type 0 where
  settlement : Settlement → Response
  payment : Payment → Response
  evm_to_sol_record : EvmToSolRecord → Response
  sol_to_evm_record : SolToEvmRecord → Response
  forbidden : Response

module _ {D E : Type 0} (r : Relayer D E) where
  unfoldable pub route : Request → Eff (World D E) Response
  route (evm_to_sol dto) = do s ← handle_evm_to_sol r dto; pure (settlement s)
  route (sol_to_evm dto) = do p ← handle_sol_to_evm r dto; pure (payment p)
  route (evm_to_sol_status id) = do row ← get_evm_to_sol_status r id; pure (evm_to_sol_record row)
  route (sol_to_evm_status id) = do row ← get_sol_to_evm_status r id; pure (sol_to_evm_record row)

  abbrev pub guarded : Request → Result Bool → Eff (World D E) Response
  guarded q (thrown e) w = (thrown e, w)
  guarded q (ok false) w = (ok forbidden, w)
  guarded q (ok true) w = route q w

  -- `@UseGuards(ApiTokenGuard)`: what the guard refuses never reaches the handler.
  unfoldable pub serve : Option Text → Headers → Request → Eff (World D E) Response
  serve required h q = guarded q (can_activate required h)
