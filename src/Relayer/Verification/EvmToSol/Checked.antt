-- ===== src/Relayer/Verification/EvmToSol/Checked.antt =====
-- What `handleEvmToSol` has checked when it goes on to settle.
use mathlib.Core.Path.{subst}
use lunarys_bridge.Prelude.{
  ℕ, ◌/◌, ◌≤◌, ◌≡◌, ◌≢◌, refl, sym, ap, Option, none, some, false, inl, inr, Bool-cases, ltb, arith,
  ltb-eq-false,
}
use lunarys_bridge.Prelude.Int.{ℤ, pos, ◌≤ℤ◌, leb_ℤ}
use lunarys_bridge.Prelude.Text.{Text, text_eq, text_eq_iff, is_empty}
use lunarys_bridge.Prelude.Numeral.{big_int}
use lunarys_bridge.Prelude.Effect.{
  Result, ok, thrown, try_catch, ◌>>=◌, bind-ok, try-ok, ok-injective,
}
use lunarys_bridge.Relayer.Chain.{Trace, Tx, BridgeRequestView, ClaimView}
use lunarys_bridge.Relayer.TokenMapping.{TokenInfo, find_token_info, adjust_to_sol_decimals}
use lunarys_bridge.Relayer.Solana.Verify.Sound.{Verified, verify_transfer_sound}
use lunarys_bridge.Relayer.Ethereum.{read_bridge_request, read_claim}
use lunarys_bridge.Relayer.World.{World, Relayer, on_chain}
use lunarys_bridge.Relayer.Verification.EvmToSol.{
  EvmToSolVerificationDto, Evidence, reject, check_amount, check_request, convert, verify_leg,
  check_bridge_request, check_deadline, check_claim, prepare, or_syntax, zero_address, evidence,
}

-- The transfer on Solana was found and pays the converted amount; the request exists on the EVM and
-- is not finalized; a solver holds a claim on it that has not expired.
pub record Checked {D E : Type 0} (r : Relayer D E) (dto : EvmToSolVerificationDto) : Type 0 where
  pub amount : ℤ
  pub read_amount : big_int dto.amount ≡ some amount
  pub positive : pos 1 ≤ℤ amount
  pub mapping : TokenInfo
  pub mapped : find_token_info r.tokens dto.token ≡ some mapping
  pub tx : Tx
  pub paid :
      Verified r.chain dto.solana_transfer_signature dto.solana_destination
        (some mapping.sol.mint)
        (adjust_to_sol_decimals amount mapping).0
        tx
  pub id : ℤ
  pub read_id : big_int dto.request_id ≡ some id
  pub asked_request : Trace
  pub br : BridgeRequestView
  pub requested : r.chain.bridge_request asked_request id ≡ ok br
  pub sender : br.sender ≢ zero_address
  pub open_request : br.finalized ≡ false
  pub asked_claim : Trace
  pub cl : ClaimView
  pub claimed : r.chain.claim asked_claim id ≡ ok cl
  pub solver : cl.solver ≢ zero_address
  pub asked_now : Trace
  pub not_expired : r.chain.now asked_now / 1000 ≤ cl.deadline

ne_of_text_eq : {s t : Text} → text_eq s t ≡ false → s ≢ t
ne_of_text_eq {s} {t} h e = let same = (text_eq_iff s t).1 e in cc

module _ {D E : Type 0} (r : Relayer D E) (dto : EvmToSolVerificationDto) where
  reject-ne-ok :
      {A : Type 0} (message : Text) (w : World D E) {a : A} → (reject r dto message w).0 ≢ ok a
  unfolding reject
  reject-ne-ok message w h = let (row, marked, refused, _) = bind-ok _ _ h in cc refused

  check_amount-ok :
      (o : Option ℤ) (w : World D E) {amount : ℤ}
      → (check_amount r dto o w).0 ≡ ok amount
      → (o ≡ some amount) × (pos 1 ≤ℤ amount)
  unfolding check_amount
  check_amount-ok none w h = absurd (reject-ne-ok _ w h)
  check_amount-ok (some amount) w h = elim (Bool-cases (leb_ℤ amount (pos 0))) [
    | inl small ↦ absurd (reject-ne-ok _ w (rw small at h))
    | inr large ↦
        (let same = ok-injective (rw large at h) in
          (ap some same, subst (λ z. pos 1 ≤ℤ z) same (ground arith)))
  ]

  check_request-ok :
      (w : World D E) {amount : ℤ}
      → (check_request r dto w).0 ≡ ok amount
      → (big_int dto.amount ≡ some amount) × (pos 1 ≤ℤ amount)
  unfolding check_request
  check_request-ok w h = elim (Bool-cases (is_empty dto.solana_transfer_signature)) [
    | inl no_signature ↦ absurd (reject-ne-ok _ w (rw no_signature at h))
    | inr signed ↦ elim (Bool-cases (is_empty dto.solana_destination)) [
      | inl no_destination ↦ absurd (reject-ne-ok _ w (rw (signed, no_destination) at h))
      | inr addressed ↦ check_amount-ok (big_int dto.amount) w (rw (signed, addressed) at h)
    ]
  ]

  convert-ok :
      (amount : ℤ) (o : Option TokenInfo) (w : World D E) {leg : ℤ × Text}
      → (convert r dto amount o w).0 ≡ ok leg
      → (mapping : TokenInfo) × (o ≡ some mapping) × (adjust_to_sol_decimals amount mapping ≡ leg)
  unfolding convert
  convert-ok amount none w h = absurd (reject-ne-ok _ w h)
  convert-ok amount (some mapping) w h = elim (Bool-cases (is_empty mapping.sol.mint)) [
    | inl no_mint ↦ absurd (reject-ne-ok _ w (rw no_mint at h))
    | inr minted ↦ (mapping, refl, ok-injective (rw minted at h))
  ]

  verify_leg-ok :
      (leg : ℤ × Text) (w : World D E) {u : Unit {0}}
      → (verify_leg r dto leg w).0 ≡ ok u
      → (tx : Tx) × Verified r.chain dto.solana_transfer_signature dto.solana_destination
          (some leg.1)
          leg.0
          tx
  unfolding verify_leg on_chain
  verify_leg-ok leg w h = elim (try-ok _ _ h) [
    | inl body ↦
        (let (tx, done, _, _) = bind-ok _ _ body in
          (tx, verify_transfer_sound r.chain _ w.calls tx done))
    | inr (e, caught) ↦ absurd (reject-ne-ok _ _ caught)
  ]

  read_bridge_request-ok :
      (id : ℤ) (t : Trace) {br : BridgeRequestView}
      → (read_bridge_request r.chain id t).0 ≡ ok (some br)
      → r.chain.bridge_request t id ≡ ok br
  unfolding read_bridge_request ◌>>=◌ try_catch
  read_bridge_request-ok id t {br} h = go (r.chain.bridge_request t id) refl
    where
      go :
          (x : Result BridgeRequestView)
          → r.chain.bridge_request t id ≡ x
          → r.chain.bridge_request t id ≡ ok br
      go (ok b) e = ground arith
      go (thrown b) e = absurd (ground arith)

  read_claim-ok :
      (id : ℤ) (t : Trace) {cl : ClaimView}
      → (read_claim r.chain id t).0 ≡ ok (some cl)
      → r.chain.claim t id ≡ ok cl
  unfolding read_claim ◌>>=◌ try_catch
  read_claim-ok id t {cl} h = go (r.chain.claim t id) refl
    where
      go : (x : Result ClaimView) → r.chain.claim t id ≡ x → r.chain.claim t id ≡ ok cl
      go (ok b) e = ground arith
      go (thrown b) e = absurd (ground arith)

  check_bridge_request-ok :
      (o : Option BridgeRequestView) (w : World D E) {u : Unit {0}}
      → (check_bridge_request r dto o w).0 ≡ ok u
      → (br : BridgeRequestView) × (o ≡ some br)
        × (br.sender ≢ zero_address)
        × (br.finalized ≡ false)
  unfolding check_bridge_request
  check_bridge_request-ok none w h = absurd (reject-ne-ok _ w h)
  check_bridge_request-ok (some br) w h = elim (Bool-cases (text_eq br.sender zero_address)) [
    | inl no_sender ↦ absurd (reject-ne-ok _ w (rw no_sender at h))
    | inr sender ↦ elim (Bool-cases br.finalized) [
      | inl done ↦ absurd (reject-ne-ok _ w (rw (sender, done) at h))
      | inr unfinished ↦ (br, refl, ne_of_text_eq sender, unfinished)
    ]
  ]

  check_deadline-ok :
      (cl : ClaimView) (millis now : ℕ) (w : World D E) {u : Unit {0}}
      → now ≡ millis
      → (check_deadline r dto cl millis w).0 ≡ ok u
      → now / 1000 ≤ cl.deadline
  unfolding check_deadline
  check_deadline-ok cl millis now w e h = elim (Bool-cases (ltb cl.deadline (millis / 1000))) [
    | inl late ↦ absurd (reject-ne-ok _ w (rw late at h))
    | inr in_time ↦ rw e (ltb-eq-false cl.deadline (millis / 1000) in_time)
  ]

  check_claim-ok :
      (o : Option ClaimView) (w : World D E) {u : Unit {0}}
      → (check_claim r dto o w).0 ≡ ok u
      → (cl : ClaimView) × (o ≡ some cl)
        × (cl.solver ≢ zero_address)
        × (r.chain.now w.calls / 1000 ≤ cl.deadline)
  unfolding check_claim on_chain
  check_claim-ok none w h = absurd (reject-ne-ok _ w h)
  check_claim-ok (some cl) w h = elim (Bool-cases (text_eq cl.solver zero_address)) [
    | inl no_solver ↦ absurd (reject-ne-ok _ w (rw no_solver at h))
    | inr solver ↦
        (let (millis, asked, checked, _) = bind-ok _ _ (rw solver at h) in
          let same = ok-injective asked in
          (cl, refl, ne_of_text_eq solver, check_deadline-ok cl millis _ _ same checked))
  ]

  paid_in_mint :
      (amount : ℤ) (mapping : TokenInfo) (tx : Tx) (leg : ℤ × Text)
      → adjust_to_sol_decimals amount mapping ≡ leg
      → Verified r.chain dto.solana_transfer_signature dto.solana_destination (some leg.1) leg.0 tx
      → Verified r.chain dto.solana_transfer_signature dto.solana_destination
          (some mapping.sol.mint)
          (adjust_to_sol_decimals amount mapping).0
          tx
  unfolding adjust_to_sol_decimals
  paid_in_mint amount mapping tx leg e v =
      subst
        (λ l.
          Verified r.chain dto.solana_transfer_signature dto.solana_destination (some l.1) l.0 tx)
        (sym e) v

  or_syntax-ok : (o : Option ℤ) {id : ℤ} → or_syntax o ≡ ok id → o ≡ some id
  or_syntax-ok none h = cc
  or_syntax-ok (some z) h = cc

  -- Preparing succeeds only if every check did; the evidence is that of the request's id.
  pub prepare-Checked :
      (w : World D E) {ev : Evidence}
      → (prepare r dto w).0 ≡ ok ev
      → (c : Checked r dto) × (ev ≡ evidence r.chain dto c.id)
  unfolding prepare on_chain
  prepare-Checked w {ev} h =
      let (amount, requested, h1, _) = bind-ok _ _ h in
      let (leg, converted, h2, _) = bind-ok _ _ h1 in
      let (u, paid, h3, _) = bind-ok _ _ h2 in
      let (id, parsed, h4, _) = bind-ok _ _ h3 in
      let (br, read_br, h5, _) = bind-ok _ _ h4 in
      let (v, fine_br, h6, _) = bind-ok _ _ h5 in
      let (cl, read_cl, h7, _) = bind-ok _ _ h6 in
      let (x, fine_cl, h8, _) = bind-ok _ _ h7 in
      let (row, marked, h9, _) = bind-ok _ _ h8 in
      let (read_amount, positive) = check_request-ok w requested in
      let (mapping, mapped, adjusted) = convert-ok amount _ _ converted in
      let (tx, verified) = verify_leg-ok leg _ paid in
      let (view, found_br, sender, unfinished) = check_bridge_request-ok br _ fine_br in
      let (claim, found_cl, solver, in_time) = check_claim-ok cl _ fine_cl in
      (
        record {
          amount = amount;
          read_amount = read_amount;
          positive = positive;
          mapping = mapping;
          mapped = mapped;
          tx = tx;
          paid = paid_in_mint amount mapping tx leg adjusted verified;
          id = id;
          read_id = or_syntax-ok _ parsed;
          asked_request = _;
          br = view;
          requested = read_bridge_request-ok id _ (rw found_br at read_br);
          sender = sender;
          open_request = unfinished;
          asked_claim = _;
          cl = claim;
          claimed = read_claim-ok id _ (rw found_cl at read_cl);
          solver = solver;
          asked_now = _;
          not_expired = in_time;
        },
        sym (ok-injective h9),
      )
