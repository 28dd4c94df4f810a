-- ===== src/Node/SolToEvm/Handler/Payment.antt =====
-- What the node pays on the EVM for one request on Solana.
use mathlib.Core.Path.{subst}
use lunarys_bridge.Prelude.{
  ℕ, List, ◌==◌, ◌≡◌, refl, ◌⊎◌, inl, inr, Bool, true, false, Option, none, some, [], ◌∷◌, length,
  if◌then◌else◌,
}
use lunarys_bridge.Prelude.Int.{pos, pos_part}
use lunarys_bridge.Prelude.Text.{Text, lit}
use lunarys_bridge.Prelude.Effect.{
  Result, ok, thrown, ok-injective, thrown-ne-ok, bind-ok, raise, plain, ◌>>=◌,
}
use lunarys_bridge.Prelude.Effect.Ends.{
  After, Keeps, Ends-bind, Ends-pure, Ends-if, Ends-try, Keeps-lift, Keeps-raise,
}
use lunarys_bridge.Prelude.Effect.Leads.{
  Leads, Leads-bind, Leads-known, Leads-try, Leads-map, Leads-Keeps,
}
use lunarys_bridge.Node.Destination.{evm_destination}
use lunarys_bridge.Node.TokenMapping.{TokenMapping, find_by_mint, convert_sol_to_evm}
use lunarys_bridge.Node.EvmToSol.{BridgeStatus, mined_well}
use lunarys_bridge.Node.SolToEvm.{
  SolBridgeRequest, SolCall, SolTrace, wait_finalization, claim_request, pick_computation_offset,
  fetch_reseal_output, SolConfig, SolState, SolDetails, send_native, send_erc20, set_sol_status,
  sol_call, ResealOutput, check_output, claim_and_read, resolve_evm_destination, EvmTransferResult,
  send_and_wait, transfer_native, transfer_erc20, submit_verification_sol_to_evm,
}
use lunarys_bridge.Node.SolToEvm.Handler.{
  hash_or_throw, pay_on_evm, report, resolve_step, process_sol, on_sol_bridge_initiated,
}

abbrev pub is_transfer : SolCall → Bool
is_transfer (send_native to amount) = true
is_transfer (send_erc20 token to amount) = true
is_transfer _ = false

abbrev pub transfers : SolTrace → SolTrace
transfers [] = []
transfers (c ∷ t) = if is_transfer c then c ∷ transfers t else transfers t

-- A predicate of what was sent.
module _ (Q : SolTrace → Type 0) where
  abbrev OnTransfers : SolState → Type 0
  OnTransfers n = Q (transfers n.calls)

  status-Keeps :
      (id : Text) (s : BridgeStatus) (d : SolDetails) → Keeps OnTransfers (set_sol_status id s d)
  unfolding set_sol_status
  status-Keeps id s d = record { at = λ n p. p }

  call-Keeps :
      {A : Type 0} (c : SolCall) (answer : SolTrace → Result A)
      → is_transfer c ≡ false
      → Keeps OnTransfers (sol_call c answer)
  unfolding sol_call
  call-Keeps c answer h = record { at = λ n p. go (answer n.calls) n p }
    where
      go :
          {A : Type 0} (x : Result A) (n : SolState)
          → OnTransfers n
          → After OnTransfers (λ _. OnTransfers) (x, record n { calls = c ∷ n.calls })
      go (ok a) n p = rw h p
      go (thrown e) n p = rw h p

  report-Keeps :
      (cfg : SolConfig) (ev : SolBridgeRequest) (dest sig hash : Text) (m : Option TokenMapping)
      → Keeps OnTransfers (report cfg ev dest sig hash m)
  unfolding report submit_verification_sol_to_evm
  report-Keeps cfg ev dest sig hash m = Ends-bind _ _ (status-Keeps _ _ _) λ _.
      Ends-bind _ _
        (Ends-if cfg.has_relayer_api _ _
          (Ends-try _ _ (Ends-bind _ _ (call-Keeps _ _ refl) λ res. Ends-pure _) (λ e. Ends-pure _))
          (Ends-pure _))
        λ v. status-Keeps _ _ _

  resolve_step-Keeps :
      (cfg : SolConfig) (ev : SolBridgeRequest) → Keeps OnTransfers (resolve_step cfg ev)
  unfolding resolve_step resolve_evm_destination claim_and_read
  resolve_step-Keeps cfg ev = Ends-bind _ _ (status-Keeps _ _ _) λ _.
      Ends-bind _ _ (Keeps-lift _) λ owner.
        Ends-bind _ _
          (Ends-bind _ _ (call-Keeps _ _ refl) λ offset.
            Ends-if (length cfg.solver_public_key == 32) _ _
              (Ends-bind _ _ (call-Keeps _ _ refl) λ sig. Ends-bind _ _ (call-Keeps _ _ refl) λ _.
                Ends-bind _ _ (call-Keeps _ _ refl) λ out. Ends-bind _ _ (Keeps-lift _) λ words.
                  Ends-bind _ _ (call-Keeps _ _ refl) λ key.
                    Ends-bind _ _ (Keeps-lift _)
                      λ plains. Ends-bind _ _ (Keeps-lift _) λ dest. Ends-pure _)
              (Keeps-raise _ _))
          λ out. Ends-bind _ _ (status-Keeps _ _ _) λ _. Ends-pure _

abbrev Exactly : SolTrace → SolTrace → Type 0
Exactly ts t = t ≡ ts

call-Leads :
    {A : Type 0} (ts : SolTrace) (c : SolCall) (answer : SolTrace → Result A)
    → is_transfer c ≡ true
    → Leads (OnTransfers (Exactly ts)) (OnTransfers (Exactly (c ∷ ts))) (sol_call c answer)
unfolding sol_call
call-Leads ts c answer h = record { at = λ n p. rw (h, p) refl }

module _ (cfg : SolConfig) (ev : SolBridgeRequest) where
  -- What is asked for the output: an offset is picked, the request is claimed under it by the owner
  -- that the payer reads as, and the computation is waited for.
  abbrev pub asked_after : Text → SolTrace → SolTrace
  asked_after owner picking =
      wait_finalization (cfg.services.offset picking)
      ∷ claim_request ev.request_id owner (cfg.services.offset picking)
      ∷ pick_computation_offset
      ∷ picking

  -- Whom the request is for: the address that the output which was resealed for its claim decrypts to,
  -- with the key of the cluster.
  pub record IsDestination (dest : Text) : Type 0 where
    pub picking : SolTrace
    pub owner : Text
    pub output : ResealOutput
    pub words : List (List ℕ)
    pub key : List ℕ
    pub plains : List ℕ
    pub payer : cfg.services.public_key ev.payer ≡ ok owner
    pub fetched :
        cfg.services.output (cfg.services.offset picking) (asked_after owner picking) ≡ ok output
    pub passed : check_output output ≡ ok words
    pub agreed :
        cfg.services.mxe_key
          (fetch_reseal_output (cfg.services.offset picking) ∷ asked_after owner picking)
        ≡ ok key
    pub opened : cfg.services.decrypt key words output.nonce ≡ ok plains
    pub address : evm_destination plains ≡ ok dest

  -- The transfer that a request asks for, to its destination: the native token if its mint is not
  -- mapped, otherwise the mapped ERC20, in its decimals.
  pub data IsOwed : SolCall → Type 0 where
    unmapped :
        {dest : Text}
        → IsDestination dest
        → find_by_mint cfg.tokens ev.mint cfg.chain_id ≡ none
        → IsOwed (send_native dest ev.amount_after_fee)
    erc20 :
        {dest : Text} {m : TokenMapping}
        → IsDestination dest
        → find_by_mint cfg.tokens ev.mint cfg.chain_id ≡ some m
        → IsOwed (
            send_erc20 m.evm_address dest
              (pos_part (convert_sol_to_evm (pos ev.amount_after_fee) m)))

  claim_and_read-IsDestination :
      (owner : Text) (n : SolState) {out : Text × Text}
      → cfg.services.public_key ev.payer ≡ ok owner
      → (claim_and_read cfg ev.request_id owner
          (cfg.services.offset n.calls)
          (record n { calls = pick_computation_offset ∷ n.calls })).0
        ≡ ok out
      → IsDestination out.0
  unfolding claim_and_read sol_call
  claim_and_read-IsDestination owner n {out} payer h =
      let (_, _, h1, _) = bind-ok _ _ h in
      let (_, _, h2, _) = bind-ok _ _ h1 in
      let (output, fetched, h3, _) = bind-ok _ _ h2 in
      let (words, passed, h4, _) = bind-ok _ _ h3 in
      let (key, agreed, h5, _) = bind-ok _ _ h4 in
      let (plains, opened, h6, _) = bind-ok _ _ h5 in
      let (dest, address, h7, _) = bind-ok _ _ h6 in
      subst (λ (x : Text × Text). IsDestination x.0) (ok-injective h7)
        (record {
          picking = n.calls;
          owner = owner;
          output = output;
          words = words;
          key = key;
          plains = plains;
          payer = payer;
          fetched = fetched;
          passed = passed;
          agreed = agreed;
          opened = opened;
          address = address;
        })

  resolved-IsDestination :
      (owner : Text) (n : SolState) {out : Text × Text}
      → cfg.services.public_key ev.payer ≡ ok owner
      → (resolve_evm_destination cfg ev.request_id owner n).0 ≡ ok out
      → IsDestination out.0
  unfolding resolve_evm_destination sol_call ◌>>=◌
  resolved-IsDestination owner n {out} payer h = go (length cfg.solver_public_key == 32) h
    where
      picked : SolState
      picked = record n { calls = pick_computation_offset ∷ n.calls }

      go :
          (b : Bool)
          → ((if b
                then claim_and_read cfg ev.request_id owner (cfg.services.offset n.calls)
                else raise plain (lit "Solver x25519 public key must be 32 bytes"))
              picked).0
            ≡ ok out
          → IsDestination out.0
      go true k = claim_and_read-IsDestination owner n payer k
      go false k = absurd (thrown-ne-ok k)

  resolve_step-IsDestination :
      (n : SolState) {out : Text × Text} → (resolve_step cfg ev n).0 ≡ ok out → IsDestination out.0
  unfolding resolve_step
  resolve_step-IsDestination n {out} h =
      let (_, _, h1, _) = bind-ok _ _ h in
      let (owner, payer, h2, _) = bind-ok _ _ h1 in
      let (got, found, h3, _) = bind-ok _ _ h2 in
      let (_, _, h4, _) = bind-ok _ _ h3 in
      subst (λ (x : Text × Text). IsDestination x.0) (ok-injective h4)
        (resolved-IsDestination owner _ payer found)

  module _ (ts : SolTrace) where
    -- Nothing was sent yet, or what is owed.
    abbrev AtMostOwed : SolTrace → Type 0
    AtMostOwed t = (t ≡ ts) ⊎ ((c : SolCall) × IsOwed c × (t ≡ c ∷ ts))

    abbrev Unsent : SolState → Type 0
    Unsent = OnTransfers (Exactly ts)

    abbrev Limited : SolState → Type 0
    Limited = OnTransfers AtMostOwed

    weaken : (n : SolState) → Unsent n → Limited n
    weaken n h = inl h

    send_and_wait-Leads :
        (c : SolCall) (reverted : Text)
        → is_transfer c ≡ true
        → IsOwed c
        → Leads Unsent Limited (send_and_wait cfg c reverted)
    unfolding send_and_wait
    send_and_wait-Leads c reverted h owed =
        Leads-map _
          (Leads-try _ _
            (Leads-bind _ _ (call-Leads ts c _ h) λ hash.
              Ends-bind _ _ (call-Keeps (Exactly (c ∷ ts)) _ _ refl)
                λ status. Ends-if (mined_well status) _ _ (Ends-pure _) (Keeps-raise _ _))
            (λ e. Leads-Keeps _ (Ends-pure _)))
          (λ n p. inr (c, owed, p))

    hash-Keeps :
        (text : Text) (res : EvmTransferResult) → Keeps Limited (hash_or_throw cfg ev text res)
    unfolding hash_or_throw
    hash-Keeps text res = Ends-if res.success _ _ (Ends-pure _) (Keeps-raise _ _)

    pay_on_evm-Leads :
        (dest : Text) (o : Option TokenMapping)
        → IsDestination dest
        → find_by_mint cfg.tokens ev.mint cfg.chain_id ≡ o
        → Leads Unsent Limited (pay_on_evm cfg ev dest o)
    unfolding pay_on_evm transfer_native transfer_erc20
    pay_on_evm-Leads dest none its e =
        Leads-bind _ _ (send_and_wait-Leads _ _ refl (IsOwed.unmapped its e)) (hash-Keeps _)
    pay_on_evm-Leads dest (some m) its e =
        Leads-bind _ _ (send_and_wait-Leads _ _ refl (IsOwed.erc20 its e)) (hash-Keeps _)

    handler-Leads : Leads Unsent Limited (on_sol_bridge_initiated cfg ev)
    unfolding on_sol_bridge_initiated process_sol
    handler-Leads =
        Leads-try _ _
          (Leads-known weaken _ _ (resolve_step-Keeps (Exactly ts) cfg ev) λ s out got.
            Leads-bind _ _ (pay_on_evm-Leads out.0 _ (resolve_step-IsDestination s got) refl)
              λ hash. report-Keeps AtMostOwed cfg ev out.0 out.1 hash _)
          (λ e. Leads-Keeps _ (status-Keeps AtMostOwed _ _ _))

  -- For one request on Solana the node sends at most one transfer on the EVM, whatever the services
  -- answer: nothing, or exactly what is owed (`IsOwed`), to the address that the resealed output
  -- decrypts to: the native token if the mint is not mapped,
  -- or else the converted amount of the mapped ERC20.
  pub sends_at_most_once :
      (n : SolState)
      → (transfers (on_sol_bridge_initiated cfg ev n).1.calls ≡ transfers n.calls)
        ⊎ ((c : SolCall) × IsOwed c
            × (transfers (on_sol_bridge_initiated cfg ev n).1.calls ≡ c ∷ transfers n.calls))
  sends_at_most_once n = (handler-Leads (transfers n.calls)).at n refl
