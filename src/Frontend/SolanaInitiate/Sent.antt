-- ===== src/Frontend/SolanaInitiate/Sent.antt =====
-- What the page's `initiate` sends to Solana.
use mathlib.Core.Path.{subst, sym}
use lunarys_bridge.Frontend.Words.{u64_le}
use native.Mathlib.Nat.{mod-lt}
use lunarys_bridge.Prelude.{
  ◌⊎◌, ◌++◌, false, if◌then◌else◌, ℕ, ◌^◌, ◌<◌, ◌≡◌, refl, Bool, true, false, some, List, [], ◌∷◌,
  ◌≢◌, ap, ◌∙◌, select, arith, Bool-cases, inl, inr,
}
use lunarys_bridge.Prelude.Text.{Text, lit, is_empty}
use lunarys_bridge.Prelude.Effect.{Result, ok, thrown, ok-injective, bind-ok}
use lunarys_bridge.Prelude.Effect.Ends.{
  After, Keeps, Ends-bind, Ends-pure, Ends-if, Ends-try, Keeps-raise, Keeps-lift,
}
use lunarys_bridge.Prelude.Effect.Leads.{
  Leads, Leads-bind, Leads-then, Leads-known, Leads-lift, Leads-try, Leads-map,
}
use lunarys_bridge.Frontend.Amount.{to_u64_from_human}
use lunarys_bridge.Frontend.SolanaInitiate.{
  create_account, compute_units, PreInstruction, text_or, offset_u32, Instruction, Call, rpc, Trace,
  Services, Page, call, Args, hex_to_bytes32_from_eth, dummy_cts_of, rand_u64, ensure_ata_ix,
  request_seeds, set_phase, simulate_first, submit, instruction_of, attempt, set_error,
  stop_loading, cleared, initiate,
}

abbrev pub is_rpc : Call → Bool
is_rpc (rpc ix) = true
is_rpc _ = false

abbrev pub sent : Trace → Trace
sent = select is_rpc

abbrev Sent : Trace → Page → Type 0
Sent ms p = sent p.calls ≡ ms

call-Keeps :
    {A : Type 0} (R : Trace → Type 0) (c : Call) (answer : Trace → Result A)
    → is_rpc c ≡ false
    → Keeps (λ p. R (sent p.calls)) (call c answer)
unfolding call
call-Keeps R c answer h = record { at = λ p q. go (answer p.calls) p q }
  where
    go :
        {A : Type 0} (x : Result A) (p : Page)
        → R (sent p.calls)
        → After
            (λ p. R (sent p.calls))
            (λ _ p. R (sent p.calls))
            (x, record p { calls = c ∷ p.calls })
    go (ok a) p q = rw h q
    go (thrown e) p q = rw h q

module _ (s : Services) (address : Text) (args : Args) where
  -- The mint that was typed, or the configured one where none was.
  pub data MintText : Text → Type 0 where
    typed : args.spl_mint ≢ [] → MintText args.spl_mint
    configured : args.spl_mint ≡ [] → MintText s.spl_mint_env

  -- What runs first for a token account: nothing, or its creation for this owner.
  abbrev pub Creates : Text → Text → Text → Text → List PreInstruction → Type 0
  Creates payer account owner mint is =
      (is ≡ []) ⊎ (is ≡ create_account payer account owner mint ∷ [])

  -- The instruction carries the amount that was typed and the tags of the recipient that was typed.
  -- Its sixteen accounts: the wallet's key and its token account; the mint, and the token account of
  -- the signer's address; the addresses of the configuration, the signer and the payer's own request
  -- under the instruction's id; the accounts of the program in Arcium, the computation under the
  -- instruction's offset, and the plan's definition; and the four that are fixed. What runs first sets
  -- the limit of compute units and creates the two token accounts where they are missing.
  pub record Intended (ix : Instruction) : Type 0 where
    pub base : List ℕ
    pub payer : Text
    pub program : Text
    pub amount_read : to_u64_from_human args.human_amount args.decimals ≡ ok ix.amount
    pub recipient_read : hex_to_bytes32_from_eth args.eth_recipient ≡ ok base
    pub tags : ix.cts ≡ dummy_cts_of s base
    pub small : ix.request_id < 2 ^ 32
    pub own : s.public_key address ≡ ok payer
    pub known : s.program_id ≡ ok program
    pub mint_text : Text
    pub which : MintText mint_text
    pub mint_read : s.public_key mint_text ≡ ok ix.accounts.mint
    pub plan : ℕ
    pub plan_read : offset_u32 s.plan_offset ≡ ok plan
    pub signs : ix.accounts.payer ≡ payer
    pub user_token : s.associated ix.accounts.mint payer false ≡ ok ix.accounts.user_token
    pub escrow_token :
        s.associated ix.accounts.mint ix.accounts.sign_pda_account true
        ≡ ok ix.accounts.escrow_token
    pub config : ix.accounts.config ≡ s.pda (lit "config" ∷ []) program
    pub request :
        ix.accounts.request_pda
        ≡ s.pda (lit "request" ∷ s.key_bytes payer ∷ u64_le ix.request_id ∷ []) program
    pub signer : ix.accounts.sign_pda_account ≡ s.pda (s.sign_seed ∷ []) program
    pub mxe : ix.accounts.mxe_account ≡ s.mxe program
    pub mempool : ix.accounts.mempool_account ≡ s.mempool program
    pub executing : ix.accounts.executing_pool ≡ s.executing_pool program
    pub computation : ix.accounts.computation_account ≡ s.computation program ix.offset
    pub definition : ix.accounts.comp_def_account ≡ s.comp_def program plan
    pub cluster : ix.accounts.cluster_account ≡ s.cluster
    pub pool : ix.accounts.pool_account ≡ s.fee_pool
    pub clock : ix.accounts.clock_account ≡ s.clock
    pub user_first : List PreInstruction
    pub escrow_first : List PreInstruction
    pub user_creation : Creates payer ix.accounts.user_token payer ix.accounts.mint user_first
    pub escrow_creation :
        Creates payer ix.accounts.escrow_token ix.accounts.sign_pda_account ix.accounts.mint
          escrow_first
    pub first : ix.pre ≡ compute_units 300000 ∷ user_first ++ escrow_first
    pub arcium : ix.accounts.arcium_program ≡ s.arcium_program

  pub data Submitted (before : Trace) : Trace → Type 0 where
    nothing : Submitted before before
    one : {ix : Instruction} → Intended ix → Submitted before (rpc ix ∷ before)

  chosen_mint : (t : Text) → args.spl_mint ≡ t → MintText (text_or s t s.spl_mint_env)
  chosen_mint [] e = configured e
  chosen_mint (c ∷ t) e = subst MintText e (typed (λ h. cons_ne (sym e ∙ h)))
    where
      cons_ne : (c ∷ t) ≢ []
      cons_ne h = cc

  ensured :
      (owner mint : Text) (off : Bool) (payer : Text) (p : Page) {out : Text × List PreInstruction}
      → (ensure_ata_ix s owner mint off payer p).0 ≡ ok out
      → s.associated mint owner off ≡ ok out.0
  unfolding ensure_ata_ix
  ensured owner mint off payer p h =
      let (ata, known, h1, _) = bind-ok _ _ h in
      let (there, _, h2, _) = bind-ok _ _ h1 in
      known ∙ ap (λ (x : Text × List PreInstruction). ok x.0) (ok-injective h2)

  created :
      (owner mint : Text) (off : Bool) (payer : Text) (p : Page) {out : Text × List PreInstruction}
      → (ensure_ata_ix s owner mint off payer p).0 ≡ ok out
      → Creates payer out.0 owner mint out.1
  unfolding ensure_ata_ix
  created owner mint off payer p {out} h =
      let (ata, _, h1, _) = bind-ok _ _ h in
      let (there, _, h2, _) = bind-ok _ _ h1 in
      subst (λ (x : Text × List PreInstruction). Creates payer x.0 owner mint x.1) (ok-injective h2)
        (either ata there)
    where
      either :
          (ata : Text) (there : Bool)
          → Creates payer ata owner mint
              (if there then [] else create_account payer ata owner mint ∷ [])
      either ata true = inl refl
      either ata false = inr refl

  module _ (before : Trace) where
    abbrev Start : Page → Type 0
    Start = Sent before

    abbrev Fine : Page → Type 0
    Fine p = Submitted before (sent p.calls)

    weaken : (p : Page) → Start p → Fine p
    weaken p e = rw e Submitted.nothing

    quiet :
        {A : Type 0} (c : Call) (answer : Trace → Result A)
        → is_rpc c ≡ false
        → Keeps Start (call c answer)
    quiet = call-Keeps (λ t. t ≡ before)

    ensure-Keeps :
        (owner mint : Text) (off : Bool) (payer : Text)
        → Keeps Start (ensure_ata_ix s owner mint off payer)
    unfolding ensure_ata_ix
    ensure-Keeps owner mint off payer =
        Ends-bind _ _ (Keeps-lift _) λ ata. Ends-bind _ _ (quiet _ _ refl) λ there. Ends-pure _

    rpc-Leads :
        (ix : Instruction) → Leads Start (Sent (rpc ix ∷ before)) (call (rpc ix) s.signature)
    unfolding call
    rpc-Leads ix = record { at = λ p e. rw e refl }

    submit-Leads :
        (skip : Bool) (ix : Instruction) → Intended ix → Leads Start Fine (submit s skip ix)
    unfolding submit simulate_first set_phase
    submit-Leads skip ix h =
        Leads-then weaken _ _ (record { at = λ p e. e })
          λ u.
            Leads-then weaken _ _
              (Ends-if skip _ _ (Ends-pure tt)
                (Ends-try _ _ (quiet _ _ refl) (λ e. Keeps-raise _ _)))
              λ u.
                Leads-map _ (Leads-bind _ _ (rpc-Leads ix) λ sig. record { at = λ p e. e })
                  (λ p e. rw e (Submitted.one h))

    attempt-Leads : Leads Start Fine (attempt s address args)
    unfolding attempt instruction_of rand_u64 request_seeds
    attempt-Leads = Leads-lift weaken _ _ λ payer own. Leads-lift weaken _ _ λ program known.
        Leads-then weaken _ _ (quiet _ _ refl) λ millis. Leads-lift weaken _ _ λ mint mint_read.
          Leads-known weaken _ _ (ensure-Keeps _ _ _ _) λ p1 user ensured1.
            Leads-known weaken _ _ (ensure-Keeps _ _ _ _) λ p2 escrow ensured2.
              Leads-lift weaken _ _ λ plan plan_read.
                Leads-then weaken _ _ (Ends-bind _ _ (quiet _ _ refl) λ words. Ends-pure _)
                  λ offset. Leads-then weaken _ _ (quiet _ _ refl) λ client_pub.
                    Leads-then weaken _ _ (quiet _ _ refl) λ nonce.
                      Leads-lift weaken _ _ λ base recipient_read.
                        Leads-lift weaken _ _ λ amount amount_read.
                          submit-Leads args.skip_sim _ (record {
                            base = base;
                            payer = payer;
                            program = program;
                            amount_read = amount_read;
                            recipient_read = recipient_read;
                            tags = refl;
                            small = mod-lt millis (omega arith);
                            own = own;
                            known = known;
                            mint_text = text_or s args.spl_mint s.spl_mint_env;
                            which = chosen_mint args.spl_mint refl;
                            mint_read = mint_read;
                            plan = plan;
                            plan_read = plan_read;
                            signs = refl;
                            user_token = ensured _ _ _ _ p1 ensured1;
                            escrow_token = ensured _ _ _ _ p2 ensured2;
                            config = refl;
                            request = refl;
                            signer = refl;
                            mxe = refl;
                            mempool = refl;
                            executing = refl;
                            computation = refl;
                            definition = refl;
                            cluster = refl;
                            pool = refl;
                            clock = refl;
                            user_first = user.1;
                            escrow_first = escrow.1;
                            user_creation = created _ _ _ _ p1 ensured1;
                            escrow_creation = created _ _ _ _ p2 ensured2;
                            first = refl;
                            arcium = refl;
                          })

    tried-Leads :
        (p : Page)
        → sent p.calls ≡ before
        → Submitted before (sent (initiate s true (some address) args p).1.calls)
    unfolding initiate stop_loading cleared set_error
    tried-Leads p e = elim (Bool-cases (is_empty address)) [
      | inl missing ↦ rw missing (weaken p e)
      | inr there ↦ rw there (
          (Leads-try (attempt s address args) (set_error s address args) attempt-Leads
              (λ err. record { at = λ p q. q })).at
            _ e)
    ]

  -- However it ends, the page's `initiate` sends nothing, or one instruction (`Intended`): it carries
  -- the amount that was typed and the tags of the recipient that was typed, under an id below 2^32;
  -- and each of its sixteen accounts is the one that belongs to the wallet, the mint that was typed or
  -- configured, the program, and the instruction's own id and offset; and what runs first
  -- creates at most the two token accounts among them.
  pub sends_what_was_typed :
      (p : Page) → Submitted (sent p.calls) (sent (initiate s true (some address) args p).1.calls)
  sends_what_was_typed p = tried-Leads (sent p.calls) p refl
