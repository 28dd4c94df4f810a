-- ===== src/Node/SolanaProgram/Claimed.antt =====
-- What the bridge's program reads of the claim that the node sends.
use lunarys_bridge.Prelude.{
  ℕ, ◌^◌, ◌<◌, ltb, ltb→lt, sym, ◌==◌, ◌≡◌, refl, ap, ◌∙◌, some, List, [], ◌∷◌, ◌++◌, length, take,
  drop, get_elem?, select, arith, inl, inr, Bool-cases, ==_iff,
}
use lunarys_bridge.Prelude.Int.{ℤ, pos, negsuc}
use lunarys_bridge.Prelude.Lists.Parts.{length-take, drop-append}
use lunarys_bridge.Prelude.Text.{Text, lit}
use lunarys_bridge.Prelude.Bytes.{le_bytes, le_value, le_value-le_bytes}
use lunarys_bridge.Prelude.Effect.{ok, ok-injective, thrown-ne-ok}
use lunarys_bridge.Prelude.Effect.Ends.{Keeps-raise}
use lunarys_bridge.Prelude.Effect.Leads.{Leads, Leads-lift, Leads-Keeps, Leads-map}
use lunarys_bridge.Node.SolanaProgram.{
  Transaction, SolanaProgramService, writable, signer, anchor_ix_disc, u64_le, address_of,
  claim_keys, claim_data, send_and_confirm, claim_request,
}

-- The arguments of `claim_bridge`: two numbers of eight bytes, the lowest first, and the rest.
abbrev arguments : List ℕ → ℕ × ℕ × List ℕ
arguments bs = (le_value (take 8 bs), le_value (take 8 (drop 8 bs)), drop 16 bs)

-- As Anchor reads them, behind the eight bytes of the instruction's name.
abbrev pub claim_arguments : List ℕ → ℕ × ℕ × List ℕ
claim_arguments bs = arguments (drop 8 bs)

u64_le-value :
    (z : ℤ) {bs : List ℕ}
    → u64_le z ≡ ok bs
    → (n : ℕ) × (z ≡ pos n) × (n < 2 ^ 64) × (bs ≡ le_bytes 8 n)
unfolding u64_le
u64_le-value (pos n) h = elim (Bool-cases (ltb n (2 ^ 64))) [
  | inl small ↦ (n, refl, ltb→lt n (2 ^ 64) small, sym (ok-injective (rw small at h)))
  | inr large ↦ absurd (thrown-ne-ok (rw large at h))
]
u64_le-value (negsuc n) h = absurd (thrown-ne-ok h)

value_fits : (n : ℕ) → n < 2 ^ 64 → le_value (le_bytes 8 n) ≡ n
value_fits n h = omega (arith, (le_value-le_bytes n).0)

arguments_read :
    (m n : ℕ) (key : List ℕ)
    → m < 2 ^ 64
    → n < 2 ^ 64
    → arguments (le_bytes 8 m ++ (le_bytes 8 n ++ key)) ≡ (m, n, key)
unfolding le_bytes
arguments_read m n key h k =
    ap (λ a. (a, le_value (le_bytes 8 n), key)) (value_fits m h)
    ∙ ap (λ b. (m, b, key)) (value_fits n k)

module _ (s : SolanaProgramService) (id : ℤ) (owner : Text) (offset : ℤ) (solver_key : List ℕ) where
  -- The claim of the request `id` of `owner`: the program reads the offset, the id and the key that
  -- the node was given; the third account is that request's, and the wallet alone signs.
  pub record Claims (tx : Transaction) : Type 0 where
    pub n : ℕ
    pub m : ℕ
    pub id_fits : (id ≡ pos n) × (n < 2 ^ 64)
    pub offset_fits : (offset ≡ pos m) × (m < 2 ^ 64)
    pub key_fits : length solver_key ≡ 32
    pub program : tx.instruction.program_id ≡ s.bridge_program_id
    pub read : claim_arguments tx.instruction.ix_data ≡ (m, n, solver_key)
    pub request :
        get_elem? tx.instruction.keys 2
        ≡ some (
            writable
              (address_of s (lit "request" ∷ s.services.key_bytes owner ∷ le_bytes 8 n ∷ [])))
    pub signed : select (λ k. k.is_signer) tx.instruction.keys ≡ signer s.wallet ∷ []

  pub data Claimed (before : List Transaction) : List Transaction → Type 0 where
    unclaimed : Claimed before before
    claimed : {tx : Transaction} → Claims tx → Claimed before (tx ∷ before)

  module _ (digest : (text : List ℕ) → length (s.services.sha256 text) ≡ 32) where
    name_bytes : length (anchor_ix_disc s (lit "claim_bridge")) ≡ 8
    unfolding anchor_ix_disc
    name_bytes =
        length-take 8 (s.services.sha256 (lit "global:" ++ lit "claim_bridge"))
          (omega (arith, digest (lit "global:" ++ lit "claim_bridge")))

    reads_back :
        (m n : ℕ)
        → m < 2 ^ 64
        → n < 2 ^ 64
        → claim_arguments (claim_data s (le_bytes 8 m) (le_bytes 8 n) solver_key)
          ≡ (m, n, solver_key)
    unfolding claim_data
    reads_back m n small_m small_n =
        let name = anchor_ix_disc s (lit "claim_bridge") in
        let args = le_bytes 8 m ++ (le_bytes 8 n ++ solver_key) in
        ap arguments (
          ap (λ l. drop l (name ++ args)) {x = 8} (omega (arith, name_bytes))
          ∙ drop-append name args 0)
        ∙ arguments_read m n solver_key small_m small_n

    unsent : (before sent : List Transaction) → sent ≡ before → Claimed before sent
    unsent before sent e = rw e Claimed.unclaimed

    sends-Leads :
        (before : List Transaction) (id_bytes : List ℕ) (reseal : ℕ) (offset_bytes : List ℕ)
        → (n : ℕ) × (id ≡ pos n) × (n < 2 ^ 64) × (id_bytes ≡ le_bytes 8 n)
        → (m : ℕ) × (offset ≡ pos m) × (m < 2 ^ 64) × (offset_bytes ≡ le_bytes 8 m)
        → length solver_key ≡ 32
        → Leads
            (λ sent. sent ≡ before)
            (Claimed before)
            (send_and_confirm s (record {
              compute_units = 400000;
              instruction = record {
                program_id = s.bridge_program_id;
                keys = claim_keys s id_bytes owner offset reseal;
                ix_data = claim_data s offset_bytes id_bytes solver_key;
              };
            }))
    unfolding send_and_confirm claim_keys
    sends-Leads before id_bytes reseal offset_bytes (n, id_is, small_n, id_e)
          (m, offset_is, small_m, offset_e) h =
        record {
          at = λ sent e. rw e (
              Claimed.claimed (record {
                n = n;
                m = m;
                id_fits = (id_is, small_n);
                offset_fits = (offset_is, small_m);
                key_fits = h;
                program = refl;
                read = rw (id_e, offset_e) (reads_back m n small_m small_n);
                request = rw id_e refl;
                signed = refl;
              }));
        }

    claim-Leads :
        (before : List Transaction)
        → Leads
            (λ sent. sent ≡ before)
            (Claimed before)
            (claim_request s id owner offset solver_key)
    unfolding claim_request
    claim-Leads before = elim (Bool-cases (length solver_key == 32)) [
      | inr short ↦ rw short (Leads-map _ (Leads-Keeps _ (Keeps-raise _ _)) (unsent before))
      | inl whole ↦ rw whole (
          Leads-lift (unsent before) _ _ λ id_bytes id_read.
            Leads-lift (unsent before) _ _ λ reseal known.
              Leads-lift (unsent before) _ _ λ offset_bytes offset_read.
                sends-Leads before id_bytes reseal offset_bytes (u64_le-value id id_read)
                  (u64_le-value offset offset_read) ((==_iff (length solver_key) 32).0 whole))
    ]

    -- Whatever the chain answers, `claimRequest` sends nothing, or one claim (`Claims`): the bridge's
    -- program reads from its bytes the offset, the id and the key that were given, all of which fit
    -- their widths, its third account is the request of that id and owner, and the node's wallet
    -- alone signs it. The digests of SHA-256 are taken to have 32 bytes.
    pub program_reads_claim :
        (before : List Transaction)
        → Claimed before (claim_request s id owner offset solver_key before).1
    program_reads_claim before = (claim-Leads before).at before refl
