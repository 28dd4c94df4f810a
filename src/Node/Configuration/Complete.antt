-- ===== src/Node/Configuration/Complete.antt =====
-- Which configurations the node starts with.
use mathlib.Core.Path.{subst, sym}
use lunarys_bridge.Prelude.{
  ◌≤◌, ltb, ◌≢◌, Option, none, some, drop, true, ◌≡◌, refl, ap, ◌∙◌, ◌||◌, ◌↔◌, false, inl, inr,
  List, [], ◌∷◌, length, All, arith, Bool-cases,
}
use lunarys_bridge.Prelude.Prefix.{starts_with-drop, starts_with-append}
use lunarys_bridge.Prelude.Text.{Text, lit, is_empty, starts_with}
use lunarys_bridge.Prelude.Effect.{ok, thrown-ne-ok, ok-injective}
use lunarys_bridge.Node.Configuration.{
  Env, NodeConfig, or_default, with_0x, read_config, require_all, required, check_config,
  configuration,
}

abbrev Present : Text × Text → Type 0
Present (name, value) = is_empty value ≡ false

require_all-ok :
    (rs : List (Text × Text)) (cfg : NodeConfig) {c : NodeConfig}
    → require_all rs cfg ≡ ok c
    → (cfg ≡ c) × All Present rs
unfolding require_all
require_all-ok [] cfg h = (ok-injective h, tt)
require_all-ok ((name, value) ∷ rs) cfg h = elim (Bool-cases (is_empty value)) [
  | inl missing ↦ absurd (thrown-ne-ok (rw missing at h))
  | inr present ↦
      (let (same, rest) = require_all-ok rs cfg (rw present at h) in (same, (present, rest)))
]

ok-require_all :
    (rs : List (Text × Text)) (cfg : NodeConfig) → All Present rs → require_all rs cfg ≡ ok cfg
unfolding require_all
ok-require_all [] cfg h = refl
ok-require_all ((name, value) ∷ rs) cfg (present, h) = rw present (ok-require_all rs cfg h)

-- A variable that is set, to a text that is not empty.
abbrev pub Given : Option Text → Text → Type 0
Given variable value = (variable ≡ some value) × (value ≢ [])

-- The key: the variable's text itself where that begins with `0x`, and else that text behind `0x`;
-- ten characters or more.
pub data KeyFrom (variable : Option Text) : Text → Type 0 where
  as_set :
      {t : Text}
      → variable ≡ some (b'0' ∷ b'x' ∷ t)
      → 10 ≤ length (b'0' ∷ b'x' ∷ t)
      → KeyFrom variable (b'0' ∷ b'x' ∷ t)
  prefixed :
      {s : Text}
      → variable ≡ some s
      → ((t : Text) → s ≢ b'0' ∷ b'x' ∷ t)
      → 10 ≤ length (b'0' ∷ b'x' ∷ s)
      → KeyFrom variable (b'0' ∷ b'x' ∷ s)

-- What has to be in the environment, and stands in the configuration.
pub record Complete (env : Env) (cfg : NodeConfig) : Type 0 where
  pub ethereum_private_key : KeyFrom (env (lit "ETHEREUM_PRIVATE_KEY")) cfg.ethereum_private_key
  pub solana_private_key : Given (env (lit "SOLANA_PRIVATE_KEY")) cfg.solana_private_key
  pub solana_program_id : Given (env (lit "SOLANA_PROGRAM_ID")) cfg.solana_program_id
  pub fhevm_acl_address : Given (env (lit "FHEVM_ACL_ADDRESS")) cfg.fhevm_acl_address
  pub fhevm_kms_verifier_address :
      Given (env (lit "FHEVM_KMS_VERIFIER_ADDRESS")) cfg.fhevm_kms_verifier_address
  pub arcium_mxe_program_id : Given (env (lit "ARCIUM_MXE_PROGRAM_ID")) cfg.arcium_mxe_program_id
  pub arcium_comp_def_reseal_pda :
      Given (env (lit "ARCIUM_COMPDEF_RESEAL_PDA")) cfg.arcium_comp_def_reseal_pda
  pub arcium_cluster_pda : Given (env (lit "ARCIUM_CLUSTER_PDA")) cfg.arcium_cluster_pda
  pub arcium_fee_pool : Given (env (lit "ARCIUM_FEE_POOL")) cfg.arcium_fee_pool
  pub arcium_clock : Given (env (lit "ARCIUM_CLOCK")) cfg.arcium_clock

or_default-Given :
    (o : Option Text) → is_empty (or_default o []) ≡ false → Given o (or_default o [])
or_default-Given none h = absurd (cc)
or_default-Given (some []) h = absurd (cc)
or_default-Given (some (c ∷ s)) h = (refl, λ e. cc)

key_as_set :
    (s : Text) → starts_with (b'0' ∷ b'x' ∷ []) s ≡ true → 10 ≤ length s → KeyFrom (some s) s
key_as_set s led long =
    let e : s ≡ b'0' ∷ b'x' ∷ drop 2 s = starts_with-drop (b'0' ∷ b'x' ∷ []) s led in
    subst (λ k. KeyFrom (some k) k) (sym e) (as_set refl (subst (λ k. 10 ≤ length k) e long))

not_led : (s : Text) → starts_with (b'0' ∷ b'x' ∷ []) s ≡ false → (t : Text) → s ≢ b'0' ∷ b'x' ∷ t
not_led s bare t e =
    false_ne
      (sym bare ∙ ap (starts_with (b'0' ∷ b'x' ∷ [])) e ∙ starts_with-append (b'0' ∷ b'x' ∷ []) t)
  where
    false_ne : false ≡ true → ⊥
    false_ne h = cc

with_0x-KeyFrom :
    (o : Option Text)
    → 10 ≤ length (with_0x (or_default o []))
    → KeyFrom o (with_0x (or_default o []))
unfolding with_0x starts_with
with_0x-KeyFrom none h = absurd (omega (arith, h))
with_0x-KeyFrom (some s) h = elim (Bool-cases (starts_with (b'0' ∷ b'x' ∷ []) s)) [
  | inl led ↦ rw led (key_as_set s led (rw led at h))
  | inr bare ↦ rw bare (prefixed refl (not_led s bare) (rw bare at h))
]

given_present : (value : Text) → value ≢ [] → is_empty value ≡ false
given_present [] ne = absurd (ne refl)
given_present (c ∷ s) ne = refl

KeyFrom-long : {o : Option Text} {key : Text} → KeyFrom o key → 10 ≤ length key
KeyFrom-long (as_set e long) = long
KeyFrom-long (prefixed e bare long) = long

check_config-Complete :
    (env : Env) {c : NodeConfig}
    → check_config (read_config env) ≡ ok c
    → (read_config env ≡ c) × Complete env (read_config env)
unfolding check_config read_config required
check_config-Complete env h =
    elim (Bool-cases (
      is_empty (read_config env).ethereum_private_key
      || ltb (length (read_config env).ethereum_private_key) 10)) [
        | inl missing ↦ absurd (thrown-ne-ok (rw missing at h))
        | inr present ↦
            (let (same, (p1, (p2, (p3, (p4, (p5, (p6, (p7, (p8, (p9, _)))))))))) =
                require_all-ok (required (read_config env)) (read_config env) (rw present at h) in
              (
                same,
                record {
                  ethereum_private_key = with_0x-KeyFrom _ (ground arith);
                  solana_private_key = or_default-Given _ p1;
                  solana_program_id = or_default-Given _ p2;
                  fhevm_acl_address = or_default-Given _ p3;
                  fhevm_kms_verifier_address = or_default-Given _ p4;
                  arcium_mxe_program_id = or_default-Given _ p5;
                  arcium_comp_def_reseal_pda = or_default-Given _ p6;
                  arcium_cluster_pda = or_default-Given _ p7;
                  arcium_fee_pool = or_default-Given _ p8;
                  arcium_clock = or_default-Given _ p9;
                },
              ))
      ]

long_key : (s : Text) → 10 ≤ length s → (is_empty s || ltb (length s) 10) ≡ false
long_key [] h = absurd (omega arith)
long_key (c ∷ s) h = ground arith

Complete-check_config :
    (env : Env) (cfg : NodeConfig) → Complete env cfg → check_config cfg ≡ ok cfg
unfolding check_config required
Complete-check_config env cfg c =
    rw (long_key cfg.ethereum_private_key (KeyFrom-long c.ethereum_private_key)) (
      ok-require_all (required cfg) cfg (
        given_present _ c.solana_private_key.1,
        (
          given_present _ c.solana_program_id.1,
          (
            given_present _ c.fhevm_acl_address.1,
            (
              given_present _ c.fhevm_kms_verifier_address.1,
              (
                given_present _ c.arcium_mxe_program_id.1,
                (
                  given_present _ c.arcium_comp_def_reseal_pda.1,
                  (
                    given_present _ c.arcium_cluster_pda.1,
                    (given_present _ c.arcium_fee_pool.1, (given_present _ c.arcium_clock.1, tt)),
                  ),
                ),
              ),
            ),
          ),
        ),
      ))

-- `configuration` returns exactly the configuration that it reads from the environment, and only
-- where nine variables, from SOLANA_PRIVATE_KEY to ARCIUM_CLOCK, are set to texts that are not empty,
-- which the configuration then holds, and where its key is the text of ETHEREUM_PRIVATE_KEY, with
-- `0x` in front where that is missing, of ten characters or more.
pub configuration_iff :
    (env : Env) (cfg : NodeConfig)
    → (configuration env ≡ ok cfg) ↔ ((read_config env ≡ cfg) × Complete env cfg)
unfolding configuration
configuration_iff env cfg = (
  λ h.
      (let (same, complete) = check_config-Complete env h in
        (same, subst (Complete env) same complete)),
  λ (same, complete). ap check_config same ∙ Complete-check_config env cfg complete,
)
