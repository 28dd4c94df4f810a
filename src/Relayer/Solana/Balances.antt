-- ===== src/Relayer/Solana/Balances.antt =====
-- `sumOwnerMint` of relayer/src/sol/sol.service.ts, and the balances of native SOL.
use mathlib.Core.Path.{subst}
use lunarys_bridge.Prelude.{
  ℕ, suc, ◌≡◌, ◌≢◌, ◌⊎◌, ◌↔◌, refl, Bool, true, false, Option, none, some, List, [], ◌∷◌, ◌&&◌,
  get_elem?, select, inl, inr, ◌∙◌, ap, Bool-cases, arith, if◌then◌else◌,
}
use lunarys_bridge.Prelude.Int.{ℤ, pos, ◌+ℤ◌, int_laws}
use lunarys_bridge.Prelude.Text.{Text, lit, text_eq, text_eq_iff}
use lunarys_bridge.Prelude.Numeral.{big_int}
use lunarys_bridge.Prelude.Effect.{Result, ok, thrown, syntax, ok-injective, thrown-ne-ok}
use lunarys_bridge.Relayer.Chain.{TokenBalance}

abbrev pub is_text : Option Text → Text → Bool
is_text none t = false
is_text (some s) t = text_eq s t

-- `b?.owner === owner && b?.mint === mint`
unfoldable pub belongs : Text → Text → TokenBalance → Bool
belongs owner mint b = is_text b.owner owner && is_text b.mint mint

-- `BigInt(b?.uiTokenAmount?.amount ?? '0')`
abbrev or_syntax : Option ℤ → Result ℤ
or_syntax none = thrown (record { kind = syntax; message = lit "Cannot convert to a BigInt" })
or_syntax (some z) = ok z

unfoldable pub amount_of : TokenBalance → Result ℤ
amount_of b = elim b.amount [ none ↦ ok (pos 0) | some s ↦ or_syntax (big_int s) ]

-- `.map(…)`: the first amount that is no bigint throws.
unfoldable pub amounts : List TokenBalance → Result (List ℤ)
amounts [] = ok []
amounts (b ∷ bs) = elim (amount_of b) [
  | thrown e ↦ thrown e
  | ok z ↦ elim (amounts bs) [ thrown e ↦ thrown e | ok zs ↦ ok (z ∷ zs) ]
]

-- `.reduce((a, b) => a + b, 0n)`
unfoldable pub reduce : ℤ → List ℤ → ℤ
reduce acc [] = acc
reduce acc (z ∷ zs) = reduce (acc +ℤ z) zs

abbrev pub reduced : Result (List ℤ) → Result ℤ
reduced (thrown e) = thrown e
reduced (ok zs) = ok (reduce (pos 0) zs)

abbrev pub or_empty : {A : Type 0} → Option (List A) → List A
or_empty none = []
or_empty (some bs) = bs

unfoldable pub sum_owner_mint : Option (List TokenBalance) → Text → Text → Result ℤ
sum_owner_mint balances owner mint =
    reduced (amounts (select (belongs owner mint) (or_empty balances)))

-- `accountKeys.findIndex(k => key === owner)`, where `none` is -1.
abbrev shifted : Option ℕ → Option ℕ
shifted none = none
shifted (some i) = some (suc i)

unfoldable pub find_index : Text → List Text → Option ℕ
find_index key [] = none
find_index key (k ∷ ks) = if text_eq k key then some 0 else shifted (find_index key ks)

-- `balances?.[i] ?? 0`
abbrev pub balance_at : List ℕ → ℕ → ℕ
balance_at bs i = elim (get_elem? bs i) [ none ↦ 0 | some n ↦ n ]

-- The number that an entry's amount stands for: 0 where there is none.
pub data Amounts : Option Text → ℤ → Type 0 where
  missing : Amounts none (pos 0)
  written : {s : Text} {z : ℤ} → big_int s ≡ some z → Amounts (some s) z

-- What the entries of one owner and mint add up to, as a relation that goes entry by entry.
pub data TotalIs (owner mint : Text) : List TokenBalance → ℤ → Type 0 where
  none_left : TotalIs owner mint [] (pos 0)
  counted :
      {b : TokenBalance} {bs : List TokenBalance} {z rest total : ℤ}
      → b.owner ≡ some owner
      → b.mint ≡ some mint
      → Amounts b.amount z
      → TotalIs owner mint bs rest
      → total ≡ z +ℤ rest
      → TotalIs owner mint (b ∷ bs) total
  skipped :
      {b : TokenBalance} {bs : List TokenBalance} {total : ℤ}
      → (b.owner ≢ some owner) ⊎ (b.mint ≢ some mint)
      → TotalIs owner mint bs total
      → TotalIs owner mint (b ∷ bs) total

amount_of-Amounts : (b : TokenBalance) {z : ℤ} → amount_of b ≡ ok z → Amounts b.amount z
unfolding amount_of
amount_of-Amounts b {z} h = go b.amount h
  where
    number : (s : Text) (o : Option ℤ) → big_int s ≡ o → or_syntax o ≡ ok z → big_int s ≡ some z
    number s none p h = absurd (thrown-ne-ok h)
    number s (some k) p h = p ∙ ap some (ok-injective h)

    go :
        (o : Option Text)
        → elim o [ none ↦ ok (pos 0) | some s ↦ or_syntax (big_int s) ] ≡ ok z
        → Amounts o z
    go none h = subst (Amounts none) (ok-injective h) missing
    go (some s) h = written (number s (big_int s) refl h)

is_text_iff : (o : Option Text) (t : Text) → (is_text o t ≡ true) ↔ (o ≡ some t)
is_text_iff none t = (λ h. absurd (cc), λ e. absurd (cc))
is_text_iff (some s) t =
    (λ h. ap some ((text_eq_iff s t).0 h), λ e. (text_eq_iff s t).1 (unwrapped e))
  where
    unwrapped : some s ≡ some t → s ≡ t
    unwrapped e = cc

belongs-yes :
    (owner mint : Text) (b : TokenBalance)
    → belongs owner mint b ≡ true
    → (b.owner ≡ some owner) × (b.mint ≡ some mint)
unfolding belongs
belongs-yes owner mint b h = (
  (is_text_iff b.owner owner).0 (ground (arith, h)),
  (is_text_iff b.mint mint).0 (ground (arith, h)),
)

belongs-no :
    (owner mint : Text) (b : TokenBalance)
    → belongs owner mint b ≡ false
    → (b.owner ≢ some owner) ⊎ (b.mint ≢ some mint)
unfolding belongs
belongs-no owner mint b h = elim (Bool-cases (is_text b.owner owner)) [
  | inl its ↦ inr λ e. let m = (is_text_iff b.mint mint).1 e in ground (arith, h, its, m)
  | inr foreign ↦ inl λ e. let m = (is_text_iff b.owner owner).1 e in cc
]

reduce-acc : (zs : List ℤ) (acc : ℤ) → reduce acc zs ≡ acc +ℤ reduce (pos 0) zs
unfolding reduce
reduce-acc [] acc = omega int_laws
reduce-acc (z ∷ zs) acc = rw (reduce-acc zs (acc +ℤ z), reduce-acc zs (pos 0 +ℤ z)) (omega int_laws)

reduce-cons : (z : ℤ) (rest : List ℤ) → reduce (pos 0) (z ∷ rest) ≡ z +ℤ reduce (pos 0) rest
unfolding reduce
reduce-cons z rest = rw (reduce-acc rest (pos 0 +ℤ z)) (omega int_laws)

amounts-cons :
    (b : TokenBalance) (bs : List TokenBalance) {zs : List ℤ}
    → amounts (b ∷ bs) ≡ ok zs
    → (z : ℤ) × (rest : List ℤ) × (amount_of b ≡ ok z) × (amounts bs ≡ ok rest) × (zs ≡ z ∷ rest)
unfolding amounts
amounts-cons b bs {zs} h = go (amount_of b) refl (amounts bs) refl
  where
    go :
        (r : Result ℤ)
        → amount_of b ≡ r
        → (s : Result (List ℤ)) → amounts bs ≡ s
        → (z : ℤ) × (rest : List ℤ) × (amount_of b ≡ ok z)
          × (amounts bs ≡ ok rest)
          × (zs ≡ z ∷ rest)
    go (thrown e) p s q = absurd (ground arith)
    go (ok z) p (thrown e) q = absurd (ground arith)
    go (ok z) p (ok rest) q = (z, rest, p, q, ground arith)

amounts-nil : {zs : List ℤ} → amounts [] ≡ ok zs → [] ≡ zs
unfolding amounts
amounts-nil h = cc

amounts-TotalIs :
    (owner mint : Text) (bs : List TokenBalance) (zs : List ℤ)
    → amounts (select (belongs owner mint) bs) ≡ ok zs
    → TotalIs owner mint bs (reduce (pos 0) zs)
unfolding reduce
amounts-TotalIs owner mint [] zs h =
    subst (TotalIs owner mint []) (ap (reduce (pos 0)) (amounts-nil h)) none_left
amounts-TotalIs owner mint (b ∷ bs) zs h = elim (Bool-cases (belongs owner mint b)) [
  | inl mine ↦
      (let (z, rest, p, q, e) =
          amounts-cons b (select (belongs owner mint) bs) {zs = zs} (rw mine at h) in
        let (who, what) = belongs-yes owner mint b mine in
        counted who what (amount_of-Amounts b p) (amounts-TotalIs owner mint bs rest q)
          (ap (reduce (pos 0)) e ∙ reduce-cons z rest))
  | inr other ↦
      skipped (belongs-no owner mint b other) (amounts-TotalIs owner mint bs zs (rw other at h))
]

-- A sum that `sumOwnerMint` returns is the total of the amounts of those entries that name this owner
-- and this mint, each read as a number, and counted as 0 where it is missing.
pub sum_owner_mint-TotalIs :
    (owner mint : Text) (balances : Option (List TokenBalance)) (total : ℤ)
    → sum_owner_mint balances owner mint ≡ ok total
    → TotalIs owner mint (or_empty balances) total
unfolding sum_owner_mint
sum_owner_mint-TotalIs owner mint balances total h =
    go (amounts (select (belongs owner mint) (or_empty balances))) refl
  where
    go :
        (r : Result (List ℤ))
        → amounts (select (belongs owner mint) (or_empty balances)) ≡ r
        → TotalIs owner mint (or_empty balances) total
    go (thrown e) p = absurd (ground arith)
    go (ok zs) p =
        let same : total ≡ reduce (pos 0) zs = ground arith in
        rw same (amounts-TotalIs owner mint (or_empty balances) zs p)
