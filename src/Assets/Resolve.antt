-- ===== src/Assets/Resolve.antt =====
-- How a transfer's asset is resolved (packages/shared/src/domain/asset.ts).
use crypto_payment.Payments.Confirmations.{same_hash, same_codes, to_lower_case}
use crypto_payment.Prelude.{
  ℕ, not, every, ◌↔◌, ◌⊎◌, ◌∙◌, sym, ◌==◌, ==_iff, String, Bool, true, false, ◌&&◌, Option, none,
  some, List, [], ◌∷◌, find, ◌≡◌, refl, str_eq, eq_iff, if◌then◌else◌, inl, inr, Bool-cases,
}
use crypto_payment.Assets.{
  AssetConfig, asset_list, if_enabled, find_native_asset, find_asset_by_contract,
  resolve_transfer_asset, has_contract, is_native,
}

both : {x y : Bool} → (x && y) ≡ true → (x ≡ true) × (y ≡ true)
both {x = true} h = (refl, h)
both {x = false} h = cc h

enabled-passes :
    (test : AssetConfig → Bool) (x : AssetConfig) {a : AssetConfig}
    → test x ≡ true
    → (if x.enabled then some x else none) ≡ some a
    → (test a ≡ true) × (a.enabled ≡ true)
enabled-passes test x {a} e h = elim (Bool-cases x.enabled) [
  | inl on ↦ let same : x ≡ a = cc (rw on at h) in rw (← same) (e, on)
  | inr off ↦ let absurd : none ≡ some a = rw off at h in cc absurd
]

find-passes :
    (test : AssetConfig → Bool) (xs : List AssetConfig) {a : AssetConfig}
    → if_enabled (find test xs) ≡ some a
    → (test a ≡ true) × (a.enabled ≡ true)
find-passes test [] h = cc h
find-passes test (x ∷ xs) {a} h = elim (Bool-cases (test x)) [
  | inl e ↦ enabled-passes test x e (rw e at h)
  | inr e ↦ find-passes test xs (rw e at h)
]

-- The contract of a transfer and that of an asset are the same up to the case of letters, or both are
-- none.
abbrev pub same_contract : Option String → Option String → Bool
same_contract none address = is_native address
same_contract (some contract) address = has_contract contract address

abbrev pub IsIn : AssetConfig → List AssetConfig → Type 0
IsIn a [] = ⊥
IsIn a (x ∷ xs) = (a ≡ x) ⊎ IsIn a xs

same_codes_iff : (xs ys : List ℕ) → (same_codes xs ys ≡ true) ↔ (xs ≡ ys)
same_codes_iff [] [] = (λ h. refl, λ h. refl)
same_codes_iff [] (y ∷ ys) = (λ h. cc h, λ h. cc h)
same_codes_iff (x ∷ xs) [] = (λ h. cc h, λ h. cc h)
same_codes_iff (x ∷ xs) (y ∷ ys) =
    let (forth, back) = same_codes_iff xs ys in
    (
      λ h.
          let (head, tail) = both {x = x == y} h in
          let heads = (==_iff x y).0 head in let tails = forth tail in cc (heads, tails),
      λ h.
          let heads : x ≡ y = cc h in
          let tails : xs ≡ ys = cc h in rw ((==_iff x y).1 heads) (back tails),
    )

-- Two assets of one network with one contract.
abbrev clash : AssetConfig → AssetConfig → Bool
clash x y = str_eq x.network y.network && same_contract x.contract_address y.contract_address

abbrev test : String → Option String → AssetConfig → Bool
test network contract x = str_eq x.network network && same_contract contract x.contract_address

contracts-clash :
    (contract a b : Option String)
    → same_contract contract a ≡ true
    → same_contract contract b ≡ true
    → same_contract a b ≡ true
unfolding same_hash
contracts-clash none none none p q = refl
contracts-clash none none (some b) p q = cc q
contracts-clash none (some a) b p q = cc p
contracts-clash (some c) none b p q = cc p
contracts-clash (some c) (some a) none p q = cc q
contracts-clash (some c) (some a) (some b) p q =
    let p' = (same_codes_iff (to_lower_case a) (to_lower_case c)).0 p in
    let q' = (same_codes_iff (to_lower_case b) (to_lower_case c)).0 q in
    (same_codes_iff (to_lower_case b) (to_lower_case a)).1 (q' ∙ sym p')

test-clash :
    (network : String) (contract : Option String) (x y : AssetConfig)
    → test network contract x ≡ true
    → test network contract y ≡ true
    → clash x y ≡ true
test-clash network contract x y p q =
    let (p_network, p_contract) = both {x = str_eq x.network network} p in
    let (q_network, q_contract) = both {x = str_eq y.network network} q in
    let same : x.network ≡ y.network =
      (eq_iff x.network network).0 p_network ∙ sym ((eq_iff y.network network).0 q_network) in
    rw ((eq_iff x.network y.network).1 same)
      (contracts-clash contract x.contract_address y.contract_address p_contract q_contract)

-- No two assets of a list clash.
abbrev apart : List AssetConfig → Bool
apart [] = true
apart (x ∷ xs) = every (λ y. not (clash x y)) xs && apart xs

asset_list-apart : apart asset_list ≡ true
unfolding same_hash to_lower_case
asset_list-apart = refl

every-IsIn :
    (p : AssetConfig → Bool) (xs : List AssetConfig) (a : AssetConfig)
    → every p xs ≡ true
    → IsIn a xs
    → p a ≡ true
every-IsIn p [] a h i = absurd i
every-IsIn p (x ∷ xs) a h (inl e) = rw e (both {x = p x} h).0
every-IsIn p (x ∷ xs) a h (inr i) = every-IsIn p xs a (both {x = p x} h).1 i

find-apart :
    (network : String) (contract : Option String) (xs : List AssetConfig) (a : AssetConfig)
    → apart xs ≡ true
    → IsIn a xs
    → test network contract a ≡ true
    → find (test network contract) xs ≡ some a
find-apart network contract [] a h i p = absurd i
find-apart network contract (x ∷ xs) a h (inl e) p = rw (← e, p) refl
find-apart network contract (x ∷ xs) a h (inr i) p =
    let (away, rest) = both {x = every (λ y. not (clash x y)) xs} h in
    elim (Bool-cases (test network contract x)) [
      | inl q ↦
          let no_clash = every-IsIn (λ y. not (clash x y)) xs a away i in
          cc (rw (test-clash network contract x a q p) at no_clash)
      | inr q ↦ rw q (find-apart network contract xs a rest i p)
    ]

find-IsIn :
    (p : AssetConfig → Bool) (xs : List AssetConfig) (a : AssetConfig)
    → if_enabled (find p xs) ≡ some a
    → IsIn a xs
find-IsIn p [] a h = cc h
find-IsIn p (x ∷ xs) a h = elim (Bool-cases (p x)) [
  | inl e ↦ elim (Bool-cases x.enabled) [
    | inl on ↦ let same : x ≡ a = cc (rw (e, on) at h) in inl (sym same)
    | inr off ↦ let clash : none ≡ some a = rw (e, off) at h in cc clash
  ]
  | inr e ↦ inr (find-IsIn p xs a (rw e at h))
]

resolve_by_test :
    (network : String) (contract : Option String)
    → resolve_transfer_asset network contract ≡ if_enabled (find (test network contract) asset_list)
unfolding resolve_transfer_asset find_native_asset find_asset_by_contract
resolve_by_test network none = refl
resolve_by_test network (some c) = refl

-- The asset of a transfer is decided by the allowlist, never by a symbol: the resolution gives an asset
-- exactly when the asset is in the list, is enabled, is of the transfer's network, and has the
-- transfer's contract up to the case of the letters, or both have none.
pub resolve_transfer_asset_iff :
    (network : String) (contract : Option String) (a : AssetConfig)
    → (resolve_transfer_asset network contract ≡ some a) ↔ (
        IsIn a asset_list
        × (a.enabled ≡ true)
        × (a.network ≡ network)
        × (same_contract contract a.contract_address ≡ true))
resolve_transfer_asset_iff network contract a = (
  λ h.
      let found = sym (resolve_by_test network contract) ∙ h in
      let (passes, on) = find-passes (test network contract) asset_list {a = a} found in
      let (same, address) = both {x = str_eq a.network network} passes in
      (
        find-IsIn (test network contract) asset_list a found,
        on,
        (eq_iff a.network network).0 same,
        address,
      ),
  λ (listed, on, same, address).
      let passes : test network contract a ≡ true =
        rw ((eq_iff a.network network).1 same) address in
      resolve_by_test network contract
      ∙ rw (find-apart network contract asset_list a asset_list-apart listed passes, on) refl,
)
