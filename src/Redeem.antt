-- ===== src/Redeem.antt =====
-- The redeem codes, pallets/pns-registrar/src/redeem_code.rs. A loop over `u32` takes fuel and has
-- no result when it runs out.
pub mod Range
pub mod Once
use pns_pallets.Base.{
  ℕ, zero, suc, ◌+◌, ◌/◌, ◌%◌, Bool, true, false, Option, none, some, List, [], ◌∷◌, ◌++◌, ltb, leb,
  if◌then◌else◌, wrapping_add, u32_mod,
}
use pns_pallets.Base.Storage.{update}
use pns_pallets.Types.{AccountId, DomainHash, Bytes}
use pns_pallets.Types.Dispatch.{RawOrigin, DispatchError, redeem, RedeemError, Event}
use pns_pallets.Types.Storage.{State}
use pns_pallets.Runtime.{
  Result, ok, err, M, ⊤, Env, ◌>>=◌, ◌>>◌, ensure, ok_or, gets, modify, deposit_event, signed_by,
}
use pns_pallets.Label.{Label, new_with_len, encode_with_node, be_bytes, is_registrable}
use pns_pallets.Registrar.{get_official_account}
use pns_pallets.Registrar.Grant.{for_redeem_code}

abbrev pub reject : RedeemError → DispatchError
reject e = redeem e

-- `while nouce <= end { Redeems::insert(nouce, ()); nouce += 1; }`
unfoldable pub mint_range : ℕ → ℕ → ℕ → (ℕ → Bool) → Option (ℕ → Bool)
mint_range zero nouce end codes = none
mint_range (suc fuel) nouce end codes =
    let rest = mint_range fuel (wrapping_add u32_mod nouce 1) end (update nouce true codes) in
    if leb nouce end then rest else some codes

-- The genesis loop, `while nouce < end`.
unfoldable pub genesis_range : ℕ → ℕ → ℕ → (ℕ → Bool) → Option (ℕ → Bool)
genesis_range zero nouce end codes = none
genesis_range (suc fuel) nouce end codes =
    let rest = genesis_range fuel (wrapping_add u32_mod nouce 1) end (update nouce true codes) in
    if ltb nouce end then rest else some codes

-- `none` when the fuel runs out.
unfoldable pub mint_redeem : Env → ℕ → RawOrigin → ℕ → ℕ → State → Option (Result (⊤ × State))
mint_redeem env fuel origin start end s = elim (env.manager origin s) [
  | err e ↦ some (err e)
  | ok who ↦
      if ltb start end
      then elim (mint_range fuel start end s.redeems) [
        | none ↦ none
        | some codes ↦ some (ok (tt, record s { redeems = codes }))
      ]
      else some (err (reject RedeemError.range_invaild))
]

-- The little-endian bytes of an integer, its SCALE encoding.
le_bytes : ℕ → ℕ → Bytes
le_bytes zero n = []
le_bytes (suc k) n = n % 256 ∷ le_bytes k (n / 256)

-- `(label_node, duration, nouce).encode()` and `(duration, nouce).encode()`.
unfoldable pub named_code : DomainHash → ℕ → ℕ → Bytes
unfolding le_bytes
named_code label_node duration nouce =
    be_bytes 32 label_node ++ le_bytes 8 duration ++ le_bytes 4 nouce

unfoldable pub any_code : ℕ → ℕ → Bytes
unfolding le_bytes
any_code duration nouce = le_bytes 8 duration ++ le_bytes 4 nouce

module _ (env : Env) where
  abbrev parse_label : Bytes → M (Label × ℕ)
  parse_label name = ok_or (new_with_len env name) (reject RedeemError.parse_label_failed)

  -- The end of both calls: the name is granted and the code is used up.
  grant : Bytes → ℕ → ℕ → Bytes → AccountId → Label → M ⊤
  grant name duration nouce code owner label = do
    let node = encode_with_node env label env.base_node
    for_redeem_code env name owner duration label
    modify λ s. record s { redeems = update nouce false s.redeems }
    deposit_event (Event.redeem_code_used code node owner)

  unfoldable pub name_redeem : RawOrigin → Bytes → ℕ → ℕ → Bytes → AccountId → M ⊤
  unfolding grant named_code
  name_redeem origin name duration nouce code owner = do
    who ← signed_by env origin
    unused ← gets (λ s. s.redeems nouce)
    ensure unused (reject RedeemError.redeems_has_been_used)
    (label, _) ← parse_label name
    signer ← get_official_account
    ensure (env.verify_signature code (named_code label.node duration nouce) signer)
        (reject RedeemError.invalid_signature)
    grant name duration nouce code owner label

  unfoldable pub name_redeem_any : RawOrigin → Bytes → ℕ → ℕ → Bytes → AccountId → M ⊤
  unfolding grant any_code
  name_redeem_any origin name duration nouce code owner = do
    who ← signed_by env origin
    unused ← gets (λ s. s.redeems nouce)
    ensure unused (reject RedeemError.redeems_has_been_used)
    (label, label_len) ← parse_label name
    ensure (is_registrable label_len) (reject RedeemError.label_len_invalid)
    signer ← get_official_account
    ensure (env.verify_signature code (any_code duration nouce) signer)
        (reject RedeemError.invalid_signature)
    grant name duration nouce code owner label
