-- ===== src/Redeem/Once.antt =====
-- What a redeem code is good for: `name_redeem` and `name_redeem_any` of
-- pallets/pns-registrar/src/redeem_code.rs, and `for_redeem_code` of registrar.rs.
use pns_pallets.Base.{
  ℕ, ◌+◌, ◌≡◌, ◌≢◌, true, false, some, [], arith, min, length, Option-cases, inl, inr,
}
use pns_pallets.Types.{AccountId, DomainHash, Bytes}
use pns_pallets.Types.Dispatch.{RawOrigin, redeem, RedeemError}
use pns_pallets.Types.Storage.{State}
use pns_pallets.Runtime.{after, Env, Result, ok, err, ⊤}
use pns_pallets.Label.{Label, new_with_len, encode_with_node}
use pns_pallets.Expiry.{has_valid_canonical_name}
use pns_pallets.Resolvers.{set_origin_record}
use pns_pallets.Registry.Offers.{owner_of, has_active_subname}
use pns_pallets.Registry.Owners.{mint_subname-Gives}
use pns_pallets.Registry.Frames.{mint_subname-Follows}
use pns_pallets.Registrar.{primary_name, ensure_nameless}
use pns_pallets.Registrar.Nameless.{ensure_nameless-Nameless}
use pns_pallets.Registrar.Grant.{for_redeem_code, grant_registration}
use pns_pallets.Redeem.{named_code, name_redeem, name_redeem_any}

-- What a grant that goes through needs and gives, at no cost to any account.
abbrev Granted : Env → AccountId → DomainHash → State → Result (⊤ × State) → Type 0
Granted env owner node s (ok (_, s')) =
    (owner_of node s' ≡ some owner)
    × (primary_name owner s' ≡ some node)
    × (has_valid_canonical_name env owner s ≡ false)
    × (has_active_subname owner s ≡ false)
    × (s'.balances ≡ s.balances)
    × (s'.redeems ≡ s.redeems)
Granted env owner node s (err _) = ⊤

for_redeem_code-Granted :
    (env : Env) (name : Bytes) (owner : AccountId) (duration : ℕ) (label : Label) (s : State)
    → Granted env owner
        (encode_with_node env label env.base_node)
        s
        (for_redeem_code env name owner duration label s)
unfolding for_redeem_code owner_of set_origin_record
for_redeem_code-Granted env name owner duration label s = elim (Option-cases s.registry.official) [
  | inl nobody ↦ ground arith
  | inr (official, known) ↦
      let node = encode_with_node env label env.base_node in
      let expire = env.now + min duration env.max_registration_duration in
      let pays = grant_registration env node expire (length name) in
      let t = after (ensure_nameless env owner s) s in
      ground (
        arith,
        ensure_nameless-Nameless env owner s,
        mint_subname-Gives env node owner official [] env.base_node 0 pays t,
        mint_subname-Follows env node owner pays official [] env.base_node 0 t,
      )
]

-- A code for a given name that goes through was signed by the official for that label, duration and
-- number, and its number was unused. Its owner, who had no valid canonical name and no entry in the
-- index of subnames, then owns the name as the canonical one, at no cost to any account; the number
-- is used up and the other numbers are as before. In every state where the number is as the call left
-- it no code with it is redeemed, for a given name or for any.
pub name_redeem_lem :
    (env later : Env) (origin origin' : RawOrigin) (who who' owner owner' official : AccountId)
    (name name' code code' : Bytes) (duration duration' nouce other : ℕ) (label : Label) (len : ℕ)
    (s s' u : State)
    → env.ensure_signed origin ≡ ok who
    → later.ensure_signed origin' ≡ ok who'
    → new_with_len env name ≡ some (label, len)
    → s.registry.official ≡ some official
    → other ≢ nouce
    → name_redeem env origin name duration nouce code owner s ≡ ok (tt, s')
    → u.redeems nouce ≡ s'.redeems nouce
    → let node = encode_with_node env label env.base_node in
      (s.redeems nouce ≡ true)
      × (env.verify_signature code (named_code label.node duration nouce) official ≡ true)
      × (has_valid_canonical_name env owner s ≡ false)
      × (has_active_subname owner s ≡ false)
      × (owner_of node s' ≡ some owner)
      × (primary_name owner s' ≡ some node)
      × (s'.balances ≡ s.balances)
      × (s'.redeems other ≡ s.redeems other)
      × (name_redeem later origin' name' duration' nouce code' owner' u
          ≡ err (redeem RedeemError.redeems_has_been_used))
      × (name_redeem_any later origin' name' duration' nouce code' owner' u
          ≡ err (redeem RedeemError.redeems_has_been_used))
unfolding name_redeem name_redeem_any owner_of
name_redeem_lem env later origin origin' who who' owner owner' official name name' code code'
      duration duration' nouce other label len s s' u signed signed' parsed known different e
      unminted =
    let granted = for_redeem_code-Granted env name owner duration label s in
    (
      ground arith,
      ground arith,
      ground (arith, granted),
      ground (arith, granted),
      ground (arith, granted),
      ground (arith, granted),
      ground (arith, granted),
      ground (arith, granted),
      ground arith,
      ground arith,
    )
