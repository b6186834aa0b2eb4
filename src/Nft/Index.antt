-- ===== src/Nft/Index.antt =====
-- The index of tokens by owner agrees with the tokens, in nft.rs.
use pns_pallets.Base.{ℕ, ◌+◌, ◌≡◌, ◌==◌, Bool, false, not, Option, none, some, arith}
use pns_pallets.Base.Storage.{elem-add_key, elem-del_key}
use pns_pallets.Types.{AccountId, DomainHash, Bytes, Record}
use pns_pallets.Types.Storage.{TokenInfo, Nft, ClassInfo}
use pns_pallets.Runtime.{Result, ok, err, IsOk, ⊤, Env}
use pns_pallets.Nft.{create_class, transfer, mint, burn, is_owner}

abbrev pub owned_by : AccountId → Option TokenInfo → Bool
owned_by a none = false
owned_by a (some info) = info.owner == a

-- An account is listed as the owner of exactly the tokens that name it as their owner.
abbrev pub IsIndexed : Nft → Type 0
IsIndexed n =
    (a : AccountId) (c : ℕ) (t : DomainHash) → is_owner a c t n ≡ owned_by a (n.tokens c t)

-- The token is there and another account's.
abbrev pub is_of_other : AccountId → Option TokenInfo → Bool
is_of_other a none = false
is_of_other a (some info) = not (info.owner == a)

-- The result of a call on the NFT layer that went through. A mint is not of another account's token,
-- which `mint` does not check itself and `mint_subname` does.
pub data Changes (env : Env) (n n' : Nft) : Type 0 where
  creates :
      (owner : AccountId) (metadata : Bytes) (id : ℕ)
      → create_class env owner metadata n ≡ ok (id, n')
      → Changes env n n'
  transfers :
      (from to : AccountId) (class_id : ℕ) (token : DomainHash)
      → transfer from to class_id token n ≡ ok (tt, n')
      → Changes env n n'
  mints :
      (owner : AccountId) (class_id : ℕ) (token : DomainHash) (metadata : Bytes)
      (token_data : Record)
      → is_of_other owner (n.tokens class_id token) ≡ false
      → mint env owner class_id token metadata token_data n ≡ ok (tt, n')
      → Changes env n n'
  burns :
      (owner : AccountId) (class_id : ℕ) (token : DomainHash)
      → burn owner class_id token n ≡ ok (tt, n')
      → Changes env n n'

create_class-IsIndexed :
    (env : Env) (owner : AccountId) (metadata : Bytes) (id : ℕ) (n n' : Nft)
    → IsIndexed n
    → create_class env owner metadata n ≡ ok (id, n')
    → IsIndexed n'
unfolding create_class is_owner
create_class-IsIndexed env owner metadata id n n' v e a c t = ground (arith, v a c t)

transfer-IsIndexed :
    (from to : AccountId) (class_id : ℕ) (token : DomainHash) (n n' : Nft)
    → IsIndexed n
    → transfer from to class_id token n ≡ ok (tt, n')
    → IsIndexed n'
unfolding transfer is_owner
transfer-IsIndexed from to class_id token n n' v e a c t = ground (
  arith,
  v a c t,
  elem-add_key t token (n.tokens_by_owner to class_id),
  elem-del_key t token (n.tokens_by_owner from class_id),
)

mint-IsIndexed :
    (env : Env) (owner : AccountId) (class_id : ℕ) (token : DomainHash) (metadata : Bytes)
    (token_data : Record) (n n' : Nft)
    → IsIndexed n
    → is_of_other owner (n.tokens class_id token) ≡ false
    → mint env owner class_id token metadata token_data n ≡ ok (tt, n')
    → IsIndexed n'
unfolding mint is_owner
mint-IsIndexed env owner class_id token metadata token_data n n' v fresh e a c t =
    ground (arith, v a c t, elem-add_key t token (n.tokens_by_owner owner class_id))

burn-IsIndexed :
    (owner : AccountId) (class_id : ℕ) (token : DomainHash) (n n' : Nft)
    → IsIndexed n
    → burn owner class_id token n ≡ ok (tt, n')
    → IsIndexed n'
unfolding burn is_owner
burn-IsIndexed owner class_id token n n' v e a c t =
    ground (arith, v a c t, elem-del_key t token (n.tokens_by_owner owner class_id))

-- Every creation of a class, every transfer and every burn that goes through, and every mint that is not
-- of another account's token, keeps the index of tokens by owner in agreement with the owners that the tokens
-- name.
pub Changes-IsIndexed : (env : Env) (n n' : Nft) → IsIndexed n → Changes env n n' → IsIndexed n'
Changes-IsIndexed env n n' v (creates owner metadata id e) =
    create_class-IsIndexed env owner metadata id n n' v e
Changes-IsIndexed env n n' v (transfers from to c t e) = transfer-IsIndexed from to c t n n' v e
Changes-IsIndexed env n n' v (mints owner c t metadata token_data fresh e) =
    mint-IsIndexed env owner c t metadata token_data n n' v fresh e
Changes-IsIndexed env n n' v (burns owner c t e) = burn-IsIndexed owner c t n n' v e

abbrev pub issuance : Option ClassInfo → ℕ
issuance none = 0
issuance (some class) = class.total_issuance

-- The storage after a call: as it was, if the call fails.
abbrev pub after : Nft → Result (⊤ × Nft) → Nft
after n (ok (_, n')) = n'
after n (err e) = n

-- A minted token can be burned by its owner; the mint raises its class's issuance by one, and after
-- the burn the issuance is as before the mint and the token is gone.
pub burn-mint :
    (env : Env) (owner : AccountId) (class_id : ℕ) (token : DomainHash) (metadata : Bytes)
    (token_data : Record) (n n' : Nft)
    → mint env owner class_id token metadata token_data n ≡ ok (tt, n')
    → let burned = burn owner class_id token n' in
      IsOk burned
      × (issuance (n'.classes class_id) ≡ issuance (n.classes class_id) + 1)
      × (issuance ((after n' burned).classes class_id) ≡ issuance (n.classes class_id))
      × ((after n' burned).tokens class_id token ≡ none)
unfolding mint burn
burn-mint env owner class_id token metadata token_data n n' e =
    (ground arith, ground arith, ground arith, ground arith)
