-- ===== src/Nft.antt =====
-- The NFT layer, pallets/pns-registrar/src/nft.rs: classes, tokens and the index of tokens by owner.
-- Class ids are `u32` and issuances `u128`.
pub mod Index
use pns_pallets.Base.{
  ℕ, ◌+◌, ◌-◌, Bool, true, false, not, Option, none, some, List, [], ◌∷◌, ◌&&◌, ltb, leb, ◌==◌,
  if◌then◌else◌, length, elem, checked_add, u32_mod, u128_mod,
}
use pns_pallets.Base.Storage.{update, insert, remove}
use pns_pallets.Base.Storage.{add_key, del_key, StorageMap}
use pns_pallets.Types.{AccountId, DomainHash, Bytes, Record}
use pns_pallets.Types.Dispatch.{DispatchError, overflow, nft, NftError}
use pns_pallets.Types.Storage.{ClassInfo, TokenInfo, Nft}
use pns_pallets.Runtime.{Result, ok, err, ⊤, Env}

-- A change of one token entry.
abbrev pub set_token : ℕ → DomainHash → Option TokenInfo → Nft → Nft
set_token class_id token v n = record n {
  tokens = update class_id (update token v (n.tokens class_id)) n.tokens;
}

abbrev pub own : AccountId → ℕ → DomainHash → Nft → Nft
own a class_id token n = record n {
  tokens_by_owner =
      update a
        (update class_id (add_key token (n.tokens_by_owner a class_id)) (n.tokens_by_owner a))
        n.tokens_by_owner;
}

abbrev pub disown : AccountId → ℕ → DomainHash → Nft → Nft
disown a class_id token n = record n {
  tokens_by_owner =
      update a
        (update class_id (del_key token (n.tokens_by_owner a class_id)) (n.tokens_by_owner a))
        n.tokens_by_owner;
}

unfoldable pub create_class : Env → AccountId → Bytes → Nft → Result (ℕ × Nft)
create_class env owner metadata n =
    if ltb env.max_class_metadata (length metadata)
    then err (nft NftError.max_metadata_exceeded)
    else elim (checked_add u32_mod n.next_class_id 1) [
      | none ↦ err (nft NftError.no_available_class_id)
      | some next ↦ ok (
        n.next_class_id,
        record n {
          next_class_id = next;
          classes =
              insert n.next_class_id
                (record { metadata = metadata; total_issuance = 0; owner = owner }) n.classes;
        },
      )
    ]

transfer_token : AccountId → AccountId → ℕ → DomainHash → Option TokenInfo → Nft → Result (⊤ × Nft)
transfer_token from to class_id token none n = err (nft NftError.token_not_found)
transfer_token from to class_id token (some info) n =
    if not (info.owner == from)
    then err (nft NftError.no_permission)
    else if from == to
    then ok (tt, n)
    else ok (
      tt,
      own to class_id token (
          disown from class_id token
            (set_token class_id token (some (record info { owner = to })) n)),
    )

unfoldable pub transfer : AccountId → AccountId → ℕ → DomainHash → Nft → Result (⊤ × Nft)
unfolding transfer_token
transfer from to class_id token n =
    transfer_token from to class_id token (n.tokens class_id token) n

-- The change of a class's issuance, as `checked_add` or `checked_sub` gives it.
set_issuance : ℕ → Option ClassInfo → (ℕ → Option ℕ) → Nft → Result Nft
set_issuance class_id none f n = err (nft NftError.class_not_found)
set_issuance class_id (some class) f n = elim (f class.total_issuance) [
  | none ↦ err overflow
  | some total ↦
      ok
        (record n { classes = insert class_id (record class { total_issuance = total }) n.classes })
]

abbrev pub checked_sub_one : ℕ → Option ℕ
checked_sub_one n = if n == 0 then none else some (n - 1)

unfoldable pub mint : Env → AccountId → ℕ → DomainHash → Bytes → Record → Nft → Result (⊤ × Nft)
unfolding set_issuance
mint env owner class_id token metadata token_data n =
    if ltb env.max_token_metadata (length metadata)
    then err (nft NftError.max_metadata_exceeded)
    else elim (set_issuance class_id (n.classes class_id) (λ t. checked_add u128_mod t 1) n) [
      | err e ↦ err e
      | ok n' ↦ ok (
        tt,
        own owner class_id token (
            set_token class_id token
              (some (record { metadata = metadata; owner = owner; token_data = token_data })) n'),
      )
    ]

burn_token : AccountId → ℕ → DomainHash → Option TokenInfo → Nft → Result (⊤ × Nft)
unfolding set_issuance
burn_token owner class_id token none n = err (nft NftError.token_not_found)
burn_token owner class_id token (some info) n =
    if not (info.owner == owner)
    then err (nft NftError.no_permission)
    else elim (set_issuance class_id (n.classes class_id) checked_sub_one n) [
      | err e ↦ err e
      | ok n' ↦ ok (tt, disown owner class_id token (set_token class_id token none n'))
    ]

unfoldable pub burn : AccountId → ℕ → DomainHash → Nft → Result (⊤ × Nft)
unfolding burn_token
burn owner class_id token n = burn_token owner class_id token (n.tokens class_id token) n

unfoldable pub is_owner : AccountId → ℕ → DomainHash → Nft → Bool
is_owner account class_id token n = elem token (n.tokens_by_owner account class_id)

-- `Classes::mutate` of the owner, if the class exists.
abbrev pub set_class_owner : ℕ → AccountId → Option ClassInfo → Nft → Nft
set_class_owner class_id a none n = n
set_class_owner class_id a (some class) n = record n {
  classes = insert class_id (record class { owner = a }) n.classes;
}
