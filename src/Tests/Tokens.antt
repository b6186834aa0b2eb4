-- ===== src/Tests/Tokens.antt =====
-- Runs of the NFT layer.
use pns_pallets.Base.{◌≡◌, ◌+◌, refl, none, [], arith}
use pns_pallets.Types.Storage.{Nft}
use pns_pallets.Runtime.{IsOk}
use pns_pallets.Nft
use pns_pallets.Nft.Index.{IsIndexed, transfers, Changes-IsIndexed, burn-mint, after, issuance}
use pns_pallets.Tests.Sample.{chain, genesis}
use pns_pallets.Tests.Steps.{steps}

genesis-IsIndexed : IsIndexed (genesis.nft)
unfolding Nft.is_owner
genesis-IsIndexed a c t = ground arith

abbrev moved : Nft
moved = after (genesis.nft) (Nft.transfer 1 2 0 7 (genesis.nft))

Changes-IsIndexed_example : IsIndexed moved
unfolding steps
Changes-IsIndexed_example =
    Changes-IsIndexed chain (genesis.nft) moved genesis-IsIndexed (transfers 1 2 0 7 refl)

abbrev minted : Nft
minted = after (genesis.nft) (Nft.mint chain 3 0 8 [] (record { children = 0 }) (genesis.nft))

burn-mint_example :
    let burned = Nft.burn 3 0 8 minted in
    IsOk burned
    × (issuance (minted.classes 0) ≡ issuance (genesis.nft.classes 0) + 1)
    × (issuance ((after minted burned).classes 0) ≡ issuance (genesis.nft.classes 0))
    × ((after minted burned).tokens 0 8 ≡ none)
unfolding steps
burn-mint_example = burn-mint chain 3 0 8 [] (record { children = 0 }) (genesis.nft) minted refl
