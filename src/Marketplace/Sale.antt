-- ===== src/Marketplace/Sale.antt =====
-- What a sale on the marketplace moves, `buy_name` of pallets/pns-marketplace/src/lib.rs.
use pns_pallets.Base.{ℕ, ◌<◌, ◌≡◌, ◌≢◌, false, none, some, arith, inl, inr}
use pns_pallets.Base.Storage.{update}
use pns_pallets.Types.{AccountId, DomainHash, Bytes}
use pns_pallets.Types.Dispatch.{RawOrigin}
use pns_pallets.Types.Storage.{State, Listing}
use pns_pallets.Runtime.{after, Result-cases, Env, Result, ok, err, ⊤}
use pns_pallets.Label.{Label, new, encode_with_node}
use pns_pallets.Expiry.{has_valid_canonical_name}
use pns_pallets.Resolvers.{set_ss58_record, set_origin_record}
use pns_pallets.Registry.Names.{do_transfer}
use pns_pallets.Registry.Offers.{owner_of, has_active_subname}
use pns_pallets.Registry.Owners.{do_transfer-owner_of}
use pns_pallets.Registry.Frames.{do_transfer-Keeps}
use pns_pallets.Registrar.{primary_name, ensure_nameless}
use pns_pallets.Registrar.Nameless.{ensure_nameless-Nameless}
use pns_pallets.Registrar.Trade.{transfer_name}
use pns_pallets.Marketplace.{buy_name, protocol_fee}

-- What a transfer of a name keeps and gives.
abbrev Transfers :
    Env → (seller buyer : AccountId) → DomainHash → State → Result (⊤ × State) → Type 0
Transfers env seller buyer node s (ok (_, s')) =
    (s'.balances ≡ s.balances)
    × (owner_of node s' ≡ some buyer)
    × (primary_name buyer s' ≡ some node)
    × (has_active_subname buyer s ≡ false)
    × (has_valid_canonical_name env buyer s ≡ false)
    × (s'.listings ≡ s.listings)
Transfers env seller buyer node s (err _) = ⊤

transfer_name-Transfers :
    (env : Env) (seller buyer : AccountId) (node : DomainHash) (s : State)
    → Transfers env seller buyer node s (transfer_name env seller buyer node s)
unfolding transfer_name owner_of
transfer_name-Transfers env seller buyer node s =
    let t = after (ensure_nameless env buyer s) s in
    let u = after (do_transfer env seller buyer node t) t in
    ground (
      arith,
      ensure_nameless-Nameless env buyer s,
      do_transfer-Keeps env seller buyer node t,
      do_transfer-owner_of env node buyer seller t u,
    )

-- A plain purchase that goes through was of a listing that has not expired, by another account than
-- its seller, who owned the name; the buyer had no valid canonical name and no entry in the index of
-- subnames, and now owns the name as the canonical one; the listing is gone; the buyer has paid the
-- price to the seller, who has paid the fee from it.
pub buy_name_lem :
    (env : Env) (origin : RawOrigin) (name : Bytes) (buyer : AccountId) (label : Label)
    (listing : Listing) (s s' : State)
    → env.ensure_signed origin ≡ ok buyer
    → new env name ≡ some label
    → s.listings (encode_with_node env label env.base_node) ≡ some listing
    → buy_name env origin name none s ≡ ok (tt, s')
    → let node = encode_with_node env label env.base_node in
      (buyer ≢ listing.seller)
      × (env.now < listing.expires_at)
      × (owner_of node s ≡ some listing.seller)
      × (has_valid_canonical_name env buyer s ≡ false)
      × (has_active_subname buyer s ≡ false)
      × (owner_of node s' ≡ some buyer)
      × (primary_name buyer s' ≡ some node)
      × (s'.listings node ≡ none)
      × ((paid : AccountId → ℕ) × (env.transfer buyer listing.seller listing.price s.balances
            ≡ ok paid)
          × (env.withdraw listing.seller (protocol_fee env listing.price) paid ≡ ok s'.balances))
unfolding buy_name owner_of has_active_subname has_valid_canonical_name set_ss58_record
    set_origin_record
buy_name_lem env origin name buyer label listing s s' signed parsed listed e =
    let node = encode_with_node env label env.base_node in
    let seller = listing.seller in
    elim (Result-cases (env.transfer buyer seller listing.price s.balances)) [
      | inl (_, unpaid) ↦ absurd (ground arith)
      | inr (paid, p) ↦
          elim (Result-cases (env.withdraw seller (protocol_fee env listing.price) paid)) [
            | inl (_, unpaid) ↦ absurd (ground arith)
            | inr (left, q) ↦
                let t = record s { balances = left; listings = update node none s.listings } in
                let sold = transfer_name-Transfers env seller buyer node t in
                (
                  ground arith,
                  ground arith,
                  ground arith,
                  ground (arith, sold),
                  ground (arith, sold),
                  ground (arith, sold),
                  ground (arith, sold),
                  ground (arith, sold),
                  (paid, p, ground (arith, sold)),
                )
          ]
    ]
