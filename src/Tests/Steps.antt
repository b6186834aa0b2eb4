-- ===== src/Tests/Steps.antt =====
-- What a run on the small chain computes with: a test that unfolds `steps` unfolds all of it.
use pns_pallets.Base.Storage.{add_key, del_key}
use pns_pallets.Types.Ddns.{storage_key, same_type}
use pns_pallets.Runtime.{⊤}
use pns_pallets.Nft
use pns_pallets.PriceOracle.{registration_fee}
use pns_pallets.Expiry.{
  still_valid, has_valid_canonical_name, check_expires_renewable, check_expires_registrable,
  check_expires_useable, clear_registrar_info,
}
use pns_pallets.Label.{
  new, new_with_len, encode_with_node, check_label, validate_label, be_bytes, encode_pair,
  is_registrable, hash_label, child_node, parse_name_to_node,
}
use pns_pallets.Label.Utf8.{from_utf8, decode, decode_byte, decode_lead, chars}
use pns_pallets.Resolvers.{
  entry, set_entry, del_entry, keep_entry, answer, answers, set_ss58_record, set_origin_record,
  clear_records_except_ss58, clear_all_records, set_record, lookup,
}
use pns_pallets.Registry.{
  add_children, add_children_with_check, sub_children, verify_with_owner, clear_child,
  clear_children, clear_subnames, reset_children,
}
use pns_pallets.Registry.Names.{
  mint_subname, mint_new, link_new, remint, do_transfer, transfer_tracing, do_burn, burn_tracing,
  burn,
}
use pns_pallets.Registry.Offers.{
  has_active_subname, owner_of, offer_subname, accept_subname_offer, reject_subname_offer,
  revoke_subname, release_subname, revoke_pending_offer_for_target,
}
use pns_pallets.Registrar.{ensure_nameless, forget_primary_name}
use pns_pallets.Registrar.Names.{
  accept_offered_name, register, register_node, reject_requested, reject_offered, pay_registration,
  renew, transfer, ensure_owned, release_name,
}
use pns_pallets.Registrar.Grant.{for_redeem_code, grant_registration}
use pns_pallets.Registrar.Trade.{transfer_name, offer_bought_name}
use pns_pallets.Registrar.Subnames.{offer_subdomain, accept_subdomain}
use pns_pallets.Marketplace.{create_listing, protocol_fee, buy_name}
use pns_pallets.Redeem.{
  name_redeem, name_redeem_any, named_code, any_code, mint_redeem, mint_range, genesis_range,
}
use pns_pallets.Registry.{verify}
use pns_pallets.Chain.Configs.{check_node_useable}
use pns_pallets.Chain.Calls.{dispatch}
use pns_pallets.Chain.Fresh.{collides}
use pns_pallets.Chain.Genesis.{
  mint_tokens, build_nft, put_origins, build_registry, put_infos, put_reserved, put_reserved_names,
  build_registrar, build_rest, testnet_genesis,
}
use pns_pallets.Chain.Tidy.{apply, run, run_collides}
use pns_pallets.Chain.Apis.{
  offers_to, get_info, resolve_name, get_listing, lookup_by_name, account_dashboard,
}
use pns_pallets.Origin.{ensure_origin, set_origin, set_registrar_open}

unfoldable pub steps : ⊤
unfolding accept_offered_name add_key del_key storage_key same_type Nft.mint Nft.transfer Nft.burn
    Nft.create_class registration_fee still_valid has_valid_canonical_name check_expires_renewable
    check_expires_registrable check_expires_useable clear_registrar_info new new_with_len
    encode_with_node check_label validate_label be_bytes encode_pair is_registrable hash_label
    child_node parse_name_to_node from_utf8 decode decode_byte decode_lead chars entry set_entry
    del_entry keep_entry answer answers set_ss58_record set_origin_record clear_records_except_ss58
    clear_all_records set_record lookup add_children add_children_with_check sub_children
    verify_with_owner clear_child clear_children clear_subnames reset_children mint_subname mint_new
    link_new remint do_transfer transfer_tracing do_burn burn_tracing burn has_active_subname
    owner_of offer_subname accept_subname_offer reject_subname_offer revoke_subname release_subname
    revoke_pending_offer_for_target ensure_nameless forget_primary_name register register_node
    reject_requested reject_offered pay_registration renew transfer ensure_owned release_name
    for_redeem_code grant_registration transfer_name offer_bought_name offer_subdomain
    accept_subdomain create_listing protocol_fee buy_name name_redeem name_redeem_any named_code
    any_code mint_redeem mint_range genesis_range ensure_origin set_origin set_registrar_open verify
    check_node_useable dispatch collides mint_tokens build_nft put_origins build_registry put_infos
    put_reserved put_reserved_names build_registrar build_rest testnet_genesis apply run
    run_collides offers_to get_info resolve_name get_listing lookup_by_name account_dashboard
steps = tt
