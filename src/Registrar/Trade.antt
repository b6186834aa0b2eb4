-- ===== src/Registrar/Trade.antt =====
-- What the marketplace uses of the registrar, the trait `NameRegistry` in
-- pallets/pns-registrar/src/registrar.rs.
use pns_pallets.Base.{not, Option, none, some, is_some}
use pns_pallets.Types.{AccountId, DomainHash}
use pns_pallets.Types.Dispatch.{RegistrarError, Event}
use pns_pallets.Runtime.{M, ⊤, Env, ◌>>=◌, ◌>>◌, pure, ensure, gets, deposit_event}
use pns_pallets.Expiry.{still_valid}
use pns_pallets.Registry.Names.{do_transfer}
use pns_pallets.Registry.Offers.{has_active_subname}
use pns_pallets.Registrar.{
  reject, primary_name, set_primary_name, set_offered_name, forget_primary_name, ensure_nameless,
}

module _ (env : Env) where
  unfoldable pub transfer_name : AccountId → AccountId → DomainHash → M ⊤
  unfolding forget_primary_name
  transfer_name from to node = do
    ensure_nameless env to
    do_transfer env from to node
    forget_primary_name from node
    set_primary_name to (some node)

  -- A recipient's canonical name must have run out; its entry stays.
  ensure_expired : Option DomainHash → M ⊤
  ensure_expired none = pure tt
  ensure_expired (some existing) = do
    valid ← gets (still_valid env existing)
    ensure (not valid) (reject RegistrarError.already_has_canonical_name)

  unfoldable pub offer_bought_name : AccountId → AccountId → AccountId → DomainHash → M ⊤
  unfolding ensure_expired forget_primary_name
  offer_bought_name seller buyer recipient node = do
    pending ← gets (λ s. is_some (s.registrar.offered_names node))
    ensure (not pending) (reject RegistrarError.name_already_offered)
    existing ← gets (primary_name recipient)
    ensure_expired existing
    holds ← gets (has_active_subname recipient)
    ensure (not holds) (reject RegistrarError.already_holds_subdomain)
    do_transfer env seller recipient node
    forget_primary_name seller node
    set_offered_name node (some (record { buyer = buyer; recipient = recipient }))
    deposit_event (Event.name_bought_for_recipient node buyer recipient)
