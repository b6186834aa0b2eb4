-- ===== src/Registrar/Invitations.antt =====
-- When an offered subname can be accepted: `offer_subdomain` and then `accept_subdomain` of
-- pallets/pns-registrar/src/registrar.rs.
use pns_pallets.Base.{ℕ, length, ◌≤◌, ◌<◌, ◌≡◌, ◌↔◌, false, some, arith, ap, sym, refl, ◌∙◌}
use pns_pallets.Types.{AccountId, DomainHash, Bytes, RegistrarInfo, SubnameRecord, offered}
use pns_pallets.Types.Dispatch.{RawOrigin}
use pns_pallets.Types.Storage.{State}
use pns_pallets.Runtime.{Env, ok, IsOk}
use pns_pallets.Label.{Label, new_with_len, encode_with_node}
use pns_pallets.Resolvers.{set_ss58_record}
use pns_pallets.Expiry.{registrar_info, has_valid_canonical_name}
use pns_pallets.Registry.{add_children_with_check}
use pns_pallets.Registry.Offers.{has_active_subname, offer_subname, accept_subname_offer}
use pns_pallets.Registry.Lifecycle.{record_of}
use pns_pallets.Registrar.{primary_name}
use pns_pallets.Registrar.Subnames.{offer_subdomain, accept_subdomain}

-- What an offer that goes through leaves for its acceptance.
offer_subdomain-offers :
    (env later : Env) (origin : RawOrigin) (label : Bytes) (source len : ℕ)
    (owner target : AccountId) (node : DomainHash) (sub_label : Label) (s s' : State)
    (a : AccountId)
    → env.ensure_signed origin ≡ ok owner
    → env.lookup source ≡ ok target
    → primary_name owner s ≡ some node
    → new_with_len env label ≡ some (sub_label, len)
    → offer_subdomain env origin label source s ≡ ok (tt, s')
    → (record_of (encode_with_node env sub_label node) s'
        ≡ some (record { parent = node; label = label; target = target; state = offered }))
      × (registrar_info node s' ≡ registrar_info node s)
      × (has_valid_canonical_name later a s' ≡ has_valid_canonical_name later a s)
      × (has_active_subname a s' ≡ has_active_subname a s)
unfolding offer_subdomain offer_subname add_children_with_check has_active_subname
    has_valid_canonical_name
offer_subdomain-offers env later origin label source len owner target node sub_label s s' a signed
      found named parsed e =
    (ground (arith, e), ground (arith, e), ground (arith, e), ground (arith, e))

-- When a call to accept an open offer goes through.
accept_offered :
    (env : Env) (origin : RawOrigin) (parent label : Bytes) (len parent_len : ℕ)
    (caller : AccountId) (parent_label sub_label : Label) (info : RegistrarInfo)
    (rec : SubnameRecord) (s : State)
    → env.ensure_signed origin ≡ ok caller
    → length (env.encode_account caller) ≤ env.max_content_len
    → new_with_len env parent ≡ some (parent_label, parent_len)
    → new_with_len env label ≡ some (sub_label, len)
    → let node = encode_with_node env parent_label env.base_node in
      registrar_info node s ≡ some info
      → record_of (encode_with_node env sub_label node) s ≡ some rec
      → rec.state ≡ offered
      → (IsOk (accept_subdomain env origin parent label s) ↔ (
          (env.now < info.expire)
          × (rec.target ≡ caller)
          × (has_valid_canonical_name env caller s ≡ false)
          × (has_active_subname caller s ≡ false)))
unfolding accept_subdomain accept_subname_offer set_ss58_record
accept_offered env origin parent label len parent_len caller parent_label sub_label info rec s
      signed short parsed_parent parsed known offering pending =
    (λ h. ground (arith, h), λ h. ground (arith, h))

-- After an offer that goes through, an account that asks for the subname next can accept it, at
-- whatever time, exactly if the parent name has not expired by then, the offer is to that account, and
-- the account has neither a valid canonical name at that time nor any entry in the index of subnames.
-- The account's encoding fits into a record, and the labels hash as they did at the offer.
pub offer-accept_subdomain :
    (env later : Env) (origin origin' : RawOrigin) (parent label : Bytes)
    (source len parent_len : ℕ) (owner target caller : AccountId) (node : DomainHash)
    (parent_label sub_label : Label) (info : RegistrarInfo) (s s' : State)
    → env.ensure_signed origin ≡ ok owner
    → env.lookup source ≡ ok target
    → primary_name owner s ≡ some node
    → registrar_info node s ≡ some info
    → new_with_len env label ≡ some (sub_label, len)
    → offer_subdomain env origin label source s ≡ ok (tt, s')
    → later.ensure_signed origin' ≡ ok caller
    → length (later.encode_account caller) ≤ later.max_content_len
    → new_with_len later parent ≡ some (parent_label, parent_len)
    → encode_with_node later parent_label later.base_node ≡ node
    → new_with_len later label ≡ some (sub_label, len)
    → encode_with_node later sub_label node ≡ encode_with_node env sub_label node
    → (IsOk (accept_subdomain later origin' parent label s') ↔ (
        (later.now < info.expire)
        × (target ≡ caller)
        × (has_valid_canonical_name later caller s ≡ false)
        × (has_active_subname caller s ≡ false)))
offer-accept_subdomain env later origin origin' parent label source len parent_len owner target
      caller node parent_label sub_label info s s' signed found named known parsed e signed' short
      parsed' same again rehashed =
    let (offering, kept, valid, holds) =
      offer_subdomain-offers env later origin label source len owner target node sub_label s s'
        caller signed found named parsed e in
    let (to, fro) =
      accept_offered later origin' parent label len parent_len caller parent_label sub_label info
        (record { parent = node; label = label; target = target; state = offered }) s' signed' short
        parsed' again (ap (λ n. registrar_info n s') same ∙ kept ∙ known)
        (ap (λ n. record_of (encode_with_node later sub_label n) s') same
          ∙ ap (λ n. record_of n s') rehashed
          ∙ offering)
        refl in
    (
      λ h. let (soon, mine, v, w) = to h in (soon, mine, sym valid ∙ v, sym holds ∙ w),
      λ h. let (soon, mine, v, w) = h in fro (soon, mine, valid ∙ v, holds ∙ w),
    )
