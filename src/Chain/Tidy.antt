-- ===== src/Chain/Tidy.antt =====
-- The registry of the running chain: every call of runtime/src/lib.rs keeps it in order, from the
-- genesis of runtime/src/genesis_config_presets.rs on.
use pns_pallets.Base.{◌≡◌, sym, ap, subst, false, List, [], ◌∷◌, arith, Bool, ◌||◌, inl, inr}
use pns_pallets.Types.Dispatch.{RawOrigin}
use pns_pallets.Types.Storage.{State}
use pns_pallets.Runtime.{Env, ok, after, Result-cases}
use pns_pallets.Registry.Tidy.{IsTidy}
use pns_pallets.Chain.Configs.{Externals, runtime, native_basenode, check_node_useable}
use pns_pallets.Chain.Calls.{
  RuntimeCall, dispatch, set_exchange_rate, set_base_price, set_rent_price, burn, set_official,
  add_reserved, remove_reserved, register, renew, transfer, release_name, offer_subdomain,
  accept_subdomain, reject_subdomain, revoke_subdomain, accept_offered_name, release_subdomain,
  set_record, set_text, create_listing, cancel_listing, buy_name,
}
use pns_pallets.Chain.Aside.{
  set_exchange_rate-Aside, set_base_price-Aside, set_rent_price-Aside, add_reserved-Aside,
  remove_reserved-Aside, renew-Aside, accept_offered_name-Aside, set_record-Aside, set_text-Aside,
  create_listing-Aside, cancel_listing-Aside,
}
use pns_pallets.Chain.Fresh.{Fits, collides}
use pns_pallets.Chain.Fits.{dispatch-Fits}
use pns_pallets.Chain.Kept.{
  Aside-IsTidy, burn-IsTidy, release_name-IsTidy, transfer-IsTidy, buy_name-IsTidy,
}
use pns_pallets.Chain.KeptSubnames.{
  offer_subdomain-IsTidy, accept_subdomain-IsTidy, reject_subdomain-IsTidy, revoke_subdomain-IsTidy,
  release_subdomain-IsTidy,
}
use pns_pallets.Chain.KeptRegister.{register-IsTidy, set_official-IsTidy}

-- A call that goes through, and enters no name at a node that is already another's, leaves the
-- registry in order.
pub dispatch-IsTidy :
    (env : Env) (origin : RawOrigin) (call : RuntimeCall) (s s' : State)
    → collides env origin call s ≡ false
    → Fits s
    → IsTidy env.base_node s
    → dispatch env origin call s ≡ ok (tt, s')
    → IsTidy env.base_node s'
unfolding dispatch collides
dispatch-IsTidy env origin (set_exchange_rate rate) s s' free f v e =
    Aside-IsTidy env.base_node s s' _ (set_exchange_rate-Aside env origin s rate) e v
dispatch-IsTidy env origin (set_base_price prices) s s' free f v e =
    Aside-IsTidy env.base_node s s' _ (set_base_price-Aside env origin s prices) e v
dispatch-IsTidy env origin (set_rent_price prices) s s' free f v e =
    Aside-IsTidy env.base_node s s' _ (set_rent_price-Aside env origin s prices) e v
dispatch-IsTidy env origin (burn name) s s' free f v e =
    burn-IsTidy env env.base_node origin name s s' v e
dispatch-IsTidy env origin (set_official official) s s' free f v e =
    set_official-IsTidy env origin official env.base_node s s' v e
dispatch-IsTidy env origin (add_reserved name) s s' free f v e =
    Aside-IsTidy env.base_node s s' _ (add_reserved-Aside env origin s name) e v
dispatch-IsTidy env origin (remove_reserved name) s s' free f v e =
    Aside-IsTidy env.base_node s s' _ (remove_reserved-Aside env origin s name) e v
dispatch-IsTidy env origin (register name owner reject) s s' free f v e =
    register-IsTidy env origin name owner reject s s' free v e
dispatch-IsTidy env origin renew s s' free f v e =
    Aside-IsTidy env.base_node s s' _ (renew-Aside env origin s) e v
dispatch-IsTidy env origin (transfer to) s s' free f v e =
    transfer-IsTidy env env.base_node origin to s s' v e
dispatch-IsTidy env origin release_name s s' free f v e =
    release_name-IsTidy env env.base_node origin s s' v e
dispatch-IsTidy env origin (offer_subdomain label target) s s' free f v e =
    offer_subdomain-IsTidy env env.base_node origin label target s s' free f v e
dispatch-IsTidy env origin (accept_subdomain parent label) s s' free f v e =
    accept_subdomain-IsTidy env env.base_node origin parent label s s' v e
dispatch-IsTidy env origin (reject_subdomain parent label) s s' free f v e =
    reject_subdomain-IsTidy env env.base_node origin parent label s s' v e
dispatch-IsTidy env origin (revoke_subdomain label) s s' free f v e =
    revoke_subdomain-IsTidy env env.base_node origin label s s' v e
dispatch-IsTidy env origin (accept_offered_name name) s s' free f v e =
    Aside-IsTidy env.base_node s s' _ (accept_offered_name-Aside env origin s name) e v
dispatch-IsTidy env origin (release_subdomain parent label) s s' free f v e =
    release_subdomain-IsTidy env env.base_node origin parent label s s' v e
dispatch-IsTidy env origin (set_record name t content) s s' free f v e =
    Aside-IsTidy env.base_node s s' _
      (set_record-Aside env origin s (check_node_useable env) name t content) e v
dispatch-IsTidy env origin (set_text name kind content) s s' free f v e =
    Aside-IsTidy env.base_node s s' _
      (set_text-Aside env origin s (check_node_useable env) name kind content) e v
dispatch-IsTidy env origin (create_listing price expires_at) s s' free f v e =
    Aside-IsTidy env.base_node s s' _ (create_listing-Aside env origin s price expires_at) e v
dispatch-IsTidy env origin cancel_listing s s' free f v e =
    Aside-IsTidy env.base_node s s' _ (cancel_listing-Aside env origin s) e v
dispatch-IsTidy env origin (buy_name name recipient) s s' free f v e =
    buy_name-IsTidy env env.base_node origin name recipient s s' v e

-- A signed call with what surrounds it in its block.
pub record Extrinsic : Type 0 where
  pub externals : Externals
  pub origin : RawOrigin
  pub call : RuntimeCall

-- A call on the chain: on an error the state stays.
unfoldable pub apply : Extrinsic → State → State
apply x s = after (dispatch (runtime x.externals) x.origin x.call s) s

unfoldable pub run : List Extrinsic → State → State
unfolding apply
run [] s = s
run (x ∷ xs) s = run xs (apply x s)

-- One of the calls enters a name at a node that is already another's.
unfoldable pub run_collides : List Extrinsic → State → Bool
unfolding apply
run_collides [] s = false
run_collides (x ∷ xs) s =
    collides (runtime x.externals) x.origin x.call s || run_collides xs (apply x s)

abbrev pub InOrder : State → Type 0
InOrder s = IsTidy native_basenode s × Fits s

apply-InOrder :
    (x : Extrinsic) (s : State)
    → collides (runtime x.externals) x.origin x.call s ≡ false
    → InOrder s
    → InOrder (apply x s)
unfolding apply
apply-InOrder x s free v = elim (Result-cases (dispatch (runtime x.externals) x.origin x.call s)) [
  | inl (e, failed) ↦ subst InOrder (sym (ap (λ r. after r s) failed)) v
  | inr ((_, t), ran) ↦ subst InOrder (sym (ap (λ r. after r s) ran)) (
    dispatch-IsTidy (runtime x.externals) x.origin x.call s t free v.1 v.0 ran,
    dispatch-Fits (runtime x.externals) x.origin x.call s t (ground arith) v.1 ran,
  )
]

-- Any run of calls, each in a block of its own, in which no name is entered at a node that is
-- already another's, keeps the registry in order: the indexes are in step, a name's count of children
-- is the number of its subnames, and no subname is a name of the tree.
pub run-InOrder :
    (xs : List Extrinsic) (s : State) → run_collides xs s ≡ false → InOrder s → InOrder (run xs s)
unfolding run run_collides
run-InOrder [] s free v = v
run-InOrder (x ∷ xs) s free v =
    run-InOrder xs (apply x s) (ground (arith, free)) (apply-InOrder x s (ground (arith, free)) v)
