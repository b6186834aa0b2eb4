-- ===== src/Registrar/Handover.antt =====
-- What becomes of the names of an account that transfers, releases or burns its name: `transfer` and
-- `release_name` of pallets/pns-registrar/src/registrar.rs, `burn` of registry.rs.
use pns_pallets.Base.{ℕ, ◌≡◌, true, false, none, some, ◌∙◌, arith}
use pns_pallets.Base.Storage.{contains_pair}
use pns_pallets.Types.{AccountId, DomainHash, Bytes, root}
use pns_pallets.Types.Dispatch.{RawOrigin}
use pns_pallets.Types.Storage.{State}
use pns_pallets.Runtime.{after, Env, ok, IsOk}
use pns_pallets.Expiry.{has_valid_canonical_name}
use pns_pallets.Registry.Names.{do_transfer}
use pns_pallets.Registry.Offers.{owner_of, has_active_subname, accept_subname_offer}
use pns_pallets.Registry.Owners.{do_transfer-owner_of}
use pns_pallets.Registry.Frames.{do_burn-primary_names}
use pns_pallets.Registry.Held.{held, held-do_transfer, do_burn_lem}
use pns_pallets.Registrar.{primary_name, set_primary_name, ensure_nameless}
use pns_pallets.Registrar.Nameless.{ensure_nameless-Nameless, held-refuses}
use pns_pallets.Registrar.Names.{register, transfer, release_name, accept_offered_name}
use pns_pallets.Registrar.Grant.{for_redeem_code}
use pns_pallets.Label.{Label}

pub transfer_lem :
    (env : Env) (origin : RawOrigin) (source : ℕ) (who to : AccountId) (node : DomainHash)
    (s s' : State)
    → env.ensure_signed origin ≡ ok who
    → env.lookup source ≡ ok to
    → primary_name who s ≡ some node
    → transfer env origin source s ≡ ok (tt, s')
    → (has_valid_canonical_name env to s ≡ false)
      × (has_active_subname to s ≡ false)
      × (owner_of node s ≡ some who)
      × (owner_of node s' ≡ some to)
      × (primary_name to s' ≡ some node)
unfolding transfer owner_of
transfer_lem env origin source who to node s s' signed found named e =
    let t = after (ensure_nameless env to s) s in
    let u = after (do_transfer env who to node t) t in
    let moved = do_transfer-owner_of env node to who t u in
    let clear = ensure_nameless-Nameless env to s in
    (
      ground (arith, clear),
      ground (arith, clear),
      ground (arith, clear, moved),
      ground (arith, clear, moved),
      ground arith,
    )

transfer-held :
    (env : Env) (origin : RawOrigin) (source : ℕ) (who to : AccountId) (node : DomainHash)
    (s s' : State)
    → env.ensure_signed origin ≡ ok who
    → env.lookup source ≡ ok to
    → primary_name who s ≡ some node
    → s.registry.runtime_origin node ≡ some root
    → contains_pair node node s.registry.sub_names ≡ false
    → transfer env origin source s ≡ ok (tt, s')
    → held who node s' ≡ held who node s
unfolding transfer
transfer-held env origin source who to node s s' signed found named rooted flat e =
    let t = after (ensure_nameless env to s) s in
    let u = after (do_transfer env who to node t) t in
    ground (arith, ensure_nameless-Nameless env to s, held-do_transfer env who to node who t u)

-- An account that the index of subnames names is registered no name.
register-refuses :
    (env : Env) (origin : RawOrigin) (source : ℕ) (a : AccountId) (n : DomainHash) (name : Bytes)
    (s : State)
    → env.lookup source ≡ ok a
    → held a n s ≡ true
    → ¬ IsOk (register env origin name source none s)
unfolding register
register-refuses env origin source a n name s found h good = ground (arith, held-refuses env a n s)

transfer-refuses :
    (env : Env) (origin : RawOrigin) (source : ℕ) (a : AccountId) (n : DomainHash) (s : State)
    → env.lookup source ≡ ok a
    → held a n s ≡ true
    → ¬ IsOk (transfer env origin source s)
unfolding transfer
transfer-refuses env origin source a n s found h good = ground (arith, held-refuses env a n s h)

redeem-refuses :
    (env : Env) (a : AccountId) (n : DomainHash) (name : Bytes) (duration : ℕ) (label : Label)
    (s : State)
    → held a n s ≡ true
    → ¬ IsOk (for_redeem_code env name a duration label s)
unfolding for_redeem_code
redeem-refuses env a n name duration label s h good = ground (arith, held-refuses env a n s h)

accept-refuses :
    (env : Env) (a : AccountId) (n offered : DomainHash) (s : State)
    → held a n s ≡ true
    → ¬ IsOk (accept_subname_offer env offered a s)
unfolding accept_subname_offer has_active_subname
accept-refuses env a n offered s h good = ground arith

accept_offered-refuses :
    (env : Env) (origin : RawOrigin) (a : AccountId) (n : DomainHash) (name : Bytes) (s : State)
    → env.ensure_signed origin ≡ ok a
    → held a n s ≡ true
    → ¬ IsOk (accept_offered_name env origin name s)
unfolding accept_offered_name ensure_nameless has_active_subname
accept_offered-refuses env origin a n name s signed h good = ground arith

-- An account transfers its canonical name, a root of the tree of names, which was in the account's part
-- of the index of subnames and is not its own subname. In every state where its entry for the name in that part is as the transfer
-- left it, nobody can register a name for the account with no offer to reject, transfer a name
-- to it or redeem a code for it, and it can accept no subname and no name bought for it.
pub transfer_locks_out :
    (env later : Env) (origin origin' mine : RawOrigin) (source source' : ℕ) (who to : AccountId)
    (node offered : DomainHash) (name : Bytes) (duration : ℕ) (label : Label) (s s' u : State)
    → env.ensure_signed origin ≡ ok who
    → env.lookup source ≡ ok to
    → primary_name who s ≡ some node
    → s.registry.runtime_origin node ≡ some root
    → held who node s ≡ true
    → contains_pair node node s.registry.sub_names ≡ false
    → transfer env origin source s ≡ ok (tt, s')
    → held who node u ≡ held who node s'
    → later.lookup source' ≡ ok who
    → later.ensure_signed mine ≡ ok who
    → (¬ IsOk (register later origin' name source' none u))
      × (¬ IsOk (transfer later origin' source' u))
      × (¬ IsOk (for_redeem_code later name who duration label u))
      × (¬ IsOk (accept_subname_offer later offered who u))
      × (¬ IsOk (accept_offered_name later mine name u))
transfer_locks_out env later origin origin' mine source source' who to node offered name duration
      label s s' u signed found named rooted kept flat e unchanged found' signed' =
    let still =
      unchanged
      ∙ transfer-held env origin source who to node s s' signed found named rooted flat e
      ∙ kept in
    (
      register-refuses later origin' source' who node name u found' still,
      transfer-refuses later origin' source' who node u found' still,
      redeem-refuses later who node name duration label u still,
      accept-refuses later who node offered u still,
      accept_offered-refuses later mine who node name u signed' still,
    )

-- A release that goes through was by the owner of the caller's canonical name. The name then has no
-- owner and no place in the tree, and the caller no canonical name and no entry for it in the index
-- of subnames.
pub release_name_lem :
    (env : Env) (origin : RawOrigin) (caller : AccountId) (node : DomainHash) (s s' : State)
    → env.ensure_signed origin ≡ ok caller
    → primary_name caller s ≡ some node
    → release_name env origin s ≡ ok (tt, s')
    → (owner_of node s ≡ some caller)
      × (owner_of node s' ≡ none)
      × (s'.registry.runtime_origin node ≡ none)
      × (held caller node s' ≡ false)
      × (primary_name caller s' ≡ none)
unfolding release_name owner_of
release_name_lem env origin caller node s s' signed named e =
    let t = after (set_primary_name caller none s) s in
    let burned = do_burn_lem env caller node t s' in
    (
      ground (arith, burned),
      ground (arith, burned),
      ground (arith, burned),
      ground (arith, burned),
      ground (arith, do_burn-primary_names env caller node t s'),
    )
