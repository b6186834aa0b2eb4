-- ===== src/Registry/Lifecycle.antt =====
-- The life of a delegated subname as a state machine over the operations of
-- pallets/pns-registrar/src/registry.rs.
use pns_pallets.Base.{
  ℕ, ◌<◌, ◌≡◌, ◌≢◌, refl, Option, none, some, ◌==◌, arith, u32_mod, Bool, true, false, not, ◌&&◌,
  Option-cases, Bool-cases, inl, inr,
}
use pns_pallets.Base.Storage.{contains_pair, elem-add_key, elem-del_key}
use pns_pallets.Types.{
  AccountId, DomainHash, Bytes, SubnameRecord, SubnameState, offered, active, rejected,
}
use pns_pallets.Types.Storage.{State}
use pns_pallets.Runtime.{Env, ok}
use pns_pallets.Registry.{sub_children, add_children_with_check}
use pns_pallets.Registry.Offers.{
  offer_subname, accept_subname_offer, reject_subname_offer, revoke_subname, release_subname,
  revoke_pending_offer_for_target,
}
use pns_pallets.Registry.Children.{
  IsLinked, is_held_by, offer_subname-IsLinked, accept_subname_offer-IsLinked,
  reject_subname_offer-IsLinked, revoke_subname-IsLinked, release_subname-IsLinked,
  revoke_pending-IsLinked,
}

abbrev pub record_of : DomainHash → State → Option SubnameRecord
record_of n s = s.registry.subname_records n

-- One successful operation on delegated subnames. A capacity is a `u32`.
pub data Delegates (env : Env) (s s' : State) : Type 0 where
  offers :
      (parent node : DomainHash) (label : Bytes) (to : AccountId) (capacity : ℕ)
      → capacity < u32_mod
      → offer_subname parent node label to capacity s ≡ ok (tt, s')
      → Delegates env s s'
  accepts :
      (node : DomainHash) (acceptor : AccountId) (parent : DomainHash)
      → accept_subname_offer env node acceptor s ≡ ok (parent, s')
      → Delegates env s s'
  rejects :
      (node : DomainHash) (caller : AccountId)
      → reject_subname_offer node caller s ≡ ok (tt, s')
      → Delegates env s s'
  revokes :
      (parent node : DomainHash) → revoke_subname parent node s ≡ ok (tt, s') → Delegates env s s'
  releases :
      (node : DomainHash) (by : AccountId) (parent : DomainHash)
      → release_subname node by s ≡ ok (parent, s')
      → Delegates env s s'
  withdraws :
      (node : DomainHash) (target : AccountId)
      → revoke_pending_offer_for_target node target s ≡ ok (tt, s')
      → Delegates env s s'

pub data Reaches (env : Env) (s : State) : State → Type 0 where
  here : Reaches env s s
  next : {t u : State} → Reaches env s t → Delegates env t u → Reaches env s u

Delegates-IsLinked : (env : Env) (s s' : State) → Delegates env s s' → IsLinked s → IsLinked s'
Delegates-IsLinked env s s' (offers p n l to cap bound e) v =
    offer_subname-IsLinked p n l to cap s s' bound v e
Delegates-IsLinked env s s' (accepts n a p e) v = accept_subname_offer-IsLinked env n a s s' p v e
Delegates-IsLinked env s s' (rejects n a e) v = reject_subname_offer-IsLinked n a s s' v e
Delegates-IsLinked env s s' (revokes p n e) v = revoke_subname-IsLinked p n s s' v e
Delegates-IsLinked env s s' (releases n a p e) v = release_subname-IsLinked n a p s s' v e
Delegates-IsLinked env s s' (withdraws n a e) v = revoke_pending-IsLinked n a s s' v e

-- The account is indexed for a node without holding an active subname there, as the owner of a
-- canonical name is.
abbrev pub is_unrecorded : AccountId → DomainHash → State → Bool
is_unrecorded a n s =
    contains_pair a n s.registry.account_to_subnames && not (is_held_by a (record_of n s))

Delegates-is_unrecorded :
    (env : Env) (s s' : State) (a : AccountId) (n : DomainHash)
    → Delegates env s s'
    → is_unrecorded a n s' ≡ true
    → is_unrecorded a n s ≡ true
unfolding offer_subname accept_subname_offer reject_subname_offer revoke_subname release_subname
    revoke_pending_offer_for_target add_children_with_check sub_children
Delegates-is_unrecorded env s s' a n (offers p node l to cap bound e) h = ground arith
Delegates-is_unrecorded env s s' a n (accepts node by p e) h =
    ground (arith, elem-add_key n node (s.registry.account_to_subnames by))
Delegates-is_unrecorded env s s' a n (rejects node by e) h = ground arith
Delegates-is_unrecorded env s s' a n (revokes p node e) h =
    ground (arith, elem-del_key n node (s.registry.account_to_subnames a))
Delegates-is_unrecorded env s s' a n (releases node by p e) h =
    ground (arith, elem-del_key n node (s.registry.account_to_subnames a))
Delegates-is_unrecorded env s s' a n (withdraws node by e) h = ground arith

-- Any sequence of successful operations on delegated subnames keeps the indexes of offers and of
-- subnames by parent equal to those of the records, every holder of an active subname indexed, and the
-- children counters of root names equal to the number of their subnames; and every entry of the index
-- by account that is of no active subname of that account was there before, as one of that kind.
pub Reaches-IsLinked :
    (env : Env) (s s' : State) (a : AccountId) (n : DomainHash)
    → IsLinked s
    → Reaches env s s'
    → IsLinked s' × ((is_unrecorded a n s' && not (is_unrecorded a n s)) ≡ false)
Reaches-IsLinked env s s' a n v here = (v, ground arith)
Reaches-IsLinked env s s' a n v (next {t} r d) =
    let (linked, old) = Reaches-IsLinked env s t a n v r in
    (
      Delegates-IsLinked env t s' d linked,
      ground (arith, old, Delegates-is_unrecorded env t s' a n d),
    )

-- How the record of one label may change.
pub data Moves (r r' : Option SubnameRecord) : Type 0 where
  stays : r' ≡ r → Moves r r'
  opens : (rec : SubnameRecord) → r ≡ none → r' ≡ some rec → rec.state ≡ offered → Moves r r'
  settles :
      (rec : SubnameRecord) (state : SubnameState)
      → r ≡ some rec
      → rec.state ≡ offered
      → state ≢ offered
      → r' ≡ some (record rec { state = state })
      → Moves r r'
  closes : (rec : SubnameRecord) → r ≡ some rec → r' ≡ none → Moves r r'

offer_subname-Moves :
    (parent node : DomainHash) (label : Bytes) (to : AccountId) (capacity : ℕ) (n : DomainHash)
    (s s' : State)
    → offer_subname parent node label to capacity s ≡ ok (tt, s')
    → Moves (record_of n s) (record_of n s')
unfolding offer_subname add_children_with_check
offer_subname-Moves parent node label to capacity n s s' e = elim (Bool-cases (node == n)) [
  | inl hit ↦
      opens (record { parent = parent; label = label; target = to; state = offered }) (ground arith)
        (ground arith) refl
  | inr miss ↦ stays (ground arith)
]

accept_subname_offer-Moves :
    (env : Env) (node : DomainHash) (acceptor : AccountId) (n parent : DomainHash) (s s' : State)
    → accept_subname_offer env node acceptor s ≡ ok (parent, s')
    → Moves (record_of n s) (record_of n s')
unfolding accept_subname_offer
accept_subname_offer-Moves env node acceptor n parent s s' e =
    elim (Option-cases (record_of node s)) [
      | inl missing ↦ absurd (ground arith)
      | inr (rec, found) ↦ elim (Bool-cases (node == n)) [
        | inl hit ↦ settles rec active (ground arith) (ground arith) (λ h. cc) (ground arith)
        | inr miss ↦ stays (ground arith)
      ]
    ]

reject_subname_offer-Moves :
    (node : DomainHash) (caller : AccountId) (n : DomainHash) (s s' : State)
    → reject_subname_offer node caller s ≡ ok (tt, s')
    → Moves (record_of n s) (record_of n s')
unfolding reject_subname_offer
reject_subname_offer-Moves node caller n s s' e = elim (Option-cases (record_of node s)) [
  | inl missing ↦ absurd (ground arith)
  | inr (rec, found) ↦ elim (Bool-cases (node == n)) [
    | inl hit ↦ settles rec rejected (ground arith) (ground arith) (λ h. cc) (ground arith)
    | inr miss ↦ stays (ground arith)
  ]
]

revoke_subname-Moves :
    (parent node n : DomainHash) (s s' : State)
    → revoke_subname parent node s ≡ ok (tt, s')
    → Moves (record_of n s) (record_of n s')
unfolding revoke_subname sub_children
revoke_subname-Moves parent node n s s' e = elim (Option-cases (record_of node s)) [
  | inl missing ↦ absurd (ground arith)
  | inr (rec, found) ↦ elim (Bool-cases (node == n)) [
    | inl hit ↦ closes rec (ground arith) (ground arith)
    | inr miss ↦ stays (ground arith)
  ]
]

release_subname-Moves :
    (node : DomainHash) (by : AccountId) (parent n : DomainHash) (s s' : State)
    → release_subname node by s ≡ ok (parent, s')
    → Moves (record_of n s) (record_of n s')
unfolding release_subname sub_children
release_subname-Moves node by parent n s s' e = elim (Option-cases (record_of node s)) [
  | inl missing ↦ absurd (ground arith)
  | inr (rec, found) ↦ elim (Bool-cases (node == n)) [
    | inl hit ↦ closes rec (ground arith) (ground arith)
    | inr miss ↦ stays (ground arith)
  ]
]

pub withdraw-revoke :
    (node : DomainHash) (target : AccountId) (rec : SubnameRecord) (s s' : State)
    → record_of node s ≡ some rec
    → revoke_pending_offer_for_target node target s ≡ ok (tt, s')
    → revoke_subname rec.parent node s ≡ ok (tt, s')
unfolding revoke_pending_offer_for_target
withdraw-revoke node target rec s s' found e = ground arith

pub no_record :
    (node : DomainHash) (target : AccountId) (s s' : State)
    → record_of node s ≡ none
    → revoke_pending_offer_for_target node target s ≢ ok (tt, s')
unfolding revoke_pending_offer_for_target
no_record node target s s' missing e = ground arith

-- An operation on delegated subnames changes each label's record along the state machine: it leaves
-- the record, opens a new offer, settles an offer as active or rejected with nothing else changed,
-- or deletes the record.
pub Delegates-Moves :
    (env : Env) (s s' : State) (n : DomainHash)
    → Delegates env s s'
    → Moves (record_of n s) (record_of n s')
Delegates-Moves env s s' n (offers p node l to cap bound e) =
    offer_subname-Moves p node l to cap n s s' e
Delegates-Moves env s s' n (accepts node a p e) = accept_subname_offer-Moves env node a n p s s' e
Delegates-Moves env s s' n (rejects node a e) = reject_subname_offer-Moves node a n s s' e
Delegates-Moves env s s' n (revokes p node e) = revoke_subname-Moves p node n s s' e
Delegates-Moves env s s' n (releases node a p e) = release_subname-Moves node a p n s s' e
Delegates-Moves env s s' n (withdraws node a e) = elim (Option-cases (record_of node s)) [
  | inl missing ↦ absurd (no_record node a s s' missing e)
  | inr (rec, found) ↦
      revoke_subname-Moves rec.parent node n s s' (withdraw-revoke node a rec s s' found e)
]
