-- ===== src/Origin/Managers.antt =====
-- Who may change the managers and the switch of the registrar, pallets/pns-registrar/src/origin.rs.
use pns_pallets.Base.{ℕ, ◌≡◌, ◌≢◌, Bool, true, false, arith}
use pns_pallets.Types.{AccountId}
use pns_pallets.Types.Dispatch.{RawOrigin, root, signed, Event}
use pns_pallets.Types.Storage.{State}
use pns_pallets.Runtime.{Env, ok, err}
use pns_pallets.Origin.{ensure_origin, set_origin, set_origin_for_root, set_registrar_open}

-- The origin is signed by an account that the state lists as a manager.
abbrev pub IsManager : RawOrigin → State → Type 0
IsManager (signed who) s = s.origin.origins who ≡ true
IsManager root s = ⊥
IsManager RawOrigin.none s = ⊥

-- A `set_origin` that goes through was by a listed manager, decides for the looked-up account alone and
-- leaves the switch; it does what `set_origin_for_root` would have done for whoever is root; and the
-- account can then turn the switch if it was added, and gets an error if it was removed.
pub set_origin_lem :
    (env : Env) (origin above : RawOrigin) (source : ℕ) (account other : AccountId)
    (approved open_now : Bool) (s s' : State)
    → env.lookup source ≡ ok account
    → env.ensure_root above ≡ ok tt
    → other ≢ account
    → set_origin env origin source approved s ≡ ok (tt, s')
    → IsManager origin s
      × (s'.origin.origins account ≡ approved)
      × (s'.origin.origins other ≡ s.origin.origins other)
      × (s'.origin.is_registrar_open ≡ s.origin.is_registrar_open)
      × (set_origin_for_root env above source approved s ≡ ok (tt, s'))
      × (set_registrar_open (signed account) open_now s' ≡ (elim approved [
        | true ↦ ok (tt, record s' { origin = record (s'.origin) { is_registrar_open = open_now } })
        | false ↦ err pns_pallets.Types.Dispatch.bad_origin
      ]))
unfolding ensure_origin set_origin set_origin_for_root set_registrar_open
set_origin_lem env (signed who) above source account other approved open_now s s' found rooted
      different e =
    (ground arith, ground arith, ground arith, ground arith, ground arith, ground arith)
set_origin_lem env root above source account other approved open_now s s' found rooted different e =
    absurd (ground arith)
set_origin_lem env RawOrigin.none above source account other approved open_now s s' found rooted
      different e =
    absurd (ground arith)
