-- ===== src/Registrar/Renewal.antt =====
-- What `renew` of pallets/pns-registrar/src/registrar.rs achieves.
use pns_pallets.Base.{ℕ, ◌+◌, ◌≤◌, ◌<◌, ◌≡◌, some, ◌∷◌, arith, u64_mod}
use pns_pallets.Base.Storage.{update}
use pns_pallets.Types.{AccountId, DomainHash, RegistrarInfo}
use pns_pallets.Types.Dispatch.{RawOrigin, Event}
use pns_pallets.Types.Storage.{State}
use pns_pallets.Runtime.{Env, ok}
use pns_pallets.PriceOracle.{registration_fee}
use pns_pallets.Expiry.{registrar_info, grace_end}
use pns_pallets.Registrar.{primary_name}
use pns_pallets.Registrar.Names.{renew}

-- A renewal that goes through was of the caller's canonical name, no later than the end of its grace
-- period; it has taken the oracle's price for the stored length of the label, sets the expiry to the
-- maximal duration from now, records the event, and changes nothing else
-- of the state.
pub renew_lem :
    (env : Env) (origin : RawOrigin) (caller : AccountId) (node : DomainHash) (info : RegistrarInfo)
    (price : ℕ) (s s' : State)
    → env.ensure_signed origin ≡ ok caller
    → primary_name caller s ≡ some node
    → registrar_info node s ≡ some info
    → registration_fee info.label_len s.price_oracle ≡ some price
    → renew env origin s ≡ ok (tt, s')
    → (env.now ≤ grace_end env info.expire)
      × (env.now + env.max_registration_duration < u64_mod)
      × (env.withdraw caller price s.balances ≡ ok s'.balances)
      × (s' ≡ record s {
        balances = s'.balances;
        events =
            Event.name_renewed node caller (env.now + env.max_registration_duration) price
            ∷ s.events;
        registrar = record (s.registrar) {
          registrar_infos =
              update node
                (some (record info { expire = env.now + env.max_registration_duration }))
                s.registrar.registrar_infos;
        };
      })
unfolding renew
renew_lem env origin caller node info price s s' signed named found priced e =
    (ground arith, ground arith, ground arith, ground arith)
