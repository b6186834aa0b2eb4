-- ===== src/Label/Bases.antt =====
-- The base nodes of labels, and whether a length is registered or auctioned, of
-- pallets/pns-registrar/src/traits.rs.
use pns_pallets.Base.{ℕ, ◌≡◌, ◌≤◌, ◌↔◌, true, false, some, arith}
use pns_pallets.Types.{Bytes}
use pns_pallets.Runtime.{Env}
use pns_pallets.Label.{
  Label, ◌>>=◌, new, new_basenode, to_basenode, basenode, encode_with_node, encode_with_baselabel,
  encode_with_basename, is_registrable, is_anctionable,
}

-- A base node is that of the label of the name; a label below the base of a name, by its label or by the
-- name, is the label below that base node; every length from one on is registrable and none is for
-- auction.
pub encode_with_basename-new_basenode :
    (env : Env) (label : Label) (raw : Bytes) (len : ℕ)
    → (new_basenode env raw ≡ (new env raw >>= λ l. some (record { node = to_basenode env l })))
      × (encode_with_basename env label raw ≡ (
          new_basenode env raw >>= λ b. some (record { node = encode_with_node env label b.node })))
      × ((is_registrable len ≡ true) ↔ (1 ≤ len))
      × (is_anctionable len ≡ false)
unfolding new_basenode new basenode encode_with_node encode_with_baselabel encode_with_basename
    is_registrable is_anctionable
encode_with_basename-new_basenode env label raw len = ground arith
