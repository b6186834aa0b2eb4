-- ===== src/Dns/Server/Bloom.antt =====
-- The double-buffered Bloom filter of pallets/pns-ddns/src/dns_server.rs. The filters themselves are
-- a library's: `blank` is a cleared one, `insert` sets a key and `contains` checks one.
use pns_pallets.Base.{ℕ, ◌+◌, ◌≡◌, ◌≤◌, Bool, false, ◌||◌, leb, arith, if◌then◌else◌}
use pns_pallets.Types.{Bytes}

pub record DoubleBloom (B : Type 0) : Type 0 where
  pub primary : B
  pub secondary : B
  pub primary_count : ℕ

module _ {B : Type 0} (saturation_count : ℕ) (blank : B) (insert : Bytes → B → B) where
  -- At saturation the filters change places, and the one that was filled is cleared.
  unfoldable pub set : Bytes → DoubleBloom B → DoubleBloom B
  set name s =
      let primary = insert name s.primary in
      if leb saturation_count (s.primary_count + 1)
      then record { primary = s.secondary; secondary = blank; primary_count = 0 }
      else record s { primary = primary; primary_count = s.primary_count + 1 }

  module _ (contains : Bytes → B → Bool) where
    unfoldable pub check : Bytes → DoubleBloom B → Bool
    check name s = contains name s.primary || contains name s.secondary

    -- The second filter is never filled, so the set that saturates the first forgets every name.
    pub set_forgets :
        (name other : Bytes) (s : DoubleBloom B)
        → ((n : Bytes) → contains n blank ≡ false)
        → s.secondary ≡ blank
        → saturation_count ≤ s.primary_count + 1
        → ((set name s).secondary ≡ blank) × (check other (set name s) ≡ false)
    unfolding set check
    set_forgets name other s none_in_blank second_blank full =
        ground (arith, none_in_blank other, second_blank, full)
