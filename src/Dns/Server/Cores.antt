-- ===== src/Dns/Server/Cores.antt =====
-- The cores of the DNS threads, `determine_dns_cores` of pallets/pns-ddns/src/dns_server.rs. What the
-- operating system gives as core ids is an argument.
use pns_pallets.Base.{
  ℕ, zero, suc, ◌≡◌, ◌≤◌, true, Option, none, some, List, [], ◌∷◌, ◌||◌, ◌==◌, ltb, leb,
  if◌then◌else◌, length, take, elem, arith, refl,
}

-- `sort_by(|a, b| b.id.cmp(&a.id))`, from the highest id down.
unfoldable pub insert_core : ℕ → List ℕ → List ℕ
insert_core c [] = c ∷ []
insert_core c (d ∷ ds) = let rest = insert_core c ds in if leb d c then c ∷ d ∷ ds else d ∷ rest

unfoldable pub sort_cores : List ℕ → List ℕ
unfolding insert_core
sort_cores [] = []
sort_cores (c ∷ cs) = insert_core c (sort_cores cs)

-- The requested ids that are cores.
unfoldable pub known_cores : List ℕ → List ℕ → List ℕ
known_cores all_cores [] = []
known_cores all_cores (c ∷ cs) =
    let rest = known_cores all_cores cs in if elem c all_cores then c ∷ rest else rest

abbrev pub choose : Option (List ℕ) → ℕ → List ℕ → List ℕ
choose none workers all_cores = take workers (sort_cores all_cores)
choose (some ids) workers all_cores = take workers (known_cores all_cores ids)

unfoldable pub determine_dns_cores : Option (List ℕ) → Option (List ℕ) → ℕ → List ℕ
unfolding sort_cores known_cores
determine_dns_cores none requested workers = []
determine_dns_cores (some all_cores) requested workers =
    if ltb (length all_cores) 3 then [] else choose requested workers all_cores

elem-take : (n k : ℕ) (xs : List ℕ) → elem k (take n xs) ≡ true → elem k xs ≡ true
elem-take zero k xs h = absurd (ground arith)
elem-take (suc n) k [] h = h
elem-take (suc n) k (x ∷ xs) h = ground (arith, elem-take n k xs)

elem-insert_core : (k c : ℕ) (cs : List ℕ) → elem k (insert_core c cs) ≡ (k == c || elem k cs)
unfolding insert_core
elem-insert_core k c [] = refl
elem-insert_core k c (d ∷ ds) = ground (arith, elem-insert_core k c ds)

elem-sort_cores : (k : ℕ) (cs : List ℕ) → elem k (sort_cores cs) ≡ elem k cs
unfolding sort_cores
elem-sort_cores k [] = refl
elem-sort_cores k (c ∷ cs) =
    ground (arith, elem-insert_core k c (sort_cores cs), elem-sort_cores k cs)

elem-known_cores :
    (k : ℕ) (all_cores cs : List ℕ)
    → elem k (known_cores all_cores cs) ≡ true
    → elem k all_cores ≡ true
unfolding known_cores
elem-known_cores k all_cores [] h = absurd (ground arith)
elem-known_cores k all_cores (c ∷ cs) h = ground (arith, elem-known_cores k all_cores cs)

-- Every chosen core is one of the system's, and a system of fewer than three has none chosen.
pub determine_dns_cores_lem :
    (all_cores : List ℕ) (requested : Option (List ℕ)) (workers k : ℕ)
    → elem k (determine_dns_cores (some all_cores) requested workers) ≡ true
    → (elem k all_cores ≡ true) × (3 ≤ length all_cores)
unfolding determine_dns_cores
determine_dns_cores_lem all_cores none workers k h =
    ground (arith, elem-take workers k (sort_cores all_cores), elem-sort_cores k all_cores)
determine_dns_cores_lem all_cores (some ids) workers k h =
    ground
      (arith, elem-take workers k (known_cores all_cores ids), elem-known_cores k all_cores ids)
