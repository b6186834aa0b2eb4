-- ===== src/Dns/Server/Admission.antt =====
-- The negative cache of pallets/pns-ddns/src/dns_server.rs admits a name at its second denial.
use pns_pallets.Base.{
  ℕ, ◌+◌, ◌≡◌, ◌≤◌, Bool, not, ◌||◌, leb, ap, Bool-cases, inl, inr, Option, none, some, true, false,
  List, [], ◌∷◌, ◌&&◌, if◌then◌else◌, arith, refl,
}
use pns_pallets.Types.{Bytes}
use pns_pallets.Dns.Records.{same_bytes}
use pns_pallets.Dns.Server.Bloom.{DoubleBloom}
use pns_pallets.Dns.Server.{
  Request, Moment, Server, Response, ResponseCode, replied, answered, dropped, timed_out, nx_domain,
  not_imp, count, storage_lookups, query_name, deny, after_inner, admitted, handle_request,
  record_penalty, forget,
}

-- A handler that has just been built, with this filter and limit.
abbrev pub fresh : {B : Type 0} → DoubleBloom B → ℕ → Server B
fresh bloom max_inflight = record {
  inflight = 0;
  max_inflight = max_inflight;
  penalty_cache = λ _. none;
  bloom = bloom;
  neg_cache = λ _. false;
  first_seen = λ _. false;
  metrics = [];
}

-- The authority has denied this name, of those with their responses.
abbrev pub is_denial : Response → Bool
is_denial (answered nx_domain) = true
is_denial _ = false

unfoldable pub denials : Bytes → List (Bytes × Response) → ℕ
denials name [] = 0
denials name ((n, r) ∷ log) = (if same_bytes name n && is_denial r then 1 else 0) + denials name log

unfoldable is_confirmed : Bool → Bool → ℕ → Bool
is_confirmed neg seen d = (not neg || leb 2 d) && (not seen || leb 1 d)

same_bytes_eq : (xs ys : Bytes) → same_bytes xs ys ≡ true → xs ≡ ys
same_bytes_eq [] [] h = refl
same_bytes_eq [] (y ∷ ys) h = absurd (ground arith)
same_bytes_eq (x ∷ xs) [] h = absurd (ground arith)
same_bytes_eq (x ∷ xs) (y ∷ ys) h = ground (arith, same_bytes_eq xs ys (ground arith))

module _ {B : Type 0} (saturation_count : ℕ) (blank : B) (insert : Bytes → B → B) where
  -- The states of a handler, with the requests behind it, the last one first.
  pub data Reaches (bloom : DoubleBloom B) (limit : ℕ)
      : Server B → List (Bytes × Response) → Type 0 where
    start : Reaches bloom limit (fresh bloom limit) []
    handles :
        (s : Server B) (log : List (Bytes × Response)) (request : Request) (m : Moment)
        → Reaches bloom limit s log
        → Reaches bloom limit (handle_request saturation_count blank insert request m s).1 (
            (
              query_name request.queries,
              (handle_request saturation_count blank insert request m s).0,
            )
            ∷ log)

  -- Every name of the negative cache has been denied twice, and every name seen first once.
  abbrev Confirmed : Server B → List (Bytes × Response) → Type 0
  Confirmed s log =
      (n : Bytes) → is_confirmed (s.neg_cache n) (s.first_seen n) (denials n log) ≡ true

  deny-Confirmed :
      (name : Bytes) (s : Server B) (log : List (Bytes × Response))
      → Confirmed s log
      → Confirmed (deny saturation_count blank insert name s) ((name, answered nx_domain) ∷ log)
  unfolding deny is_confirmed denials
  deny-Confirmed name s log c n = elim (Bool-cases (same_bytes n name)) [
    | inl same ↦ ground (
      arith,
      same,
      c n,
      ap (λ k. s.first_seen k) (same_bytes_eq n name same),
      ap (λ k. denials k log) (same_bytes_eq n name same),
    )
    | inr other ↦ ground (arith, other, c n)
  ]

  -- A response that is no denial, with the caches as before.
  idle-Confirmed :
      (name : Bytes) (r : Response) (s : Server B) (log : List (Bytes × Response))
      → is_denial r ≡ false
      → Confirmed s log
      → Confirmed s ((name, r) ∷ log)
  unfolding is_confirmed denials
  idle-Confirmed name r s log idle c n = ground (arith, idle, c n)

  forget-Confirmed :
      (m : Moment) (s : Server B) (log : List (Bytes × Response))
      → Confirmed s log
      → Confirmed (forget m s) log
  unfolding is_confirmed
  forget-Confirmed m s log c n = ground (arith, c n)

  abbrev ConfirmedAfter : Bytes → List (Bytes × Response) → Response × Server B → Type 0
  ConfirmedAfter name log p = Confirmed p.1 ((name, p.0) ∷ log)

  inner-Confirmed :
      (name : Bytes) (o : Option ResponseCode) (s : Server B) (log : List (Bytes × Response))
      → Confirmed s log
      → ConfirmedAfter name log (after_inner saturation_count blank insert name o s)
  unfolding after_inner
  inner-Confirmed name (some nx_domain) s log c = deny-Confirmed name s log c
  inner-Confirmed name none s log c = idle-Confirmed name timed_out s log refl c
  inner-Confirmed name (some code) s log c = idle-Confirmed name (answered code) s log refl c

  handle_request-Confirmed :
      (request : Request) (m : Moment) (s : Server B) (log : List (Bytes × Response))
      → Confirmed s log
      → ConfirmedAfter
          (query_name request.queries)
          log
          (handle_request saturation_count blank insert request m s)
  unfolding handle_request admitted record_penalty
  handle_request-Confirmed request m s log c n =
      let name = query_name request.queries in
      let t = forget m s in
      let w = forget-Confirmed m s log c in
      ground (
        arith,
        idle-Confirmed name dropped t log refl w n,
        idle-Confirmed name (replied not_imp) t log refl w n,
        idle-Confirmed name (replied nx_domain) t log refl w n,
        inner-Confirmed name m.inner (count storage_lookups t) log w n,
      )

  Reaches-Confirmed :
      (bloom : DoubleBloom B) (limit : ℕ) (s : Server B) (log : List (Bytes × Response))
      → Reaches bloom limit s log
      → Confirmed s log
  unfolding is_confirmed denials
  Reaches-Confirmed bloom limit s log start n = refl
  Reaches-Confirmed bloom limit s log (handles t earlier request m before) n =
      handle_request-Confirmed request m t earlier (Reaches-Confirmed bloom limit t earlier before)
        n

  -- The handler answers by itself that a name does not exist only after the authority has denied it
  -- twice, whatever the limiters, the caches' losses and the authority's answers were.
  pub replied-denials :
      (bloom : DoubleBloom B) (limit : ℕ) (s : Server B) (log : List (Bytes × Response))
      (request : Request) (m : Moment)
      → Reaches bloom limit s log
      → (handle_request saturation_count blank insert request m s).0 ≡ replied nx_domain
      → 2 ≤ denials (query_name request.queries) log
  unfolding handle_request admitted after_inner is_confirmed
  replied-denials bloom limit s log request m reached e =
      let c = Reaches-Confirmed bloom limit s log reached (query_name request.queries) in
      ground (arith, c, e)
