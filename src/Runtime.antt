-- ===== src/Runtime.antt =====
-- What a call runs in: the chain's environment, and the calls as state transformers.
-- A call that returns an error leaves no state: FRAME runs every call of a pallet in a storage
-- layer, which it drops on an error.
use pns_pallets.Base.{ℕ, ◌≡◌, ◌⊎◌, inl, inr, refl, Bool, true, false, Option, none, some, ◌∷◌}
use pns_pallets.Types.{AccountId, DomainHash, Bytes}
use pns_pallets.Types.Dispatch.{RawOrigin, DispatchError, Event}
use pns_pallets.Types.Storage.{State, Nft, Registry, Registrar, Resolvers}

pub data Result {ℓ} (A : Type ℓ) : Type ℓ where
  ok : A → Result A
  err : DispatchError → Result A

-- Success, with what a `Result` holds.
abbrev pub IsOk {ℓ} : {A : Type ℓ} → Result A → Type 0
IsOk (ok a) = Unit {0}
IsOk (err e) = ⊥

pub Result-cases {ℓ} :
    {A : Type ℓ} (r : Result A) → ((e : DispatchError) × (r ≡ err e)) ⊎ ((a : A) × (r ≡ ok a))
Result-cases (ok a) = inr (a, refl)
Result-cases (err e) = inl (e, refl)

-- The state that a call leaves; an error drops what it changed.
abbrev pub after : Result (Unit {0} × State) → State → State
after (ok (_, s')) s = s'
after (err _) s = s

abbrev pub M : Type 0 → Type 0
M A = State → Result (A × State)

abbrev pub ⊤ : Type 0
⊤ = Unit {0}

infixl 5 ◌>>=◌ ◌>>◌
abbrev pub ◌>>=◌ : {A B : Type 0} → M A → (A → M B) → M B
◌>>=◌ m f s = elim (m s) [ ok (a, s') ↦ f a s' | err e ↦ err e ]

abbrev pub ◌>>◌ : {A B : Type 0} → M A → M B → M B
m >> k = m >>= λ _. k

abbrev pub pure : {A : Type 0} → A → M A
pure a s = ok (a, s)

abbrev pub fail : {A : Type 0} → DispatchError → M A
fail e s = err e

-- `ensure!`
abbrev pub ensure : Bool → DispatchError → M ⊤
ensure true e s = ok (tt, s)
ensure false e s = err e

-- `ok_or(e)?`
abbrev pub ok_or : {A : Type 0} → Option A → DispatchError → M A
ok_or none e s = err e
ok_or (some a) e s = ok (a, s)

-- A result of code outside the pallets.
abbrev pub lift : {A : Type 0} → Result A → M A
lift (ok a) s = ok (a, s)
lift (err e) s = err e

abbrev pub gets : {A : Type 0} → (State → A) → M A
gets f s = ok (f s, s)

abbrev pub modify : (State → State) → M ⊤
modify f s = ok (tt, f s)

abbrev pub deposit_event : Event → M ⊤
deposit_event e = modify λ s. record s { events = e ∷ s.events }

-- The functions of the nft pallet see its storage alone.
abbrev pub on_nft : {A : Type 0} → (Nft → Result (A × Nft)) → M A
on_nft f s = elim (f s.nft) [ ok (a, n) ↦ ok (a, record s { nft = n }) | err e ↦ err e ]

abbrev pub on_resolvers : (Resolvers → Resolvers) → M ⊤
on_resolvers f = modify λ s. record s { resolvers = f s.resolvers }

abbrev pub on_registry : (Registry → Registry) → M ⊤
on_registry f = modify λ s. record s { registry = f s.registry }

abbrev pub on_registrar : (Registrar → Registrar) → M ⊤
on_registrar f = modify λ s. record s { registrar = f s.registrar }

-- The pallets' configuration, what the code calls outside the repository, and the block in which a
-- call runs. `withdraw` is `Currency::withdraw` for a fee and `transfer` is `Currency::transfer`,
-- both with `KeepAlive`; each returns the new balances. `lookup` is `StaticLookup::lookup`.
pub record Env : Type 0 where
  pub keccak_256 : Bytes → DomainHash
  pub encode_account : AccountId → Bytes
  pub verify_signature : Bytes → Bytes → AccountId → Bool
  pub ensure_signed : RawOrigin → Result AccountId
  pub ensure_root : RawOrigin → Result ⊤
  pub lookup : ℕ → Result AccountId
  pub withdraw : AccountId → ℕ → (AccountId → ℕ) → Result (AccountId → ℕ)
  pub transfer : AccountId → AccountId → ℕ → (AccountId → ℕ) → Result (AccountId → ℕ)
  pub manager : RawOrigin → State → Result AccountId
  pub is_open : State → Bool
  pub base_node : DomainHash
  pub grace_period : ℕ
  pub default_capacity : ℕ
  pub max_registration_duration : ℕ
  pub protocol_fee_bps : ℕ
  pub max_content_len : ℕ
  pub max_class_metadata : ℕ
  pub max_token_metadata : ℕ
  pub now : ℕ
  pub block_number : ℕ
  pub parent_hash : Bytes

-- `Currency::withdraw` of a fee whose imbalance is dropped, which burns it.
abbrev pub burn_fee : Env → AccountId → ℕ → M ⊤
burn_fee env who fee s = elim (env.withdraw who fee s.balances) [
  | ok b ↦ ok (tt, record s { balances = b })
  | err e ↦ err e
]

abbrev pub pay : Env → AccountId → AccountId → ℕ → M ⊤
pay env payer payee price s = elim (env.transfer payer payee price s.balances) [
  | ok b ↦ ok (tt, record s { balances = b })
  | err e ↦ err e
]

-- `T::ManagerOrigin::ensure_origin(origin)?`
abbrev pub ensure_manager : Env → RawOrigin → M AccountId
ensure_manager env origin s = lift (env.manager origin s) s

-- `ensure_signed(origin)?`
abbrev pub signed_by : Env → RawOrigin → M AccountId
signed_by env origin = lift (env.ensure_signed origin)
