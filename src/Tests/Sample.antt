-- ===== src/Tests/Sample.antt =====
-- A small chain: account 1 is the official and a manager, and owns the base node; every account has
-- 1000 units, and a name costs 12 less its length.
use pns_pallets.Base.{
  ℕ, ◌+◌, ◌-◌, ◌*◌, ◌%◌, true, false, Option, none, some, [], ◌∷◌, ◌==◌, leb, if◌then◌else◌,
}
use pns_pallets.Base.Storage.{update}
use pns_pallets.Types.{AccountId, DomainHash, Bytes}
use pns_pallets.Types.Dispatch.{RawOrigin, signed, bad_origin, overflow}
use pns_pallets.Types.Storage.{State}
use pns_pallets.Runtime.{after, Result, ok, err, ⊤, Env}
use pns_pallets.Label.{Label, new_with_len, encode_with_node}
use pns_pallets.Registrar.Names.{register}

abbrev pub hash_from : ℕ → Bytes → ℕ
hash_from h [] = h
hash_from h (b ∷ bs) = hash_from ((h * 31 + b + 1) % 1000003) bs

abbrev pub sign_in : RawOrigin → Result AccountId
sign_in (signed a) = ok a
sign_in RawOrigin.root = err bad_origin
sign_in RawOrigin.none = err bad_origin

abbrev pub root_in : RawOrigin → Result ⊤
root_in (signed a) = err bad_origin
root_in RawOrigin.root = ok tt
root_in RawOrigin.none = err bad_origin

abbrev pub withdraw_from : AccountId → ℕ → (AccountId → ℕ) → Result (AccountId → ℕ)
withdraw_from a fee b = if leb fee (b a) then ok (update a (b a - fee) b) else err overflow

abbrev pub move_funds : AccountId → AccountId → ℕ → (AccountId → ℕ) → Result (AccountId → ℕ)
move_funds a c n b =
    if leb n (b a)
    then ok (update c ((update a (b a - n) b) c + n) (update a (b a - n) b))
    else err overflow

abbrev pub manager_in : RawOrigin → State → Result AccountId
manager_in (signed a) s = if s.origin.origins a then ok a else err bad_origin
manager_in RawOrigin.root s = err bad_origin
manager_in RawOrigin.none s = err bad_origin

-- The chain at a moment.
abbrev pub chain_at : ℕ → Env
chain_at now = record {
  keccak_256 = hash_from 7;
  encode_account = λ a. a ∷ [];
  verify_signature = λ code bytes a. a == 1;
  ensure_signed = sign_in;
  ensure_root = root_in;
  lookup = λ a. ok a;
  withdraw = withdraw_from;
  transfer = move_funds;
  manager = manager_in;
  is_open = λ s. s.origin.is_registrar_open;
  base_node = 7;
  grace_period = 100;
  default_capacity = 2;
  max_registration_duration = 1000;
  protocol_fee_bps = 200;
  max_content_len = 64;
  max_class_metadata = 0;
  max_token_metadata = 8;
  now = now;
  block_number = now;
  parent_hash = 9 ∷ [];
}

abbrev pub chain : Env
chain = chain_at 10

abbrev pub later_chain : Env
later_chain = chain_at 500

abbrev pub genesis : State
genesis = record {
  nft = record {
    next_class_id = 1;
    classes = update 0 (some (record { metadata = []; total_issuance = 1; owner = 1 })) (λ _. none);
    tokens = λ c.
        update 7 (some (record { metadata = []; owner = 1; token_data = record { children = 0 } }))
          (λ _. none);
    tokens_by_owner = λ a c. if a == 1 then 7 ∷ [] else [];
  };
  registry = record {
    runtime_origin = λ _. none;
    sub_names = λ _. [];
    account_to_subnames = λ _. [];
    subname_records = λ _. none;
    offered_to_account = λ _. [];
    official = some 1;
  };
  registrar = record {
    registrar_infos = λ _. none;
    reserved_list = λ _. false;
    owner_to_primary_name = λ _. none;
    offered_names = λ _. none;
  };
  origin = record { origins = λ a. a == 1; is_registrar_open = true };
  price_oracle = record {
    base_price = 11 ∷ 10 ∷ 9 ∷ 8 ∷ 7 ∷ 6 ∷ 5 ∷ 4 ∷ 3 ∷ 2 ∷ 1 ∷ [];
    rent_price = [];
    exchange_rate = 1;
  };
  redeems = λ n. leb 20 n;
  listings = λ _. none;
  resolvers = record { records = λ _. []; texts = λ _. [] };
  balances = λ _. 1000;
  events = [];
}

-- The labels `abc` and `x`, and the name `x.abc`.
abbrev pub abc : Bytes
abc = 97 ∷ 98 ∷ 99 ∷ []

abbrev pub x : Bytes
x = 120 ∷ []

abbrev pub x_abc : Bytes
x_abc = 120 ∷ 46 ∷ 97 ∷ 98 ∷ 99 ∷ []

-- The hash of a label, and the node of a name.
abbrev pub label_of : Option (Label × ℕ) → Label
label_of none = record { node = 0 }
label_of (some (label, _)) = label

abbrev pub abc_label : Label
abc_label = label_of (new_with_len chain abc)

abbrev pub abc_node : DomainHash
abc_node = encode_with_node chain abc_label 7

-- Account 5 has registered the name.
abbrev pub registered : State
registered = after (register chain (signed 5) abc 5 none genesis) genesis
