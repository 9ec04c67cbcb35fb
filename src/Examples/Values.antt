-- ===== src/Examples/Values.antt =====
-- Contract values as a data type, and a server and a toolkit that answer at once, for the tests of
-- the contract client.

use shopble_stellar.Common.{ℕ, ◌+◌, String, ◌≡◌, refl, ap, sym, ◌∙◌, some, false, List, [], ◌∷◌}
use shopble_stellar.Common.Int.{ℤ, pos}
use shopble_stellar.Soroban.Sdk
use shopble_stellar.Soroban.Sdk.{Xdr, Sdk, Rpc}

mutual
  pub data Value : Type 0 where
    symbol string bytes account : String → Value
    i128 : ℤ → ℕ → Value
    vec : Values → Value

  pub data Values : Type 0 where
    done : Values
    next : Value → Values → Values

abbrev pack : List Value → Values
pack [] = Values.done
pack (v ∷ vs) = Values.next v (pack vs)

abbrev unpack : Values → List Value
unpack Values.done = []
unpack (Values.next v vs) = v ∷ unpack vs

unpack-pack : (vs : List Value) → unpack (pack vs) ≡ vs
unpack-pack [] = refl
unpack-pack (v ∷ vs) = ap (λ l. v ∷ l) (unpack-pack vs)

abbrev items : Value → Values
items (Value.vec vs) = vs
items _ = Values.done

abbrev name : Value → String
name (Value.symbol s) = s
name _ = ""

abbrev pub values : Xdr Value String
values = record {
  symbol = Value.symbol;
  string = Value.string;
  bytes = Value.bytes;
  i128 = Value.i128;
  account = Value.account;
  vec = λ vs. Value.vec (pack vs);
  address_to_account_id = λ addr. some addr;
}

pub values-IsLawful : Sdk.IsLawful values
values-IsLawful = record {
  symbol-injective = λ a b h. ap name h;
  vec-injective = λ a b h. sym (unpack-pack a) ∙ ap (λ v. unpack (items v)) h ∙ unpack-pack b;
}

abbrev pub toolkit : Sdk Value String String String String String
toolkit = record {
  sha256 = λ s. s;
  getenv = λ s. "SECRET";
  parse_full = λ s. some s;
  address_of = λ k. "GO";
  decode_contract = λ c. some c;
  new_transaction = λ account seq fee resources entries contract fn args. some fn;
  min_base_fee = 100;
  base64 = λ t. some t;
  sign = λ passphrase k t. some t;
  decode_data = λ d. some d;
  decode_entry = λ e. some e;
}

-- The state counts the questions about transactions; each finds its transaction in the ledger.
abbrev pub server : Rpc ℕ
server = record {
  load_account = λ address x. (some (some (pos 1)), x);
  simulate_transaction = λ raw x.
      (some (record { error = ""; transaction_data = ""; results = []; min_resource_fee = 5 }), x);
  send_transaction = λ envelope x. (some (record { hash = "h1"; status = "PENDING" }), x);
  get_transaction = λ hash x. (some "SUCCESS", x + 1);
  wait_second = λ x. (false, x);
}
