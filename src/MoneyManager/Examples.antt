-- ===== src/MoneyManager/Examples.antt =====
-- The theorems on moneymanager at concrete inputs: amounts in millionths, and a service whose
-- signer copies the order.
use calculated_tennis.Base.{
  ℕ, ◌+◌, ◌-◌, ◌*◌, ◌/◌, ◌^◌, ◌≡◌, refl, true, false, not, Option, some, ltb, leb, ok, codes, ℤ,
  pos, negsuc, Float64, arith, is_empty, ◌↔◌, [],
}
use calculated_tennis.Base.Texts.{trim_space}
use calculated_tennis.MoneyManager.Decimals.{Decimal}
use calculated_tennis.MoneyManager.Risk.{Config, allocate, side_buy, validate_positive_ev}
use calculated_tennis.MoneyManager.Risk.Allocation.{
  IsOrdered, IsPermitted, allocate-IsPermitted, validate_positive_ev_iff,
}
use calculated_tennis.MoneyManager.Server.{
  Payload, Order, Server, SignOrderRequest, ProcessSignalRequest, payload_to_proto, process_signal,
  sign_order,
}
use calculated_tennis.MoneyManager.Server.Requests.{
  IsFollowed, process_signal-IsFollowed, sign_order_byte,
}

abbrev million : ℕ
million = 1000000

abbrev of_micros : ℤ → ℕ
of_micros (pos n) = n
of_micros (negsuc n) = 0

-- Amounts in millionths; the text of every price is read as 0.5.
abbrev micros : Decimal
micros = record {
  D = ℕ;
  of_int = λ n. n * million;
  of_micro = of_micros;
  five_percent = 50000;
  parse = λ _. some 500000;
  is_positive = λ a. ltb 0 a;
  is_negative = λ a. false;
  greater = λ a b. ltb b a;
  less = ltb;
  mul = λ a b. a * b / million;
  sub = ◌-◌;
  div = λ a b. a * million / b;
  truncate = λ a. a / 10000 * 10000;
}

micros-IsOrdered : IsOrdered micros
micros-IsOrdered = record {
  irrefl = λ a. ground arith;
  asym = λ a b h. ground arith;
  trans = λ a b c h k. ground arith;
}

-- Floats in millionths.
abbrev floats : Float64
floats = record {
  F = ℕ;
  zero = 0;
  one = million;
  two = 2000000;
  half = 500000;
  lt = ltb;
  le = leb;
  add = ◌+◌;
  sub = ◌-◌;
  div = λ a b. a * million / b;
  pow = λ a b. a;
  mul = λ a b. a * b / million;
  neg = λ a. 0;
  of_int = elim [ pos n ↦ n * million | negsuc n ↦ 0 ];
  literal = λ n k. n * million / 10 ^ k;
}

abbrev limits : Config micros
limits = record {
  deposit_wallet = codes "0x1";
  max_order_usdc = 0;
  max_pct_balance = 50000;
  min_share_size = 5000000;
}

-- 100 USDC.
abbrev hundred : Option ℤ
hundred = some (pos 100000000)

ten_shares : allocate micros limits hundred side_buy 500000 ≡ ok 10000000
unfolding allocate
ten_shares = refl

allocate-IsPermitted_example : IsPermitted micros limits hundred side_buy 500000 10000000
allocate-IsPermitted_example =
    allocate-IsPermitted micros limits hundred side_buy 500000 10000000 micros-IsOrdered ten_shares

validate_positive_ev_iff_example :
    (validate_positive_ev micros floats (λ p. p) 600000 side_buy 500000 ≡ ok tt) ↔ (
      (side_buy ≡ side_buy)
      × (ltb 0 500000 ≡ true)
      × (leb 600000 600000 ≡ true)
      × (leb 600000 0 ≡ false)
      × (ltb million 600000 ≡ false)
      × (ltb 0 (600000 * million / 500000 - 1 * million) ≡ true))
validate_positive_ev_iff_example =
    validate_positive_ev_iff micros floats (λ p. p) 600000 side_buy 500000

abbrev copied : Order ℕ → Option Payload
copied o = some (record {
  maker = o.deposit_wallet;
  signer = o.deposit_wallet;
  token_id = o.token_id;
  maker_amount = [];
  taker_amount = [];
  side = o.side;
  expiration = [];
  timestamp = [];
  metadata = [];
  builder = [];
  signature = codes "0xs";
  salt = pos 1;
  signature_type = o.signature_type;
})

abbrev service : Server micros
service = record {
  build_order = copied;
  allocator = some limits;
  default_deposit_wallet = codes "0x1";
  default_signature_type = 3;
  is_address = λ a. not (is_empty a);
}

abbrev signal : ProcessSignalRequest ℕ
signal = record {
  token_id = codes "yes";
  side = 1;
  price = codes "0.5";
  neg_risk = false;
  expiration = pos 0;
  timestamp_ms = pos 1;
  win_probability = some 600000;
}

abbrev paid : Payload
paid = record {
  maker = codes "0x1";
  signer = codes "0x1";
  token_id = codes "yes";
  maker_amount = [];
  taker_amount = [];
  side = side_buy;
  expiration = [];
  timestamp = [];
  metadata = [];
  builder = [];
  signature = codes "0xs";
  salt = pos 1;
  signature_type = 3;
}

followed :
    process_signal micros floats (λ p. p) service hundred (some signal) ≡ ok (payload_to_proto paid)
unfolding process_signal validate_positive_ev allocate trim_space
followed = refl

process_signal-IsFollowed_example :
    IsFollowed micros service floats (λ p. p) hundred signal (payload_to_proto paid)
process_signal-IsFollowed_example =
    process_signal-IsFollowed micros service floats (λ p. p) hundred signal (payload_to_proto paid)
      micros-IsOrdered followed

abbrev request : SignOrderRequest
request = record {
  token_id = codes "yes";
  side = 2;
  price = codes "0.5";
  size = codes "0.5";
  neg_risk = false;
  expiration = pos 0;
  timestamp_ms = pos 1;
  deposit_wallet = [];
  signature_type = 0;
}

sign_order_byte_example :
    sign_order micros service (some (record request { signature_type = 256 }))
    ≡ sign_order micros service (some request)
sign_order_byte_example = sign_order_byte micros service request
