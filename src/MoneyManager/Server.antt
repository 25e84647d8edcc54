-- ===== src/MoneyManager/Server.antt =====
-- moneymanager/internal/server/server.go: the two requests of the service. Of an error the gRPC code
-- is kept and the message is not. The order is built and signed by `BuildOrder` of pkg/signer, which
-- is a parameter here, as are the decimals and the test for an Ethereum address.
pub mod Requests
use calculated_tennis.Base.{
  ℕ, ◌%◌, Bool, true, false, not, Option, none, some, ◌==◌, if◌then◌else◌, Result, ok, err, ◌>>=◌,
  ◌>>◌, reject_if, Text, codes, text_test, is_empty, ℤ, Float64,
}
use calculated_tennis.Base.Texts.{trim_space}
use calculated_tennis.MoneyManager.Decimals.{Decimal}
use calculated_tennis.MoneyManager.Risk.{
  Code, invalid_argument, failed_precondition, internal, Config, allocate, validate_positive_ev,
  side_buy, side_sell,
}

-- `order.Payload`.
pub record Payload : Type 0 where
  pub maker : Text
  pub signer : Text
  pub token_id : Text
  pub maker_amount : Text
  pub taker_amount : Text
  pub side : Text
  pub expiration : Text
  pub timestamp : Text
  pub metadata : Text
  pub builder : Text
  pub signature : Text
  pub salt : ℤ
  -- An `int` that `BuildOrder` makes from a `uint8`.
  pub signature_type : ℕ

-- The message of the protocol, in which the side is a number.
pub record OrderPayload : Type 0 where
  pub maker : Text
  pub signer : Text
  pub token_id : Text
  pub maker_amount : Text
  pub taker_amount : Text
  pub side : ℕ
  pub expiration : Text
  pub timestamp : Text
  pub metadata : Text
  pub builder : Text
  pub signature : Text
  pub salt : ℤ
  pub signature_type : ℕ

pub record SignOrderRequest : Type 0 where
  pub token_id : Text
  pub side : ℕ
  pub price : Text
  pub size : Text
  pub neg_risk : Bool
  pub expiration : ℤ
  pub timestamp_ms : ℤ
  pub deposit_wallet : Text
  -- A `uint32`.
  pub signature_type : ℕ

pub record ProcessSignalRequest (F : Type 0) : Type 0 where
  pub token_id : Text
  pub side : ℕ
  pub price : Text
  pub neg_risk : Bool
  pub expiration : ℤ
  pub timestamp_ms : ℤ
  pub win_probability : Option F

-- The arguments of `BuildOrder`.
pub record Order (D : Type 0) : Type 0 where
  pub token_id : Text
  pub side : Text
  pub price : D
  pub size : D
  pub neg_risk : Bool
  pub expiration : ℤ
  pub timestamp_ms : ℤ
  pub deposit_wallet : Text
  pub signature_type : ℕ

unfoldable pub side_from_proto : ℕ → Result Code Text
side_from_proto s =
    if s == 1 then ok side_buy else if s == 2 then ok side_sell else err invalid_argument

unfoldable pub side_to_proto : Text → ℕ
side_to_proto s = if text_test s side_buy then 1 else if text_test s side_sell then 2 else 0

unfoldable pub risk_side_from_order : Text → Result Code Text
risk_side_from_order s =
    if text_test s side_buy
    then ok side_buy
    else if text_test s side_sell
    then ok side_sell
    else err invalid_argument

unfoldable pub payload_to_proto : Payload → OrderPayload
unfolding side_to_proto
payload_to_proto p = record {
  maker = p.maker;
  signer = p.signer;
  token_id = p.token_id;
  maker_amount = p.maker_amount;
  taker_amount = p.taker_amount;
  side = side_to_proto p.side;
  expiration = p.expiration;
  timestamp = p.timestamp;
  metadata = p.metadata;
  builder = p.builder;
  signature = p.signature;
  salt = p.salt;
  signature_type = p.signature_type;
}

abbrev pub or_default : Text → Text → Text
or_default s default = if is_empty s then default else s

module _ (M : Decimal) where
  unfoldable pub parse_decimal : Text → Result Code M.D
  parse_decimal raw =
      let v = trim_space raw in if is_empty v then err invalid_argument else parsed (M.parse v)
    where
      parsed : Option M.D → Result Code M.D
      parsed none = err invalid_argument
      parsed (some d) = ok d

  -- `server.Config`; the allocator is its configuration, and `is_address` is `common.IsHexAddress`.
  pub record Server : Type 0 where
    pub build_order : Order M.D → Option Payload
    pub allocator : Option (Config M)
    pub default_deposit_wallet : Text
    pub default_signature_type : ℕ
    pub is_address : Text → Bool

  abbrev pub signed : Option Payload → Result Code OrderPayload
  signed none = err internal
  signed (some p) = ok (payload_to_proto p)

  -- `uint8(...)` of the request's number, or the default for 0.
  abbrev pub signature_type_of : Server → ℕ → ℕ
  signature_type_of s n = if n % 256 == 0 then s.default_signature_type else n % 256

  unfoldable pub sign_request : Server → SignOrderRequest → Result Code OrderPayload
  unfolding side_from_proto parse_decimal
  sign_request s req = do
    side ← side_from_proto req.side
    price ← parse_decimal req.price
    size ← parse_decimal req.size
    reject_if (not (M.is_positive size)) invalid_argument
    reject_if (is_empty (trim_space req.token_id)) invalid_argument
    reject_if (is_empty (or_default (trim_space req.deposit_wallet) s.default_deposit_wallet))
        invalid_argument
    reject_if
        (not (s.is_address (or_default (trim_space req.deposit_wallet) s.default_deposit_wallet)))
        invalid_argument
    signed (
        s.build_order (record {
          token_id = trim_space req.token_id;
          side = side;
          price = price;
          size = size;
          neg_risk = req.neg_risk;
          expiration = req.expiration;
          timestamp_ms = req.timestamp_ms;
          deposit_wallet = or_default (trim_space req.deposit_wallet) s.default_deposit_wallet;
          signature_type = signature_type_of s req.signature_type;
        }))

  unfoldable pub sign_order : Server → Option SignOrderRequest → Result Code OrderPayload
  unfolding sign_request
  sign_order s none = err invalid_argument
  sign_order s (some req) = sign_request s req

  module _ (N : Float64) (of_float : N.F → M.D) where
    abbrev pub required : {X : Type 0} → Option X → Code → Result Code X
    required none code = err code
    required (some x) code = ok x

    -- `balance` is what the allocator's reader gives.
    unfoldable pub process_request :
        Server → Option ℤ → ProcessSignalRequest N.F → Result Code OrderPayload
    unfolding side_from_proto parse_decimal risk_side_from_order
    process_request s balance req = do
      cfg ← required s.allocator internal
      side ← side_from_proto req.side
      price ← parse_decimal req.price
      reject_if (is_empty (trim_space req.token_id)) invalid_argument
      reject_if (is_empty s.default_deposit_wallet) invalid_argument
      reject_if (not (s.is_address s.default_deposit_wallet)) internal
      p ← required req.win_probability invalid_argument
      risk_side ← risk_side_from_order side
      validate_positive_ev M N of_float p risk_side price
      size ← allocate M cfg balance side price
      signed (
          s.build_order (record {
            token_id = trim_space req.token_id;
            side = side;
            price = price;
            size = size;
            neg_risk = req.neg_risk;
            expiration = req.expiration;
            timestamp_ms = req.timestamp_ms;
            deposit_wallet = s.default_deposit_wallet;
            signature_type = s.default_signature_type;
          }))

    unfoldable pub process_signal :
        Server → Option ℤ → Option (ProcessSignalRequest N.F) → Result Code OrderPayload
    unfolding process_request
    process_signal s balance none = err invalid_argument
    process_signal s balance (some req) = process_request s balance req
