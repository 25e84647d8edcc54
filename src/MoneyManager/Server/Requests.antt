-- ===== src/MoneyManager/Server/Requests.antt =====
-- moneymanager/internal/server/server.go: what a request that succeeds was checked for.
use calculated_tennis.Base.{
  ◌+◌, ◌%◌, ◌≡◌, refl, Bool, true, false, not, Option, none, some, ok, >>=-eq-ok, reject_if, Text,
  is_empty, ℤ, Float64, arith, subst, text_test_iff,
}
use calculated_tennis.Base.Texts.{trim_space}
use calculated_tennis.MoneyManager.Decimals.{Decimal}
use calculated_tennis.MoneyManager.Risk.{
  Code, invalid_argument, internal, Config, allocate, validate_positive_ev, side_buy, side_sell,
}
use calculated_tennis.MoneyManager.Risk.Allocation.{IsOrdered, IsPermitted, allocate-IsPermitted}
use calculated_tennis.MoneyManager.Server.{
  Payload, OrderPayload, SignOrderRequest, ProcessSignalRequest, Order, Server, side_from_proto,
  risk_side_from_order, parse_decimal, payload_to_proto, signed, sign_request, sign_order, required,
  process_request, process_signal,
}

module _ (M : Decimal) (s : Server M) where
  -- The reply is the signed order.
  pub record IsReply (order : Order M.D) (reply : OrderPayload) : Type 0 where
    pub payload : Payload
    pub built : s.build_order order ≡ some payload
    pub sent : reply ≡ payload_to_proto payload
    pub token : is_empty order.token_id ≡ false
    pub wallet : s.is_address order.deposit_wallet ≡ true

  signed-built :
      (o : Option Payload) (reply : OrderPayload)
      → signed M o ≡ ok reply
      → (p : Payload) × (o ≡ some p) × (reply ≡ payload_to_proto p)
  signed-built none reply e = ground arith
  signed-built (some p) reply e = (p, refl, ground arith)

  accepted : (b : Bool) (code : Code) {done : Unit {0}} → reject_if b code ≡ ok done → b ≡ false
  accepted true code e = ground arith
  accepted false code e = refl

  module _ (N : Float64) (of_float : N.F → M.D) where
    -- A signal that succeeds.
    pub record IsFollowed (balance : Option ℤ) (req : ProcessSignalRequest N.F)
        (reply : OrderPayload) : Type 0 where
      pub cfg : Config M
      pub configured : s.allocator ≡ some cfg
      pub p : N.F
      pub probability : req.win_probability ≡ some p
      pub order : Order M.D
      pub replied : IsReply order reply
      pub own_wallet : order.deposit_wallet ≡ s.default_deposit_wallet
      pub priced : parse_decimal M req.price ≡ ok order.price
      pub permitted : IsPermitted M cfg balance order.side order.price order.size
      pub worth : validate_positive_ev M N of_float p order.side order.price ≡ ok tt

    required-some :
        {X : Type 0} (o : Option X) (code : Code) (x : X)
        → required M N of_float o code ≡ ok x
        → o ≡ some x
    required-some none code x e = ground arith
    required-some (some y) code x e = ground arith

    risk_side-eq : (side r : Text) → risk_side_from_order side ≡ ok r → r ≡ side
    unfolding risk_side_from_order
    risk_side-eq side r e =
        let b = text_test_iff side side_buy in let t = text_test_iff side side_sell in ground arith

    -- If the comparison of decimals is a strict order: a signal to which ProcessSignal replies came
    -- with a probability; the reply is the order that was built and signed, for the service's own
    -- wallet, a valid address, and a token that is not blank, at the request's price, with a
    -- positive expected value for its probability, and with a size that the allocation rules permit
    -- on the balance read.
    pub process_signal-IsFollowed :
        (balance : Option ℤ) (req : ProcessSignalRequest N.F) (reply : OrderPayload)
        → IsOrdered M
        → process_signal M N of_float s balance (some req) ≡ ok reply
        → IsFollowed balance req reply
    unfolding process_signal process_request
    process_signal-IsFollowed balance req reply o e =
        let (cfg, e1, r1) = >>=-eq-ok (required M N of_float s.allocator internal) _ e in
        let (side, e2, r2) = >>=-eq-ok (side_from_proto req.side) _ r1 in
        let (price, e3, r3) = >>=-eq-ok (parse_decimal M req.price) _ r2 in
        let (_, e4, r4) =
          >>=-eq-ok (reject_if (is_empty (trim_space req.token_id)) invalid_argument) _ r3 in
        let (_, e5, r5) =
          >>=-eq-ok (reject_if (is_empty s.default_deposit_wallet) invalid_argument) _ r4 in
        let (_, e6, r6) =
          >>=-eq-ok (reject_if (not (s.is_address s.default_deposit_wallet)) internal) _ r5 in
        let (p, e7, r7) =
          >>=-eq-ok (required M N of_float req.win_probability invalid_argument) _ r6 in
        let (rs, e8, r8) = >>=-eq-ok (risk_side_from_order side) _ r7 in
        let (_, e9, r9) = >>=-eq-ok (validate_positive_ev M N of_float p rs price) _ r8 in
        let (size, e10, r10) = >>=-eq-ok (allocate M cfg balance side price) _ r9 in
        let (payload, built, sent) = signed-built _ reply r10 in
        let valid = accepted _ internal e6 in
        record {
          cfg = cfg;
          configured = required-some s.allocator internal cfg e1;
          p = p;
          probability = required-some req.win_probability invalid_argument p e7;
          order = _;
          replied = record {
            payload = payload;
            built = built;
            sent = sent;
            token = accepted _ invalid_argument e4;
            wallet = ground arith;
          };
          own_wallet = refl;
          priced = e3;
          permitted = allocate-IsPermitted M cfg balance side price size o e10;
          worth =
              subst (λ x. validate_positive_ev M N of_float p x price ≡ ok tt)
                (risk_side-eq side rs e8) e9;
        }

  -- SignOrder keeps only the last byte of the signature type: a request and the same one with 256
  -- more get the same answer.
  pub sign_order_byte :
      (req : SignOrderRequest)
      → sign_order M s (some (record req { signature_type = req.signature_type + 256 }))
        ≡ sign_order M s (some req)
  unfolding sign_order sign_request
  sign_order_byte req =
      let same : (req.signature_type + 256) % 256 ≡ req.signature_type % 256 = omega arith in
      rw same
