-- ===== src/Database/Exceptions.antt =====
-- apps/backend/src/common/exceptions: what an operation throws. HttpStatus of NestJS is written out.
use Prim.Native.String.{◌++◌ as join}
use hau_cex.Common.{ℕ, String, Option, none, some}

-- `HttpException`: the error's code and message, and the HTTP status.
pub record HttpException : Type 0 where
  pub code : String
  pub message : String
  pub status : ℕ

abbrev pub asset_not_found : Option String → HttpException
asset_not_found symbol = record {
  code = "ASSET_NOT_FOUND";
  message = elim symbol [
    | none ↦ "The specified asset could not be found."
    | some s ↦ join "Asset with symbol '" (join s "' could not be found.")
  ];
  status = 404;
}

abbrev pub idempotency_conflict : HttpException
idempotency_conflict = record {
  code = "IDEMPOTENCY_CONFLICT";
  message = "A request with the same idempotency key has already been processed.";
  status = 409;
}

abbrev pub insufficient_balance : HttpException
insufficient_balance = record {
  code = "INSUFFICIENT_BALANCE";
  message = "Insufficient balance to perform this operation.";
  status = 422;
}

abbrev pub invalid_amount : HttpException
invalid_amount = record {
  code = "INVALID_AMOUNT";
  message = "Amount must be greater than zero.";
  status = 400;
}

abbrev pub market_not_found : HttpException
market_not_found = record {
  code = "MARKET_NOT_FOUND";
  message = "The specified market could not be found.";
  status = 404;
}

abbrev pub market_not_ready : HttpException
market_not_ready = record {
  code = "MARKET_NOT_READY";
  message = "The specified market is not ready for trading.";
  status = 422;
}

abbrev pub market_suspended : HttpException
market_suspended = record {
  code = "MARKET_SUSPENDED";
  message = "The specified market is suspended.";
  status = 422;
}

abbrev pub order_not_cancellable : HttpException
order_not_cancellable = record {
  code = "ORDER_NOT_CANCELLABLE";
  message = "The specified order cannot be cancelled.";
  status = 422;
}

abbrev pub order_not_found : HttpException
order_not_found = record {
  code = "ORDER_NOT_FOUND";
  message = "The specified order could not be found.";
  status = 404;
}

abbrev pub validation_error : Option String → HttpException
validation_error message = record {
  code = "VALIDATION_ERROR";
  message = elim message [ none ↦ "Validation failed for the provided input." | some m ↦ m ];
  status = 422;
}

abbrev pub wallet_not_found : Option String → HttpException
wallet_not_found detail = record {
  code = "WALLET_NOT_FOUND";
  message = elim detail [
    | none ↦ "The specified wallet could not be found."
    | some d ↦ join "Wallet not found: " d
  ];
  status = 404;
}
