-- ===== src/Recon.antt =====
-- internal/recon/walker.go: the balance of the hot wallet on the chain against the books, with
-- AccountBalanceByCode of internal/db/sqlc/ledger.sql.go. What the node answers is a parameter; the
-- time of a report is left out.
pub mod Balance
pub mod Credited
pub mod Agrees
use selatpay.Prelude.{
  Bool, true, false, ◌&&◌, not, Option, none, some, List, ◌==◌, if◌then◌else◌, find?,
}
use selatpay.Prelude.Text.{Text, codes, text_eq}
use selatpay.Prelude.Int.{ℤ, ◌-ℤ◌, wrap64, is_zero, fits_int64}
use selatpay.Chain.Parser.{PublicKey}
use selatpay.Db.Tables.{Account, Posting}
use selatpay.Db.Tx.{Err, Result, ok, err, message, wrap, no_rows, unavailable, Db}
use selatpay.Ledger.Posting.{account_balance}
use selatpay.Saga.Steps.Names.{account_hot_wallet_usdc, currency_usdc}
use selatpay.Webhook.Hex.{parse_int}

pub record Report : Type 0 where
  pub hot_wallet_ata : PublicKey
  pub mint : PublicKey
  pub on_chain_amount : ℤ
  pub ledger_amount : ℤ
  pub difference : ℤ
  pub status : Text

pub record Walker : Type 0 where
  pub hot_wallet_ata : PublicKey
  pub mint : PublicKey

-- `NewWalker`, whether there is a pool and an RPC client.
unfoldable pub new_walker : Bool → Bool → PublicKey → PublicKey → Result Walker
new_walker pool rpc_client hot_wallet_ata mint =
    if not pool
    then err (message (codes "recon: pool is required"))
    else if not rpc_client
    then err (message (codes "recon: rpc client is required"))
    else if hot_wallet_ata == 0
    then err (message (codes "recon: hot wallet ATA is required"))
    else if mint == 0
    then err (message (codes "recon: mint is required"))
    else ok (record { hot_wallet_ata = hot_wallet_ata; mint = mint })

abbrev pub parsed_amount : Option ℤ → Result ℤ
parsed_amount none = err (message (codes "strconv.ParseInt"))
parsed_amount (some n) = ok n

-- `fetchOnChainBalance`: what the node answers, an error, nothing, or a decimal text.
unfoldable pub fetch_on_chain_balance : Result (Option Text) → Result ℤ
fetch_on_chain_balance (err e) = err e
fetch_on_chain_balance (ok none) = err (message (codes "empty response"))
fetch_on_chain_balance (ok (some amount)) = parsed_amount (parse_int amount)

abbrev pub balance_row : List Posting → Option Account → Result ℤ
balance_row postings none = err no_rows
balance_row postings (some a) =
    let sum = account_balance a postings in
    if fits_int64 sum then ok sum else err (message (codes "bigint out of range"))

-- AccountBalanceByCode, whether it fails for a reason outside the model. The sum is cast to a BIGINT.
unfoldable pub account_balance_by_code : Bool → Text → Text → Db → Result ℤ
account_balance_by_code fails code currency db =
    if fails
    then err unavailable
    else balance_row db.postings
        (find? (λ a. text_eq a.code code && text_eq a.currency currency) db.accounts)

abbrev pub status_of : ℤ → Text
status_of difference = if is_zero difference then codes "ok" else codes "diverged"

abbrev pub report_of : Walker → ℤ → ℤ → Report
report_of walker on_chain ledger = record {
  hot_wallet_ata = walker.hot_wallet_ata;
  mint = walker.mint;
  on_chain_amount = on_chain;
  ledger_amount = ledger;
  difference = wrap64 (on_chain -ℤ ledger);
  status = status_of (wrap64 (on_chain -ℤ ledger));
}

abbrev pub reported : Walker → ℤ → Result ℤ → Result Report
reported walker on_chain (err e) = err (wrap e)
reported walker on_chain (ok ledger) = ok (report_of walker on_chain ledger)

abbrev pub compared : Walker → Result ℤ → Result ℤ → Result Report
compared walker (err e) ledger = err (wrap e)
compared walker (ok on_chain) ledger = reported walker on_chain ledger

-- `Walk`.
unfoldable pub walk : Walker → (PublicKey → Result (Option Text)) → Bool → Db → Result Report
unfolding fetch_on_chain_balance account_balance_by_code
walk walker token_balance fails db =
    compared walker (fetch_on_chain_balance (token_balance walker.hot_wallet_ata))
      (account_balance_by_code fails account_hot_wallet_usdc currency_usdc db)
