-- ===== src/Chain/Watcher.antt =====
-- `ProcessSignature` of internal/chain/watcher.go. The RPC node, base58 and the token program's
-- address are parameters; a child has the loops over many signatures.
pub mod Loops
pub mod Covered
pub mod Settled
pub mod Growth
pub mod Kept
pub mod Written
pub mod Delivered
pub mod History
use selatpay.Prelude.{
  ℕ, ◌+◌, Bool, true, false, ◌&&◌, Option, none, some, List, [], ◌∷◌, ◌++◌, ◌==◌, ltb, not,
  if◌then◌else◌,
}
use selatpay.Prelude.Text.{Text, codes}
use selatpay.Prelude.Decimal.{format_uint}
use selatpay.Prelude.Int.{pos, max_int64, of_bits}
use selatpay.Db.Tables.{Uuid, OnchainPayment, Commitment, PaymentIntent}
use selatpay.Db.Tx.{
  Err, Result, ok, err, no_spl_transfer, unavailable, message, wrap, World, Tx, pure, fail, catch,
  guard, ◌>>=◌, ◌>>◌,
}
use selatpay.Saga.Steps.Names.{first_step}
use selatpay.Chain.Parser.{PublicKey, Transaction, SplTransfer, parse_spl_transfer_checked}
use selatpay.Chain.References.{References, set_reference, match_reference, uuid_nil}
use selatpay.Chain.Deposits.{
  upsert_onchain_payment, enqueue_saga_run, list_unfinalized, list_active_references,
}

abbrev pub Signature : Type 0
Signature = ℕ

-- `rpc.CommitmentType` is a string: `other` is any that is neither constant.
pub data CommitmentType : Type 0 where
  confirmed finalized other : CommitmentType

-- What the watcher reads of `rpc.GetTransactionResult`: the transaction, if there is one, with what
-- decoding it gives, and whether the execution failed.
pub record TransactionResult : Type 0 where
  pub transaction : Option (Result Transaction)
  pub meta_err : Bool
  pub slot : ℕ
  pub block_time : Option ℕ

pub data Fetched : Type 0 where
  not_found : Fetched
  failed : Err → Fetched
  response : Option TransactionResult → Fetched

pub record TransactionSignature : Type 0 where
  pub signature : Signature
  pub has_err : Bool

pub record RpcClient : Type 0 where
  pub get_transaction : Signature → CommitmentType → Fetched
  pub get_signatures : PublicKey → ℕ → Result (List TransactionSignature)

-- Base58 in both directions.
pub record Base58 : Type 0 where
  pub key_string : PublicKey → Text
  pub key_from : Text → Option PublicKey
  pub signature_string : Signature → Text
  pub signature_from : Text → Option Signature

pub record WatcherConfig : Type 0 where
  pub token_program : PublicKey
  pub hot_wallet_ata : PublicKey
  pub mint : PublicKey
  pub expected_decimals : ℕ
  pub poll_limit : ℕ
  pub promote_batch_size : ℕ

-- The database calls of one deposit that may fail for a reason outside the model.
pub record DepositFaults : Type 0 where
  pub begin_fails : Bool
  pub upsert_fails : Bool
  pub enqueue_fails : Bool
  pub commit_fails : Bool

abbrev pub kind_settlement : Text
kind_settlement = codes "intent_settlement"

abbrev pub commitment_to_db : CommitmentType → Commitment
commitment_to_db CommitmentType.confirmed = Commitment.confirmed
commitment_to_db CommitmentType.finalized = Commitment.finalized
commitment_to_db other = Commitment.processed

abbrev pub intent_id_ptr : Uuid → Option Uuid
intent_id_ptr id = if id == uuid_nil then none else some id

abbrev down : Bool → Err → Tx (Unit {0})
down fails e = guard (if fails then false else true) e

-- A finalized deposit of an intent starts the intent's saga.
unfoldable pub trigger_saga : DepositFaults → Commitment → Option Uuid → Tx (Unit {0})
trigger_saga faults Commitment.finalized (some id) = do
  down faults.enqueue_fails (wrap unavailable)
  catch (enqueue_saga_run id kind_settlement first_step) wrap
  pure tt
trigger_saga faults _ _ = pure tt

-- The body of the transaction.
unfoldable pub store_body : DepositFaults → OnchainPayment → Tx (Unit {0})
unfolding trigger_saga
store_body faults p = do
  down faults.upsert_fails (wrap unavailable)
  row ← catch (upsert_onchain_payment p) wrap
  trigger_saga faults row.commitment row.intent_id

-- No commit leaves the tables as they were; no posting is written, so no balance trigger fires.
abbrev pub closed : DepositFaults → World → Result (Unit {0}) × World → Result (Unit {0}) × World
closed faults w (err e, w') = (err e, record w' { db = w.db })
closed faults w (ok u, w') =
    if faults.commit_fails then (err (wrap unavailable), record w' { db = w.db }) else (ok tt, w')

unfoldable pub store_deposit : DepositFaults → OnchainPayment → Tx (Unit {0})
unfolding store_body
store_deposit faults p w =
    if faults.begin_fails
    then (err (wrap unavailable), w)
    else closed faults w (store_body faults p w)

abbrev pub store_verdict : DepositFaults → Result (Option OnchainPayment) → Tx (Unit {0})
store_verdict faults (err e) = fail e
store_verdict faults (ok none) = pure tt
store_verdict faults (ok (some p)) = store_deposit faults p

module _ (base58 : Base58) (cfg : WatcherConfig) (refs : References) where
  reference_string : Option PublicKey → Option Text
  reference_string none = none
  reference_string (some key) = some (base58.key_string key)

  -- The row of a transfer that passed every guard.
  unfoldable pub payment_row :
      Signature → CommitmentType → TransactionResult → Transaction → SplTransfer → OnchainPayment
  unfolding reference_string
  payment_row sig c r tx t =
      let (intent_id, ref_pub) = match_reference refs tx in
      record {
        signature = base58.signature_string sig;
        slot = of_bits r.slot;
        block_time = r.block_time;
        from_ata = base58.key_string t.source;
        to_ata = base58.key_string t.dest;
        mint = base58.key_string t.mint;
        amount = pos t.amount;
        reference_pubkey = reference_string ref_pub;
        commitment = commitment_to_db c;
        intent_id = intent_id_ptr intent_id;
      }

  -- What is done with a transfer: none is a transfer that is not ours.
  unfoldable pub admit_transfer :
      Signature
      → CommitmentType
      → TransactionResult
      → Transaction
      → SplTransfer
      → Result (Option OnchainPayment)
  unfolding payment_row
  admit_transfer sig c r tx t =
      if not (t.dest == cfg.hot_wallet_ata)
      then ok none
      else if not (t.mint == cfg.mint)
      then ok none
      else if not (t.decimals == cfg.expected_decimals)
      then err (
          message (
            codes "chain: mint decimals mismatch: tx="
            ++ format_uint t.decimals
            ++ codes " want="
            ++ format_uint cfg.expected_decimals))
      else if ltb max_int64 t.amount
      then err
          (message (codes "chain: amount " ++ format_uint t.amount ++ codes " exceeds int64 range"))
      else ok (some (payment_row sig c r tx t))

  abbrev pub parsed :
      Signature
      → CommitmentType
      → TransactionResult
      → Transaction
      → Result SplTransfer
      → Result (Option OnchainPayment)
  parsed sig c r tx (ok t) = admit_transfer sig c r tx t
  parsed sig c r tx (err no_spl_transfer) = ok none
  parsed sig c r tx (err e) = err (wrap e)

  abbrev pub decoded :
      Signature
      → CommitmentType
      → TransactionResult
      → Option (Result Transaction)
      → Result (Option OnchainPayment)
  decoded sig c r none = ok none
  decoded sig c r (some (err e)) = if r.meta_err then ok none else err (wrap e)
  decoded sig c r (some (ok tx)) =
      if r.meta_err
      then ok none
      else parsed sig c r tx (parse_spl_transfer_checked cfg.token_program (some tx))

  -- The guards of `ProcessSignature` in their order, up to the row that is to be stored.
  unfoldable pub examine : Signature → CommitmentType → Fetched → Result (Option OnchainPayment)
  unfolding admit_transfer
  examine sig c not_found = ok none
  examine sig c (failed e) = err (wrap e)
  examine sig c (response none) = ok none
  examine sig c (response (some r)) = decoded sig c r r.transaction

  module _ (rpc : RpcClient) where
    unfoldable pub process_signature : DepositFaults → Signature → CommitmentType → Tx (Unit {0})
    unfolding examine store_deposit
    process_signature faults sig c =
        store_verdict faults (examine sig c (rpc.get_transaction sig c))
