-- ===== src/Chain/Watcher/Loops.antt =====
-- `RefreshReferences`, `PromoteUnfinalized` and `PollReferences` of internal/chain/watcher.go. A
-- signature that fails is logged, and the next one is taken. The order of the references of a poll,
-- that of a Go map, is the order of the list.
use selatpay.Prelude.{Bool, Option, none, some, List, [], ◌∷◌, if◌then◌else◌}
use selatpay.Prelude.Text.{Text}
use selatpay.Db.Tables.{Uuid, OnchainPayment, PaymentIntent}
use selatpay.Db.Tx.{Result, ok, err, unavailable, wrap, World}
use selatpay.Chain.Parser.{PublicKey}
use selatpay.Chain.References.{References, set_reference}
use selatpay.Chain.Deposits.{list_unfinalized, list_active_references}
use selatpay.Chain.Watcher.{
  Signature, CommitmentType, TransactionSignature, RpcClient, Base58, WatcherConfig, DepositFaults,
  process_signature,
}

module _ (base58 : Base58) where
  -- A reference that is no base58 key is logged and left out.
  abbrev noted : Uuid → Option PublicKey → References → References
  noted id none refs = refs
  noted id (some key) refs = set_reference key id refs

  abbrev pub key_of : Option Text → Option PublicKey
  key_of none = none
  key_of (some s) = base58.key_from s

  unfoldable pub references_of : List PaymentIntent → References → References
  unfolding set_reference
  references_of [] refs = refs
  references_of (i ∷ is) refs = references_of is (noted i.id (key_of i.reference_pubkey) refs)

  -- A list that fails leaves the references as they were.
  unfoldable pub refresh_references : Bool → World → References → Result (Unit {0}) × References
  unfolding references_of list_active_references
  refresh_references list_fails w refs =
      if list_fails
      then (err (wrap unavailable), refs)
      else (ok tt, references_of (list_active_references w.db.payment_intents) [])

module _ (base58 : Base58) (cfg : WatcherConfig) (refs : References) (rpc : RpcClient)
    (faults : Signature → DepositFaults) where
  unfoldable pub process_one : Signature → CommitmentType → World → World
  process_one sig c w = (process_signature base58 cfg refs rpc (faults sig) sig c w).1

  abbrev promote_one : Option Signature → World → World
  promote_one none w = w
  promote_one (some sig) w = process_one sig CommitmentType.finalized w

  unfoldable pub promote_rows : List OnchainPayment → World → World
  unfolding process_one
  promote_rows [] w = w
  promote_rows (p ∷ ps) w = promote_rows ps (promote_one (base58.signature_from p.signature) w)

  unfoldable pub promote_unfinalized : Bool → World → Result (Unit {0}) × World
  unfolding promote_rows list_unfinalized
  promote_unfinalized list_fails w =
      if list_fails
      then (err (wrap unavailable), w)
      else (ok tt, promote_rows (list_unfinalized cfg.promote_batch_size w.db.onchain_payments) w)

  unfoldable pub poll_signatures : List TransactionSignature → World → World
  unfolding process_one
  poll_signatures [] w = w
  poll_signatures (s ∷ ss) w =
      poll_signatures ss
        (if s.has_err then w else process_one s.signature CommitmentType.confirmed w)

  abbrev poll_answer : Result (List TransactionSignature) → World → World
  poll_answer (err e) w = w
  poll_answer (ok ss) w = poll_signatures ss w

  unfoldable pub poll_keys : References → World → World
  unfolding poll_signatures
  poll_keys [] w = w
  poll_keys ((key, id) ∷ rs) w =
      poll_keys rs (poll_answer (rpc.get_signatures key cfg.poll_limit) w)

  unfoldable pub poll_references : World → World
  unfolding poll_keys
  poll_references w = poll_keys refs w
