-- ===== src/Tests/Deposits.antt =====
-- A deposit of five USDC, from the instruction's bytes to the table.
use selatpay.Prelude.{ℕ, ◌≡◌, refl, true, false, none, some, List, [], ◌∷◌, arith, ◌==◌, find?}
use selatpay.Prelude.Text.{codes}
use selatpay.Db.Tables.{OnchainPayment}
use selatpay.Db.Tx.{Result, ok, World}
use selatpay.Chain.Parser.{
  PublicKey, Instruction, Transaction, SplTransfer, parse_spl_transfer_checked,
}
use selatpay.Chain.Parser.Layout.{
  Carries, transfer_checked_data, parse_spl_transfer_checked-encoded,
}
use selatpay.Chain.References.{References}
use selatpay.Chain.Deposits.{find_payment}
use selatpay.Chain.Watcher.{
  CommitmentType, TransactionResult, RpcClient, response, Base58, WatcherConfig, process_signature,
}
use selatpay.Chain.Watcher.Covered.{Settled}
use selatpay.Chain.Watcher.Delivered.{no_faults, Delivers, own_row, process_signature-delivered}
use selatpay.Chain.Watcher.History.{Reach, start, then, deposit, worker, claiming, Reach-Settled}
use selatpay.Saga.Claim.{update_run, leased}
use selatpay.Tests.Books.{books}

abbrev transfer : SplTransfer
transfer = record { source = 8; mint = 3; dest = 2; authority = 9; amount = 5000000; decimals = 6 }

abbrev keys : List PublicKey
keys = 9 ∷ 8 ∷ 3 ∷ 2 ∷ 1 ∷ 50 ∷ []

-- A memo, and the transfer with its reference as a fifth account.
abbrev memo : Instruction
memo = record { program_id_index = 0; accounts = []; bytes = 104 ∷ 105 ∷ [] }

abbrev transfer_ix : Instruction
transfer_ix = record {
  program_id_index = 4;
  accounts = 1 ∷ 2 ∷ 3 ∷ 0 ∷ 5 ∷ [];
  bytes = transfer_checked_data 5000000 6;
}

abbrev program_at : ℕ → Result PublicKey
program_at i = elim (i == 4) [ true ↦ ok 1 | false ↦ ok 77 ]

abbrev payment_tx : Transaction
payment_tx = record {
  instructions = memo ∷ transfer_ix ∷ [];
  resolve_program = program_at;
  account_keys = ok keys;
}

carried : Carries 1 payment_tx transfer
carried = record {
  before = memo ∷ [];
  ix = transfer_ix;
  after = [];
  keys = keys;
  indices = (1, 2, 3, 0);
  more = 5 ∷ [];
  instructions_split = refl;
  before_ignored = ((77, refl, refl), tt);
  program_resolved = refl;
  data_encoded = refl;
  amount_small = omega arith;
  keys_resolved = refl;
  accounts_given = refl;
  source_at = refl;
  mint_at = refl;
  dest_at = refl;
  authority_at = refl;
}

parse_spl_transfer_checked-encoded_example :
    parse_spl_transfer_checked 1 (some payment_tx) ≡ ok transfer
parse_spl_transfer_checked-encoded_example =
    parse_spl_transfer_checked-encoded 1 payment_tx transfer carried

abbrev references : References
references = (50, 7) ∷ []

abbrev base58 : Base58
base58 = record {
  key_string = λ k. k ∷ [];
  key_from = λ s. elim s [ [] ↦ none | k ∷ _ ↦ some k ];
  signature_string = λ k. k ∷ [];
  signature_from = λ s. elim s [ [] ↦ none | k ∷ _ ↦ some k ];
}

abbrev config : WatcherConfig
config = record {
  token_program = 1;
  hot_wallet_ata = 2;
  mint = 3;
  expected_decimals = 6;
  poll_limit = 20;
  promote_batch_size = 50;
}

abbrev answer : TransactionResult
answer = record {
  transaction = some (ok payment_tx);
  meta_err = false;
  slot = 123;
  block_time = some 1000;
}

abbrev node : RpcClient
node = record {
  get_transaction = λ sig c. response (some answer);
  get_signatures = λ key limit. ok [];
}

delivers : (c : CommitmentType) → Delivers base58 config references node 33 c transfer
delivers c = record {
  answer = answer;
  tx = payment_tx;
  answered = refl;
  tx_decoded = refl;
  executed = refl;
  carries = carried;
  to_wallet = refl;
  of_mint = refl;
  decimals_expected = refl;
  amount_positive = omega arith;
  amount_small = omega arith;
  slot_small = omega arith;
}

-- The deposit is seen confirmed, then finalized, a worker claims the saga, and the node repeats the
-- confirmed event.
seen : CommitmentType → World → World
unfolding process_signature
seen c w = (process_signature base58 config references node no_faults 33 c w).1

abbrev confirmed_world : World
confirmed_world = seen CommitmentType.confirmed books

abbrev final_world : World
final_world = seen CommitmentType.finalized confirmed_world

abbrev claimed_world : World
claimed_world = update_run 100 (leased (codes "w1") 5000) final_world

abbrev last_world : World
last_world = seen CommitmentType.confirmed claimed_world

onward : {w : World} → Reach w confirmed_world → Reach w last_world
unfolding seen
onward r =
    then
      (then
        (then r (deposit base58 config references node no_faults 33 CommitmentType.finalized refl))
        (worker 100 (leased (codes "w1") 5000) (claiming (codes "w1") 5000) refl))
      (deposit base58 config references node no_faults 33 CommitmentType.confirmed refl)

history : Reach books last_world
unfolding seen
history =
    onward (
      then start (deposit base58 config references node no_faults 33 CommitmentType.confirmed refl))

books-Settled : Settled books.db
books-Settled = record { signatures_distinct = tt; sagas_distinct = tt; deposits_covered = tt }

Reach-Settled_example : Settled last_world.db
Reach-Settled_example = Reach-Settled history books-Settled

abbrev confirmed_row : OnchainPayment
confirmed_row =
    own_row base58 config references node 33 CommitmentType.confirmed transfer
      (delivers CommitmentType.confirmed)

confirmed-stored : find_payment (33 ∷ []) confirmed_world.db.onchain_payments ≡ some confirmed_row
unfolding seen find_payment find?
confirmed-stored =
    (process_signature-delivered base58 config references node 33 CommitmentType.confirmed transfer
      (delivers CommitmentType.confirmed) books).1
