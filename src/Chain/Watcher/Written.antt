-- ===== src/Chain/Watcher/Written.antt =====
-- The row that a transfer to the hot wallet is stored as, column by column.
use selatpay.Prelude.{
  ℕ, ◌≤◌, ◌≡◌, refl, ap, ◌∙◌, Option, none, some, List, arith, ◌==◌, find?, if◌then◌else◌,
}
use selatpay.Prelude.Text.{Text}
use selatpay.Prelude.Int.{max_int64, pos, of_bits}
use selatpay.Db.Tables.{Uuid, OnchainPayment, Commitment, processed, confirmed, finalized}
use selatpay.Db.Tx.{ok}
use selatpay.Chain.Parser.{PublicKey, Transaction, SplTransfer}
use selatpay.Chain.References.{References, intent_of}
use selatpay.Chain.References.First.{is_known, named, match_reference-first}
use selatpay.Chain.Deposits.{advanced_to, coalesce, merged}
use selatpay.Chain.Watcher.{
  Signature, CommitmentType, TransactionResult, Base58, WatcherConfig, commitment_to_db,
  intent_id_ptr, payment_row,
}

-- The later of two commitments.
abbrev pub later_of : Commitment → Commitment → Commitment
later_of finalized _ = finalized
later_of confirmed finalized = finalized
later_of confirmed _ = confirmed
later_of processed c = c

-- The intent that a row has, or else the new one.
abbrev pub linked : Option Uuid → Option Uuid → Option Uuid
linked (some id) _ = some id
linked none new = new

-- The row of a signature after a deposit: the new one, or the old one with the later commitment and
-- with the new one's intent if it had none.
abbrev pub written : OnchainPayment → Option OnchainPayment → OnchainPayment
written p none = p
written p (some old) = record {
  signature = old.signature;
  slot = old.slot;
  block_time = old.block_time;
  from_ata = old.from_ata;
  to_ata = old.to_ata;
  mint = old.mint;
  amount = old.amount;
  reference_pubkey = old.reference_pubkey;
  commitment = later_of old.commitment p.commitment;
  intent_id = linked old.intent_id p.intent_id;
}

advanced_to-later : (a b : Commitment) → advanced_to a b ≡ later_of a b
unfolding advanced_to
advanced_to-later processed processed = refl
advanced_to-later processed confirmed = refl
advanced_to-later processed finalized = refl
advanced_to-later confirmed processed = refl
advanced_to-later confirmed confirmed = refl
advanced_to-later confirmed finalized = refl
advanced_to-later finalized processed = refl
advanced_to-later finalized confirmed = refl
advanced_to-later finalized finalized = refl

coalesce-linked : (a b : Option Uuid) → coalesce a b ≡ linked a b
coalesce-linked none b = refl
coalesce-linked (some a) b = refl

pub merged-written : (p old : OnchainPayment) → merged p old ≡ written p (some old)
unfolding merged
merged-written p old =
    ap (λ c. record old { commitment = c; intent_id = coalesce old.intent_id p.intent_id })
      (advanced_to-later old.commitment p.commitment)
    ∙ ap (λ i. record old { commitment = later_of old.commitment p.commitment; intent_id = i })
        (coalesce-linked old.intent_id p.intent_id)

-- The commitment of an event; what is neither confirmed nor finalized counts as processed.
abbrev pub level : CommitmentType → Commitment
level CommitmentType.finalized = finalized
level CommitmentType.confirmed = confirmed
level CommitmentType.other = processed

level-db : (c : CommitmentType) → commitment_to_db c ≡ level c
level-db CommitmentType.finalized = refl
level-db CommitmentType.confirmed = refl
level-db CommitmentType.other = refl

abbrev not_nil : Option Uuid → Option Uuid
not_nil none = none
not_nil (some id) = if id == 0 then none else some id

-- The intent of a reference; the nil UUID is none.
abbrev pub intent_at : References → Option PublicKey → Option Uuid
intent_at refs none = none
intent_at refs (some key) = not_nil (intent_of refs key)

abbrev pub text_at : Base58 → Option PublicKey → Option Text
text_at base58 none = none
text_at base58 (some key) = some (base58.key_string key)

-- The row of a transfer, where `keys` are the account keys of its transaction: linked to the intent of
-- the first key that is a known reference.
abbrev pub transfer_row :
    Base58
    → References
    → Signature
    → CommitmentType
    → TransactionResult
    → List PublicKey
    → SplTransfer
    → OnchainPayment
transfer_row base58 refs sig c r keys t = record {
  signature = base58.signature_string sig;
  slot = pos r.slot;
  block_time = r.block_time;
  from_ata = base58.key_string t.source;
  to_ata = base58.key_string t.dest;
  mint = base58.key_string t.mint;
  amount = pos t.amount;
  reference_pubkey = text_at base58 (find? (is_known refs) keys);
  commitment = level c;
  intent_id = intent_at refs (find? (is_known refs) keys);
}

named-intent :
    (refs : References) (o : Option PublicKey) → intent_id_ptr (named refs o).0 ≡ intent_at refs o
named-intent refs none = refl
named-intent refs (some key) = go (intent_of refs key) refl
  where
    go :
        (o : Option Uuid)
        → intent_of refs key ≡ o
        → intent_id_ptr (named refs (some key)).0 ≡ not_nil (intent_of refs key)
    go none e = rw e refl
    go (some id) e = rw e refl

of_bits-small : (n : ℕ) → n ≤ max_int64 → of_bits n ≡ pos n
unfolding of_bits
of_bits-small n h = ground (arith, h)

-- A row is made of its transfer, and of its transaction's first known reference.
pub payment_row-transfer :
    (base58 : Base58) (cfg : WatcherConfig) (refs : References) (sig : Signature)
    (c : CommitmentType) (r : TransactionResult) (tx : Transaction) (keys : List PublicKey)
    (t : SplTransfer)
    → tx.account_keys ≡ ok keys
    → r.slot ≤ max_int64
    → payment_row base58 cfg refs sig c r tx t ≡ transfer_row base58 refs sig c r keys t
unfolding payment_row
payment_row-transfer base58 cfg refs sig c r tx keys t e h = go (find? (is_known refs) keys) refl
  where
    go :
        (o : Option PublicKey)
        → find? (is_known refs) keys ≡ o
        → payment_row base58 cfg refs sig c r tx t ≡ transfer_row base58 refs sig c r keys t
    go none q =
        rw (match_reference-first refs tx keys e, q, of_bits-small r.slot h, level-db c) refl
    go (some key) q =
        rw
          (
            match_reference-first refs tx keys e,
            q,
            of_bits-small r.slot h,
            level-db c,
            named-intent refs (some key),
          )
          refl
