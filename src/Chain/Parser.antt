-- ===== src/Chain/Parser.antt =====
-- `ParseSPLTransferChecked` of internal/chain/spl_parser.go. A public key is its 256-bit value. What
-- solana-go answers for a message (`ResolveProgramIDIndex`, `AccountMetaList`) stands in its record.
pub mod Layout
use selatpay.Prelude.{
  ℕ, zero, suc, ◌+◌, ◌*◌, Bool, true, false, ◌&&◌, Option, none, some, List, [], ◌∷◌, ◌++◌, ltb,
  ◌==◌, if◌then◌else◌, length, get_elem?, take, drop,
}
use selatpay.Prelude.Text.{Text, codes}
use selatpay.Prelude.Decimal.{format_uint}
use selatpay.Db.Tx.{Err, Result, ok, err, message, wrap, no_spl_transfer}

abbrev pub PublicKey : Type 0
PublicKey = ℕ

pub record Instruction : Type 0 where
  pub program_id_index : ℕ
  pub accounts : List ℕ
  pub bytes : List ℕ

pub record Transaction : Type 0 where
  pub instructions : List Instruction
  pub resolve_program : ℕ → Result PublicKey
  pub account_keys : Result (List PublicKey)

pub record SplTransfer : Type 0 where
  pub source : PublicKey
  pub mint : PublicKey
  pub dest : PublicKey
  pub authority : PublicKey
  pub amount : ℕ
  pub decimals : ℕ

abbrev pub discriminator : ℕ
discriminator = 12

-- `binary.LittleEndian.Uint64`, on the eight bytes it is given.
unfoldable pub little_endian : List ℕ → ℕ
little_endian [] = 0
little_endian (b ∷ bs) = b + 256 * little_endian bs

abbrev pub is_transfer_checked : List ℕ → Bool
is_transfer_checked [] = false
is_transfer_checked (b ∷ bs) = b == discriminator

-- Monadic steps on results that touch no state.
infixl 5 ◌>>=◌
abbrev ◌>>=◌ : {A B : Type 0} → Result A → (A → Result B) → Result B
ok a >>= f = f a
err e >>= f = err e

abbrev wrapped : {A : Type 0} → Result A → Result A
wrapped (ok a) = ok a
wrapped (err e) = err (wrap e)

abbrev byte_at : List ℕ → ℕ → ℕ
byte_at bytes i = elim (get_elem? bytes i) [ none ↦ 0 | some b ↦ b ]

abbrev index_error : List PublicKey → ℕ → Err
index_error keys i = message (
    codes "account index "
    ++ format_uint i
    ++ codes " out of range ("
    ++ format_uint (length keys)
    ++ codes " keys)")

abbrev or_index_error : Option PublicKey → List PublicKey → ℕ → Result PublicKey
or_index_error none keys i = err (index_error keys i)
or_index_error (some k) keys i = ok k

unfoldable pub key_at : List PublicKey → ℕ → Result PublicKey
key_at keys i = or_index_error (get_elem? keys i) keys i

-- The four accounts in their fixed order; any behind them are ignored. The three numbers in the error
-- are the bytes of its sign for "at least".
unfoldable pub transfer_of : List PublicKey → List ℕ → ℕ → ℕ → Result SplTransfer
transfer_of keys (s ∷ m ∷ d ∷ a ∷ more) amount decimals = do
  source ← key_at keys s
  mint ← key_at keys m
  dest ← key_at keys d
  authority ← key_at keys a
  ok (record {
    source = source;
    mint = mint;
    dest = dest;
    authority = authority;
    amount = amount;
    decimals = decimals;
  })
transfer_of keys accounts amount decimals = err (
    message (
      codes "chain: TransferChecked needs "
      ++ (226 ∷ 137 ∷ 165 ∷ codes "4 accounts, got ")
      ++ format_uint (length accounts)))

-- `len(ix.Accounts) < 4` comes before the account list is resolved.
abbrev pub with_accounts : Transaction → List ℕ → ℕ → ℕ → Result SplTransfer
with_accounts tx accounts amount decimals =
    if ltb (length accounts) 4
    then transfer_of [] accounts amount decimals
    else do keys ← wrapped tx.account_keys; transfer_of keys accounts amount decimals

unfoldable pub decode_transfer_checked : Transaction → Instruction → Result SplTransfer
unfolding little_endian transfer_of key_at
decode_transfer_checked tx ix =
    if ltb (length ix.bytes) 10
    then err (
        message (
          codes "chain: TransferChecked data too short ("
          ++ format_uint (length ix.bytes)
          ++ codes " bytes)"))
    else with_accounts tx ix.accounts (little_endian (take 8 (drop 1 ix.bytes)))
        (byte_at ix.bytes 9)

module _ (token_program : PublicKey) (tx : Transaction) where
  -- One round of the loop, given what the later rounds would return.
  abbrev pub scanned : Instruction → Result PublicKey → Result SplTransfer → Result SplTransfer
  scanned ix (err e) later = err (wrap e)
  scanned ix (ok program) later =
      if (program == token_program) && is_transfer_checked ix.bytes
      then decode_transfer_checked tx ix
      else later

  unfoldable pub scan : List Instruction → Result SplTransfer
  unfolding decode_transfer_checked
  scan [] = err no_spl_transfer
  scan (ix ∷ ixs) =
      let later = scan ixs in scanned ix (tx.resolve_program ix.program_id_index) later

unfoldable pub parse_spl_transfer_checked : PublicKey → Option Transaction → Result SplTransfer
unfolding scan
parse_spl_transfer_checked token_program none = err (message (codes "chain: nil transaction"))
parse_spl_transfer_checked token_program (some tx) = scan token_program tx tx.instructions
