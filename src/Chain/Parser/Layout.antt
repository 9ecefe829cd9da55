-- ===== src/Chain/Parser/Layout.antt =====
-- The wire layout of TransferChecked, and the instruction that the parser finds.
use selatpay.Prelude.{
  ℕ, zero, suc, ◌*◌, ◌/◌, ◌%◌, ◌^◌, ◌<◌, ◌≡◌, refl, true, ap, false, ◌&&◌, some, List, [], ◌∷◌,
  ◌++◌, arith, ◌==◌, All, get_elem?, length, ltb, ==_self, le→not_ltb,
}
use native.Mathlib.Nat.{pow-succ'}
use selatpay.Prelude.Int.{word}
use selatpay.Db.Tx.{ok}
use selatpay.Chain.Parser.{
  PublicKey, Instruction, Transaction, SplTransfer, discriminator, little_endian,
  is_transfer_checked, key_at, transfer_of, decode_transfer_checked, scan,
  parse_spl_transfer_checked,
}

-- A number as bytes, the low byte first.
abbrev pub le_bytes : ℕ → ℕ → List ℕ
le_bytes zero n = []
le_bytes (suc k) n = (n % 256) ∷ le_bytes k (n / 256)

little_endian-le_bytes : (k n : ℕ) → n < 256 ^ k → little_endian (le_bytes k n) ≡ n
unfolding little_endian
little_endian-le_bytes zero n h = omega arith
little_endian-le_bytes (suc k) n h =
    let h' : n < 256 * 256 ^ k = rw (pow-succ' 256 k) at h in
    omega (arith, little_endian-le_bytes k (n / 256) (omega arith))

-- One byte of tag, eight of amount, one of decimals.
abbrev pub transfer_checked_data : ℕ → ℕ → List ℕ
transfer_checked_data amount decimals = discriminator ∷ (le_bytes 8 amount ++ decimals ∷ [])

-- An instruction that resolves to a program and is no TransferChecked of the token program.
abbrev pub Ignored : PublicKey → Transaction → Instruction → Type 0
Ignored token_program tx ix =
    (program : PublicKey) × (tx.resolve_program ix.program_id_index ≡ ok program)
    × (((program == token_program) && is_transfer_checked ix.bytes) ≡ false)

-- A transaction whose first TransferChecked instruction encodes `t`.
pub record Carries (token_program : PublicKey) (tx : Transaction) (t : SplTransfer) : Type 0 where
  pub before : List Instruction
  pub ix : Instruction
  pub after : List Instruction
  pub keys : List PublicKey
  pub indices : ℕ × ℕ × ℕ × ℕ
  pub more : List ℕ
  pub instructions_split : tx.instructions ≡ before ++ ix ∷ after
  pub before_ignored : All (Ignored token_program tx) before
  pub program_resolved : tx.resolve_program ix.program_id_index ≡ ok token_program
  pub data_encoded : ix.bytes ≡ transfer_checked_data t.amount t.decimals
  pub amount_small : t.amount < word
  pub keys_resolved : tx.account_keys ≡ ok keys
  pub accounts_given : ix.accounts ≡ indices.0 ∷ indices.1 ∷ indices.2 ∷ indices.3 ∷ more
  pub source_at : get_elem? keys indices.0 ≡ some t.source
  pub mint_at : get_elem? keys indices.1 ≡ some t.mint
  pub dest_at : get_elem? keys indices.2 ≡ some t.dest
  pub authority_at : get_elem? keys indices.3 ≡ some t.authority

enough : (i : ℕ × ℕ × ℕ × ℕ) (more : List ℕ) → ltb (length (i.0 ∷ i.1 ∷ i.2 ∷ i.3 ∷ more)) 4 ≡ false
enough i more = le→not_ltb 4 (length (i.0 ∷ i.1 ∷ i.2 ∷ i.3 ∷ more)) (omega arith)

key_at-some :
    (keys : List PublicKey) (i : ℕ) {k : PublicKey}
    → get_elem? keys i ≡ some k
    → key_at keys i ≡ ok k
unfolding key_at
key_at-some keys i e = rw e

module _ (token_program : PublicKey) (tx : Transaction) where
  scan-skips :
      (before ixs : List Instruction)
      → All (Ignored token_program tx) before
      → scan token_program tx (before ++ ixs) ≡ scan token_program tx ixs
  unfolding scan
  scan-skips [] ixs h = refl
  scan-skips (b ∷ before) ixs ((program, resolved, other), h) =
      rw (resolved, other) (scan-skips before ixs h)

  scan-takes :
      (ix : Instruction) (ixs : List Instruction)
      → tx.resolve_program ix.program_id_index ≡ ok token_program
      → is_transfer_checked ix.bytes ≡ true
      → scan token_program tx (ix ∷ ixs) ≡ decode_transfer_checked tx ix
  unfolding scan
  scan-takes ix ixs resolved tagged = rw (resolved, ==_self token_program, tagged)

  module _ (t : SplTransfer) (c : Carries token_program tx t) where
    decode-carried : decode_transfer_checked tx c.ix ≡ ok t
    unfolding decode_transfer_checked transfer_of
    decode-carried = rw (
      c.data_encoded,
      little_endian-le_bytes 8 t.amount c.amount_small,
      c.accounts_given,
      enough c.indices c.more,
      c.keys_resolved,
      key_at-some c.keys c.indices.0 c.source_at,
      key_at-some c.keys c.indices.1 c.mint_at,
      key_at-some c.keys c.indices.2 c.dest_at,
      key_at-some c.keys c.indices.3 c.authority_at,
    )

    -- A transaction whose first TransferChecked instruction of the token program is the wire
    -- encoding of a transfer of a uint64 amount parses to exactly that transfer, whatever other
    -- instructions stand before and behind it.
    pub parse_spl_transfer_checked-encoded :
        parse_spl_transfer_checked token_program (some tx) ≡ ok t
    unfolding parse_spl_transfer_checked
    parse_spl_transfer_checked-encoded =
        rw
          (
            c.instructions_split,
            scan-skips c.before (c.ix ∷ c.after) c.before_ignored,
            scan-takes c.ix c.after c.program_resolved (ap is_transfer_checked c.data_encoded),
          )
          decode-carried
