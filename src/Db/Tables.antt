-- ===== src/Db/Tables.antt =====
-- The rows of internal/db/sqlc/models.go. A UUID is its 128-bit value, a timestamp a number of
-- nanoseconds, an int64 an integer, and a text the list of its bytes. Columns that no modelled
-- operation reads (created_at and the like) are left out.
use selatpay.Prelude.{ℕ, Option}
use selatpay.Prelude.Text.{Text}
use selatpay.Prelude.Int.{ℤ}

abbrev pub Uuid : Type 0
Uuid = ℕ

pub data AccountType : Type 0 where
  asset liability equity revenue expense : AccountType

-- Go's `Direction` is a string: `other` is any that is neither constant.
pub data Direction : Type 0 where
  debit credit : Direction
  other : Text → Direction

pub record Account : Type 0 where
  pub id : Uuid
  pub code : Text
  pub kind : AccountType
  pub currency : Text

pub record JournalEntry : Type 0 where
  pub id : Uuid
  pub external_ref : Text
  pub kind : Text
  pub description : Option Text
  pub intent_id : Option Uuid

pub record Posting : Type 0 where
  pub id : Uuid
  pub journal_entry_id : Uuid
  pub account_id : Uuid
  pub amount : ℤ
  pub currency : Text
  pub direction : Direction

pub data IntentState : Type 0 where
  pending funded settling paid_out completed expired failed : IntentState

pub record PaymentIntent : Type 0 where
  pub id : Uuid
  pub merchant_id : Uuid
  pub external_ref : Text
  pub amount_idr : ℤ
  pub quoted_amount_usdc : ℤ
  pub quote_id : Uuid
  pub reference_pubkey : Option Text
  pub reference_secret_enc : Option Text
  pub recipient_ata : Option Text
  pub state : IntentState
  pub created_at : ℕ

pub data PayoutState : Type 0 where
  pending submitting succeeded failed : PayoutState

pub record Payout : Type 0 where
  pub id : Uuid
  pub intent_id : Uuid
  pub rail : Text
  pub amount_idr : ℤ
  pub state : PayoutState
  pub rail_reference : Option Text
  pub last_error : Option Text
  pub attempts : ℕ

pub data SagaState : Type 0 where
  pending running completed failed : SagaState

pub record Quote : Type 0 where
  pub id : Uuid
  pub pair : Text
  pub rate_num : ℤ
  pub rate_scale : ℤ
  pub spread_bps : ℤ
  pub expires_at : ℕ
  pub signature : Text

pub record Merchant : Type 0 where
  pub id : Uuid
  pub bank_code : Option Text
  pub bank_account_number : Option Text
  pub bank_account_name : Option Text
  pub webhook_url : Option Text
  pub webhook_secret : Text

pub data Commitment : Type 0 where
  processed confirmed finalized : Commitment

pub record OnchainPayment : Type 0 where
  pub signature : Text
  pub slot : ℤ
  pub block_time : Option ℕ
  pub from_ata : Text
  pub to_ata : Text
  pub mint : Text
  pub amount : ℤ
  pub reference_pubkey : Option Text
  pub commitment : Commitment
  pub intent_id : Option Uuid
