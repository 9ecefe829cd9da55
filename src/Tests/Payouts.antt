-- ===== src/Tests/Payouts.antt =====
-- The payout step at a concrete intent, merchant and rail.
use selatpay.Prelude.{
  ◌+◌, ◌≡◌, ◌≢◌, refl, none, some, [], ◌∷◌, ◌++◌, find?, true, ◌==◌, update_where,
}
use selatpay.Prelude.Text.{Text, codes, text_eq}
use selatpay.Prelude.Int.{pos}
use selatpay.Db.Tables.{Uuid, PaymentIntent, IntentState, Merchant}
use selatpay.Db.Tx.{ok, err, World, terminal, message}
use selatpay.Payout.Rail.{Outcome, success, retry, permanent, SubmitResult, Rail, Router, get_rail}
use selatpay.Payout.MockBank.{mock_idr_bank_name}
use selatpay.Ledger.Posting.{run_tx, entries_balanced}
use selatpay.Saga.Steps.Names.{step_apply_payout_result}
use selatpay.Saga.Steps.Queries.{find_intent, payout_by_intent}
use selatpay.Saga.Steps.TriggerPayout.{recipient_from_merchant, trigger_payout, permanent_message}
use selatpay.Saga.Steps.TriggerPayout.Attempt.{Ready, first_request, rolled_back}
use selatpay.Saga.Steps.TriggerPayout.Answer.{
  trigger_payout_permanent, trigger_payout_success, paid,
}
use selatpay.Saga.Steps.TriggerPayout.Resubmit.{second_request, trigger_payout_resubmits}
use selatpay.Tests.Books.{books}

abbrev pub intent : PaymentIntent
intent = record {
  id = 7;
  merchant_id = 3;
  external_ref = codes "order-1";
  amount_idr = pos 100000;
  quoted_amount_usdc = pos 6196938;
  quote_id = 4;
  reference_pubkey = none;
  reference_secret_enc = none;
  recipient_ata = none;
  state = IntentState.funded;
  created_at = 900;
}

abbrev pub merchant : Merchant
merchant = record {
  id = 3;
  bank_code = some (codes "014");
  bank_account_number = some (codes "123");
  bank_account_name = some (codes "Toko");
  webhook_url = none;
  webhook_secret = [];
}

abbrev world : World
world = record books {
  db = record (books.db) { payment_intents = intent ∷ []; merchants = merchant ∷ [] };
}

abbrev pub key : Uuid → Text
key id = id ∷ []

key-injective : (a b : Uuid) → key a ≡ key b → a ≡ b
key-injective a b e = cc

abbrev answering : Outcome → Rail
answering o = record {
  name = mock_idr_bank_name;
  submit =
      λ sent req. ok (record { outcome = o; rail_reference = codes "R1"; message = codes "busy" });
}

-- A rail that is busy at first and pays the second request.
abbrev busy_first : Rail
busy_first = record {
  name = mock_idr_bank_name;
  submit = λ sent req. elim sent [
    | [] ↦ ok (record { outcome = retry; rail_reference = []; message = codes "busy" })
    | _ ∷ _ ↦ ok (record { outcome = success; rail_reference = codes "R1"; message = [] })
  ];
}

abbrev only : Rail → Router
only r = (mock_idr_bank_name, r) ∷ []

ready : (r : Rail) → Ready (only r) 7 world
unfolding find_intent find? recipient_from_merchant get_rail text_eq payout_by_intent
ready r = record {
  intent = intent;
  merchant = merchant;
  recipient = record {
    bank_code = codes "014";
    account_number = codes "123";
    account_name = codes "Toko";
  };
  rail = r;
  intent_found = refl;
  merchant_found = refl;
  recipient_given = refl;
  rail_found = refl;
  no_payout = refl;
  id_unused = refl;
}

abbrev reply : Outcome → SubmitResult
reply o = record { outcome = o; rail_reference = codes "R1"; message = codes "busy" }

answers :
    (o : Outcome)
    → (ready (answering o)).rail.submit []
        (first_request key (only (answering o)) 7 world (ready (answering o)))
      ≡ ok (reply o)
unfolding ready
answers o = refl

trigger_payout_permanent_example :
    run_tx (trigger_payout key (only (answering permanent)) 7) world ≡ (
      err (terminal (message (permanent_message (codes "busy")))),
      rolled_back key (only (answering permanent)) 7 world (ready (answering permanent)),
    )
trigger_payout_permanent_example =
    trigger_payout_permanent key (only (answering permanent)) 7 world (ready (answering permanent))
      (reply permanent) (answers permanent) refl

no_postings : entries_balanced world.db.postings world.db.postings ≡ true
unfolding entries_balanced
no_postings = refl

is_funded : (r : Rail) → (ready r).intent.state ≡ IntentState.funded
unfolding ready
is_funded r = refl

trigger_payout_success_example : run_tx (trigger_payout key (only (answering success)) 7) world ≡ (
  ok step_apply_payout_result,
  record (rolled_back key (only (answering success)) 7 world (ready (answering success))) {
    db = record (world.db) {
      payouts =
          world.db.payouts
          ++ paid key (only (answering success)) 7 world (ready (answering success)) (codes "R1")
            ∷ [];
      payment_intents =
          update_where
            (λ i. i.id == (ready (answering success)).intent.id)
            (λ i. record i { state = IntentState.settling })
            (intent ∷ []);
    };
  },
)
trigger_payout_success_example =
    trigger_payout_success key (only (answering success)) 7 world (ready (answering success))
      (reply success) (answers success) refl (is_funded (answering success)) no_postings

first_busy :
    (ready busy_first).rail.submit []
      (first_request key (only busy_first) 7 world (ready busy_first))
    ≡ ok (record { outcome = retry; rail_reference = []; message = codes "busy" })
unfolding ready
first_busy = refl

unused : find? (λ p. p.id == world.next_id + 1) world.db.payouts ≡ none
unfolding find?
unused = refl

then_paid :
    (ready busy_first).rail.submit
      ([] ++ first_request key (only busy_first) 7 world (ready busy_first) ∷ [])
      (second_request key (only busy_first) 7 world (ready busy_first) unused)
    ≡ ok (record { outcome = success; rail_reference = codes "R1"; message = [] })
unfolding ready
then_paid = refl

trigger_payout_resubmits_example :
    ((run_tx
        (trigger_payout key (only busy_first) 7)
        (run_tx (trigger_payout key (only busy_first) 7) world).1).1.submitted
      ≡ ([] ++ first_request key (only busy_first) 7 world (ready busy_first) ∷ [])
        ++ second_request key (only busy_first) 7 world (ready busy_first) unused ∷ [])
    × ((first_request key (only busy_first) 7 world (ready busy_first)).idempotency
        ≢ (second_request key (only busy_first) 7 world (ready busy_first) unused).idempotency)
    × ((first_request key (only busy_first) 7 world (ready busy_first)).amount_idr
        ≡ (second_request key (only busy_first) 7 world (ready busy_first) unused).amount_idr)
trigger_payout_resubmits_example =
    trigger_payout_resubmits key (only busy_first) 7 world (ready busy_first) key-injective unused
      (record { outcome = retry; rail_reference = []; message = codes "busy" })
      (record { outcome = success; rail_reference = codes "R1"; message = [] }) first_busy refl
      then_paid refl (is_funded busy_first) no_postings
