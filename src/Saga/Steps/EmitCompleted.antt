-- ===== src/Saga/Steps/EmitCompleted.antt =====
-- internal/saga/steps/emit_completed.go. `json.Marshal` and the text of a UUID are parameters; the
-- event's occurred_at, a timestamp in text, is left out.
use selatpay.Prelude.{List, [], ◌∷◌, ◌++◌, some}
use selatpay.Prelude.Text.{Text, codes}
use selatpay.Prelude.Int.{ℤ}
use selatpay.Db.Tables.{Uuid, PaymentIntent, IntentState}
use selatpay.Db.Tx.{Tx, pure, catch, ◌>>=◌, ◌>>◌, wrap}
use selatpay.Outbox.Publish.{publish}
use selatpay.Saga.Steps.Queries.{get_intent, update_intent_state}

pub record CompletedEvent : Type 0 where
  pub schema : Text
  pub intent_id : Text
  pub merchant_id : Text
  pub external_ref : Text
  pub state : IntentState
  pub amount_idr : ℤ
  pub amount_usdc : ℤ

-- The intent as it stands when the event is built.
unfoldable pub mark_completed : Uuid → PaymentIntent → Tx PaymentIntent
mark_completed intent_id intent = elim intent.state [
  | IntentState.paid_out ↦ catch (update_intent_state intent_id IntentState.completed) wrap
  | _ ↦ pure intent
]

abbrev pub topic_completed : Text
topic_completed = codes "intent.completed"

module _ (uuid_string : Uuid → Text) (marshal : CompletedEvent → Text) where
  unfoldable pub completed_event : PaymentIntent → CompletedEvent
  completed_event i = record {
    schema = codes "selatpay.intent.completed.v1";
    intent_id = uuid_string i.id;
    merchant_id = uuid_string i.merchant_id;
    external_ref = i.external_ref;
    state = i.state;
    amount_idr = i.amount_idr;
    amount_usdc = i.quoted_amount_usdc;
  }

  unfoldable pub completed_headers : PaymentIntent → List (Text × Text)
  completed_headers i =
      (codes "X-Selatpay-Topic", topic_completed)
      ∷ (codes "X-Selatpay-Idempotency-Key", codes "intent.completed:" ++ uuid_string i.id)
      ∷ (codes "X-Selatpay-Merchant", uuid_string i.merchant_id)
      ∷ []

  -- `Execute`: the empty name ends the saga.
  unfoldable pub emit_completed : Uuid → Tx Text
  unfolding mark_completed
  emit_completed intent_id = do
    intent ← catch (get_intent intent_id) wrap
    updated ← mark_completed intent_id intent
    catch
        (publish topic_completed (some updated.id) (marshal (completed_event updated))
          (completed_headers updated))
        wrap
    pure []
