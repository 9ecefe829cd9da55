-- ===== src/Api/Handlers/Held.antt =====
-- What the tables hold of an intent that was shown.
use selatpay.Prelude.{
  ◌≡◌, refl, sym, ap, ◌∙◌, Bool, true, false, ◌&&◌, Option, none, some, inl, inr, Bool-cases,
  Option-cases, find?, find?-last, ◌==◌, ==_self,
}
use selatpay.Prelude.Text.{Text, text_eq_refl}
use selatpay.Prelude.Int.{pos, ltb_ℤ}
use selatpay.Db.Tables.{Uuid, PaymentIntent, Quote}
use selatpay.Db.Tx.{ok, World}
use selatpay.Ledger.Posting.Atomic.{eq_of_ok}
use selatpay.SolanaPay.Url.{Codec}
use selatpay.Api.View.{Config, ApiIntent, intent_to_api}
use selatpay.Api.Handlers.{
  Response, created, shown, error, panicked, has_ref, find_by_ref, find_quote, insert_intent,
  with_quote, queried,
}
use selatpay.Api.Handlers.Growth.{Later}

abbrev pub intent_in : Response → Option ApiIntent
intent_in (created a) = some a
intent_in (shown a) = some a
intent_in (error status code e) = none
intent_in panicked = none

pub insert_intent-found :
    (fails : Bool) (i row : PaymentIntent) (w w' : World)
    → insert_intent fails i w ≡ (ok row, w')
    → find_by_ref i.merchant_id i.external_ref w'.db.payment_intents ≡ some row
unfolding insert_intent find_by_ref
insert_intent-found true i row w w' e = absurd (cc)
insert_intent-found false i row w w' e =
    elim (Bool-cases (ltb_ℤ (pos 0) i.amount_idr && ltb_ℤ (pos 0) i.quoted_amount_usdc)) [
      | inr bad ↦ let no = rw bad at e in absurd (cc)
      | inl good ↦
          elim (Option-cases (find_by_ref i.merchant_id i.external_ref w.db.payment_intents)) [
            | inr (j, clash) ↦ let no = rw (good, clash) at e in absurd (cc)
            | inl new ↦
                let done = rw (good, new) at e in
                let r : PaymentIntent = record i { id = w.next_id; created_at = w.now } in
                let ours = has_ref i.merchant_id i.external_ref in
                ap (λ t. find? ours t.1.db.payment_intents) (sym done)
                ∙ find?-last ours w.db.payment_intents r new
                    (rw (==_self i.merchant_id, text_eq_refl i.external_ref) refl)
                ∙ ap some (eq_of_ok (ap (λ t. t.0) done))
          ]
    ]

module _ (codec : Codec) (cfg : Config) where
  -- The tables hold the intent of a reference as the answer shows it.
  pub record Holds (m : Uuid) (ref : Text) (a : ApiIntent) (w : World) : Type 0 where
    pub intent : PaymentIntent
    pub quote : Quote
    pub intent_found : find_by_ref m ref w.db.payment_intents ≡ some intent
    pub quote_found : find_quote intent.quote_id w.db.quotes ≡ some quote
    pub shown_so : intent_to_api codec cfg intent quote ≡ some a

  pub Holds-Later :
      (m : Uuid) (ref : Text) (a : ApiIntent) (w v : World)
      → Later w v
      → Holds m ref a w
      → Holds m ref a v
  unfolding find_by_ref find_quote
  Holds-Later m ref a w v l h = record {
    intent = h.intent;
    quote = h.quote;
    intent_found = l.0 (has_ref m ref) h.intent h.intent_found;
    quote_found = l.1 (λ q. q.id == h.intent.quote_id) h.quote h.quote_found;
    shown_so = h.shown_so;
  }

  pub with_quote-Holds :
      (f : ApiIntent → Response) (m : Uuid) (ref : Text) (i : PaymentIntent) (fails : Bool)
      (a : ApiIntent) (w : World)
      → ((b : ApiIntent) → intent_in (f b) ≡ some b)
      → find_by_ref m ref w.db.payment_intents ≡ some i
      → intent_in (with_quote codec cfg f i (queried fails (find_quote i.quote_id w.db.quotes)))
        ≡ some a
      → Holds m ref a w
  with_quote-Holds f m ref i true a w reads found e = absurd (cc)
  with_quote-Holds f m ref i false a w reads found e =
      elim (Option-cases (find_quote i.quote_id w.db.quotes)) [
        | inl missing ↦ let no = rw missing at e in absurd (cc)
        | inr (q, there) ↦ elim (Option-cases (intent_to_api codec cfg i q)) [
          | inl panics ↦ let no = rw (there, panics) at e in absurd (cc)
          | inr (b, same) ↦
              let answer : some b ≡ some a = sym (reads b) ∙ rw (there, same) at e in
              record {
                intent = i;
                quote = q;
                intent_found = found;
                quote_found = there;
                shown_so = same ∙ answer;
              }
        ]
      ]
