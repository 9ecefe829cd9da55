-- ===== src/Outbox/Dispatcher/Settles.antt =====
-- What a drain leaves of each row of the outbox.
use selatpay.Prelude.{
  ℕ, suc, ◌+◌, if◌then◌else◌, arith, leb, ltb, ◌≡◌, refl, ap, ◌∙◌, subst, Bool, true, false, Option,
  none, some, List, [], ◌∷◌, ◌++◌, inl, inr, ◌==◌, ==→eq, ==_self, find?, find?-update_where, All,
  Bool-cases,
}
use selatpay.Prelude.Int.{ℤ, pos, ltb_ℤ, pos_part, neg_part}
use selatpay.Prelude.Keys.{has_key, Distinct, eq_flip}
use selatpay.Prelude.Rows.{find?-update_where_miss}
use mathlib.Core.List.{append_assoc, append-nil}
use selatpay.Db.Tables.{Uuid}
use selatpay.Db.Tx.{Err, ok, World, OutboxRow}
use selatpay.Outbox.Dispatcher.{
  Message, DispatcherConfig, compute_backoff, retry_delay, claim_due, outbox_id, find_row, set_row,
  DrainFaults, update_row, to_message, settled_by, dispatch, go_on, drain_rows, drain_batch,
  drain_once,
}
use selatpay.Outbox.Dispatcher.Claimed.{Found, claim_due-Distinct, claim_due-Found}

swap_if : (a b x y : ℕ) → (if leb a b then x else y) ≡ (if ltb b a then y else x)
swap_if a b x y = ground arith

module _ (jitter : ℤ → ℤ) (cfg : DispatcherConfig) (decodes : OutboxRow → Bool)
    (send : Message → Option Err) where
  -- The wait behind the attempt of a row: a hundred years once the attempts are used up.
  abbrev pub wait_behind : OutboxRow → ℕ
  wait_behind r =
      if ltb_ℤ (pos (suc r.attempts)) cfg.max_attempts
      then pos_part (compute_backoff jitter cfg (suc r.attempts))
      else 3153600000000000000

  abbrev pub left_by : ℕ → OutboxRow → Option Err → OutboxRow
  left_by now r none = record r { delivered_at = some now; last_error = none }
  left_by now r (some e) = record r {
    attempts = suc r.attempts;
    next_attempt_at = now + wait_behind r;
    last_error = some e;
  }

  abbrev pub answered : ℕ → OutboxRow → Option Message → OutboxRow
  answered now r none = r
  answered now r (some msg) = left_by now r (send msg)

  -- A row behind a drain that claimed it: delivered if its message was taken, put back with one
  -- attempt more if it was not, and as it was if it has no message.
  abbrev pub settled_row : ℕ → OutboxRow → OutboxRow
  settled_row now r = answered now r (to_message decodes r)

  abbrev told : Option Message → List Message
  told none = []
  told (some msg) = msg ∷ []

  abbrev pub messages : List OutboxRow → List Message
  messages [] = []
  messages (r ∷ rs) = told (to_message decodes r) ++ messages rs

  abbrev pub replaced : ℕ → Option OutboxRow → Option OutboxRow → Option OutboxRow
  replaced now none old = old
  replaced now (some r) old = some (settled_row now r)

  -- The world behind one row, and behind all.
  abbrev after_one : OutboxRow → Option Message → World → World
  after_one r none w = w
  after_one r (some msg) w = record w {
    db = record (w.db) {
      outbox = set_row r.id (settled_by jitter cfg w.now r.attempts (send msg)) w.db.outbox;
    };
  }

  after_all : List OutboxRow → World → World
  after_all [] w = w
  after_all (r ∷ rs) w = after_all rs (after_one r (to_message decodes r) w)

  wait_behind_lem : (r : OutboxRow) → retry_delay jitter cfg (suc r.attempts) ≡ wait_behind r
  unfolding retry_delay
  wait_behind_lem r =
      swap_if (pos_part cfg.max_attempts + 0) (suc r.attempts + neg_part cfg.max_attempts) _ _

  settled_by-left_by :
      (now : ℕ) (r : OutboxRow) (o : Option Err)
      → settled_by jitter cfg now r.attempts o r ≡ left_by now r o
  settled_by-left_by now r none = refl
  settled_by-left_by now r (some e) = rw (wait_behind_lem r) refl

  settled_by-id :
      (now attempts : ℕ) (o : Option Err) (r : OutboxRow)
      → (settled_by jitter cfg now attempts o r).id ≡ r.id
  settled_by-id now attempts none r = refl
  settled_by-id now attempts (some e) r = refl

  module _ (id : Uuid) (r : OutboxRow) (w : World) where
    find_row-other :
        (r.id == id) ≡ false
        → (o : Option Message) → find_row id (after_one r o w).db.outbox ≡ find_row id w.db.outbox
    unfolding find_row set_row
    find_row-other apart none = refl
    find_row-other apart (some msg) =
        find?-update_where_miss (has_key outbox_id ◌==◌ r.id) (has_key outbox_id ◌==◌ id)
          (settled_by jitter cfg w.now r.attempts (send msg)) w.db.outbox
          (λ x. ap (λ k. k == id) (settled_by-id w.now r.attempts (send msg) x))
          (λ x hit. ap (λ k. k == id) (==→eq x.id r.id hit) ∙ apart)

    find_row-settled :
        (r.id == id) ≡ true
        → Found w r
        → (o : Option Message) → find_row id (after_one r o w).db.outbox ≡ some (answered w.now r o)
    unfolding find_row set_row
    find_row-settled same found none =
        subst (λ k. find_row k w.db.outbox ≡ some r) (==→eq r.id id same) found
    find_row-settled same found (some msg) =
        let f = settled_by jitter cfg w.now r.attempts (send msg) in
        subst (λ k. find_row k (after_one r (some msg) w).db.outbox ≡ some (f r))
          (==→eq r.id id same)
          (find?-update_where (has_key outbox_id ◌==◌ r.id) f w.db.outbox r
            (λ y h. ap (λ k. k == r.id) (settled_by-id w.now r.attempts (send msg) y) ∙ h) found)
        ∙ ap (λ x. some x) (settled_by-left_by w.now r (send msg))

  after_one-now : (r : OutboxRow) (o : Option Message) (w : World) → (after_one r o w).now ≡ w.now
  after_one-now r none w = refl
  after_one-now r (some msg) w = refl

  -- The rows behind `r` are still found where they were.
  Found-after_one :
      (r : OutboxRow) (o : Option Message) (w : World) (rs : List OutboxRow)
      → find_row r.id rs ≡ none
      → All (Found w) rs
      → All (Found (after_one r o w)) rs
  unfolding find_row find?
  Found-after_one r o w [] e h = tt
  Found-after_one r o w (x ∷ rs) e h = elim (Bool-cases (x.id == r.id)) [
    | inl hit ↦ let found = rw hit at e in absurd (cc)
    | inr miss ↦ (
      find_row-other x.id r w (eq_flip outbox_id ◌==◌ ==→eq ==_self x.id r.id miss) o ∙ h.0,
      Found-after_one r o w rs (rw miss at e) h.1,
    )
  ]

  find_row-after_all :
      (id : Uuid) (rs : List OutboxRow) (w : World)
      → Distinct outbox_id ◌==◌ rs
      → All (Found w) rs
      → find_row id (after_all rs w).db.outbox
        ≡ replaced w.now (find_row id rs) (find_row id w.db.outbox)
  unfolding after_all find_row find?
  find_row-after_all id [] w d h = refl
  find_row-after_all id (r ∷ rs) w d h =
      let o = to_message decodes r in
      let rest =
        find_row-after_all id rs (after_one r o w) d.1 (Found-after_one r o w rs d.0 h.1) in
      elim (Bool-cases (r.id == id)) [
        | inl same ↦
            let alone : find_row id rs ≡ none =
              subst (λ k. find_row k rs ≡ none) (==→eq r.id id same) d.0 in
            rw same (
              rest
              ∙ ap (λ x. replaced (after_one r o w).now x (find_row id (after_one r o w).db.outbox))
                  alone
              ∙ find_row-settled id r w same h.0 o)
        | inr apart ↦ rw apart (
            rest
            ∙ ap (λ n. replaced n (find_row id rs) (find_row id (after_one r o w).db.outbox))
                (after_one-now r o w)
            ∙ ap (replaced w.now (find_row id rs)) (find_row-other id r w apart o))
      ]

  abbrev pub had_work : List OutboxRow → Bool
  had_work [] = false
  had_work (r ∷ rs) = true

  module _ (faults : DrainFaults)
      (update_works : (id : Uuid) → faults.update_fails id ≡ false) where
    dispatch-ok :
        (r : OutboxRow) (w : World) (sent : List Message)
        → Found w r
        → (o : Option Message)
        → dispatch jitter cfg decodes send faults r o (w, sent)
          ≡ (ok tt, (after_one r o w, sent ++ told o))
    unfolding dispatch update_row
    dispatch-ok r w sent found none = rw (append-nil sent)
    dispatch-ok r w sent found (some msg) = rw (update_works r.id, found)

    drain_rows-ok :
        (rs : List OutboxRow) (w : World) (sent : List Message)
        → Distinct outbox_id ◌==◌ rs
        → All (Found w) rs
        → drain_rows jitter cfg decodes send faults rs (w, sent)
          ≡ (ok tt, (after_all rs w, sent ++ messages rs))
    unfolding drain_rows after_all
    drain_rows-ok [] w sent d h = rw (append-nil sent)
    drain_rows-ok (r ∷ rs) w sent d h =
        let o = to_message decodes r in
        let rest =
          drain_rows-ok rs (after_one r o w) (sent ++ told o) d.1
            (Found-after_one r o w rs d.0 h.1) in
        ap (go_on (drain_rows jitter cfg decodes send faults rs)) (dispatch-ok r w sent h.0 o)
        ∙ rest
        ∙ ap (λ l. (ok tt, (after_all rs (after_one r o w), l)))
            (append_assoc sent (told o) (messages rs))

    closed-ok :
        (rs : List OutboxRow) (w : World) (sent : List Message)
        → faults.commit_fails ≡ false
        → Distinct outbox_id ◌==◌ rs
        → All (Found w) rs
        → drain_batch jitter cfg decodes send faults rs (w, sent)
          ≡ (ok (had_work rs), (after_all rs w, sent ++ messages rs))
    unfolding after_all
    closed-ok [] w sent works d h = rw (append-nil sent)
    closed-ok (r ∷ rs) w sent works d h = rw (drain_rows-ok (r ∷ rs) w sent d h, works)

    -- Where the ids of the outbox are distinct and no database call fails, a drain sends the message
    -- of every claimed row once, in order, and returns whether there was one. Behind it every claimed
    -- row is delivered if its message was taken, put back with one attempt more and its backoff (a
    -- hundred years, once the attempts are used up) if it was not, and as it was if its headers do
    -- not decode; every other row is as it was.
    pub drain_once_lem :
        (id : Uuid) (w : World) (sent : List Message)
        → Distinct outbox_id ◌==◌ w.db.outbox
        → faults.begin_fails ≡ false
        → faults.claim_fails ≡ false
        → faults.commit_fails ≡ false
        → let rows = claim_due cfg.topic (pos_part cfg.batch_size) w.now w.db.outbox in
          let (result, (w', sent')) = drain_once jitter cfg decodes send faults (w, sent) in
          (result ≡ ok (had_work rows))
          × (find_row id w'.db.outbox ≡ replaced w.now (find_row id rows) (find_row id w.db.outbox))
          × (sent' ≡ sent ++ messages rows)
    unfolding drain_once
    drain_once_lem id w sent distinct begins claims commits =
        let rows = claim_due cfg.topic (pos_part cfg.batch_size) w.now w.db.outbox in
        let d = claim_due-Distinct cfg w distinct in
        let h = claim_due-Found cfg w distinct in
        rw (begins, claims, closed-ok rows w sent commits d h)
          (refl, find_row-after_all id rows w d h, refl)
