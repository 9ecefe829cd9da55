-- ===== src/SolanaPay/Url/Carried.antt =====
-- What the query that `BuildURL` writes carries.
use selatpay.Prelude.{
  ◌≡◌, refl, sym, ap, ◌∙◌, subst, false, Option, none, some, List, [], ◌∷◌, ◌++◌, ◌==◌, map, inl,
  inr, Bool-cases,
}
use mathlib.Core.List.{append_assoc, append-nil}
use selatpay.Prelude.Text.{Text, text_eq}
use selatpay.Chain.Parser.{PublicKey}
use selatpay.Db.Tx.{Result, ok, err}
use selatpay.Ledger.Posting.Atomic.{eq_of_ok}
use selatpay.SolanaPay.Url.Query.{
  Values, get_values, first_of, set, add, get_values-change, get_values-change_other,
}
use selatpay.SolanaPay.Url.{
  UrlParams, Codec, amount_name, label_name, message_name, memo_name, token_name, reference_name,
  set_given, set_token, add_references, with_texts, with_values, query_values,
}

-- The values of a text that is left out where it is empty.
abbrev pub listed : Text → List Text
listed [] = []
listed (c ∷ v) = (c ∷ v) ∷ []

pub first_of-listed : (v : Text) → first_of (listed v) ≡ v
first_of-listed [] = refl
first_of-listed (c ∷ v) = refl

set_given_self :
    (name v : Text) (vs : Values)
    → get_values name vs ≡ []
    → get_values name (set_given name v vs) ≡ listed v
unfolding set
set_given_self name [] vs e = e
set_given_self name (c ∷ v) vs e = get_values-change name (λ l. (c ∷ v) ∷ []) vs

set_given_other :
    (name other v : Text) (vs : Values)
    → text_eq name other ≡ false
    → get_values other (set_given name v vs) ≡ get_values other vs
unfolding set
set_given_other name other [] vs apart = refl
set_given_other name other (c ∷ v) vs apart =
    get_values-change_other name other (λ l. (c ∷ v) ∷ []) vs apart

module _ (codec : Codec) where
  abbrev pub token_values : Option PublicKey → List Text
  token_values none = []
  token_values (some mint) = codec.key_string mint ∷ []

  set_token_lem :
      (o : Option PublicKey) (vs us : Values)
      → get_values token_name vs ≡ []
      → set_token codec o vs ≡ ok us
      → (get_values token_name us ≡ token_values o)
        × ((other : Text)
            → text_eq token_name other ≡ false
            → get_values other us ≡ get_values other vs)
  unfolding set
  set_token_lem none vs us new e =
      let same = eq_of_ok e in
      (ap (get_values token_name) (sym same) ∙ new, λ other apart. ap (get_values other) (sym same))
  set_token_lem (some mint) vs us new e = elim (Bool-cases (mint == 0)) [
    | inl zero_key ↦ let bad = rw zero_key at e in absurd (cc)
    | inr good ↦
        let same = eq_of_ok (rw good at e) in
        let f : List Text → List Text = λ l. codec.key_string mint ∷ [] in
        (
          ap (get_values token_name) (sym same) ∙ get_values-change token_name f vs,
          λ other apart.
              ap (get_values other) (sym same)
              ∙ get_values-change_other token_name other f vs apart,
        )
  ]

  add_references_lem :
      (rs : List PublicKey) (vs us : Values)
      → add_references codec rs vs ≡ ok us
      → (get_values reference_name us ≡ get_values reference_name vs ++ map codec.key_string rs)
        × ((other : Text)
            → text_eq reference_name other ≡ false
            → get_values other us ≡ get_values other vs)
  unfolding add_references add
  add_references_lem [] vs us e =
      let same = eq_of_ok e in
      (
        ap (get_values reference_name) (sym same) ∙ sym (append-nil (get_values reference_name vs)),
        λ other apart. ap (get_values other) (sym same),
      )
  add_references_lem (r ∷ rs) vs us e = elim (Bool-cases (r == 0)) [
    | inl zero_key ↦ let bad = rw zero_key at e in absurd (cc)
    | inr good ↦
        let f : List Text → List Text = λ l. l ++ codec.key_string r ∷ [] in
        let (here, rest) =
          add_references_lem rs (add reference_name (codec.key_string r) vs) us (rw good at e) in
        (
          here
              ∙ ap (λ l. l ++ map codec.key_string rs) (get_values-change reference_name f vs)
              ∙ append_assoc (get_values reference_name vs) (codec.key_string r ∷ [])
                  (map codec.key_string rs),
          λ other apart. rest other apart ∙ get_values-change_other reference_name other f vs apart,
        )
  ]

  -- A query carries the parameters.
  pub record Carries (p : UrlParams) (q : Values) : Type 0 where
    pub amount_there : get_values amount_name q ≡ listed p.amount
    pub label_there : get_values label_name q ≡ listed p.label
    pub message_there : get_values message_name q ≡ listed p.message
    pub memo_there : get_values memo_name q ≡ listed p.memo
    pub token_there : get_values token_name q ≡ token_values p.spl_token
    pub references_there : get_values reference_name q ≡ map codec.key_string p.references

  with_texts_lem :
      (p : UrlParams) (vs us : Values)
      → set_token codec p.spl_token (set_given amount_name p.amount []) ≡ ok vs
      → add_references codec p.references vs ≡ ok us
      → Carries p (with_texts codec p us)
  unfolding text_eq get_values
  with_texts_lem p vs us e e' =
      let start = set_given amount_name p.amount [] in
      let fresh = λ (name : Text) (apart : text_eq amount_name name ≡ false).
        set_given_other amount_name name p.amount [] apart in
      let (t, ts) = set_token_lem p.spl_token start vs (fresh token_name refl) e in
      let (r, rs) = add_references_lem p.references vs us e' in
      let one = set_given label_name p.label us in
      let two = set_given message_name p.message one in
      let to_us =
        λ (name : Text) (l : text_eq label_name name ≡ false)
            (m : text_eq message_name name ≡ false) (k : text_eq memo_name name ≡ false).
          set_given_other memo_name name p.memo two k
          ∙ set_given_other message_name name p.message one m
          ∙ set_given_other label_name name p.label us l in
      let untouched =
        λ (name : Text) (a : text_eq reference_name name ≡ false)
            (b : text_eq token_name name ≡ false) (c : text_eq amount_name name ≡ false).
          rs name a ∙ ts name b ∙ fresh name c in
      record {
        amount_there =
            to_us amount_name refl refl refl
            ∙ rs amount_name refl
            ∙ ts amount_name refl
            ∙ set_given_self amount_name p.amount [] refl;
        label_there =
            set_given_other memo_name label_name p.memo two refl
            ∙ set_given_other message_name label_name p.message one refl
            ∙ set_given_self label_name p.label us (untouched label_name refl refl refl);
        message_there =
            set_given_other memo_name message_name p.memo two refl
            ∙ set_given_self message_name p.message one (
                set_given_other label_name message_name p.label us refl
                ∙ untouched message_name refl refl refl);
        memo_there = set_given_self memo_name p.memo two (
            set_given_other message_name memo_name p.message one refl
            ∙ set_given_other label_name memo_name p.label us refl
            ∙ untouched memo_name refl refl refl);
        token_there = to_us token_name refl refl refl ∙ rs token_name refl ∙ t;
        references_there =
            to_us reference_name refl refl refl
            ∙ r
            ∙ ap (λ l. l ++ map codec.key_string p.references)
                (ts reference_name refl ∙ fresh reference_name refl);
      }

  pub query_values-Carries :
      (p : UrlParams) (q : Values) → query_values codec p ≡ ok q → Carries p q
  unfolding query_values
  query_values-Carries p q e =
      go (set_token codec p.spl_token (set_given amount_name p.amount [])) refl e
    where
      then_references :
          (vs : Values) (r : Result Values)
          → set_token codec p.spl_token (set_given amount_name p.amount []) ≡ ok vs
          → add_references codec p.references vs ≡ r
          → with_values (λ us. ok (with_texts codec p us)) r ≡ ok q
          → Carries p q
      then_references vs (err x) h h' e = absurd (cc)
      then_references vs (ok us) h h' e =
          subst (Carries p) (eq_of_ok e) (with_texts_lem p vs us h h')

      go :
          (r : Result Values)
          → set_token codec p.spl_token (set_given amount_name p.amount []) ≡ r
          → with_values
              (λ vs.
                with_values
                  (λ us. ok (with_texts codec p us))
                  (add_references codec p.references vs))
              r
            ≡ ok q
          → Carries p q
      go (err x) h e = absurd (cc)
      go (ok vs) h e = then_references vs (add_references codec p.references vs) h refl e
