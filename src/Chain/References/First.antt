-- ===== src/Chain/References/First.antt =====
-- Which reference a transaction is matched to.
use selatpay.Prelude.{
  ◌≡◌, refl, none, some, Option, Bool, List, [], ◌∷◌, inl, inr, Bool-cases, is_some, find?,
}
use selatpay.Db.Tables.{Uuid}
use selatpay.Db.Tx.{ok}
use selatpay.Chain.Parser.{PublicKey, Transaction}
use selatpay.Chain.References.{
  References, intent_of, contains, hits_among, references_in, uuid_nil, first_hit, match_reference,
}

abbrev pub is_known : References → PublicKey → Bool
is_known refs key = is_some (intent_of refs key)

abbrev pub named : References → Option PublicKey → Uuid × Option PublicKey
named refs none = (uuid_nil, none)
named refs (some key) = first_hit refs (key ∷ [])

first_hit-among :
    (refs : References) (keys : List PublicKey)
    → first_hit refs (hits_among refs [] keys) ≡ named refs (find? (is_known refs) keys)
unfolding hits_among contains find?
first_hit-among refs [] = refl
first_hit-among refs (key ∷ keys) = elim (Bool-cases (is_known refs key)) [
  | inl known ↦ rw known
  | inr unknown ↦ rw unknown (first_hit-among refs keys)
]

find?-none_known : (keys : List PublicKey) → find? (is_known []) keys ≡ none
unfolding find? intent_of
find?-none_known [] = refl
find?-none_known (k ∷ keys) = find?-none_known keys

-- A transaction whose account keys resolve is matched to the intent of the first account key, in
-- message order, that is a known reference, and to none where there is no such key.
pub match_reference-first :
    (refs : References) (tx : Transaction) (keys : List PublicKey)
    → tx.account_keys ≡ ok keys
    → match_reference refs tx ≡ named refs (find? (is_known refs) keys)
unfolding match_reference references_in
match_reference-first [] tx keys e = rw (find?-none_known keys)
match_reference-first (r ∷ refs) tx keys e = rw e (first_hit-among (r ∷ refs) keys)
