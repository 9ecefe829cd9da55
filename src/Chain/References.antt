-- ===== src/Chain/References.antt =====
-- `ReferencesIn` of internal/chain/spl_parser.go, and `matchReference` of internal/chain/watcher.go.
-- The watcher's map from a reference to its intent is a list of entries, one to a key.
pub mod First
use selatpay.Prelude.{
  ℕ, Bool, true, false, Option, none, some, List, [], ◌∷◌, ◌==◌, if◌then◌else◌, is_some,
}
use selatpay.Db.Tables.{Uuid}
use selatpay.Db.Tx.{Result, ok, err}
use selatpay.Chain.Parser.{PublicKey, Transaction}

abbrev pub References : Type 0
References = List (PublicKey × Uuid)

unfoldable pub intent_of : References → PublicKey → Option Uuid
intent_of [] key = none
intent_of ((k, id) ∷ refs) key = if k == key then some id else intent_of refs key

-- `next[pub] = id`.
unfoldable pub set_reference : PublicKey → Uuid → References → References
set_reference key id [] = (key, id) ∷ []
set_reference key id ((k, i) ∷ refs) =
    if k == key then (k, id) ∷ refs else (k, i) ∷ set_reference key id refs

unfoldable pub contains : List PublicKey → PublicKey → Bool
contains [] key = false
contains (k ∷ ks) key = if k == key then true else contains ks key

-- The loop over the account keys, with the keys seen so far.
unfoldable pub hits_among : References → List PublicKey → List PublicKey → List PublicKey
unfolding intent_of contains
hits_among refs seen [] = []
hits_among refs seen (key ∷ keys) =
    let skipped = hits_among refs seen keys in
    let taken = key ∷ hits_among refs (key ∷ seen) keys in
    if is_some (intent_of refs key) then (if contains seen key then skipped else taken) else skipped

abbrev hits_of : References → Result (List PublicKey) → List PublicKey
hits_of refs (err e) = []
hits_of refs (ok keys) = hits_among refs [] keys

unfoldable pub references_in : References → Transaction → List PublicKey
unfolding hits_among
references_in [] tx = []
references_in (r ∷ refs) tx = hits_of (r ∷ refs) tx.account_keys

-- A missing key of the map reads as `uuid.Nil`.
abbrev pub uuid_nil : Uuid
uuid_nil = 0

abbrev or_nil : Option Uuid → Uuid
or_nil none = uuid_nil
or_nil (some id) = id

abbrev pub first_hit : References → List PublicKey → Uuid × Option PublicKey
first_hit refs [] = (uuid_nil, none)
first_hit refs (key ∷ keys) = (or_nil (intent_of refs key), some key)

unfoldable pub match_reference : References → Transaction → Uuid × Option PublicKey
unfolding references_in intent_of
match_reference refs tx = first_hit refs (references_in refs tx)
