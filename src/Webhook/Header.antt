-- ===== src/Webhook/Header.antt =====
-- `parseSignatureHeader`, `splitOn`, `trimSpace` and `indexByte` of internal/webhook/sign.go.
use selatpay.Prelude.{ℕ, Bool, ◌&&◌, ◌||◌, Option, none, some, List, [], ◌∷◌, ◌==◌, if◌then◌else◌}
use selatpay.Prelude.Text.{Text, codes, text_eq, is_empty}
use selatpay.Prelude.Int.{ℤ}
use selatpay.Db.Tx.{Result, ok, err, message, wrap}
use selatpay.Webhook.Hex.{hex_decode, parse_int}

abbrev onto_first : ℕ → List Text → List Text
onto_first c [] = (c ∷ []) ∷ []
onto_first c (s ∷ ss) = (c ∷ s) ∷ ss

unfoldable pub split_on : ℕ → Text → List Text
split_on sep [] = [] ∷ []
split_on sep (c ∷ s) =
    let rest = split_on sep s in if c == sep then [] ∷ rest else onto_first c rest

abbrev pub is_blank_byte : ℕ → Bool
is_blank_byte c = (c == b' ') || (c == 9)

unfoldable pub trim_start : Text → Text
trim_start [] = []
trim_start (c ∷ s) = let rest = trim_start s in if is_blank_byte c then rest else c ∷ s

unfoldable pub trim_end : Text → Text
trim_end [] = []
trim_end (c ∷ s) =
    let rest = trim_end s in if is_blank_byte c && is_empty rest then [] else c ∷ rest

unfoldable pub trim_space : Text → Text
unfolding trim_start trim_end
trim_space s = trim_end (trim_start s)

abbrev behind : ℕ → Option (Text × Text) → Option (Text × Text)
behind c none = none
behind c (some (key, val)) = some (c ∷ key, val)

-- `part[:eq]` and `part[eq+1:]` for `eq := indexByte(part, '=')`; `none` if there is none.
unfoldable pub cut_at : ℕ → Text → Option (Text × Text)
cut_at sep [] = none
cut_at sep (c ∷ s) = let rest = cut_at sep s in if c == sep then some ([], s) else behind c rest

-- The variables of the loop: the timestamp, once there is one, and the digits of the MAC.
pub record Fields : Type 0 where
  pub ts : Option ℤ
  pub mac_hex : Text

abbrev with_ts : Fields → Option ℤ → Result Fields
with_ts f none = err (wrap (message (codes "webhook: bad timestamp")))
with_ts f (some n) = ok (record f { ts = some n })

unfoldable pub signature_scheme : Text
signature_scheme = codes "v1"

unfoldable pub take_field : Fields → Option (Text × Text) → Result Fields
unfolding signature_scheme
take_field f none = ok f
take_field f (some (key, val)) =
    if text_eq key (codes "t")
    then with_ts f (parse_int val)
    else if text_eq key signature_scheme
    then ok (record f { mac_hex = val })
    else ok f

abbrev pub then_parts : (Fields → Result Fields) → Result Fields → Result Fields
then_parts k (err e) = err e
then_parts k (ok f) = k f

unfoldable pub take_parts : List Text → Fields → Result Fields
unfolding take_field cut_at trim_space
take_parts [] f = ok f
take_parts (p ∷ ps) f = then_parts (take_parts ps) (take_field f (cut_at b'=' (trim_space p)))

abbrev decoded : ℤ → Option Text → Result (ℤ × Text)
decoded ts none = err (wrap (message (codes "webhook: bad signature hex")))
decoded ts (some mac) = ok (ts, mac)

abbrev pub finished : Option ℤ → Text → Result (ℤ × Text)
finished none mac_hex = err (message (codes "webhook: missing t= in signature header"))
finished (some ts) [] = err (message (codes "webhook: missing v1= in signature header"))
finished (some ts) (c ∷ s) = decoded ts (hex_decode (c ∷ s))

abbrev pub finish : Result Fields → Result (ℤ × Text)
finish (err e) = err e
finish (ok f) = finished f.ts f.mac_hex

-- The timestamp and the bytes of the MAC.
unfoldable pub parse_signature_header : Text → Result (ℤ × Text)
unfolding split_on take_parts hex_decode
parse_signature_header [] = err (message (codes "webhook: empty signature header"))
parse_signature_header (c ∷ s) =
    finish (take_parts (split_on b',' (c ∷ s)) (record { ts = none; mac_hex = [] }))
