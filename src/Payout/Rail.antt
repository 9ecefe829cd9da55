-- ===== src/Payout/Rail.antt =====
-- internal/payout/types.go and router.go.
use selatpay.Prelude.{ℕ, List, [], ◌∷◌, map, if◌then◌else◌}
use selatpay.Prelude.Text.{Text, text_eq}
use selatpay.Db.Tx.{Result, ok, err, SubmitRequest, unknown_rail}

-- Go's `Outcome` is an int: `unknown` is any that is none of the constants.
pub data Outcome : Type 0 where
  success retry permanent : Outcome
  unknown : ℕ → Outcome

pub record SubmitResult : Type 0 where
  pub outcome : Outcome
  pub rail_reference : Text
  pub message : Text

-- A rail answers a request; its answer may depend on all that it was sent before.
pub record Rail : Type 0 where
  pub name : Text
  pub submit : List SubmitRequest → SubmitRequest → Result SubmitResult

-- `map[string]Rail`, one entry to a name: the last rail of a name wins.
abbrev pub Router : Type 0
Router = List (Text × Rail)

unfoldable pub set_rail : Text → Rail → Router → Router
set_rail k v [] = (k, v) ∷ []
set_rail k v ((j, u) ∷ m) = if text_eq j k then (j, v) ∷ m else (j, u) ∷ set_rail k v m

add_rails : List Rail → Router → Router
unfolding set_rail
add_rails [] m = m
add_rails (r ∷ rs) m = add_rails rs (set_rail r.name r m)

unfoldable pub new_router : List Rail → Router
unfolding add_rails
new_router rails = add_rails rails []

unfoldable pub get_rail : Router → Text → Result Rail
get_rail [] name = err unknown_rail
get_rail ((k, v) ∷ m) name = if text_eq k name then ok v else get_rail m name

unfoldable pub names : Router → List Text
names m = map (λ e. e.0) m
