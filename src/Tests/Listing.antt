-- ===== src/Tests/Listing.antt =====
-- Two storages that are listed alike.
use programming_lightning_bu.Base.{◌≡◌, refl, Str, none, some, [], ◌∷◌, map, arith, ◌+◌}
use programming_lightning_bu.Text.SplitLaws.{Lacks}
use programming_lightning_bu.Payments.{Bytes, Payments, PaymentInfo, succeeded, show_amount}
use programming_lightning_bu.Cli.Listing.{list_payments, list_loop}
use programming_lightning_bu.Cli.ListingLaws.{list_payments_injective, shown}

-- Each byte as the character eleven places on, which is never a newline.
abbrev display : Bytes → Str
display = map (λ x. x + 11)

display_line : (b : Bytes) → Lacks 10 (display b)
display_line [] = tt
display_line (x ∷ b) = (λ e. omega arith, display_line b)

display_injective : (a b : Bytes) → display a ≡ display b → a ≡ b
display_injective [] [] e = refl
display_injective [] (y ∷ b) e = absurd (cc)
display_injective (x ∷ a) [] e = absurd (cc)
display_injective (x ∷ a) (y ∷ b) e =
    let tails : display a ≡ display b = cc in ground (arith, e, display_injective a b tails)

abbrev paid : PaymentInfo
paid = record { preimage = some (1 ∷ []); secret = none; status = succeeded; amt_msat = some 50 }

abbrev unknown : PaymentInfo
unknown = record paid { preimage = none }

abbrev one : Payments
one = (3 ∷ [], paid) ∷ []

abbrev other_one : Payments
other_one = (3 ∷ [], unknown) ∷ []

listed_alike : list_payments display one [] ≡ list_payments display other_one []
unfolding list_payments list_loop show_amount
listed_alike = refl

list_payments_injective_example : (shown one ≡ shown other_one) × (shown [] ≡ shown [])
list_payments_injective_example =
    list_payments_injective display display_line display_injective one [] other_one [] listed_alike
