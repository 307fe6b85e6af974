-- ===== src/Cli/OfferLaws.antt =====
-- When an offer is paid.
use mathlib.Core.Option.{some-injective}
use programming_lightning_bu.Base.{
  map, Option, ℕ, zero, suc, ◌≡◌, ◌≢◌, refl, sym, ap, ◌∙◌, Str, str, none, some, List, [], ◌∷◌,
  ◌++◌, arith, ok, list_eq, nat_eq, option_eq, ◌≤◌,
}
use programming_lightning_bu.Payments.{Bytes}
use programming_lightning_bu.Node.{Ldk, Node}
use programming_lightning_bu.Text.{words, words_from}
use programming_lightning_bu.Text.WordsLaws.{first_byte, first_byte-words, space_width-letter}
use programming_lightning_bu.Cli.Offer.{Amount, confirm, agreed_amount, pay_offer}

-- The line is not empty and begins with neither letter.
abbrev pub NoAnswer : Str → Type 0
NoAnswer [] = ⊥
NoAnswer (x ∷ s) = (x ≢ b'Y') × (x ≢ b'N')

confirm-NoAnswer :
    (rounds : ℕ) (line : Str) (texts : List Str)
    → NoAnswer line
    → confirm rounds line (map (λ t. some t) texts) ≡ none
unfolding confirm
confirm-NoAnswer zero line input h = refl
confirm-NoAnswer (suc r) [] input h = elim h [ ]
confirm-NoAnswer (suc r) (x ∷ s) [] h = ground (arith, h, confirm-NoAnswer r (x ∷ s ++ []) [] h)
confirm-NoAnswer (suc r) (x ∷ s) (l ∷ input) h =
    ground (arith, h, confirm-NoAnswer r (x ∷ s ++ l) input h)

command-NoAnswer :
    (line : Str) (rest : List Str) → words line ≡ str "sendpayment" ∷ rest → NoAnswer line
unfolding words words_from
command-NoAnswer [] rest e = cc
command-NoAnswer (x ∷ s) rest e = (
  λ p. differs b'Y' p (omega arith) (omega arith) (omega arith),
  λ p. differs b'N' p (omega arith) (omega arith) (omega arith),
)
  where
    differs : (c : ℕ) → x ≡ c → c ≤ 90 → 65 ≤ c → c ≢ b's' → ⊥
    differs c p le ge n =
        let first = first_byte-words c s (space_width-letter c s le ge) in
        let other = ap (λ x. words (x ∷ s)) (sym p) ∙ e in
        n (some-injective c b's' (sym first ∙ ap first_byte other))

module _ (l : Ldk) where
  -- If the first word of the line is `sendpayment` and the offer states an amount in bitcoin, paying
  -- it without naming the amount never gets an answer: since what is read is appended to the line,
  -- the loop still runs after any number of rounds, whatever texts are read and also at the end of
  -- the input, as long as no reading is an error, and the node is as it was.
  pub pay_offer_stuck :
      (rounds : ℕ) (line : Str) (rest texts : List Str) (offer payment_id : Bytes)
      (offered : Amount) (amt_msat : ℕ) (n : Node)
      → words line ≡ str "sendpayment" ∷ rest
      → agreed_amount offered none ≡ some amt_msat
      → pay_offer l rounds line (map (λ t. some t) texts) offer offered none payment_id n
        ≡ (ok (none, map (λ t. some t) texts), n)
  unfolding pay_offer
  pay_offer_stuck rounds line rest texts offer payment_id offered amt_msat n command agreed =
      let stuck = confirm-NoAnswer rounds line texts (command-NoAnswer line rest command) in
      ground (arith, agreed, stuck)
