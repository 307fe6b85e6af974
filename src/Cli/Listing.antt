-- ===== src/Cli/Listing.antt =====
-- `list_payments` of src/cli.rs: the text that it prints. How LDK shows a hash or an
-- id is a parameter.
use programming_lightning_bu.Base.{ℕ, Str, str, [], ◌∷◌, ◌++◌}
use programming_lightning_bu.Payments.{
  Bytes, Payments, PaymentInfo, HtlcStatus, pending, succeeded, failed, show_amount,
}

-- A line, and what is printed after it.
abbrev pub println : Str → Str → Str
println line rest = line ++ 10 ∷ rest

abbrev pub status_name : HtlcStatus → Str
status_name pending = str "pending"
status_name succeeded = str "succeeded"
status_name failed = str "failed"

-- A tab.
abbrev pub tab : ℕ
tab = 9

abbrev pub amount_line : PaymentInfo → Str
amount_line info =
    tab ∷ tab ∷ (str "amount_millisatoshis: " ++ (show_amount info.amt_msat ++ str ","))

abbrev pub direction_line : Str → Str
direction_line direction = tab ∷ tab ∷ (str "htlc_direction: " ++ (direction ++ str ","))

abbrev pub status_line : PaymentInfo → Str
status_line info = tab ∷ tab ∷ (str "htlc_status: " ++ (status_name info.status ++ str ","))

module _ (display : Bytes → Str) where
  abbrev pub hash_line : Bytes → Str
  hash_line payment_hash = tab ∷ tab ∷ (str "payment_hash: " ++ (display payment_hash ++ str ","))

  -- One of the two loops, and what is printed after it.
  unfoldable pub list_loop : Str → Payments → Str → Str
  unfolding show_amount
  list_loop direction [] rest = rest
  list_loop direction ((payment_hash, payment_info) ∷ payments) rest = println [] (
      println (tab ∷ str "{") (
        println (amount_line payment_info) (
          println (hash_line payment_hash) (
            println (direction_line direction) (
              println (status_line payment_info)
                (println (tab ∷ str "},") (list_loop direction payments rest)))))))

  unfoldable pub list_payments : Payments → Payments → Str
  unfolding list_loop
  list_payments inbound outbound =
      str "["
      ++ list_loop (str "inbound") inbound
          (list_loop (str "outbound") outbound (println (str "]") []))
