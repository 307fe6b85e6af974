-- ===== src/Cli/ListingLaws.antt =====
-- What the text of `list_payments` tells of the records.
use programming_lightning_bu.Base.{
  all, not, eqb, true, ◌≡◌, refl, sym, ap, ◌∙◌, Str, str, List, [], ◌∷◌, ◌++◌, map, arith,
}
use mathlib.Core.List.{append_cancel_left, append_cancel_right}
use programming_lightning_bu.Text.{cons_head, split}
use programming_lightning_bu.Text.SplitLaws.{Lacks, Lacks-all, Lacks-append, split-append}
use programming_lightning_bu.Payments.{
  Bytes, Payments, PaymentInfo, HtlcStatus, MillisatAmount, show_amount,
}
use programming_lightning_bu.Cli.Listing.{
  println, status_name, tab, amount_line, direction_line, status_line, hash_line, list_loop,
  list_payments,
}
use programming_lightning_bu.Cli.ListingFields.{
  show_amount-injective, status_name-injective, show_amount-Lacks, status_name-Lacks,
  directions_differ, nth, skip,
}

-- What the listing shows of a record.
abbrev pub shown : Payments → List (Bytes × MillisatAmount × HtlcStatus)
shown = map (λ (hash, info). (hash, info.amt_msat, info.status))

module _ (display : Bytes → Str) (one_line : (hash : Bytes) → Lacks 10 (display hash))
    (display_injective : (a b : Bytes) → display a ≡ display b → a ≡ b) where
  -- The lines of a loop, and those after it.
  abbrev entry : Str → Bytes × PaymentInfo → List Str → List Str
  entry direction (hash, info) rest =
      []
      ∷ (tab ∷ str "{")
      ∷ amount_line info
      ∷ hash_line display hash
      ∷ direction_line direction
      ∷ status_line info
      ∷ (tab ∷ str "},")
      ∷ rest

  abbrev entries : Str → Payments → List Str → List Str
  entries direction [] rest = rest
  entries direction (p ∷ payments) rest = entry direction p (entries direction payments rest)

  entry_injective :
      (d d' : Str) (p q : Bytes × PaymentInfo) (rest rest' : List Str)
      → entry d p rest ≡ entry d' q rest'
      → (p.0 ≡ q.0)
        × (p.1.amt_msat ≡ q.1.amt_msat)
        × (p.1.status ≡ q.1.status)
        × (direction_line d ≡ direction_line d')
        × (rest ≡ rest')
  entry_injective d d' (h, i) (k, j) rest rest' e =
      let cut = λ (front a b : Str) (e : front ++ (a ++ str ",") ≡ front ++ (b ++ str ",")).
        append_cancel_right a b (str ",")
          (append_cancel_left front (a ++ str ",") (b ++ str ",") e) in
      (
        display_injective h k
            (cut (tab ∷ tab ∷ str "payment_hash: ") (display h) (display k) (ap (nth 3) e)),
        show_amount-injective i.amt_msat j.amt_msat (
            cut (tab ∷ tab ∷ str "amount_millisatoshis: ") (show_amount i.amt_msat)
              (show_amount j.amt_msat) (ap (nth 2) e)),
        status_name-injective i.status j.status (
            cut (tab ∷ tab ∷ str "htlc_status: ") (status_name i.status) (status_name j.status)
              (ap (nth 5) e)),
        ap (nth 4) e,
        ap (skip 7) e,
      )

  abbrev end : List Str
  end = str "]" ∷ [] ∷ []

  outbound_injective :
      (o o' : Payments)
      → entries (str "outbound") o end ≡ entries (str "outbound") o' end
      → shown o ≡ shown o'
  outbound_injective [] [] e = refl
  outbound_injective [] (q ∷ o') e = absurd (cc)
  outbound_injective (p ∷ o) [] e = absurd (cc)
  outbound_injective ((h, i) ∷ o) ((k, j) ∷ o') e =
      let (same, amounts, statuses, _, rest) =
        entry_injective (str "outbound") (str "outbound") (h, i) (k, j) _ _ e in
      ground (arith, same, amounts, statuses, outbound_injective o o' rest)

  entries_injective :
      (i i' o o' : Payments)
      → entries (str "inbound") i (entries (str "outbound") o end)
        ≡ entries (str "inbound") i' (entries (str "outbound") o' end)
      → (shown i ≡ shown i') × (shown o ≡ shown o')
  entries_injective [] [] o o' e = (refl, outbound_injective o o' e)
  entries_injective [] (q ∷ i') [] o' e = absurd (cc)
  entries_injective [] (q ∷ i') (p ∷ o) o' e = absurd (directions_differ (ap (nth 4) e))
  entries_injective (p ∷ i) [] o [] e = absurd (cc)
  entries_injective (p ∷ i) [] o (q ∷ o') e = absurd (directions_differ (sym (ap (nth 4) e)))
  entries_injective ((h, x) ∷ i) ((k, y) ∷ i') o o' e =
      let (same, amounts, statuses, _, rest) =
        entry_injective (str "inbound") (str "inbound") (h, x) (k, y) _ _ e in
      let (ins, outs) = entries_injective i i' o o' rest in
      (ground (arith, same, amounts, statuses, ins), outs)

  field-Lacks :
      (front value : Str)
      → all (λ x. not (eqb x 10)) front ≡ true
      → Lacks 10 value
      → Lacks 10 (front ++ (value ++ str ","))
  field-Lacks front value h k =
      Lacks-append 10 front (value ++ str ",") (Lacks-all 10 front h)
        (Lacks-append 10 value (str ",") k (Lacks-all 10 (str ",") refl))

  split-println :
      (line rest : Str) (lines : List Str)
      → Lacks 10 line
      → split 10 rest ≡ lines
      → split 10 (println line rest) ≡ line ∷ lines
  split-println line rest lines h e = split-append 10 line rest h ∙ ap (λ ls. line ∷ ls) e

  split-list_loop :
      (direction : Str) (payments : Payments) (rest : Str)
      → Lacks 10 direction
      → split 10 (list_loop display direction payments rest)
        ≡ entries direction payments (split 10 rest)
  unfolding list_loop
  split-list_loop direction [] rest h = refl
  split-list_loop direction ((hash, info) ∷ payments) rest h =
      let amount = show_amount info.amt_msat in
      let status = status_name info.status in
      let fields =
        field-Lacks (tab ∷ tab ∷ str "amount_millisatoshis: ") amount refl
          (show_amount-Lacks info.amt_msat) in
      let hashes =
        field-Lacks (tab ∷ tab ∷ str "payment_hash: ") (display hash) refl (one_line hash) in
      let directions = field-Lacks (tab ∷ tab ∷ str "htlc_direction: ") direction refl h in
      let statuses =
        field-Lacks (tab ∷ tab ∷ str "htlc_status: ") status refl (status_name-Lacks info.status) in
      let l7 = list_loop display direction payments rest in
      let l6 = println (tab ∷ str "},") l7 in
      let l5 = println (status_line info) l6 in
      let l4 = println (direction_line direction) l5 in
      let l3 = println (hash_line display hash) l4 in
      let l2 = println (amount_line info) l3 in
      let l1 = println (tab ∷ str "{") l2 in
      let e7 = split-list_loop direction payments rest h in
      let e6 = split-println (tab ∷ str "},") l7 _ (Lacks-all 10 (tab ∷ str "},") refl) e7 in
      let e5 = split-println (status_line info) l6 _ statuses e6 in
      let e4 = split-println (direction_line direction) l5 _ directions e5 in
      let e3 = split-println (hash_line display hash) l4 _ hashes e4 in
      let e2 = split-println (amount_line info) l3 _ fields e3 in
      let e1 = split-println (tab ∷ str "{") l2 _ (Lacks-all 10 (tab ∷ str "{") refl) e2 in
      split-println [] l1 _ tt e1

  printed : Payments → Payments → Str
  printed inbound outbound =
      list_loop display (str "inbound") inbound
        (list_loop display (str "outbound") outbound (println (str "]") []))

  split-printed :
      (inbound outbound : Payments)
      → split 10 (printed inbound outbound)
        ≡ entries (str "inbound") inbound (entries (str "outbound") outbound end)
  unfolding printed split cons_head
  split-printed inbound outbound =
      split-list_loop (str "inbound") inbound
        (list_loop display (str "outbound") outbound (println (str "]") []))
        (Lacks-all 10 (str "inbound") refl)
      ∙ ap (entries (str "inbound") inbound) (
          split-list_loop (str "outbound") outbound (println (str "]") [])
            (Lacks-all 10 (str "outbound") refl))

  -- If no hash or id is shown with a newline, and no two are shown alike, two nodes whose listings are
  -- the same text have the same inbound and the same outbound payments, in order, with their hashes
  -- or ids, their amounts and their states.
  pub list_payments_injective :
      (inbound outbound inbound' outbound' : Payments)
      → list_payments display inbound outbound ≡ list_payments display inbound' outbound'
      → (shown inbound ≡ shown inbound') × (shown outbound ≡ shown outbound')
  unfolding list_payments printed
  list_payments_injective i o i' o' e =
      let same : printed i o ≡ printed i' o' =
        append_cancel_left (str "[") (printed i o) (printed i' o') e in
      entries_injective i i' o o'
        (sym (split-printed i o) ∙ ap (split 10) same ∙ split-printed i' o')
