-- ===== src/BitcoindClient/Served.antt =====
-- The table of the fee estimates has a cell in range for each target, and stores keep it so.
use programming_lightning_bu.Base.{
  ℕ, ◌≤◌, ◌≡◌, refl, Option, some, List, [], ◌∷◌, ok, arith, All, if◌then◌else◌, ◌==◌, subst,
}
use programming_lightning_bu.Base.Dict.{lookup, insert, modify, lookup-modify}
use programming_lightning_bu.Text.{u32_max}
use programming_lightning_bu.BitcoindClient.{
  ConfirmationTarget, target_eq, Fees, min_feerate, initial_fees, store, store_all,
  maximum_fee_estimate, urgent_on_chain_sweep, min_allowed_anchor_channel_remote_fee,
  min_allowed_non_anchor_channel_remote_fee, anchor_channel_fee, non_anchor_channel_fee,
  channel_close_minimum, output_spending_fee,
}

-- The least value that a cell can hold: 250 less than the minimum for one target.
abbrev pub floor_of : ConfirmationTarget → ℕ
floor_of min_allowed_non_anchor_channel_remote_fee = 3
floor_of _ = min_feerate

abbrev pub InRange : ConfirmationTarget × ℕ → Type 0
InRange (t, v) = (floor_of t ≤ v) × (v ≤ u32_max)

-- Each target has a cell, with a value in range.
pub record IsServed (fees : Fees) : Type 0 where
  pub at :
      (t : ConfirmationTarget)
      → (v : ℕ) × (lookup t fees ≡ some v) × (floor_of t ≤ v) × (v ≤ u32_max)

pub initial_fees-IsServed : IsServed initial_fees
unfolding initial_fees target_eq insert lookup
initial_fees-IsServed = record { at = go }
  where
    go :
        (t : ConfirmationTarget)
        → (v : ℕ) × (lookup t initial_fees ≡ some v) × (floor_of t ≤ v) × (v ≤ u32_max)
    go maximum_fee_estimate = (50000, refl, omega arith, omega arith)
    go urgent_on_chain_sweep = (5000, refl, omega arith, omega arith)
    go non_anchor_channel_fee = (2000, refl, omega arith, omega arith)
    go min_allowed_anchor_channel_remote_fee = (253, refl, omega arith, omega arith)
    go min_allowed_non_anchor_channel_remote_fee = (253, refl, omega arith, omega arith)
    go anchor_channel_fee = (253, refl, omega arith, omega arith)
    go channel_close_minimum = (253, refl, omega arith, omega arith)
    go output_spending_fee = (253, refl, omega arith, omega arith)

lookup-store :
    (t u : ConfirmationTarget) (v old : ℕ) (fees : Fees)
    → lookup t fees ≡ some old
    → lookup u (modify t (λ _. v) fees) ≡ (if t == u then some v else lookup u fees)
lookup-store t u v old fees e = ground (arith, e, lookup-modify t u (λ _. v) fees)

store-IsServed :
    (t : ConfirmationTarget) (v : ℕ) (fees : Fees)
    → InRange (t, v)
    → IsServed fees
    → (fees' : Fees) × (store t v fees ≡ ok fees')
      × IsServed fees'
      × ((u : ConfirmationTarget) → lookup u fees' ≡ (if t == u then some v else lookup u fees))
unfolding store
store-IsServed t v fees h s =
    let (old, there, _, _) = s.at t in
    (
      modify t (λ _. v) fees,
      ground (arith, there),
      record {
        at = λ u. elim (target_eq.dec t u) [
          | yes p ↦ (
            v,
            ground (arith, p, lookup-store t u v old fees there),
            subst (λ x. floor_of x ≤ v) p h.0,
            h.1,
          )
          | no n ↦
              let (w, e, low, high) = s.at u in
              (w, ground (arith, n, e, lookup-store t u v old fees there), low, high)
        ];
      },
      λ u. lookup-store t u v old fees there,
    )

-- The cell of a target after some stores.
abbrev pub final : ConfirmationTarget → List (ConfirmationTarget × ℕ) → Option ℕ → Option ℕ
final u [] old = old
final u ((t, v) ∷ stores) old = final u stores (if t == u then some v else old)

pub store_all-IsServed :
    (stores : List (ConfirmationTarget × ℕ)) (fees : Fees)
    → All InRange stores
    → IsServed fees
    → (fees' : Fees) × (store_all stores fees ≡ ok fees')
      × IsServed fees'
      × ((u : ConfirmationTarget) → lookup u fees' ≡ final u stores (lookup u fees))
unfolding store_all
store_all-IsServed [] fees h s = (fees, refl, s, λ u. refl)
store_all-IsServed ((t, v) ∷ stores) fees h s =
    let (fees', e, s', l) = store-IsServed t v fees h.0 s in
    let (fees'', e', s'', l') = store_all-IsServed stores fees' h.1 s' in
    (fees'', ground (arith, e, e'), s'', λ u. rw (← l u) (l' u))
