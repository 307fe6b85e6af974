-- ===== src/Convert/Laws.antt =====
-- When the conversions fail.
use programming_lightning_bu.Base.{
  ◌≡◌, ◌≢◌, ◌↔◌, refl, ap, ◌∙◌, Str, Option, none, some, List, [], ◌∷◌, map, Outcome, ok, panic,
  ok_or, arith, option_eq, nat_eq, ◌>>=◌,
}
use mathlib.Core.Option.{some-injective}
use programming_lightning_bu.Exec.{IoError, invalid_data}
use programming_lightning_bu.Convert.{Floats, JsonValue, collect_all, mempool_info}

module _ {V F : Type 0} (floats : Floats F) (json : JsonValue V F) where
  abbrev text : V → Outcome IoError Str
  text item = ok_or (json.as_str item) invalid_data

  texts_lem :
      (array : List V) (ids : List Str)
      → (collect_all text array ≡ ok ids) ↔ (map json.as_str array ≡ map some ids)
  unfolding collect_all
  texts_lem [] [] = (λ e. refl, λ e. refl)
  texts_lem [] (i ∷ ids) = (λ e. absurd (cc e), λ e. absurd (cc e))
  texts_lem (v ∷ array) [] = (λ e. absurd (ground (arith, e)), λ e. absurd (cc e))
  texts_lem (v ∷ array) (i ∷ ids) = (
    λ e. ground (arith, e, (texts_lem array ids).0),
    λ e. ground (arith, e, (texts_lem array ids).1),
  )

  texts-ne-panic : (array : List V) → collect_all text array ≢ panic
  unfolding collect_all
  texts-ne-panic [] e = cc
  texts-ne-panic (v ∷ array) e = ground (arith, e, texts-ne-panic array)

  -- The list of the mempool's transactions is the texts of an array of texts. Of any other answer it
  -- is an error, never a panic.
  mempool_info_lem :
      (v : V) (ids : List Str)
      → ((mempool_info floats json v ≡ ok ids) ↔ (
          (array : List V) × (json.as_array v ≡ some array)
          × (map json.as_str array ≡ map some ids)))
        × (mempool_info floats json v ≢ panic)
  unfolding mempool_info
  mempool_info_lem v ids = go (json.as_array v)
    where
      go :
          (o : Option (List V))
          → (((ok_or o invalid_data >>= collect_all text) ≡ ok ids)
              ↔ ((array : List V) × (o ≡ some array) × (map json.as_str array ≡ map some ids)))
            × ((ok_or o invalid_data >>= collect_all text) ≢ panic)
      go none = ((λ e. absurd (cc e), λ (a, e, _). absurd (cc e)), λ e. cc e)
      go (some array) = (
        (
          λ e. (array, refl, (texts_lem array ids).0 e),
          λ (a, same, e).
              (texts_lem array ids).1 (ap (map json.as_str) (some-injective array a same) ∙ e),
        ),
        texts-ne-panic array,
      )
